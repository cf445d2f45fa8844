-- ===== src/ProbeCache/Peer.antt =====
-- nabla/api/external_probe_cache.py: the refresh lock in Redis, and the wait for the replica that
-- holds it.
use fastapi_sample.Prelude.{
  String, ℕ, zero, suc, ◌+◌, ◌/◌, Bool, true, false, not, Option, none, some, ltb, if◌then◌else◌,
}
use fastapi_sample.ProbeCache.Envelope.{
  ProbeCachePolicy, Envelope, current_fresh, redis, ProbeCacheResult, Served, result_from_envelope,
  cached_result,
}
use fastapi_sample.ProbeCache.Store.{
  Instant, Document, read_envelope, CacheWorld, Client, set_locks, emit, cache_outcome,
  redis_degraded, acquire_refresh, release_refresh, l1_put, observe,
}
use fastapi_sample.ProbeCache.Lookup.{observed}

-- One round of the loop: the time after the sleep and the read; the read raises, or returns what
-- Redis has for the key.
pub record Poll : Type 0 where
  pub at : Instant
  pub answer : Option (Option Document)

pub data Waited : Type 0 where
  refreshed : Envelope → Instant → Waited
  timed_out : Waited
  raised : Waited
  unfinished : Waited

abbrev pub document_envelope : Option Document → Option Envelope
document_envelope none = none
document_envelope (some d) = read_envelope d

-- One read: a fresh envelope ends the loop, whose other rounds are `rest`.
unfoldable pub judge_poll : ProbeCachePolicy → Poll → Waited → Waited
judge_poll policy poll rest = elim poll.answer [
  | none ↦ raised
  | some d ↦ elim (document_envelope d) [
    | none ↦ rest
    | some e ↦ if current_fresh e poll.at.wall policy then refreshed e poll.at else rest
  ]
]

-- The rounds that are left, the number of the next one, the deadline, and the monotonic time.
unfoldable pub wait_for_peer : ℕ → (ℕ → Poll) → ℕ → ℕ → ProbeCachePolicy → ℕ → Waited
wait_for_peer zero polls i deadline policy mono = unfinished
wait_for_peer (suc n) polls i deadline policy mono =
    let rest = wait_for_peer n polls (suc i) deadline policy (polls i).at.mono in
    if ltb mono deadline then judge_poll policy (polls i) rest else timed_out

-- Enough rounds for a sleep of `poll_interval` in each.
abbrev pub peer_rounds : ProbeCachePolicy → ℕ
peer_rounds policy = suc (policy.wait_timeout / policy.poll_interval + 1)

abbrev pub stale_service : Served
stale_service = record {
  layer = redis;
  cached = true;
  stale = true;
  serve_last_good = true;
  refresh_in_progress = true;
  redis_available = true;
}

-- The last part of `_peer_or_stale_result`, for a wait that found nothing fresh.
unfoldable pub stale_result :
    Envelope → ProbeCachePolicy → ℕ → CacheWorld → Option ProbeCacheResult × CacheWorld
stale_result last policy now w =
    let result = result_from_envelope last policy stale_service now in (result, observed result w)

unfoldable pub peer_result :
    String
    → Envelope
    → Envelope
    → ProbeCachePolicy
    → Instant
    → CacheWorld
    → Option ProbeCacheResult × CacheWorld
peer_result key peer last policy at w =
    let v = l1_put key peer at.mono w in
    elim (cached_result peer policy redis true at.wall) [
      | none ↦ stale_result last policy at.wall v
      | some r ↦ (some r, observe r v)
    ]

-- What the attempt on the lock gives.
pub record Attempt : Type 0 where
  pub acquired : Bool
  pub redis_available : Bool
  pub result : Option ProbeCacheResult

abbrev attempt : Bool → Bool → Option ProbeCacheResult → Attempt
attempt acquired available result = record {
  acquired = acquired;
  redis_available = available;
  result = result;
}

-- `_peer_or_stale_result`, with the handler of `_acquire_refresh_lock`; `ended` is the time after
-- the last round.
unfoldable pub peer_or_stale_result :
    String → Envelope → ProbeCachePolicy → Waited → Instant → CacheWorld → Attempt × CacheWorld
peer_or_stale_result key last policy waited ended w = elim waited [
  | refreshed peer at ↦
      let (result, v) = peer_result key peer last policy at w in (attempt false true result, v)
  | timed_out ↦
      let (result, v) = stale_result last policy ended.wall w in (attempt false true result, v)
  | raised ↦ (attempt false false none, emit (cache_outcome redis_degraded) w)
  | unfinished ↦ (attempt false false none, w)
]

-- `_acquire_refresh_lock`; `tried` is the time of the attempt.
unfoldable pub acquire_refresh_lock :
    Client
    → String
    → String
    → Envelope
    → ProbeCachePolicy
    → Instant
    → (ℕ → Poll)
    → Instant
    → CacheWorld
    → Attempt × CacheWorld
acquire_refresh_lock client key token last policy tried polls ended w =
    let (acquired, locks) = acquire_refresh key token w.refresh_locks in
    let waited =
      wait_for_peer (peer_rounds policy) polls 0 (tried.mono + policy.wait_timeout) policy
        tried.mono in
    if not client.lock_up
    then (attempt false false none, emit (cache_outcome redis_degraded) w)
    else if acquired
    then (attempt true true none, set_locks locks w)
    else peer_or_stale_result key last policy waited ended w

-- A release that does not get through leaves the lock to its expiry.
unfoldable pub release_refresh_lock :
    Option Client → String → String → Bool → CacheWorld → CacheWorld
release_refresh_lock none key token acquired w = w
release_refresh_lock (some client) key token acquired w =
    if acquired
    then if client.release_up then set_locks (release_refresh key token w.refresh_locks) w else w
    else w
