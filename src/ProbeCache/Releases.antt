-- ===== src/ProbeCache/Releases.antt =====
-- nabla/api/external_probe_cache.py: `get_or_refresh_probe` gives back what it took.
use fastapi_sample.Prelude.{
  String, ℕ, ◌+◌, ◌≡◌, ◌≢◌, refl, inl, inr, Bool, true, false, not, List, [], ◌∷◌, keep, Option,
  none, some, Option-cases, Bool-cases, arith, ◌==◌, eq_refl,
}
use fastapi_sample.Prelude.Dict.{lookup, lookup-delete}
use fastapi_sample.ProviderCircuit.State.{
  World, Link, policy_of, provider_name, CircuitBreakerPolicy, is_named, discard_half_open,
}
use fastapi_sample.ProviderCircuit.Gate.{
  CircuitDecision, claim_half_open, load_state, before_provider_probe, decide_probe,
}
use fastapi_sample.ProviderCircuit.Outcome.{release_provider_probe}
use fastapi_sample.ProviderCircuit.Suppression.{lock_half_open-owns}
use fastapi_sample.ProbeCache.Envelope.{ProbeCachePolicy, Envelope}
use fastapi_sample.ProbeCache.Store.{
  emit, cache_outcome, miss, Instant, CacheWorld, Client, set_circuit, release_refresh,
}
use fastapi_sample.ProbeCache.Peer.{
  Poll, Waited, refreshed, timed_out, raised, unfinished, wait_for_peer, peer_rounds,
  peer_or_stale_result, release_refresh_lock, acquire_refresh_lock,
}
use fastapi_sample.ProbeCache.Calls.{Call, circuit_suppressed_result}
use fastapi_sample.ProbeCache.Refresh.{
  link_before, link_release, release_all, refresh_from_origin, guarded_refresh, locked_refresh,
}
use fastapi_sample.ProbeCache.Suppressed.{circuit_suppressed_result-fields}
use fastapi_sample.ProbeCache.Observed.{Same, observe-Same}

is_named-discard :
    (provider : String) (names : List String)
    → is_named provider (keep (λ n. not (n == provider)) names) ≡ false
is_named-discard provider [] = refl
is_named-discard provider (n ∷ names) = ground (arith, is_named-discard provider names)

-- A released half-open probe is free in the process.
release_provider_probe-free :
    (d : CircuitDecision) (link : Option Link) (w : World) (provider : String)
    (policy : CircuitBreakerPolicy)
    → d.provider ≡ some (provider, policy)
    → d.owns_half_open ≡ true
    → is_named provider (release_provider_probe d link w).half_open_in_progress ≡ false
unfolding release_provider_probe discard_half_open
release_provider_probe-free d none w provider policy h owns =
    ground (arith, is_named-discard provider w.half_open_in_progress)
release_provider_probe-free d (some l) w provider policy h owns = ground (
  arith,
  is_named-discard provider w.half_open_in_progress,
  Option-cases d.lock_token,
  Bool-cases l.lock_up,
)

release_refresh-free :
    (key token : String) (locks : List (String × String))
    → lookup key (release_refresh key token locks) ≢ some token
unfolding release_refresh
release_refresh-free key token locks h = ground (
  arith,
  Option-cases (lookup key locks),
  lookup-delete key key locks,
  eq_refl key,
  eq_refl token,
)

-- A half-open probe is taken only by a probe that may run.
owns-allowed :
    (key : String) (link : Option Link) (now : ℕ) (token : String) (w : World)
    → (before_provider_probe key link now token w).0.owns_half_open ≡ true
    → (before_provider_probe key link now token w).0.allowed ≡ true
unfolding before_provider_probe decide_probe
owns-allowed key link now token w h =
    let name = provider_name key in
    let ((state, available), v) = load_state name link w in
    elim (Option-cases (policy_of name)) [
      | inl unknown ↦ absurd (ground arith)
      | inr (policy, known) ↦ ground (
        arith,
        lock_half_open-owns name policy state available link token (claim_half_open name v).1,
      )
    ]

release_refresh_lock-circuit :
    (client : Option Client) (key token : String) (acquired : Bool) (w : CacheWorld)
    → (release_refresh_lock client key token acquired w).circuit ≡ w.circuit
unfolding release_refresh_lock
release_refresh_lock-circuit none key token acquired w = refl
release_refresh_lock-circuit (some client) key token acquired w = ground arith

-- A call that got the half-open probe of a provider leaves it free in its process, whatever the
-- circuit, the budget, the loader and Redis do, an exception of the loader included.
pub guarded_refresh-free :
    (c : Call) (client : Option Client) (acquired available : Bool) (last : Envelope)
    (w : CacheWorld) (provider : String) (policy : CircuitBreakerPolicy)
    → (before_provider_probe c.key
        (link_before client)
        c.decided
        c.circuit_token
        w.circuit).0.provider
      ≡ some (provider, policy)
    → (before_provider_probe c.key
        (link_before client)
        c.decided
        c.circuit_token
        w.circuit).0.owns_half_open
      ≡ true
    → is_named provider
        (guarded_refresh c client acquired available last w).1.circuit.half_open_in_progress
      ≡ false
unfolding guarded_refresh release_all
guarded_refresh-free c client acquired available last w provider policy h owns =
    let (d, circuit) =
      before_provider_probe c.key (link_before client) c.decided c.circuit_token w.circuit in
    let u =
      (refresh_from_origin c client available last d
        (emit (cache_outcome miss) (set_circuit circuit w))).1 in
    let freed = release_provider_probe d (link_release client) u.circuit in
    elim (Option-cases (circuit_suppressed_result d last c.policy available c.decided)) [
      | inl passed ↦ ground (
        arith,
        release_refresh_lock-circuit client c.key c.token acquired (set_circuit freed u),
        release_provider_probe-free d (link_release client) u.circuit provider policy h owns,
      )
      | inr (r, is) ↦ absurd (
          ground (
            arith,
            circuit_suppressed_result-fields d last c.policy available c.decided r is,
            owns-allowed c.key (link_before client) c.decided c.circuit_token w.circuit owns,
          ))
    ]

release_refresh_lock-free :
    (client : Client) (key token : String) (w : CacheWorld)
    → client.release_up ≡ true
    → lookup key (release_refresh_lock (some client) key token true w).refresh_locks ≢ some token
unfolding release_refresh_lock
release_refresh_lock-free client key token w up h =
    release_refresh-free key token w.refresh_locks (ground arith)

guarded_refresh-unlocked :
    (c : Call) (client : Client) (available : Bool) (last : Envelope) (w : CacheWorld)
    → client.release_up ≡ true
    → lookup c.key (guarded_refresh c (some client) true available last w).1.refresh_locks
      ≢ some c.token
unfolding guarded_refresh release_all Same
guarded_refresh-unlocked c client available last w up h =
    let (d, circuit) =
      before_provider_probe c.key (some client.circuit_before) c.decided c.circuit_token
        w.circuit in
    let u =
      (refresh_from_origin c (some client) available last d
        (emit (cache_outcome miss) (set_circuit circuit w))).1 in
    let freed = release_provider_probe d (some client.circuit_release) u.circuit in
    let v = release_refresh_lock (some client) c.key c.token true (set_circuit circuit w) in
    elim (Option-cases (circuit_suppressed_result d last c.policy available c.decided)) [
      | inl passed ↦
          release_refresh_lock-free client c.key c.token (set_circuit freed u) up (ground arith)
      | inr (r, is) ↦
          release_refresh_lock-free client c.key c.token (set_circuit circuit w) up
            (ground (arith, (observe-Same r v).0))
    ]

peer_or_stale_result-acquired :
    (key : String) (last : Envelope) (policy : ProbeCachePolicy) (waited : Waited) (ended : Instant)
    (w : CacheWorld)
    → (peer_or_stale_result key last policy waited ended w).0.acquired ≡ false
unfolding peer_or_stale_result
peer_or_stale_result-acquired key last policy (refreshed peer at) ended w = refl
peer_or_stale_result-acquired key last policy timed_out ended w = refl
peer_or_stale_result-acquired key last policy raised ended w = refl
peer_or_stale_result-acquired key last policy unfinished ended w = refl

-- The holder of the lock has no result yet.
acquired-result :
    (client : Client) (key token : String) (last : Envelope) (policy : ProbeCachePolicy)
    (tried : Instant) (polls : ℕ → Poll) (ended : Instant) (w : CacheWorld)
    → (acquire_refresh_lock client key token last policy tried polls ended w).0.acquired ≡ true
    → (acquire_refresh_lock client key token last policy tried polls ended w).0.result ≡ none
unfolding acquire_refresh_lock
acquired-result client key token last policy tried polls ended w h = ground (
  arith,
  peer_or_stale_result-acquired key last policy
      (wait_for_peer (peer_rounds policy) polls 0 (tried.mono + policy.wait_timeout) policy
        tried.mono)
      ended w,
)

-- A call that got the refresh lock no longer holds it when it replies or raises, if the release
-- gets through to Redis.
pub locked_refresh-unlocked :
    (c : Call) (client : Client) (last : Envelope) (w : CacheWorld)
    → (acquire_refresh_lock client c.key c.token last c.policy c.read c.polls c.polled w).0.acquired
      ≡ true
    → client.release_up ≡ true
    → lookup c.key (locked_refresh c (some client) true last w).1.refresh_locks ≢ some c.token
unfolding locked_refresh
locked_refresh-unlocked c client last w acquired up h =
    let (a, v) =
      acquire_refresh_lock client c.key c.token last c.policy c.read c.polls c.polled w in
    guarded_refresh-unlocked c client a.redis_available last v up (
      ground (
        arith,
        acquired-result client c.key c.token last c.policy c.read c.polls c.polled w acquired,
      ))
