-- ===== src/ProbeCache/Sources.antt =====
-- nabla/api/external_probe_cache.py: the results of the lookups and of the wait for a peer are
-- cached results, or stale ones; and where the envelopes of the cached ones are read.
use fastapi_sample.Prelude.{
  String, ℕ, zero, suc, ◌+◌, ◌≡◌, refl, sym, ◌∙◌, inl, inr, Bool, true, false, Option, none, some,
  Option-cases, Bool-cases, arith, ltb,
}
use fastapi_sample.Prelude.Dict.{lookup}
use fastapi_sample.ProbeCache.Envelope.{
  ProbeCachePolicy, Envelope, Layer, l1, redis, local_fallback, ProbeCacheResult,
  result_from_envelope, cached_result, current_fresh,
}
use fastapi_sample.ProbeCache.Store.{Instant, CacheWorld, Client, Document, l1_get, l1_put}
use fastapi_sample.ProbeCache.Lookup.{
  l1_hot_result, read_probe, redis_cached_result, cached_lookup, local_result, Found, observed,
}
use fastapi_sample.ProbeCache.Peer.{
  Poll, Waited, refreshed, timed_out, raised, unfinished, judge_poll, document_envelope,
  wait_for_peer, peer_rounds, stale_service, stale_result, peer_result, peer_or_stale_result,
  acquire_refresh_lock,
}
use fastapi_sample.ProbeCache.Observed.{Same, observe-Same}

-- What L1 returns is what it has for the key.
l1_get-lookup :
    (key : String) (policy : ProbeCachePolicy) (mono : ℕ) (w : CacheWorld) (e : Envelope)
    → (l1_get key policy mono w).0.0 ≡ some e
    → (t : ℕ) × (lookup key w.l1_entries ≡ some (e, t))
unfolding l1_get
l1_get-lookup key policy mono w e h = elim (Option-cases (lookup key w.l1_entries)) [
  | inl missing ↦ absurd (ground arith)
  | inr ((kept, t), found) ↦ (t, ground arith)
]

l1_hot_result-envelope :
    (key : String) (policy : ProbeCachePolicy) (at : Instant) (w : CacheWorld)
    → (l1_hot_result key policy at w).0.0 ≡ (l1_get key policy at.mono w).0.0
unfolding l1_hot_result
l1_hot_result-envelope key policy at w =
    ground (arith, Option-cases (l1_get key policy at.mono w).0.0)

l1_get-probes :
    (key : String) (policy : ProbeCachePolicy) (mono : ℕ) (w : CacheWorld)
    → (l1_get key policy mono w).1.probes ≡ w.probes
unfolding l1_get
l1_get-probes key policy mono w = ground (arith, Option-cases (lookup key w.l1_entries))

observed-probes :
    (result : Option ProbeCacheResult) (w : CacheWorld) → (observed result w).probes ≡ w.probes
unfolding Same
observed-probes none w = refl
observed-probes (some r) w = (observe-Same r w).3

l1_hot_result-probes :
    (key : String) (policy : ProbeCachePolicy) (at : Instant) (w : CacheWorld)
    → (l1_hot_result key policy at w).1.probes ≡ w.probes
unfolding l1_hot_result
l1_hot_result-probes key policy at w = elim (Option-cases (l1_get key policy at.mono w).0.0) [
  | inl missing ↦ ground (arith, l1_get-probes key policy at.mono w)
  | inr (e, is) ↦ ground (
    arith,
    l1_get-probes key policy at.mono w,
    observed-probes (cached_result e policy l1 true at.wall) (l1_get key policy at.mono w).1,
  )
]

read_probe-same :
    (key : String) (w v : CacheWorld) → v.probes ≡ w.probes → read_probe key v ≡ read_probe key w
read_probe-same key w v e = rw e refl

-- An envelope that ends the wait is the answer of one of its rounds, at the time of that round.
pub data IsPolled (polls : ℕ → Poll) : Envelope → ℕ → Type 0 where
  polled :
      (i : ℕ) (d : Option Document) (e : Envelope)
      → (polls i).answer ≡ some d
      → document_envelope d ≡ some e
      → IsPolled polls e (polls i).at.wall

wait_for_peer-IsPolled :
    (n : ℕ) (polls : ℕ → Poll) (i deadline : ℕ) (policy : ProbeCachePolicy) (mono : ℕ)
    (e : Envelope) (at : Instant)
    → wait_for_peer n polls i deadline policy mono ≡ refreshed e at
    → IsPolled polls e at.wall
unfolding wait_for_peer judge_poll
wait_for_peer-IsPolled zero polls i deadline policy mono e at h = absurd (ground arith)
wait_for_peer-IsPolled (suc n) polls i deadline policy mono e at h =
    let again = wait_for_peer-IsPolled n polls (suc i) deadline policy (polls i).at.mono e at in
    elim (Bool-cases (ltb mono deadline)) [
      | inr over ↦ absurd (ground arith)
      | inl soon ↦ elim (Option-cases (polls i).answer) [
        | inl down ↦ absurd (ground arith)
        | inr (d, answer) ↦ elim (Option-cases (document_envelope d)) [
          | inl unread ↦ again (ground arith)
          | inr (f, is) ↦ elim (Bool-cases (current_fresh f (polls i).at.wall policy)) [
            | inr old ↦ again (ground arith)
            | inl fresh ↦
                let same : f ≡ e = ground arith in
                let moment : (polls i).at ≡ at = ground arith in
                rw (← same, ← moment) (polled i d f answer is)
          ]
        ]
      ]
    ]

-- `Q` says where an envelope is read and when.
module _ (P : ProbeCacheResult → Type 0) (Q : Envelope → ℕ → Type 0) (policy : ProbeCachePolicy)
    (fresh : (envelope : Envelope) (layer : Layer) (available : Bool) (now : ℕ)
        (r : ProbeCacheResult)
      → Q envelope now
      → cached_result envelope policy layer available now ≡ some r
      → P r)
    (stale : (last : Envelope) (now : ℕ) (r : ProbeCacheResult)
      → result_from_envelope last policy stale_service now ≡ some r
      → P r) where
  pub l1_hot_result-All :
      (key : String) (at : Instant) (w : CacheWorld) (r : ProbeCacheResult)
      → ((e : Envelope) (t : ℕ) → lookup key w.l1_entries ≡ some (e, t) → Q e at.wall)
      → (l1_hot_result key policy at w).0.1 ≡ some r
      → P r
  unfolding l1_hot_result
  l1_hot_result-All key at w r q h = elim (Option-cases (l1_get key policy at.mono w).0.0) [
    | inl missing ↦ absurd (ground arith)
    | inr (e, is) ↦
        let (t, kept) = l1_get-lookup key policy at.mono w e is in
        fresh e l1 true at.wall r (q e t kept) (ground arith)
  ]

  redis_cached_result-All :
      (client : Option Client) (key : String) (envelope : Option Envelope) (at : Instant)
      (w : CacheWorld) (r : ProbeCacheResult)
      → ((e : Envelope) → read_probe key w ≡ some e → Q e at.wall)
      → (redis_cached_result client key envelope policy at w).0.result ≡ some r
      → P r
  unfolding redis_cached_result
  redis_cached_result-All none key envelope at w r q h = absurd (ground arith)
  redis_cached_result-All (some client) key envelope at w r q h =
      elim (Option-cases (read_probe key w)) [
        | inl missing ↦ absurd (ground arith)
        | inr (e, is) ↦ fresh e redis true at.wall r (q e is) (ground arith)
      ]

  local_result-All :
      (now : ℕ) (f : Found) (w : CacheWorld) (r : ProbeCacheResult)
      → (f.result ≡ some r → P r)
      → ((e : Envelope) → f.redis_available ≡ false → f.envelope ≡ some e → Q e now)
      → (local_result policy now f w).0.result ≡ some r
      → P r
  unfolding local_result
  local_result-All now f w r sound q h = elim (Option-cases f.result) [
    | inr (s, is) ↦ sound (ground arith)
    | inl lost ↦ elim (Option-cases f.envelope) [
      | inl missing ↦ absurd (ground arith)
      | inr (e, is) ↦ elim (Bool-cases f.redis_available) [
        | inl answered ↦ absurd (ground arith)
        | inr down ↦ fresh e local_fallback false now r (q e down is) (ground arith)
      ]
    ]
  ]

  redis_cached_result-envelope :
      (client : Option Client) (key : String) (envelope : Option Envelope) (at : Instant)
      (w : CacheWorld)
      → (redis_cached_result client key envelope policy at w).0.redis_available ≡ false
      → (redis_cached_result client key envelope policy at w).0.envelope ≡ envelope
  unfolding redis_cached_result
  redis_cached_result-envelope none key envelope at w h = refl
  redis_cached_result-envelope (some client) key envelope at w h =
      ground (arith, Option-cases (read_probe key w))

  pub cached_lookup-All :
      (key : String) (client : Option Client) (locked read : Instant) (w : CacheWorld)
      (r : ProbeCacheResult)
      → ((e : Envelope) (t : ℕ) → lookup key w.l1_entries ≡ some (e, t) → Q e locked.wall)
      → ((e : Envelope) → read_probe key w ≡ some e → Q e read.wall)
      → ((e : Envelope) (t : ℕ) → lookup key w.l1_entries ≡ some (e, t) → Q e read.wall)
      → (cached_lookup key policy client locked read w).0.result ≡ some r
      → P r
  unfolding cached_lookup
  cached_lookup-All key client locked read w r q1 q2 q3 h =
      let ((envelope, result), v) = l1_hot_result key policy locked w in
      let (f, u) = redis_cached_result client key envelope policy read v in
      elim (Option-cases (l1_hot_result key policy locked w).0.1) [
        | inr (s, is) ↦ l1_hot_result-All key locked w r q1 (ground arith)
        | inl lost ↦
            local_result-All read.wall f u r
              (redis_cached_result-All client key envelope read v r (λ e found.
                q2 e (
                  rw (read_probe-same key w v (l1_hot_result-probes key policy locked w)) at
                    found)))
              (λ e down is.
                let kept : (l1_get key policy locked.mono w).0.0 ≡ some e =
                  sym (l1_hot_result-envelope key policy locked w)
                  ∙ sym (redis_cached_result-envelope client key envelope read v down)
                  ∙ is in
                let (t, there) = l1_get-lookup key policy locked.mono w e kept in q3 e t there)
              (ground arith)
      ]

  stale_result-All :
      (last : Envelope) (now : ℕ) (w : CacheWorld) (r : ProbeCacheResult)
      → (stale_result last policy now w).0 ≡ some r
      → P r
  unfolding stale_result
  stale_result-All last now w r h = stale last now r h

  peer_result-All :
      (key : String) (peer last : Envelope) (at : Instant) (w : CacheWorld) (r : ProbeCacheResult)
      → Q peer at.wall
      → (peer_result key peer last policy at w).0 ≡ some r
      → P r
  unfolding peer_result
  peer_result-All key peer last at w r q h =
      elim (Option-cases (cached_result peer policy redis true at.wall)) [
        | inl lost ↦ stale_result-All last at.wall (l1_put key peer at.mono w) r (ground arith)
        | inr (s, is) ↦ fresh peer redis true at.wall r q (ground arith)
      ]

  peer_or_stale_result-All :
      (key : String) (last : Envelope) (waited : Waited) (ended : Instant) (w : CacheWorld)
      (r : ProbeCacheResult)
      → ((e : Envelope) (at : Instant) → waited ≡ refreshed e at → Q e at.wall)
      → (peer_or_stale_result key last policy waited ended w).0.result ≡ some r
      → P r
  unfolding peer_or_stale_result
  peer_or_stale_result-All key last (refreshed peer at) ended w r q h =
      peer_result-All key peer last at w r (q peer at refl) h
  peer_or_stale_result-All key last timed_out ended w r q h = stale_result-All last ended.wall w r h
  peer_or_stale_result-All key last raised ended w r q h = absurd (ground arith)
  peer_or_stale_result-All key last unfinished ended w r q h = absurd (ground arith)

  pub acquire_refresh_lock-All :
      (client : Client) (key token : String) (last : Envelope) (tried : Instant) (polls : ℕ → Poll)
      (ended : Instant) (w : CacheWorld) (r : ProbeCacheResult)
      → ((e : Envelope) (now : ℕ) → IsPolled polls e now → Q e now)
      → (acquire_refresh_lock client key token last policy tried polls ended w).0.result ≡ some r
      → P r
  unfolding acquire_refresh_lock
  acquire_refresh_lock-All client key token last tried polls ended w r q h =
      let deadline = tried.mono + policy.wait_timeout in
      peer_or_stale_result-All key last
        (wait_for_peer (peer_rounds policy) polls 0 deadline policy tried.mono) ended w r
        (λ e at is.
          q e at.wall (
            wait_for_peer-IsPolled (peer_rounds policy) polls 0 deadline policy tried.mono e at is))
        (ground arith)
