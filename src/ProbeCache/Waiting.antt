-- ===== src/ProbeCache/Waiting.antt =====
-- nabla/api/external_probe_cache.py: the wait for a peer ends, and what it returns is fresh.
use native.Mathlib.Nat.{lt-div-mul-add}
use fastapi_sample.Prelude.{
  ℕ, zero, suc, ◌+◌, ◌*◌, ◌/◌, ◌≤◌, ◌<◌, ◌≡◌, refl, inl, inr, Bool, true, false, if-All,
  Option-cases, Bool-cases, ltb, arith,
}
use fastapi_sample.ProbeCache.Envelope.{ProbeCachePolicy, is_valid_cache_policy, current_fresh}
use fastapi_sample.ProbeCache.Peer.{
  Poll, Waited, refreshed, timed_out, raised, unfinished, document_envelope, judge_poll,
  wait_for_peer, peer_rounds,
}

-- The wait has ended, and an envelope that it returns was fresh when it was read.
unfoldable pub is_settled : ProbeCachePolicy → Waited → Bool
is_settled policy (refreshed e at) = current_fresh e at.wall policy
is_settled policy timed_out = true
is_settled policy raised = true
is_settled policy unfinished = false

judge_poll-is_settled :
    (policy : ProbeCachePolicy) (poll : Poll) (rest : Waited)
    → is_settled policy rest ≡ true
    → is_settled policy (judge_poll policy poll rest) ≡ true
unfolding judge_poll is_settled
judge_poll-is_settled policy poll rest h = elim (Option-cases poll.answer) [
  | inl down ↦ ground arith
  | inr (d, is) ↦ elim (Option-cases (document_envelope d)) [
    | inl missing ↦ ground arith
    | inr (e, was) ↦ ground (arith, Bool-cases (current_fresh e poll.at.wall policy))
  ]
]

-- With `n` intervals left to the deadline, `n + 1` rounds are enough.
wait_for_peer-enough :
    (n : ℕ) (polls : ℕ → Poll) (i deadline : ℕ) (policy : ProbeCachePolicy) (mono : ℕ)
    → deadline ≤ mono + n * policy.poll_interval
    → mono + policy.poll_interval ≤ (polls i).at.mono
    → ((j : ℕ) → (polls j).at.mono + policy.poll_interval ≤ (polls (suc j)).at.mono)
    → is_settled policy (wait_for_peer (suc n) polls i deadline policy mono) ≡ true
unfolding wait_for_peer is_settled
wait_for_peer-enough zero polls i deadline policy mono near slept spaced = ground arith
wait_for_peer-enough (suc n) polls i deadline policy mono near slept spaced =
    let rest = wait_for_peer (suc n) polls (suc i) deadline policy (polls i).at.mono in
    if-All (λ x. is_settled policy x ≡ true) (ltb mono deadline)
      (judge_poll-is_settled policy (polls i) rest (
        wait_for_peer-enough n polls (suc i) deadline policy (polls i).at.mono (omega arith)
          (spaced i) spaced))
      refl

-- Where each round sleeps at least the poll interval, the wait of a valid policy ends within its
-- rounds, with a timeout, an error of Redis, or an envelope that was fresh when it was read.
pub wait_for_peer-is_settled :
    (polls : ℕ → Poll) (policy : ProbeCachePolicy) (start : ℕ)
    → is_valid_cache_policy policy ≡ true
    → start + policy.poll_interval ≤ (polls 0).at.mono
    → ((j : ℕ) → (polls j).at.mono + policy.poll_interval ≤ (polls (suc j)).at.mono)
    → is_settled policy
        (wait_for_peer (peer_rounds policy) polls 0 (start + policy.wait_timeout) policy start)
      ≡ true
unfolding is_valid_cache_policy
wait_for_peer-is_settled polls policy start valid slept spaced =
    let positive : 0 < policy.poll_interval = ground arith in
    let rounds = policy.wait_timeout / policy.poll_interval in
    let enough : policy.wait_timeout < rounds * policy.poll_interval + policy.poll_interval =
      lt-div-mul-add positive in
    wait_for_peer-enough (rounds + 1) polls 0 (start + policy.wait_timeout) policy start
      (omega (arith, enough)) slept spaced
