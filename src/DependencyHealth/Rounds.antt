-- ===== src/DependencyHealth/Rounds.antt =====
-- nabla/api/homelab_dependency_health.py: the loop ends in a state that one more round keeps.
use fastapi_sample.Prelude.{
  String, ℕ, zero, suc, ◌+◌, ◌≤◌, ◌≡◌, refl, sym, ap, inl, inr, true, false, List, [], ◌∷◌, any,
  length, Option, Option-cases, Bool-cases, arith,
}
use fastapi_sample.Prelude.Dict.{lookup}
use fastapi_sample.DependencyHealth.{
  HealthState, ok, warn, fail, unknown, is_fail, dependency_state, is_bad, is_bad_dependency,
  effective_state, Relation, required_targets, ServiceRow, States, local_states, state_in,
  dependency_target_state, target_states, next_states, same_states, settle, effective_states,
}
use fastapi_sample.DependencyHealth.Settled.{
  is_bad-dependency_state, raised, Grows, empty, grow, count_bad, Grows-lt, Grows-bound, Grows-same,
  Grows-lookup,
}

-- The second table has all the bad states of the first.
abbrev Worse : States → States → Type 0
Worse ds es =
    (target : String) → is_bad (state_in target ds) ≡ true → is_bad (state_in target es) ≡ true

any_target-Worse :
    (rows : List (String × ServiceRow)) (ds es : States) (targets : List String)
    → Worse ds es
    → any is_bad (target_states rows ds targets) ≡ true
    → any is_bad (target_states rows es targets) ≡ true
unfolding target_states dependency_target_state
any_target-Worse rows ds es [] worse h = h
any_target-Worse rows ds es (t ∷ ts) worse h =
    ground (arith, worse t, any_target-Worse rows ds es ts worse, Option-cases (lookup t rows))

effective_state-raised :
    (l : HealthState) (d : Option HealthState)
    → effective_state l d ≡ raised l (is_bad_dependency d)
unfolding effective_state is_fail
effective_state-raised ok d = refl
effective_state-raised warn d = refl
effective_state-raised fail d = refl
effective_state-raised unknown d = refl

next_states-Grows :
    (relations : List Relation) (rows : List (String × ServiceRow)) (ls ds es : States)
    → Worse ds es
    → Grows ls (next_states relations rows ls ds) (next_states relations rows ls es)
unfolding next_states
next_states-Grows relations rows [] ds es worse = empty
next_states-Grows relations rows (l ∷ ls) ds es worse =
    let targets = required_targets relations l.0 in
    let a = dependency_state (target_states rows ds targets) in
    let b = dependency_state (target_states rows es targets) in
    grow l.0 l.1 (effective_state l.1 a) (effective_state l.1 b) (is_bad_dependency a)
      (is_bad_dependency b) ls (next_states relations rows ls ds) (next_states relations rows ls es)
      (effective_state-raised l.1 a) (effective_state-raised l.1 b)
      (ground (
        arith,
        is_bad-dependency_state (target_states rows ds targets),
        is_bad-dependency_state (target_states rows es targets),
        any_target-Worse rows ds es targets worse,
      ))
      (next_states-Grows relations rows ls ds es worse)

raised-none : (l : HealthState) → l ≡ raised l false
raised-none ok = refl
raised-none warn = refl
raised-none fail = refl
raised-none unknown = refl

-- The first round, from the local states.
local-Grows :
    (relations : List Relation) (rows : List (String × ServiceRow)) (ls es : States)
    → Grows ls ls (next_states relations rows ls es)
unfolding next_states
local-Grows relations rows [] es = empty
local-Grows relations rows (l ∷ ls) es =
    let d = dependency_state (target_states rows es (required_targets relations l.0)) in
    grow l.0 l.1 l.1 (effective_state l.1 d) false (is_bad_dependency d) ls ls
      (next_states relations rows ls es) (raised-none l.1) (effective_state-raised l.1 d) refl
      (local-Grows relations rows ls es)

-- From states that a round only makes worse, as many rounds as there are states that are not bad
-- yet end in states that the next round keeps.
settle-settled :
    (n : ℕ) (relations : List Relation) (rows : List (String × ServiceRow)) (ls es : States)
    → Grows ls es (next_states relations rows ls es)
    → length ls ≤ count_bad es + n
    → next_states relations rows ls (settle n relations rows ls es) ≡ settle n relations rows ls es
unfolding settle
settle-settled zero relations rows ls es g enough =
    let next = next_states relations rows ls es in
    elim (Bool-cases (same_states es next)) [
      | inl same ↦ sym (Grows-same ls es next g same)
      | inr changed ↦
          absurd (omega (arith, Grows-lt ls es next g changed, Grows-bound ls es next g))
    ]
settle-settled (suc n) relations rows ls es g enough =
    let next = next_states relations rows ls es in
    let again = next_states-Grows relations rows ls es next (λ t. Grows-lookup ls es next t g) in
    elim (Bool-cases (same_states es next)) [
      | inl same ↦
          let fixed : next_states relations rows ls next ≡ next =
            sym (ap (next_states relations rows ls) (Grows-same ls es next g same)) in
          ground (arith, fixed)
      | inr changed ↦
          let rest =
            settle-settled n relations rows ls next again
              (omega (arith, enough, Grows-lt ls es next g changed)) in
          ground (arith, rest)
    ]

length-local_states : (rows : List (String × ServiceRow)) → length (local_states rows) ≡ length rows
unfolding local_states
length-local_states [] = refl
length-local_states (e ∷ es) = ap suc (length-local_states es)

-- The rounds are enough, whatever cycles the dependencies have: one more round would leave the
-- effective state of every service as it is.
pub effective_states-settled :
    (relations : List Relation) (rows : List (String × ServiceRow))
    → next_states relations rows (local_states rows) (effective_states relations rows)
      ≡ effective_states relations rows
unfolding effective_states
effective_states-settled relations rows =
    settle-settled (suc (length rows)) relations rows (local_states rows) (local_states rows)
      (local-Grows relations rows (local_states rows) (local_states rows))
      (omega (arith, length-local_states rows))
