-- ===== src/DependencyHealth/Blame.antt =====
-- nabla/api/homelab_dependency_health.py: a service is in trouble exactly if a failure reaches it.
use fastapi_sample.Prelude.{
  String, ℕ, zero, suc, ◌≡◌, refl, ap, inl, inr, Bool, true, false, not, ◌&&◌, ◌||◌, List, [], ◌∷◌,
  Memᴰ, any, length, none, some, Option-cases, Bool-cases, arith, eq_iff, ◌↔◌, if-All,
}
use fastapi_sample.Prelude.Dict.{lookup}
use fastapi_sample.DependencyHealth.{
  HealthState, dependency_state, is_bad, effective_state, Relation, required_targets, ServiceRow,
  States, local_states, state_in, dependency_target_state, target_states, next_states, same_states,
  settle, effective_states,
}
use fastapi_sample.DependencyHealth.Settled.{is_bad-dependency_state, is_bad-effective_state}
use fastapi_sample.DependencyHealth.Rounds.{effective_states-settled}

-- A row of the service that is not stale.
unfoldable pub is_observed : List (String × ServiceRow) → String → Bool
is_observed rows target = elim (lookup target rows) [
  | none ↦ false
  | some row ↦ not (row.observation_stale || row.runtime_stale)
]

-- A service with a row whose own state is bad, or which requires one in trouble that is observed.
pub data InTrouble (relations : List Relation) (rows : List (String × ServiceRow))
    : String → Type 0 where
  by_itself :
      (id : String) (s : HealthState)
      → lookup id (local_states rows) ≡ some s
      → is_bad s ≡ true
      → InTrouble relations rows id
  by_dependency :
      (id target : String) (s : HealthState)
      → lookup id (local_states rows) ≡ some s
      → Memᴰ target (required_targets relations id)
      → is_observed rows target ≡ true
      → InTrouble relations rows target
      → InTrouble relations rows id

lookup-next_states :
    (relations : List Relation) (rows : List (String × ServiceRow)) (ls states : States)
    (id : String)
    → lookup id (next_states relations rows ls states) ≡ elim (lookup id ls) [
      | none ↦ none
      | some l ↦ some (
          effective_state l
            (dependency_state (target_states rows states (required_targets relations id))))
    ]
unfolding next_states lookup
lookup-next_states relations rows [] states id = refl
lookup-next_states relations rows (l ∷ ls) states id =
    ground (arith, eq_iff l.0 id, lookup-next_states relations rows ls states id)

-- The state that a round gives a service.
is_bad-next_states :
    (relations : List Relation) (rows : List (String × ServiceRow)) (ls states : States)
    (id : String) (l : HealthState)
    → lookup id ls ≡ some l
    → is_bad (state_in id (next_states relations rows ls states))
      ≡ (is_bad l || any is_bad (target_states rows states (required_targets relations id)))
is_bad-next_states relations rows ls states id l h =
    let d = target_states rows states (required_targets relations id) in
    ground (
      arith,
      lookup-next_states relations rows ls states id,
      is_bad-effective_state l (dependency_state d),
      is_bad-dependency_state d,
    )

next_states-none :
    (relations : List Relation) (rows : List (String × ServiceRow)) (ls states : States)
    (id : String)
    → lookup id ls ≡ none
    → is_bad (state_in id (next_states relations rows ls states)) ≡ false
next_states-none relations rows ls states id h =
    ground (arith, lookup-next_states relations rows ls states id)

is_bad-dependency_target_state :
    (rows : List (String × ServiceRow)) (states : States) (target : String)
    → is_bad (dependency_target_state rows states target)
      ≡ (is_observed rows target && is_bad (state_in target states))
unfolding dependency_target_state is_observed
is_bad-dependency_target_state rows states target =
    ground (arith, Option-cases (lookup target rows))

bad_target :
    (rows : List (String × ServiceRow)) (states : States) (targets : List String)
    → any is_bad (target_states rows states targets) ≡ true
    → (t : String) × Memᴰ t targets
      × (is_observed rows t ≡ true)
      × (is_bad (state_in t states) ≡ true)
unfolding target_states
bad_target rows states [] h = absurd (ground arith)
bad_target rows states (t ∷ ts) h =
    let here = is_bad-dependency_target_state rows states t in
    elim (Bool-cases (is_bad (dependency_target_state rows states t))) [
      | inl bad ↦ (t, Memᴰ.head refl, ground (arith, here), ground (arith, here))
      | inr good ↦
          let (u, m, seen, bad) = bad_target rows states ts (ground arith) in
          (u, Memᴰ.tail m, seen, bad)
    ]

target_bad :
    (rows : List (String × ServiceRow)) (states : States) (targets : List String) (t : String)
    → Memᴰ t targets
    → is_observed rows t ≡ true
    → is_bad (state_in t states) ≡ true
    → any is_bad (target_states rows states targets) ≡ true
unfolding target_states
target_bad rows states [] t m seen bad = elim m [ ]
target_bad rows states (u ∷ us) t (Memᴰ.head e) seen bad =
    ground (arith, is_bad-dependency_target_state rows states t)
target_bad rows states (u ∷ us) t (Memᴰ.tail m) seen bad =
    ground (arith, target_bad rows states us t m seen bad)

-- Every bad state of the table is that of a service in trouble.
IsBlamed : List Relation → List (String × ServiceRow) → States → Type 0
IsBlamed relations rows states =
    (id : String) → is_bad (state_in id states) ≡ true → InTrouble relations rows id

next_states-IsBlamed :
    (relations : List Relation) (rows : List (String × ServiceRow)) (states : States)
    → IsBlamed relations rows states
    → IsBlamed relations rows (next_states relations rows (local_states rows) states)
unfolding IsBlamed
next_states-IsBlamed relations rows states blamed id bad =
    let ls = local_states rows in
    elim (Option-cases (lookup id ls)) [
      | inl missing ↦ absurd (ground (arith, next_states-none relations rows ls states id missing))
      | inr (l, is) ↦
          let split = is_bad-next_states relations rows ls states id l is in
          elim (Bool-cases (is_bad l)) [
            | inl here ↦ by_itself id l is here
            | inr good ↦
                let (t, m, seen, worse) =
                  bad_target rows states (required_targets relations id) (ground (arith, split)) in
                by_dependency id t l is m seen (blamed t worse)
          ]
    ]

settle-IsBlamed :
    (n : ℕ) (relations : List Relation) (rows : List (String × ServiceRow)) (states : States)
    → IsBlamed relations rows states
    → IsBlamed relations rows (settle n relations rows (local_states rows) states)
unfolding settle
settle-IsBlamed zero relations rows states blamed = blamed
settle-IsBlamed (suc n) relations rows states blamed =
    let next = next_states relations rows (local_states rows) states in
    let known = next_states-IsBlamed relations rows states blamed in
    if-All (IsBlamed relations rows) (same_states states next) known
      (settle-IsBlamed n relations rows next known)

local_states-IsBlamed :
    (relations : List Relation) (rows : List (String × ServiceRow))
    → IsBlamed relations rows (local_states rows)
unfolding IsBlamed
local_states-IsBlamed relations rows id bad = elim (Option-cases (lookup id (local_states rows))) [
  | inl missing ↦ absurd (ground arith)
  | inr (l, is) ↦ by_itself id l is (ground arith)
]

InTrouble-bad :
    (relations : List Relation) (rows : List (String × ServiceRow)) (id : String)
    → InTrouble relations rows id
    → is_bad (state_in id (effective_states relations rows)) ≡ true
InTrouble-bad relations rows id (by_itself _ s is bad) =
    let all = effective_states relations rows in
    ground (
      arith,
      ap (λ v. is_bad (state_in id v)) (effective_states-settled relations rows),
      is_bad-next_states relations rows (local_states rows) all id s is,
    )
InTrouble-bad relations rows id (by_dependency _ target s is m seen trouble) =
    let all = effective_states relations rows in
    ground (
      arith,
      ap (λ v. is_bad (state_in id v)) (effective_states-settled relations rows),
      is_bad-next_states relations rows (local_states rows) all id s is,
      target_bad rows all (required_targets relations id) target m seen
          (InTrouble-bad relations rows target trouble),
    )

-- The effective state of a service is `warn` or `fail` exactly if its own is, or if a chain of
-- required dependencies, each of them observed, leads to a service whose own is.
pub effective_states-InTrouble :
    (relations : List Relation) (rows : List (String × ServiceRow)) (id : String)
    → (is_bad (state_in id (effective_states relations rows)) ≡ true) ↔ InTrouble relations rows id
unfolding effective_states IsBlamed
effective_states-InTrouble relations rows id = (
  settle-IsBlamed (suc (length rows)) relations rows (local_states rows)
      (local_states-IsBlamed relations rows) id,
  InTrouble-bad relations rows id,
)
