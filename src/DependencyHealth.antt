-- ===== src/DependencyHealth.antt =====
-- nabla/api/homelab_dependency_health.py: the health of the required dependencies, carried along the
-- topology to the services that need them. The cycles and the evidence shown beside the states are
-- left out.
pub mod Settled
pub mod Rounds
pub mod Blame
mod Tests
use fastapi_sample.Prelude.{
  String, ℕ, zero, suc, ◌+◌, max, Bool, true, false, not, ◌&&◌, ◌||◌, ◌==◌, List, [], ◌∷◌, keep,
  any, map, length, Option, none, some, if◌then◌else◌, strip, lower,
}
use fastapi_sample.Prelude.Dict.{lookup, insert}

pub data HealthState : Type 0 where
  ok warn fail unknown : HealthState

-- `_health_state` of the text of a row's state, which is empty where the row has none.
unfoldable pub health_state : String → HealthState
health_state value =
    let state = lower (strip value) in
    if state == "ok"
    then ok
    else if state == "warn"
    then warn
    else if state == "fail"
    then fail
    else unknown

unfoldable pub is_fail : HealthState → Bool
is_fail fail = true
is_fail _ = false

unfoldable pub is_warn : HealthState → Bool
is_warn warn = true
is_warn _ = false

unfoldable pub is_unknown : HealthState → Bool
is_unknown unknown = true
is_unknown _ = false

unfoldable pub dependency_state : List HealthState → Option HealthState
dependency_state [] = none
dependency_state (s ∷ ss) =
    if any is_fail (s ∷ ss)
    then some fail
    else if any is_warn (s ∷ ss)
    then some warn
    else if any is_unknown (s ∷ ss)
    then some unknown
    else some ok

abbrev pub is_bad : HealthState → Bool
is_bad ok = false
is_bad warn = true
is_bad fail = true
is_bad unknown = false

-- `dependency_state in {"fail", "warn"}`
abbrev pub is_bad_dependency : Option HealthState → Bool
is_bad_dependency none = false
is_bad_dependency (some s) = is_bad s

unfoldable pub effective_state : HealthState → Option HealthState → HealthState
effective_state local dependency =
    if is_fail local then fail else if is_bad_dependency dependency then warn else local

pub data RelationType : Type 0 where
  depends_on consumes_api routes_to stores_in authenticates_via exposed_by other_relation :
      RelationType

pub record Relation : Type 0 where
  pub source : String
  pub target : String
  pub is_required : Bool
  pub type_of : RelationType

unfoldable pub is_health_bearing : RelationType → Bool
is_health_bearing other_relation = false
is_health_bearing _ = true

-- `_required_relations(topology).get(service_id, [])`, by their targets.
unfoldable pub required_targets : List Relation → String → List String
required_targets relations service_id =
    map (λ r. r.target)
      (keep (λ r. r.source == service_id && (r.is_required && is_health_bearing r.type_of))
        relations)

-- What is read of a row; a row without an id has the empty one.
pub record ServiceRow : Type 0 where
  pub id : String
  pub state : String
  pub observation_stale : Bool
  pub runtime_stale : Bool

unfoldable pub add_rows : List ServiceRow → List (String × ServiceRow) → List (String × ServiceRow)
add_rows [] table = table
add_rows (r ∷ rs) table = add_rows rs (if r.id == "" then table else insert r.id r table)

abbrev pub rows_by_id : List ServiceRow → List (String × ServiceRow)
rows_by_id rows = add_rows rows []

-- The states by service, in the order of the dictionary.
abbrev pub States : Type 0
States = List (String × HealthState)

unfoldable pub local_states : List (String × ServiceRow) → States
local_states [] = []
local_states (e ∷ es) = (e.0, health_state e.1.state) ∷ local_states es

abbrev pub state_in : String → States → HealthState
state_in target states = elim (lookup target states) [ none ↦ unknown | some s ↦ s ]

unfoldable pub dependency_target_state : List (String × ServiceRow) → States → String → HealthState
dependency_target_state rows states target = elim (lookup target rows) [
  | none ↦ unknown
  | some row ↦
      if row.observation_stale || row.runtime_stale then unknown else state_in target states
]

unfoldable pub target_states : List (String × ServiceRow) → States → List String → List HealthState
target_states rows states [] = []
target_states rows states (t ∷ ts) =
    dependency_target_state rows states t ∷ target_states rows states ts

-- One round of the loop, over the entries of `local_states`.
unfoldable pub next_states : List Relation → List (String × ServiceRow) → States → States → States
next_states relations rows [] states = []
next_states relations rows (e ∷ es) states =
    (
      e.0,
      effective_state e.1
          (dependency_state (target_states rows states (required_targets relations e.0))),
    )
    ∷ next_states relations rows es states

unfoldable pub same_health : HealthState → HealthState → Bool
same_health ok ok = true
same_health warn warn = true
same_health fail fail = true
same_health unknown unknown = true
same_health _ _ = false

-- `not changed`: the entries stand in the same order.
unfoldable pub same_states : States → States → Bool
same_states (d ∷ ds) (e ∷ es) = same_health d.1 e.1 && same_states ds es
same_states _ _ = true

unfoldable pub settle : ℕ → List Relation → List (String × ServiceRow) → States → States → States
settle zero relations rows local states = states
settle (suc n) relations rows local states =
    let next = next_states relations rows local states in
    let rest = settle n relations rows local next in if same_states states next then next else rest

-- The effective states after `max(1, len(rows_by_id) + 1)` rounds at most.
unfoldable pub effective_states : List Relation → List (String × ServiceRow) → States
effective_states relations rows =
    settle (suc (length rows)) relations rows (local_states rows) (local_states rows)

-- A row of the result.
pub record PropagatedRow : Type 0 where
  pub row : ServiceRow
  pub local_state : HealthState
  pub dependency_state : Option HealthState
  pub effective_state : HealthState
  pub required_dependencies : List String
  pub blocked_by : List String
  pub degraded_by : List String
  pub unconfirmed_dependencies : List String

unfoldable pub propagate_row :
    List Relation → List (String × ServiceRow) → States → ServiceRow → PropagatedRow
propagate_row relations rows states row =
    let local = health_state row.state in
    let targets = required_targets relations row.id in
    let dependency = dependency_state (target_states rows states targets) in
    let state_of = dependency_target_state rows states in
    record {
      row = row;
      local_state = local;
      dependency_state = dependency;
      effective_state = elim (lookup row.id states) [
        | none ↦ effective_state local dependency
        | some s ↦ s
      ];
      required_dependencies = targets;
      blocked_by = keep (λ t. is_fail (state_of t)) targets;
      degraded_by = keep (λ t. is_warn (state_of t)) targets;
      unconfirmed_dependencies = keep (λ t. is_unknown (state_of t)) targets;
    }

unfoldable pub propagate_required_dependency_health :
    List ServiceRow → List Relation → List PropagatedRow
propagate_required_dependency_health rows relations =
    let table = rows_by_id rows in
    map (propagate_row relations table (effective_states relations table)) rows
