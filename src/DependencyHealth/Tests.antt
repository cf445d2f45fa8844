-- ===== src/DependencyHealth/Tests.antt =====
-- nabla/api/homelab_dependency_health.py: a cycle of two services, one of which needs a failed one.
use fastapi_sample.Prelude.{
  String, ◌≡◌, refl, Bool, true, false, List, [], ◌∷◌, map, lower, strip, lstrip, rstrip, ◌↔◌,
}
use fastapi_sample.Prelude.Dict.{lookup, insert}
use fastapi_sample.DependencyHealth.{
  ok, warn, fail, health_state, is_fail, is_warn, is_unknown, dependency_state, is_bad,
  effective_state, Relation, depends_on, is_health_bearing, required_targets, ServiceRow, add_rows,
  rows_by_id, local_states, state_in, dependency_target_state, target_states, next_states,
  same_health, same_states, settle, effective_states, propagate_row, PropagatedRow,
  propagate_required_dependency_health,
}
use fastapi_sample.DependencyHealth.Rounds.{effective_states-settled}
use fastapi_sample.DependencyHealth.Blame.{InTrouble, effective_states-InTrouble}

abbrev needs : String → String → Relation
needs source target = record {
  source = source;
  target = target;
  is_required = true;
  type_of = depends_on;
}

abbrev row : String → String → Bool → ServiceRow
row id state stale = record {
  id = id;
  state = state;
  observation_stale = stale;
  runtime_stale = false;
}

abbrev relations : List Relation
relations =
    needs "app" "cache" ∷ needs "cache" "app" ∷ needs "cache" "disk" ∷ needs "web" "old" ∷ []

abbrev services : List ServiceRow
services =
    row "app" " OK " false
    ∷ row "cache" "ok" false
    ∷ row "disk" "fail" false
    ∷ row "old" "fail" true
    ∷ row "web" "ok" false
    ∷ []

abbrev table : List (String × ServiceRow)
table =
    ("app", row "app" " OK " false)
    ∷ ("cache", row "cache" "ok" false)
    ∷ ("disk", row "disk" "fail" false)
    ∷ ("old", row "old" "fail" true)
    ∷ ("web", row "web" "ok" false)
    ∷ []

by_id : rows_by_id services ≡ table
unfolding add_rows insert
by_id = refl

abbrev result : List PropagatedRow
result = propagate_required_dependency_health services relations

states : map (λ r. r.effective_state) result ≡ warn ∷ warn ∷ fail ∷ fail ∷ ok ∷ []
unfolding propagate_required_dependency_health propagate_row add_rows insert lookup effective_states
    settle local_states health_state lower strip lstrip rstrip next_states same_states same_health
    target_states dependency_target_state required_targets is_health_bearing dependency_state
    effective_state is_fail is_warn is_unknown
states = refl

blocked : map (λ r. r.blocked_by) result ≡ [] ∷ ("disk" ∷ []) ∷ [] ∷ [] ∷ [] ∷ []
unfolding propagate_required_dependency_health propagate_row add_rows insert lookup effective_states
    settle local_states health_state lower strip lstrip rstrip next_states same_states same_health
    target_states dependency_target_state required_targets is_health_bearing dependency_state
    effective_state is_fail is_warn is_unknown
blocked = refl

doubtful : map (λ r. r.unconfirmed_dependencies) result ≡ [] ∷ [] ∷ [] ∷ [] ∷ ("old" ∷ []) ∷ []
unfolding propagate_required_dependency_health propagate_row add_rows insert lookup effective_states
    settle local_states health_state lower strip lstrip rstrip next_states same_states same_health
    target_states dependency_target_state required_targets is_health_bearing dependency_state
    effective_state is_fail is_warn is_unknown
doubtful = refl

effective_states-settled_example :
    next_states relations table (local_states table) (effective_states relations table)
    ≡ effective_states relations table
effective_states-settled_example = effective_states-settled relations table

effective_states-InTrouble_example :
    (is_bad (state_in "app" (effective_states relations table)) ≡ true)
    ↔ InTrouble relations table "app"
effective_states-InTrouble_example = effective_states-InTrouble relations table "app"
