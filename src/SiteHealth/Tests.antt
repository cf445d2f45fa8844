-- ===== src/SiteHealth/Tests.antt =====
-- nabla/api/site_health_v2.py: the projection of a concrete board.
use fastapi_sample.Prelude.{◌≡◌, refl, true, false, some, [], ◌∷◌, String, Memᴰ, arith}
use fastapi_sample.Prelude.Dict.{lookup, insert}
use fastapi_sample.SiteHealth.{
  fail, Row, absent, text, Board, is_id_from, is_id, verified_state, board_state_of, collect,
  verified_rows, verified_health_by_service_id, Entity, name_count, projected_state,
  project_entries, project_site_health,
}
use fastapi_sample.SiteHealth.Projection.{IsObserved, project_site_health-IsObserved}

abbrev row : String → String → Row
row id state = record {
  id = some id;
  observation_stale = false;
  probe_stale = false;
  effective_state = absent;
  state = text state;
}

abbrev board : Board
board = record { state = some "fresh"; services = row "redis" "fail" ∷ [] }

abbrev redis : Entity
redis = record { entity_ref = "component:default/redis"; name = "redis" }

an_id : is_id "a-b1" ≡ true
unfolding is_id is_id_from
an_id = refl

no_id : is_id "a--b" ≡ false
unfolding is_id is_id_from
no_id = refl

project_site_health-IsObserved_example :
    (e : Entity) × Memᴰ e (redis ∷ [])
    × (e.entity_ref ≡ "component:default/redis")
    × IsObserved (redis ∷ []) board e.name fail
unfolding is_id is_id_from verified_state board_state_of collect verified_rows
    verified_health_by_service_id lookup insert name_count projected_state project_entries
    project_site_health
project_site_health-IsObserved_example =
    project_site_health-IsObserved (redis ∷ []) board "component:default/redis" fail
      (Memᴰ.head refl) (λ e. absurd (ground arith))
