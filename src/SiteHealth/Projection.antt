-- ===== src/SiteHealth/Projection.antt =====
-- nabla/api/site_health_v2.py: what a public state other than unknown rests on.
use fastapi_sample.Prelude.{
  String, ◌≡◌, ◌≢◌, refl, false, List, [], ◌∷◌, some, arith, Option-cases, Bool-cases, ◌⊎◌, inl,
  inr, Memᴰ, sym, ap, ◌∙◌,
}
use fastapi_sample.Prelude.Dict.{lookup}
use fastapi_sample.SiteHealth.{
  State, BoardState, unknown, fresh, stale, pending, Row, Board, is_id, verified_state,
  board_state_of, verified_health_by_service_id, Entity, name_count, projected_state,
  project_entries, project_site_health,
}
use fastapi_sample.SiteHealth.Rows.{
  rows_of, first_row, verified_health_by_service_id-lem, verified_health_by_service_id-malformed,
  verified_health_by_service_id-old,
}

-- What an observed state of a name rests on.
pub record IsObserved (entities : List Entity) (board : Board) (name : String) (state : State)
    : Type 0 where
  pub is_fresh : board_state_of board ≡ fresh
  pub one_entity : name_count name entities ≡ 1
  pub one_row : rows_of name board.services ≡ 1
  pub row : Row
  pub found : first_row name board.services ≡ some row
  pub is_current : (row.observation_stale ≡ false) × (row.probe_stale ≡ false)
  pub has_state : verified_state row ≡ state

verified_state-current :
    (row : Row)
    → verified_state row ≢ unknown
    → (row.observation_stale ≡ false) × (row.probe_stale ≡ false)
unfolding verified_state
verified_state-current row h = ground arith

fresh_or_not : (state : BoardState) → (state ≡ fresh) ⊎ (state ≢ fresh)
fresh_or_not fresh = inl refl
fresh_or_not stale = inr (ground arith)
fresh_or_not pending = inr (ground arith)

lookup-observed :
    (board : Board) (name : String) (state : State)
    → lookup name (verified_health_by_service_id board).1 ≡ some state
    → (board_state_of board ≡ fresh)
      × (rows_of name board.services ≡ 1)
      × (row : Row) × (first_row name board.services ≡ some row)
      × (verified_state row ≡ state)
lookup-observed board name state e = elim (fresh_or_not (board_state_of board)) [
  | inr old ↦ absurd (ground (arith, verified_health_by_service_id-old name board old))
  | inl new ↦ elim (Bool-cases (is_id name)) [
    | inr bad ↦ absurd (ground (arith, verified_health_by_service_id-malformed name board bad))
    | inl good ↦ elim (Option-cases (first_row name board.services)) [
      | inl e0 ↦ absurd (ground (arith, verified_health_by_service_id-lem name board new good))
      | inr (row, found) ↦ (
        new,
        ground (arith, verified_health_by_service_id-lem name board new good),
        row,
        found,
        ground (arith, verified_health_by_service_id-lem name board new good),
      )
    ]
  ]
]

projected_state-IsObserved :
    (entities : List Entity) (board : Board) (name : String)
    → (let state = projected_state (verified_health_by_service_id board).1 entities name in
        state ≢ unknown → IsObserved entities board name state)
unfolding projected_state
projected_state-IsObserved entities board name known =
    let states = (verified_health_by_service_id board).1 in
    elim (Option-cases (lookup name states)) [
      | inl missing ↦ absurd (ground arith)
      | inr (state, there) ↦
          let (new, single, row, found, has) = lookup-observed board name state there in
          let same : projected_state states entities name ≡ state = ground arith in
          record {
            is_fresh = new;
            one_entity = ground arith;
            one_row = single;
            row = row;
            found = found;
            is_current = verified_state-current row (ground arith);
            has_state = has ∙ sym same;
          }
    ]

-- An entry of the projection is that of an entity.
project_entries-Mem :
    (states : List (String × State)) (entities es : List Entity) (ref : String) (state : State)
    → Memᴰ (ref, state) (project_entries states entities es)
    → (e : Entity) × Memᴰ e es
      × (e.entity_ref ≡ ref)
      × (projected_state states entities e.name ≡ state)
unfolding project_entries
project_entries-Mem states entities [] ref state m = elim m [ ]
project_entries-Mem states entities (e ∷ es) ref state (Memᴰ.head same) =
    (e, Memᴰ.head refl, sym (ap (λ p. p.0) same), sym (ap (λ p. p.1) same))
project_entries-Mem states entities (e ∷ es) ref state (Memᴰ.tail m) =
    let (f, there, named, has) = project_entries-Mem states entities es ref state m in
    (f, Memᴰ.tail there, named, has)

-- Every state but unknown that is published for an entity rests on one current observation: the
-- board is fresh, exactly one of its rows has the entity's name as its id, that row is not stale and
-- shows the state, and no other entity of the catalog has the name.
pub project_site_health-IsObserved :
    (entities : List Entity) (board : Board) (ref : String) (state : State)
    → Memᴰ (ref, state) (project_site_health entities board).1
    → state ≢ unknown
    → (e : Entity) × Memᴰ e entities × (e.entity_ref ≡ ref) × IsObserved entities board e.name state
unfolding project_site_health
project_site_health-IsObserved entities board ref state m known =
    let states = (verified_health_by_service_id board).1 in
    let (e, there, named, has) = project_entries-Mem states entities entities ref state m in
    (
      e,
      there,
      named,
      rw has at (projected_state-IsObserved entities board e.name (λ bad. known (sym has ∙ bad))),
    )
