-- ===== src/SiteHealth.antt =====
-- nabla/api/site_health_v2.py: which observations of the health board become public states. A value
-- of another type than a row's field wants reads as missing.
pub mod Rows
pub mod Projection
mod Tests
use Prim.Native.Char.{Char, code}
use Prim.Native.String
use fastapi_sample.Prelude.{
  String, ℕ, zero, suc, Bool, true, false, not, ◌&&◌, ◌||◌, ◌==◌, List, [], ◌∷◌, any, count, map,
  Option, none, some, leb, eqb, if◌then◌else◌,
}
use fastapi_sample.Prelude.Dict.{lookup, insert}

pub data State : Type 0 where
  ok warn fail unknown : State

pub data BoardState : Type 0 where
  fresh stale pending : BoardState

-- What `get` finds in a row: a text; another value that is true; or nothing, or a value that is false.
pub data Field : Type 0 where
  text : String → Field
  other : Field
  absent : Field

pub record Row : Type 0 where
  pub id : Option String
  pub observation_stale : Bool
  pub probe_stale : Bool
  pub effective_state : Field
  pub state : Field

-- The board, with the rows that are dictionaries.
pub record Board : Type 0 where
  pub state : Option String
  pub services : List Row

abbrev is_id_char : Char → Bool
is_id_char c = (leb b'a' (code c) && leb (code c) b'z') || (leb b'0' (code c) && leb (code c) b'9')

-- `_ID.fullmatch`: words of letters and digits with one dash between two; `word` tells whether a
-- character of the current word was read.
unfoldable pub is_id_from : Bool → String → Bool
is_id_from word String.[] = word
is_id_from word (String.◌∷◌ c s) =
    let in_word = is_id_from true s in
    let next_word = is_id_from false s in
    if is_id_char c then in_word else word && eqb (code c) b'-' && next_word

unfoldable pub is_id : String → Bool
is_id s = is_id_from false s

abbrev state_named : String → State
state_named name =
    if name == "ok"
    then ok
    else if name == "warn"
    then warn
    else if name == "fail"
    then fail
    else unknown

abbrev named_by : Field → State
named_by (text s) = state_named s
named_by other = unknown
named_by absent = unknown

-- `row.get("effective_state") or row.get("state")`
abbrev first_true : Field → Field → Field
first_true (text s) state = if s == "" then state else text s
first_true other state = other
first_true absent state = state

unfoldable pub verified_state : Row → State
verified_state row =
    if row.observation_stale || row.probe_stale
    then unknown
    else named_by (first_true row.effective_state row.state)

unfoldable pub board_state_of : Board → BoardState
board_state_of board = elim board.state [
  | none ↦ pending
  | some s ↦ if s == "fresh" then fresh else if s == "stale" then stale else pending
]

-- `by_id` and `duplicates`, filled by the loop over the rows.
unfoldable pub collect :
    List Row → List (String × Row) → List String → List (String × Row) × List String
collect [] by_id duplicates = (by_id, duplicates)
collect (row ∷ rows) by_id duplicates =
    let next = collect rows by_id duplicates in
    elim row.id [
      | none ↦ next
      | some key ↦
          let again = collect rows by_id (key ∷ duplicates) in
          let added = collect rows (insert key row by_id) duplicates in
          if not (is_id key)
          then next
          else elim (lookup key by_id) [ some _ ↦ again | none ↦ added ]
    ]

abbrev pub is_in : String → List String → Bool
is_in key keys = any (λ k. k == key) keys

-- The final comprehension.
unfoldable pub verified_rows : List (String × Row) → List String → List (String × State)
verified_rows [] duplicates = []
verified_rows ((key, row) ∷ by_id) duplicates =
    let rest = verified_rows by_id duplicates in
    if is_in key duplicates then rest else (key, verified_state row) ∷ rest

unfoldable pub verified_health_by_service_id : Board → BoardState × List (String × State)
verified_health_by_service_id board =
    let state = board_state_of board in
    let (by_id, duplicates) = collect board.services [] [] in
    (state, elim state [ fresh ↦ verified_rows by_id duplicates | stale ↦ [] | pending ↦ [] ])

-- A catalog entity that is a Component, a Resource or an API.
pub record Entity : Type 0 where
  pub entity_ref : String
  pub name : String

unfoldable pub name_count : String → List Entity → ℕ
name_count name entities = count (λ e. e.name == name) entities

unfoldable pub projected_state : List (String × State) → List Entity → String → State
projected_state states entities name =
    let known : State = elim (lookup name states) [ none ↦ unknown | some s ↦ s ] in
    if eqb (name_count name entities) 1 then known else unknown

-- The entries of `project_site_health_v2`, over the catalog's relevant entities.
unfoldable pub project_entries :
    List (String × State) → List Entity → List Entity → List (String × State)
project_entries states entities [] = []
project_entries states entities (e ∷ es) =
    (e.entity_ref, projected_state states entities e.name) ∷ project_entries states entities es

unfoldable pub project_site_health : List Entity → Board → BoardState × List (String × State)
project_site_health entities board =
    let (state, states) = verified_health_by_service_id board in
    (state, project_entries states entities entities)
