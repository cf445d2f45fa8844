-- ===== src/SiteHealth/Rows.antt =====
-- nabla/api/site_health_v2.py: which row a service's state comes from.
use fastapi_sample.Prelude.{
  String, ℕ, ◌≡◌, ◌≢◌, refl, Bool, true, false, ◌||◌, ◌==◌, List, [], ◌∷◌, count, Option, none,
  some, leb, eqb, if◌then◌else◌, arith, eq_iff, Option-cases, inl, inr,
}
use fastapi_sample.Prelude.Dict.{lookup, insert, lookup-insert}
use fastapi_sample.SiteHealth.{
  State, fresh, Row, Board, is_id, verified_state, board_state_of, collect, is_in, verified_rows,
  verified_health_by_service_id,
}

-- The rows that speak of a service: how many, and the first.
abbrev pub speaks_of : String → Row → Bool
speaks_of key row = elim row.id [ none ↦ false | some k ↦ k == key ]

abbrev pub rows_of : String → List Row → ℕ
rows_of key rows = count (speaks_of key) rows

unfoldable pub first_row : String → List Row → Option Row
first_row key [] = none
first_row key (row ∷ rows) = if speaks_of key row then some row else first_row key rows

abbrev or_row : Option Row → Option Row → Option Row
or_row none r = r
or_row (some r) _ = some r

abbrev has_row : Option Row → Bool
has_row none = false
has_row (some _) = true

lookup-collect :
    (key : String) (rows : List Row) (by_id : List (String × Row)) (duplicates : List String)
    → is_id key ≡ true
    → lookup key (collect rows by_id duplicates).0 ≡ or_row (lookup key by_id) (first_row key rows)
unfolding collect first_row
lookup-collect key [] by_id duplicates h = ground (arith, Option-cases (lookup key by_id))
lookup-collect key (row ∷ rows) by_id duplicates h = elim (Option-cases row.id) [
  | inl e ↦ ground (arith, lookup-collect key rows by_id duplicates h)
  | inr (k, e) ↦ ground (
    arith,
    eq_iff k key,
    Option-cases (lookup k by_id),
    lookup-collect key rows by_id duplicates h,
    lookup-collect key rows by_id (k ∷ duplicates) h,
    lookup-collect key rows (insert k row by_id) duplicates h,
    lookup-insert k key row by_id,
  )
]

is_in-collect :
    (key : String) (rows : List Row) (by_id : List (String × Row)) (duplicates : List String)
    → is_id key ≡ true
    → is_in key (collect rows by_id duplicates).1 ≡ (
        is_in key duplicates
        || (if has_row (lookup key by_id)
            then leb 1 (rows_of key rows)
            else leb 2 (rows_of key rows)))
unfolding collect
is_in-collect key [] by_id duplicates h = ground arith
is_in-collect key (row ∷ rows) by_id duplicates h = elim (Option-cases row.id) [
  | inl e ↦ ground (arith, is_in-collect key rows by_id duplicates h)
  | inr (k, e) ↦ ground (
    arith,
    eq_iff k key,
    Option-cases (lookup k by_id),
    is_in-collect key rows by_id duplicates h,
    is_in-collect key rows by_id (k ∷ duplicates) h,
    is_in-collect key rows (insert k row by_id) duplicates h,
    lookup-insert k key row by_id,
  )
]

-- An id that is not well formed has no row.
lookup-collect_malformed :
    (key : String) (rows : List Row) (by_id : List (String × Row)) (duplicates : List String)
    → is_id key ≡ false
    → lookup key (collect rows by_id duplicates).0 ≡ lookup key by_id
unfolding collect
lookup-collect_malformed key [] by_id duplicates h = refl
lookup-collect_malformed key (row ∷ rows) by_id duplicates h = elim (Option-cases row.id) [
  | inl e ↦ ground (arith, lookup-collect_malformed key rows by_id duplicates h)
  | inr (k, e) ↦ ground (
    arith,
    eq_iff k key,
    Option-cases (lookup k by_id),
    lookup-collect_malformed key rows by_id duplicates h,
    lookup-collect_malformed key rows by_id (k ∷ duplicates) h,
    lookup-collect_malformed key rows (insert k row by_id) duplicates h,
    lookup-insert k key row by_id,
  )
]

abbrev pub state_of : Option Row → Option State
state_of none = none
state_of (some row) = some (verified_state row)

lookup-verified_rows :
    (key : String) (by_id : List (String × Row)) (duplicates : List String)
    → lookup key (verified_rows by_id duplicates)
      ≡ (if is_in key duplicates then none else state_of (lookup key by_id))
unfolding lookup verified_rows
lookup-verified_rows key [] duplicates = ground arith
lookup-verified_rows key ((k, row) ∷ by_id) duplicates =
    ground (arith, eq_iff k key, lookup-verified_rows key by_id duplicates)

first_row-count :
    (key : String) (rows : List Row) → has_row (first_row key rows) ≡ leb 1 (rows_of key rows)
unfolding first_row
first_row-count key [] = refl
first_row-count key (row ∷ rows) = ground (arith, first_row-count key rows)

-- On a fresh board, a well-formed id has the state of its row if it has exactly one, and else none.
pub verified_health_by_service_id-lem :
    (key : String) (board : Board)
    → board_state_of board ≡ fresh
    → is_id key ≡ true
    → lookup key (verified_health_by_service_id board).1 ≡ (
        if eqb (rows_of key board.services) 1
        then state_of (first_row key board.services)
        else none)
unfolding verified_health_by_service_id lookup
verified_health_by_service_id-lem key board new h =
    let by_id = (collect board.services [] []).0 in
    let duplicates = (collect board.services [] []).1 in
    rw
      (
        new,
        verified_health_by_service_id,
        lookup-verified_rows key by_id duplicates,
        lookup-collect key board.services [] [] h,
        is_in-collect key board.services [] [] h,
      )
      (ground
        (arith, first_row-count key board.services, Option-cases (first_row key board.services)))

pub verified_health_by_service_id-malformed :
    (key : String) (board : Board)
    → is_id key ≡ false
    → lookup key (verified_health_by_service_id board).1 ≡ none
unfolding verified_health_by_service_id lookup
verified_health_by_service_id-malformed key board h = ground (
  arith,
  lookup-verified_rows key (collect board.services [] []).0 (collect board.services [] []).1,
  lookup-collect_malformed key board.services [] [] h,
)

pub verified_health_by_service_id-old :
    (key : String) (board : Board)
    → board_state_of board ≢ fresh
    → lookup key (verified_health_by_service_id board).1 ≡ none
unfolding verified_health_by_service_id lookup
verified_health_by_service_id-old key board h = ground arith
