-- ===== src/RoutePolicy/Segments.antt =====
-- nabla/route_policy.py, `within`: a route prefix matches at segment boundaries only.
use Prim.Native.String
use text.Mathlib.TextEquality.{starts_with_iff}
use fastapi_sample.Prelude.{String, ◌≡◌, ◌↔◌, ◌⊎◌, inl, inr, Bool-cases, true, ◌==◌, arith, eq_iff}
use fastapi_sample.RoutePolicy.{within}

-- A path lies within a prefix exactly when it is the prefix, or the prefix, a slash and a rest.
pub within_iff :
    (path prefix : String)
    → (within path prefix ≡ true)
      ↔ ((path ≡ prefix) ⊎ ((rest : String) × (String.◌++◌ (String.◌++◌ prefix "/") rest ≡ path)))
unfolding within
within_iff path prefix = (to, from)
  where
    folder : String
    folder = String.◌++◌ prefix "/"

    to :
        within path prefix ≡ true
        → (path ≡ prefix) ⊎ ((rest : String) × (String.◌++◌ folder rest ≡ path))
    to h = elim (Bool-cases (path == prefix)) [
      | inl same ↦ inl ((eq_iff path prefix).0 same)
      | inr other ↦ inr ((starts_with_iff path folder).0 (ground arith))
    ]

    from :
        (path ≡ prefix) ⊎ ((rest : String) × (String.◌++◌ folder rest ≡ path))
        → within path prefix ≡ true
    from (inl e) = ground (arith, (eq_iff path prefix).1 e)
    from (inr longer) = ground (arith, (starts_with_iff path folder).1 longer)
