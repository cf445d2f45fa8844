-- ===== src/ProbePolicy/Counts.antt =====
-- nabla/api/homelab_probe_policy.py: how often an id occurs after sorting, filtering and cutting.
use fastapi_sample.Prelude.{
  String, ℕ, zero, suc, ◌+◌, ◌≤◌, ◌≡◌, refl, Bool, true, false, List, [], ◌∷◌, ◌++◌, keep, take,
  count, arith, eq_iff,
}
use fastapi_sample.ProbePolicy.{
  HomelabService, has_priority, is_listed, catalog_before, bootstrap_before, insert_sorted, sorted,
  ranked_priorities, has_id, id_in, unique_from, unique_services, fixed_part,
}

-- How many services have the id.
abbrev pub occurrences : String → List HomelabService → ℕ
occurrences id items = count (has_id id) items

pub occurrences-append :
    (id : String) (xs ys : List HomelabService)
    → occurrences id (xs ++ ys) ≡ occurrences id xs + occurrences id ys
occurrences-append id [] ys = omega arith
occurrences-append id (x ∷ xs) ys = ground (arith, occurrences-append id xs ys)

occurrences-insert_sorted :
    (less : HomelabService → HomelabService → Bool) (id : String) (x : HomelabService)
    (ys : List HomelabService)
    → occurrences id (insert_sorted less x ys) ≡ occurrences id (x ∷ ys)
unfolding insert_sorted
occurrences-insert_sorted less id x [] = refl
occurrences-insert_sorted less id x (y ∷ ys) =
    ground (arith, occurrences-insert_sorted less id x ys)

occurrences-sorted :
    (less : HomelabService → HomelabService → Bool) (id : String) (xs : List HomelabService)
    → occurrences id (sorted less xs) ≡ occurrences id xs
unfolding sorted
occurrences-sorted less id [] = refl
occurrences-sorted less id (x ∷ xs) =
    ground
      (arith, occurrences-insert_sorted less id x (sorted less xs), occurrences-sorted less id xs)

pub occurrences-keep-le :
    (p : HomelabService → Bool) (id : String) (xs : List HomelabService)
    → occurrences id (keep p xs) ≤ occurrences id xs
occurrences-keep-le p id [] = omega arith
occurrences-keep-le p id (x ∷ xs) = ground (arith, occurrences-keep-le p id xs)

pub occurrences-take-le :
    (n : ℕ) (id : String) (xs : List HomelabService)
    → occurrences id (take n xs) ≤ occurrences id xs
occurrences-take-le zero id xs = omega arith
occurrences-take-le (suc n) id [] = omega arith
occurrences-take-le (suc n) id (x ∷ xs) = ground (arith, occurrences-take-le n id xs)

pub occurrences-ranked-le :
    (id : String) (xs : List HomelabService)
    → occurrences id (ranked_priorities xs) ≤ occurrences id xs
unfolding ranked_priorities
occurrences-ranked-le id xs = ground (
  arith,
  occurrences-sorted catalog_before id (keep has_priority xs),
  occurrences-sorted bootstrap_before id (keep is_listed xs),
  occurrences-keep-le has_priority id xs,
  occurrences-keep-le is_listed id xs,
)

-- The fixed part takes each service at most as often as it is given.
pub occurrences-fixed_part-le :
    (id : String) (xs : List HomelabService) (limit : ℕ)
    → occurrences id (fixed_part xs limit) ≤ occurrences id xs
unfolding fixed_part
occurrences-fixed_part-le id xs limit =
    omega (arith, occurrences-take-le _ id (ranked_priorities xs), occurrences-ranked-le id xs)

pub occurrences_of_not-in :
    (id : String) (xs : List HomelabService) → id_in xs id ≡ false → occurrences id xs ≡ 0
unfolding id_in
occurrences_of_not-in id [] h = refl
occurrences_of_not-in id (x ∷ xs) h = ground (arith, occurrences_of_not-in id xs)

unique_from-occurrences :
    (id : String) (seen xs : List HomelabService)
    → (occurrences id (unique_from seen xs) ≤ 1)
      × (id_in seen id ≡ true → occurrences id (unique_from seen xs) ≡ 0)
unfolding unique_from id_in
unique_from-occurrences id seen [] = (omega arith, λ _. refl)
unique_from-occurrences id seen (x ∷ xs) = ground (
  arith,
  eq_iff x.service_id id,
  unique_from-occurrences id seen xs,
  unique_from-occurrences id (x ∷ seen) xs,
)

-- After the deduplication no id occurs twice.
pub unique_services-occurrences :
    (id : String) (xs : List HomelabService) → occurrences id (unique_services xs) ≤ 1
unfolding unique_services
unique_services-occurrences id xs = (unique_from-occurrences id [] xs).0
