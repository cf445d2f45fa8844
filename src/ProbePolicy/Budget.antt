-- ===== src/ProbePolicy/Budget.antt =====
-- nabla/api/homelab_probe_policy.py: a refresh probes exactly as many services as it may.
use fastapi_sample.Prelude.{
  String, ℕ, zero, suc, ◌+◌, ◌-◌, ◌*◌, ◌/◌, ◌%◌, ◌≤◌, ◌<◌, min, ◌≡◌, refl, ◌∙◌, inl, inr, false,
  not, Bool-cases, List, [], ◌∷◌, ◌++◌, Option, some, keep, length, length-append, length-take,
  get_elem?-some, leb, eqb, arith, eq_iff,
}
use fastapi_sample.ProbePolicy.{
  HomelabService, id_in, unique_services, reserved_slots, ranked_priorities, fixed_part,
  probe_partitions, health_cache_ttl, window, rotate, select_probe_subset,
}
use fastapi_sample.ProbePolicy.Counts.{occurrences, unique_services-occurrences}

-- The rotating part of a list, next to a fixed part.
abbrev pub rotating_part : List HomelabService → List HomelabService → List HomelabService
rotating_part fixed services = keep (λ item. not (id_in fixed item.service_id)) services

length-rotating_part-cons :
    (f : HomelabService) (fs xs : List HomelabService)
    → length (rotating_part fs xs)
      ≤ length (rotating_part (f ∷ fs) xs) + occurrences f.service_id xs
unfolding id_in
length-rotating_part-cons f fs [] = omega arith
length-rotating_part-cons f fs (x ∷ xs) = ground (
  arith,
  eq_iff f.service_id x.service_id,
  eq_iff x.service_id f.service_id,
  length-rotating_part-cons f fs xs,
)

length-rotating_part-nil : (xs : List HomelabService) → length (rotating_part [] xs) ≡ length xs
unfolding id_in
length-rotating_part-nil [] = refl
length-rotating_part-nil (x ∷ xs) = omega (arith, length-rotating_part-nil xs)

-- Among distinct services, each fixed one takes at most one place from the rotation.
pub length-rotating_part :
    (fixed xs : List HomelabService)
    → ((id : String) → occurrences id xs ≤ 1)
    → length xs ≤ length (rotating_part fixed xs) + length fixed
length-rotating_part [] xs distinct = omega (arith, length-rotating_part-nil xs)
length-rotating_part (f ∷ fs) xs distinct = omega (
  arith,
  length-rotating_part fs xs distinct,
  length-rotating_part-cons f fs xs,
  distinct f.service_id,
)

pub length-fixed_part-le :
    (xs : List HomelabService) (limit : ℕ) → length (fixed_part xs limit) ≤ limit
unfolding fixed_part
length-fixed_part-le xs limit =
    omega (arith, length-take (limit - reserved_slots xs limit) (ranked_priorities xs))

pub length-window :
    (remainder : List HomelabService) (start offset n : ℕ)
    → 0 < length remainder
    → (w : List HomelabService) × (window remainder start offset n ≡ some w) × (length w ≡ n)
unfolding window
length-window remainder start offset zero h = ([], refl, refl)
length-window remainder start offset (suc n) h =
    let (item, found) =
      get_elem?-some remainder ((start + offset) % length remainder) (omega arith) in
    let (items, rest, size) = length-window remainder start (offset + 1) n h in
    (item ∷ items, ground arith, omega arith)

leb_over : (a b : ℕ) → leb a b ≡ false → b < a
leb_over a b h = ground arith

-- What the selection computes when there are more services than places.
pub select_probe_subset-rotate :
    (given : List HomelabService) (limit now : ℕ)
    → 0 < limit
    → limit < length (unique_services given)
    → select_probe_subset given limit now ≡ (
        let services = unique_services given in
        let fixed = fixed_part services limit in
        rotate fixed (rotating_part fixed services) limit now)
unfolding select_probe_subset probe_partitions
select_probe_subset-rotate given limit now h k =
    let some_places : leb limit 0 ≡ false = ground arith in
    let too_many : leb (length (unique_services given)) limit ≡ false = ground arith in
    rw (some_places, too_many)

-- The window that `rotate` takes at a time.
abbrev pub window_at : List HomelabService → ℕ → ℕ → Option (List HomelabService)
window_at remainder slots now =
    window remainder (((now / health_cache_ttl) * slots) % length remainder) 0 slots

-- With more rotating services than slots, `rotate` fills every slot.
pub rotate-window :
    (fixed remainder : List HomelabService) (limit now : ℕ)
    → length fixed ≤ limit
    → limit < length remainder + length fixed
    → (rotating : List HomelabService) × (window_at remainder (limit - length fixed) now
        ≡ some rotating)
      × (rotate fixed remainder limit now ≡ some (fixed ++ rotating))
      × (length rotating ≡ limit - length fixed)
unfolding rotate
rotate-window fixed remainder limit now h k =
    let slots = limit - length fixed in
    let start = ((now / health_cache_ttl) * slots) % length remainder in
    let (rotating, taken, size) = length-window remainder start 0 slots (omega arith) in
    let some_left : eqb (length remainder) 0 ≡ false = ground arith in
    let all_slots : min slots (length remainder) ≡ slots = omega arith in
    (rotating, taken, rw (some_left, all_slots, taken), size)

-- The rotation keeps more services than the slots that the fixed part leaves.
pub rotating_part-overflow :
    (given : List HomelabService) (limit : ℕ)
    → limit < length (unique_services given)
    → (let services = unique_services given in
        let fixed = fixed_part services limit in
        limit < length (rotating_part fixed services) + length fixed)
rotating_part-overflow given limit h =
    let services = unique_services given in
    omega (
      arith,
      length-rotating_part (fixed_part services limit) services
          (λ id. unique_services-occurrences id given),
    )

-- What a selection looks like when there are more services than places.
pub record IsRotation (given : List HomelabService) (limit now : ℕ) (rotating : List HomelabService)
    : Type 0 where
  pub taken :
      window_at
        (rotating_part (fixed_part (unique_services given) limit) (unique_services given))
        (limit - length (fixed_part (unique_services given) limit))
        now
      ≡ some rotating
  pub selected :
      select_probe_subset given limit now
      ≡ some (fixed_part (unique_services given) limit ++ rotating)
  pub size : length (fixed_part (unique_services given) limit) + length rotating ≡ limit

pub select_probe_subset-IsRotation :
    (given : List HomelabService) (limit now : ℕ)
    → 0 < limit
    → limit < length (unique_services given)
    → (rotating : List HomelabService) × IsRotation given limit now rotating
select_probe_subset-IsRotation given limit now h k =
    let services = unique_services given in
    let fixed = fixed_part services limit in
    let bounded = length-fixed_part-le services limit in
    let (rotating, taken, result, size) =
      rotate-window fixed (rotating_part fixed services) limit now bounded
        (rotating_part-overflow given limit k) in
    (
      rotating,
      record {
        taken = taken;
        selected = select_probe_subset-rotate given limit now h k ∙ result;
        size = omega arith;
      },
    )

-- A refresh always gets its services, with no division by zero and no index out of range, and it
-- gets exactly as many as the limit allows, or all the distinct ones if there are fewer.
pub length-select_probe_subset :
    (given : List HomelabService) (limit now : ℕ)
    → (selected : List HomelabService) × (select_probe_subset given limit now ≡ some selected)
      × (length selected ≡ min limit (length (unique_services given)))
unfolding select_probe_subset
length-select_probe_subset given zero now = ([], refl, omega arith)
length-select_probe_subset given (suc n) now =
    let services = unique_services given in
    elim (Bool-cases (leb (length services) (suc n))) [
      | inl fits ↦ (services, rw fits (ground arith), ground arith)
      | inr over ↦
          let (rotating, r) =
            select_probe_subset-IsRotation given (suc n) now (omega arith) (ground arith) in
          (
            fixed_part services (suc n) ++ rotating,
            r.selected,
            omega (
              arith,
              r.size,
              length-append (fixed_part services (suc n)) rotating,
              leb_over (length services) (suc n) over,
            ),
          )
    ]
