-- ===== src/ProbePolicy/Rotation.antt =====
-- nabla/api/homelab_probe_policy.py: the rotation reaches every service within its cycle.
use native.Mathlib.Nat.{zero-add}
use fastapi_sample.Prelude.{
  String, ℕ, ◌+◌, ◌-◌, ◌*◌, ◌/◌, ◌%◌, ◌<◌, ◌≡◌, ◌⊎◌, inl, inr, true, false, not, Bool-cases, ◌&&◌,
  min, length-take, List, ◌++◌, Memᴰ, some, length, get_elem?, get_elem?-Mem, Mem-append_left,
  Mem-append_right, keep-Mem, any-Mem, ltb, leb, arith, eq_iff,
}
use fastapi_sample.ProbePolicy.{
  HomelabService, has_id, id_in, unique_services, reserved_slots, ranked_priorities, fixed_part,
  probe_partitions, health_cache_ttl, select_probe_subset, ceil_div, estimated_full_cycle,
}
use fastapi_sample.ProbePolicy.Members.{Mem-fixed_part, distinct_same}
use fastapi_sample.ProbePolicy.Counts.{unique_services-occurrences}
use fastapi_sample.ProbePolicy.Budget.{
  rotating_part, window_at, select_probe_subset-IsRotation, rotating_part-overflow,
  length-fixed_part-le,
}
use fastapi_sample.ProbePolicy.Turns.{window-Mem, rotation_arith, round_lt, later_bucket}

id_in-Mem :
    (xs : List HomelabService) (id : String)
    → id_in xs id ≡ true
    → (a : HomelabService) × Memᴰ a xs × (a.service_id ≡ id)
unfolding id_in
id_in-Mem xs id h = let (a, m, e) = any-Mem (has_id id) xs h in (a, m, (eq_iff a.service_id id).0 e)

-- Every distinct service is in the fixed part or in the rotation.
fixed-or-rotating :
    (given : List HomelabService) (limit : ℕ) (service : HomelabService)
    → Memᴰ service (unique_services given)
    → (let services = unique_services given in
        let fixed = fixed_part services limit in
        Memᴰ service fixed ⊎ Memᴰ service (rotating_part fixed services))
fixed-or-rotating given limit service m =
    let services = unique_services given in
    let fixed = fixed_part services limit in
    elim (Bool-cases (id_in fixed service.service_id)) [
      | inl e ↦
          let (a, found, same) = id_in-Mem fixed service.service_id e in
          let equal =
            distinct_same services a service (λ id. unique_services-occurrences id given)
              (Mem-fixed_part services limit found) m same in
          inl (rw (← equal) found)
      | inr e ↦ inr (keep-Mem (λ item. not (id_in fixed item.service_id)) services m (rw e))
    ]

stands_at :
    (remainder : List HomelabService) (slots now k o j : ℕ) (service : HomelabService)
    → (((now / health_cache_ttl + k) * slots) % length remainder + o) % length remainder ≡ j
    → get_elem? remainder j ≡ some service
    → get_elem? remainder (
        ((((now + k * health_cache_ttl) / health_cache_ttl) * slots) % length remainder + (0 + o))
        % length remainder)
      ≡ some service
stands_at remainder slots now k o j service place stands =
    rw (later_bucket now k, zero-add o, place) stands

-- The rotation reaches a rotating service within as many rounds as its cycle has.
rotating-reached :
    (remainder : List HomelabService) (slots now : ℕ) (service : HomelabService)
    → 0 < slots
    → Memᴰ service remainder
    → (k : ℕ) × (k < ceil_div (length remainder) slots)
      × ((w : List HomelabService)
          → window_at remainder slots (now + k * health_cache_ttl) ≡ some w
          → Memᴰ service w)
rotating-reached remainder slots now service h m =
    let (j, below, stands) = get_elem?-Mem remainder m in
    let (k, o, round, offset, place) =
      rotation_arith (now / health_cache_ttl) slots (length remainder) j h below in
    (
      k,
      round,
      λ w e.
          window-Mem remainder _ 0 slots o w service offset e
            (stands_at remainder slots now k o j service place stands),
    )

-- What a positive answer of `estimated_full_cycle` says of the partition.
estimated-parts :
    (given : List HomelabService) (limit cycle : ℕ)
    → estimated_full_cycle given limit ≡ some cycle
    → limit < length (unique_services given)
    → (let services = unique_services given in
        let fixed = fixed_part services limit in
        (0 < limit)
        × (0 < limit - length fixed)
        × (health_cache_ttl
              * ceil_div (length (rotating_part fixed services)) (limit - length fixed)
            ≡ cycle))
unfolding estimated_full_cycle probe_partitions
estimated-parts given limit cycle e over = ground arith

cycle-pos :
    (r slots cycle : ℕ)
    → 0 < slots
    → 0 < r
    → health_cache_ttl * ceil_div r slots ≡ cycle
    → 0 < cycle
cycle-pos r slots cycle h b total = omega (arith, round_lt 0 slots r h b)

abbrev IsReached : List HomelabService → ℕ → ℕ → ℕ → HomelabService → Type 0
IsReached given limit cycle now service =
    (k : ℕ) × (selected : List HomelabService) × (k * health_cache_ttl < cycle)
    × (select_probe_subset given limit (now + k * health_cache_ttl) ≡ some selected)
    × Memᴰ service selected

-- With room for all, every refresh probes every service.
reaches_fitting :
    (given : List HomelabService) (limit cycle now : ℕ) (service : HomelabService)
    → estimated_full_cycle given limit ≡ some cycle
    → Memᴰ service (unique_services given)
    → leb (length (unique_services given)) limit ≡ true
    → IsReached given limit cycle now service
unfolding estimated_full_cycle select_probe_subset
reaches_fitting given limit cycle now service e m fits =
    let found : (0 < limit) × (health_cache_ttl ≡ cycle) = ground arith in
    let some_places : leb limit 0 ≡ false = ground arith in
    (0, unique_services given, omega arith, rw (some_places, fits), m)

reaches_over :
    (given : List HomelabService) (limit cycle now : ℕ) (service : HomelabService)
    → estimated_full_cycle given limit ≡ some cycle
    → Memᴰ service (unique_services given)
    → limit < length (unique_services given)
    → IsReached given limit cycle now service
reaches_over given limit cycle now service e m over =
    let services = unique_services given in
    let fixed = fixed_part services limit in
    let (places, slots, total) = estimated-parts given limit cycle e over in
    elim (fixed-or-rotating given limit service m) [
      | inl f ↦
          let (rotating, r) =
            select_probe_subset-IsRotation given limit (now + 0 * health_cache_ttl) places over in
          (
            0,
            fixed ++ rotating,
            cycle-pos (length (rotating_part fixed services)) (limit - length fixed) cycle slots
                (omega (
                  arith,
                  rotating_part-overflow given limit over,
                  length-fixed_part-le services limit,
                ))
                total,
            r.selected,
            Mem-append_left fixed rotating f,
          )
      | inr f ↦
          let (k, round, taken) =
            rotating-reached (rotating_part fixed services) (limit - length fixed) now service slots
              f in
          let (rotating, r) =
            select_probe_subset-IsRotation given limit (now + k * health_cache_ttl) places over in
          (
            k,
            fixed ++ rotating,
            omega arith,
            r.selected,
            Mem-append_right fixed rotating (taken rotating r.taken),
          )
    ]

-- The estimate of a full cycle is right: from any time on, every eligible service is probed by a
-- refresh that starts a whole number of cache periods later and before the estimated cycle is over.
pub select_probe_subset-reaches :
    (given : List HomelabService) (limit cycle now : ℕ) (service : HomelabService)
    → estimated_full_cycle given limit ≡ some cycle
    → Memᴰ service (unique_services given)
    → (k : ℕ) × (selected : List HomelabService) × (k * health_cache_ttl < cycle)
      × (select_probe_subset given limit (now + k * health_cache_ttl) ≡ some selected)
      × Memᴰ service selected
select_probe_subset-reaches given limit cycle now service e m =
    elim (Bool-cases (leb (length (unique_services given)) limit)) [
      | inl fits ↦ reaches_fitting given limit cycle now service e m fits
      | inr over ↦ reaches_over given limit cycle now service e m (ground arith)
    ]

-- With a limit above three, the fixed part leaves places to the rotation.
fixed_part-leaves :
    (services : List HomelabService) (limit : ℕ)
    → 3 < limit
    → limit < length services
    → 0 < limit - length (fixed_part services limit)
unfolding fixed_part reserved_slots
fixed_part-leaves services limit h k =
    let reserved : ltb 3 limit && ltb limit (length services) ≡ true = ground arith in
    rw reserved
      (omega (arith, length-take (limit - min 2 (limit - 3)) (ranked_priorities services)))

-- With a limit above three the budget always keeps rotating places, so that a cycle is estimated
-- whenever there is anything to probe.
pub estimated_full_cycle-some :
    (given : List HomelabService) (limit : ℕ)
    → 3 < limit
    → 0 < length (unique_services given)
    → (cycle : ℕ) × (estimated_full_cycle given limit ≡ some cycle)
unfolding estimated_full_cycle probe_partitions
estimated_full_cycle-some given limit h k =
    let services = unique_services given in
    let fixed = fixed_part services limit in
    elim (Bool-cases (leb (length services) limit)) [
      | inl fits ↦ (health_cache_ttl, ground arith)
      | inr over ↦ (
        health_cache_ttl * ceil_div (length (rotating_part fixed services)) (limit - length fixed),
        let left = fixed_part-leaves services limit h (ground arith) in ground arith,
      )
    ]
