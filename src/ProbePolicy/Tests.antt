-- ===== src/ProbePolicy/Tests.antt =====
-- nabla/api/homelab_probe_policy.py: the selection on a concrete catalog.
use fastapi_sample.Prelude.{
  ◌≡◌, refl, ℕ, ◌<◌, ◌≤◌, ◌*◌, ◌+◌, min, none, some, List, [], ◌∷◌, String, length, Memᴰ,
}
use fastapi_sample.ProbePolicy.{
  HomelabService, health_cache_ttl, priority_source, catalog_before, bootstrap_before, rank_from,
  insert_sorted, sorted, ranked_priorities, id_in, unique_from, unique_services, reserved_slots,
  fixed_part, probe_partitions, select_probe_subset, estimated_full_cycle,
}
use fastapi_sample.ProbePolicy.Budget.{length-select_probe_subset}
use fastapi_sample.ProbePolicy.Counts.{occurrences}
use fastapi_sample.ProbePolicy.Distinct.{select_probe_subset-once}
use fastapi_sample.ProbePolicy.Rotation.{select_probe_subset-reaches}

abbrev plain : String → HomelabService
plain id = record { service_id = id; probe_priority = none; details = "" }

abbrev services : List HomelabService
services =
    plain "a" ∷ plain "redis" ∷ plain "b" ∷ plain "a" ∷ plain "c" ∷ plain "d" ∷ plain "e" ∷ []

cycle_of_services : estimated_full_cycle services 4 ≡ some 60_000_000
unfolding priority_source catalog_before bootstrap_before rank_from insert_sorted sorted
    ranked_priorities id_in unique_from unique_services reserved_slots fixed_part probe_partitions
    estimated_full_cycle
cycle_of_services = refl

length-select_probe_subset_example :
    (selected : List HomelabService) × (select_probe_subset services 4 90_000_000 ≡ some selected)
    × (length selected ≡ min 4 (length (unique_services services)))
length-select_probe_subset_example = length-select_probe_subset services 4 90_000_000

select_probe_subset-reaches_example :
    (k : ℕ) × (selected : List HomelabService) × (k * health_cache_ttl < 60_000_000)
    × (select_probe_subset services 4 (90_000_000 + k * health_cache_ttl) ≡ some selected)
    × Memᴰ (plain "redis") selected
unfolding id_in unique_from unique_services
select_probe_subset-reaches_example =
    select_probe_subset-reaches services 4 60_000_000 90_000_000 (plain "redis") cycle_of_services
      (Memᴰ.tail (Memᴰ.head refl))

select_probe_subset-once_example : occurrences "a" (plain "a" ∷ plain "redis" ∷ []) ≤ 1
unfolding id_in unique_from unique_services select_probe_subset
select_probe_subset-once_example =
    select_probe_subset-once (plain "a" ∷ plain "redis" ∷ plain "a" ∷ []) 4 0
      (plain "a" ∷ plain "redis" ∷ []) "a" refl
