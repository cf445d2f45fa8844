-- ===== src/ProbePolicy.antt =====
-- nabla/api/homelab_probe_policy.py: which services one refresh probes under a fixed budget.
-- Times are whole microseconds. A limit is a natural number: the code treats a negative one as 0.
pub mod Counts
pub mod Members
pub mod Budget
pub mod Turns
pub mod Distinct
pub mod Rotation
mod Tests
use text.Mathlib.Text.{is_lt}
use Prim.Native.String.{compare}
use fastapi_sample.Prelude.{
  String, ℕ, zero, suc, ◌+◌, ◌-◌, ◌*◌, ◌/◌, ◌%◌, min, max, Bool, true, false, not, ◌&&◌, ◌||◌, ◌==◌,
  List, [], ◌∷◌, ◌++◌, map, Option, none, some, any, keep, take, get_elem?, length, ltb, leb, eqb,
  if◌then◌else◌,
}

-- `HomelabService`; `details` stands for the other fields, which only the equality of two services
-- reads.
pub record HomelabService : Type 0 where
  pub service_id : String
  pub probe_priority : Option ℕ
  pub details : String

-- HEALTH_CACHE_TTL_SEC
abbrev pub health_cache_ttl : ℕ
health_cache_ttl = 30_000_000

abbrev pub priority_service_order : List String
priority_service_order =
    "garage" ∷ "garage-admin" ∷ "garage-webui" ∷ "postgresql" ∷ "redis" ∷ "cloudflared"
    ∷ "vaultwarden" ∷ "sentry" ∷ "prometheus" ∷ "grafana" ∷ "n8n" ∷ "pyroscope" ∷ []

-- `_PRIORITY_RANK[id]`, counted from `rank`; past the end for an id that is not listed.
unfoldable pub rank_from : ℕ → List String → String → ℕ
rank_from rank [] id = rank
rank_from rank (name ∷ names) id = if name == id then rank else rank_from (suc rank) names id

abbrev pub has_priority : HomelabService → Bool
has_priority item = elim item.probe_priority [ none ↦ false | some _ ↦ true ]

abbrev pub is_listed : HomelabService → Bool
is_listed item = any (λ name. item.service_id == name) priority_service_order

pub data PrioritySource : Type 0 where
  catalog bootstrap : PrioritySource

unfoldable pub priority_source : List HomelabService → PrioritySource
priority_source services = if any has_priority services then catalog else bootstrap

-- The sort keys, as strict orders.
abbrev pub priority_of : HomelabService → ℕ
priority_of item = elim item.probe_priority [ none ↦ 0 | some p ↦ p ]

unfoldable pub catalog_before : HomelabService → HomelabService → Bool
catalog_before a b =
    ltb (priority_of a) (priority_of b)
    || (eqb (priority_of a) (priority_of b) && is_lt (compare a.service_id b.service_id))

unfoldable pub bootstrap_before : HomelabService → HomelabService → Bool
bootstrap_before a b =
    ltb (rank_from 0 priority_service_order a.service_id)
      (rank_from 0 priority_service_order b.service_id)

-- `sorted`, which is stable: an item stays before the later ones that are not smaller.
unfoldable pub insert_sorted :
    (HomelabService → HomelabService → Bool)
    → HomelabService
    → List HomelabService
    → List HomelabService
insert_sorted less x [] = x ∷ []
insert_sorted less x (y ∷ ys) = if less y x then y ∷ insert_sorted less x ys else x ∷ y ∷ ys

unfoldable pub sorted :
    (HomelabService → HomelabService → Bool) → List HomelabService → List HomelabService
sorted less [] = []
sorted less (x ∷ xs) = insert_sorted less x (sorted less xs)

unfoldable pub ranked_priorities : List HomelabService → List HomelabService
ranked_priorities services = elim (priority_source services) [
  | catalog ↦ sorted catalog_before (keep has_priority services)
  | bootstrap ↦ sorted bootstrap_before (keep is_listed services)
]

-- `item.service_id in {...}`, over the services whose ids the set holds.
abbrev pub has_id : String → HomelabService → Bool
has_id id item = item.service_id == id

unfoldable pub id_in : List HomelabService → String → Bool
id_in items id = any (has_id id) items

-- The loop of `_unique_services`; `seen` holds the services kept so far.
unfoldable pub unique_from : List HomelabService → List HomelabService → List HomelabService
unique_from seen [] = []
unique_from seen (service ∷ services) =
    let kept = service ∷ unique_from (service ∷ seen) services in
    let rest = unique_from seen services in if id_in seen service.service_id then rest else kept

unfoldable pub unique_services : List HomelabService → List HomelabService
unique_services services = unique_from [] services

unfoldable pub reserved_slots : List HomelabService → ℕ → ℕ
reserved_slots services limit =
    if ltb 3 limit && ltb limit (length services) then min 2 (limit - 3) else 0

unfoldable pub fixed_part : List HomelabService → ℕ → List HomelabService
fixed_part services limit =
    take (limit - reserved_slots services limit) (ranked_priorities services)

unfoldable pub probe_partitions :
    List HomelabService → ℕ → List HomelabService × List HomelabService
probe_partitions services limit =
    if leb limit 0
    then ([], [])
    else let fixed = fixed_part services limit in
      (fixed, keep (λ item. not (id_in fixed item.service_id)) services)

unfoldable pub rotated_priority_ids : List HomelabService → ℕ → List String
rotated_priority_ids given limit =
    let services = unique_services given in
    if leb limit 0 || leb (length services) limit
    then []
    else let (fixed, _) = probe_partitions services limit in
      map (λ item. item.service_id)
        (keep (λ item. not (id_in fixed item.service_id)) (ranked_priorities services))

-- The comprehension over `range(n)`, from `offset` on; `none` is an IndexError.
unfoldable pub window : List HomelabService → ℕ → ℕ → ℕ → Option (List HomelabService)
window remainder start offset zero = some []
window remainder start offset (suc n) =
    elim (get_elem? remainder ((start + offset) % length remainder)) [
      | none ↦ none
      | some item ↦ elim (window remainder start (offset + 1) n) [
        | none ↦ none
        | some items ↦ some (item ∷ items)
      ]
    ]

-- From the partition on; `none` is the ZeroDivisionError of an empty rotation.
unfoldable pub rotate :
    List HomelabService → List HomelabService → ℕ → ℕ → Option (List HomelabService)
rotate fixed remainder limit now =
    let slots = limit - length fixed in
    if eqb (length remainder) 0
    then none
    else elim (window remainder (((now / health_cache_ttl) * slots) % length remainder) 0
        (min slots (length remainder))) [ none ↦ none | some rotating ↦ some (fixed ++ rotating) ]

unfoldable pub select_probe_subset : List HomelabService → ℕ → ℕ → Option (List HomelabService)
select_probe_subset given limit now =
    let services = unique_services given in
    if leb limit 0
    then some []
    else if leb (length services) limit
    then some services
    else let (fixed, remainder) = probe_partitions services limit in
      rotate fixed remainder limit now

-- `math.ceil(a / b)` for whole numbers
abbrev pub ceil_div : ℕ → ℕ → ℕ
ceil_div a b = (a + b - 1) / b

-- The equality of two services, field by field.
abbrev pub same_priority : Option ℕ → Option ℕ → Bool
same_priority none none = true
same_priority (some a) (some b) = eqb a b
same_priority _ _ = false

unfoldable pub same_service : HomelabService → HomelabService → Bool
same_service a b =
    a.service_id == b.service_id
    && same_priority a.probe_priority b.probe_priority
    && a.details == b.details

unfoldable pub estimated_probe_interval : HomelabService → List HomelabService → ℕ → Option ℕ
estimated_probe_interval service given limit =
    let eligible = unique_services given in
    if leb limit 0 || not (any (same_service service) eligible)
    then none
    else if leb (length eligible) limit
    then some health_cache_ttl
    else let (fixed, remainder) = probe_partitions eligible limit in
      let slots = limit - length fixed in
      if any (same_service service) fixed
      then some health_cache_ttl
      else if leb slots 0
      then none
      else some (health_cache_ttl * max 1 (ceil_div (length remainder) slots))

unfoldable pub estimated_full_cycle : List HomelabService → ℕ → Option ℕ
estimated_full_cycle given limit =
    let unique = unique_services given in
    if leb (length unique) 0 || leb limit 0
    then none
    else if leb (length unique) limit
    then some health_cache_ttl
    else let (fixed, remainder) = probe_partitions unique limit in
      let slots = limit - length fixed in
      if leb slots 0 then none else some (health_cache_ttl * ceil_div (length remainder) slots)
