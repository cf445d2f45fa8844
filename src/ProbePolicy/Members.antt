-- ===== src/ProbePolicy/Members.antt =====
-- nabla/api/homelab_probe_policy.py: which services the sorted, filtered and cut lists hold.
use fastapi_sample.Prelude.{
  String, ℕ, ◌-◌, ◌≤◌, ◌≡◌, refl, sym, ap, ◌∙◌, ◌⊎◌, inl, inr, Bool, Bool-cases, List, [], ◌∷◌,
  Memᴰ, Mem-take, Mem-keep, Mem-cons_mono, Mem-swap, arith, eq_iff, eq_refl,
}
use fastapi_sample.ProbePolicy.{
  HomelabService, PrioritySource, catalog, bootstrap, has_priority, is_listed, catalog_before,
  bootstrap_before, priority_source, insert_sorted, sorted, reserved_slots, ranked_priorities,
  fixed_part,
}
use fastapi_sample.ProbePolicy.Counts.{occurrences}

Mem-insert_sorted :
    (less : HomelabService → HomelabService → Bool) (x : HomelabService) (ys : List HomelabService)
    {a : HomelabService}
    → Memᴰ a (insert_sorted less x ys)
    → Memᴰ a (x ∷ ys)
unfolding insert_sorted
Mem-insert_sorted less x [] m = m
Mem-insert_sorted less x (y ∷ ys) m = elim (Bool-cases (less y x)) [
  | inl e ↦
      Mem-swap
        (Mem-cons_mono (insert_sorted less x ys) (x ∷ ys) (Mem-insert_sorted less x ys) (rw e at m))
  | inr e ↦ rw e at m
]

Mem-sorted :
    (less : HomelabService → HomelabService → Bool) (xs : List HomelabService) {a : HomelabService}
    → Memᴰ a (sorted less xs)
    → Memᴰ a xs
unfolding sorted
Mem-sorted less [] m = m
Mem-sorted less (x ∷ xs) m =
    Mem-cons_mono (sorted less xs) xs (Mem-sorted less xs)
      (Mem-insert_sorted less x (sorted less xs) m)

PrioritySource-cases : (p : PrioritySource) → (p ≡ catalog) ⊎ (p ≡ bootstrap)
PrioritySource-cases catalog = inl refl
PrioritySource-cases bootstrap = inr refl

pub Mem-fixed_part :
    (xs : List HomelabService) (limit : ℕ) {a : HomelabService}
    → Memᴰ a (fixed_part xs limit)
    → Memᴰ a xs
unfolding fixed_part ranked_priorities
Mem-fixed_part xs limit m =
    let ranked = Mem-take (limit - reserved_slots xs limit) (ranked_priorities xs) m in
    elim (PrioritySource-cases (priority_source xs)) [
      | inl e ↦
          Mem-keep has_priority xs
            (Mem-sorted catalog_before _ (rw (e, ranked_priorities) at ranked))
      | inr e ↦
          Mem-keep is_listed xs
            (Mem-sorted bootstrap_before _ (rw (e, ranked_priorities) at ranked))
    ]

occurrences-Mem :
    (xs : List HomelabService) (a : HomelabService) → Memᴰ a xs → 1 ≤ occurrences a.service_id xs
occurrences-Mem [] a m = elim m [ ]
occurrences-Mem (x ∷ xs) a (Memᴰ.head e) =
    ground (arith, ap (λ (h : HomelabService). h.service_id) e, eq_iff x.service_id a.service_id)
occurrences-Mem (x ∷ xs) a (Memᴰ.tail m) = ground (arith, occurrences-Mem xs a m)

twice_absurd :
    (x : HomelabService) (xs : List HomelabService) (a b : HomelabService)
    → a ≡ x
    → Memᴰ b xs
    → a.service_id ≡ b.service_id
    → ¬ (occurrences x.service_id (x ∷ xs) ≤ 1)
twice_absurd x xs a b p m e h =
    let same : b.service_id ≡ x.service_id = sym e ∙ ap (λ (i : HomelabService). i.service_id) p in
    let once : 1 ≤ occurrences x.service_id xs = rw (← same) (occurrences-Mem xs b m) in
    ground (arith, eq_refl x.service_id)

-- Among distinct services, two with one id are the same.
pub distinct_same :
    (xs : List HomelabService) (a b : HomelabService)
    → ((id : String) → occurrences id xs ≤ 1)
    → Memᴰ a xs
    → Memᴰ b xs
    → a.service_id ≡ b.service_id
    → a ≡ b
distinct_same [] a b distinct ma mb e = elim ma [ ]
distinct_same (x ∷ xs) a b distinct (Memᴰ.head p) (Memᴰ.head q) e = p ∙ sym q
distinct_same (x ∷ xs) a b distinct (Memᴰ.head p) (Memᴰ.tail q) e =
    absurd (twice_absurd x xs a b p q e (distinct x.service_id))
distinct_same (x ∷ xs) a b distinct (Memᴰ.tail p) (Memᴰ.head q) e =
    absurd (twice_absurd x xs b a q p (sym e) (distinct x.service_id))
distinct_same (x ∷ xs) a b distinct (Memᴰ.tail p) (Memᴰ.tail q) e =
    distinct_same xs a b (λ id. ground (arith, distinct id)) p q e
