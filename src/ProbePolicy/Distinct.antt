-- ===== src/ProbePolicy/Distinct.antt =====
-- nabla/api/homelab_probe_policy.py: a refresh probes no service twice.
use native.Mathlib.Nat.{div-add-mod', mul-le-mul_right}
use fastapi_sample.Prelude.{
  String, ℕ, zero, suc, ◌+◌, ◌-◌, ◌*◌, ◌/◌, ◌%◌, ◌≤◌, ◌<◌, ◌≡◌, ◌≢◌, refl, sym, ap, ◌∙◌, inl, inr,
  true, not, Bool-cases, List, [], ◌∷◌, ◌++◌, none, some, length, get_elem?, leb, leb→le, arith,
  eq_iff, ◌==◌,
}
use fastapi_sample.ProbePolicy.{
  HomelabService, id_in, unique_services, fixed_part, window, select_probe_subset,
}
use fastapi_sample.ProbePolicy.Counts.{
  occurrences, occurrences-append, occurrences-keep-le, occurrences-fixed_part-le,
  occurrences_of_not-in, unique_services-occurrences,
}
use fastapi_sample.ProbePolicy.Turns.{window-cons}
use fastapi_sample.ProbePolicy.Budget.{
  rotating_part, select_probe_subset-IsRotation, rotating_part-overflow, length-fixed_part-le,
}

-- A service that stands somewhere occurs.
occurrences-get_elem? :
    (xs : List HomelabService) (i : ℕ) (a : HomelabService)
    → get_elem? xs i ≡ some a
    → 1 ≤ occurrences a.service_id xs
occurrences-get_elem? [] i a e = absurd (ground arith)
occurrences-get_elem? (x ∷ xs) zero a e = ground (arith, eq_iff a.service_id a.service_id)
occurrences-get_elem? (x ∷ xs) (suc i) a e = ground (arith, occurrences-get_elem? xs i a e)

-- Two places with one id are one place, if the id occurs once.
one_place :
    (xs : List HomelabService) (i j : ℕ) (a b : HomelabService)
    → occurrences a.service_id xs ≤ 1
    → get_elem? xs i ≡ some a
    → get_elem? xs j ≡ some b
    → b.service_id ≡ a.service_id
    → i ≡ j
one_place [] i j a b h e f s = absurd (ground arith)
one_place (x ∷ xs) zero zero a b h e f s = refl
one_place (x ∷ xs) zero (suc j) a b h e f s =
    absurd (ground (arith, occurrences-get_elem? xs j b f, eq_iff x.service_id a.service_id))
one_place (x ∷ xs) (suc i) zero a b h e f s =
    absurd (ground (arith, occurrences-get_elem? xs i a e, eq_iff x.service_id a.service_id))
one_place (x ∷ xs) (suc i) (suc j) a b h e f s = ap suc (one_place xs i j a b (ground arith) e f s)

more_rounds : (q r l : ℕ) → q < r → q * l + l ≤ r * l
more_rounds q r l h = omega (arith, mul-le-mul_right {m = suc q} {n = r} l h)

-- Two offsets less than a whole round apart come to two places.
apart : (l a d : ℕ) → 0 < d → d < l → (a + d) % l ≢ a % l
apart l a d h b e = elim (Bool-cases (leb ((a + d) / l) (a / l))) [
  | inl less ↦ omega (
    arith,
    div-add-mod' a l,
    div-add-mod' (a + d) l,
    mul-le-mul_right {m = (a + d) / l} {n = a / l} l (leb→le _ _ less),
  )
  | inr more ↦
      let above : a / l < (a + d) / l = ground arith in
      omega
        (arith, div-add-mod' a l, div-add-mod' (a + d) l, more_rounds (a / l) ((a + d) / l) l above)
]

-- Past the offset of a service, a window of less than a round does not come to it again.
window-avoids :
    (xs : List HomelabService) (start k off n p : ℕ) (a : HomelabService) (w : List HomelabService)
    → occurrences a.service_id xs ≤ 1
    → get_elem? xs p ≡ some a
    → (start + k) % length xs ≡ p
    → k < off
    → off + n ≤ k + length xs
    → window xs start off n ≡ some w
    → occurrences a.service_id w ≡ 0
unfolding window
window-avoids xs start k off zero p a w h e at above within found = ground arith
window-avoids xs start k off (suc n) p a w h e at above within found =
    let (item, items, here, rest, whole) = window-cons xs start off n w found in
    let later =
      window-avoids xs start k (off + 1) n p a items h e at (omega arith) (omega arith) rest in
    elim (Bool-cases (item.service_id == a.service_id)) [
      | inl same ↦
          let place =
            one_place xs p ((start + off) % length xs) a item h e here
              ((eq_iff item.service_id a.service_id).0 same) in
          let split : start + k + (off - k) ≡ start + off = omega arith in
          absurd (
            apart (length xs) (start + k) (off - k) (omega arith) (omega arith)
              (rw (split, at) (sym place)))
      | inr other ↦ rw (← whole) (ground arith)
    ]

-- A window of at most a round holds each service once at most.
window-once :
    (id : String) (xs : List HomelabService) (start off n : ℕ) (w : List HomelabService)
    → occurrences id xs ≤ 1
    → n ≤ length xs
    → window xs start off n ≡ some w
    → occurrences id w ≤ 1
unfolding window
window-once id xs start off zero w h b found = ground arith
window-once id xs start off (suc n) w h b found =
    let (item, items, here, rest, whole) = window-cons xs start off n w found in
    elim (Bool-cases (item.service_id == id)) [
      | inl same ↦
          let e = (eq_iff item.service_id id).0 same in
          let none_later =
            window-avoids xs start off (off + 1) n ((start + off) % length xs) item items (rw e h)
              here refl (omega arith) (omega arith) rest in
          rw (← whole) (ground arith)
      | inr other ↦
          let later = window-once id xs start (off + 1) n items h (omega arith) rest in
          rw (← whole) (ground arith)
    ]

window-none :
    (id : String) (xs : List HomelabService) (start off n : ℕ) (w : List HomelabService)
    → occurrences id xs ≡ 0
    → window xs start off n ≡ some w
    → occurrences id w ≡ 0
unfolding window
window-none id xs start off zero w h found = ground arith
window-none id xs start off (suc n) w h found =
    let (item, items, here, rest, whole) = window-cons xs start off n w found in
    let later = window-none id xs start (off + 1) n items h rest in
    let once = occurrences-get_elem? xs ((start + off) % length xs) item here in
    rw (← whole) (ground (arith, eq_iff item.service_id id))

-- A fixed service is not in the rotation.
rotating_part-none :
    (id : String) (fixed xs : List HomelabService)
    → id_in fixed id ≡ true
    → occurrences id (rotating_part fixed xs) ≡ 0
rotating_part-none id fixed [] h = refl
rotating_part-none id fixed (x ∷ xs) h =
    ground (arith, eq_iff x.service_id id, rotating_part-none id fixed xs h)

-- The fixed part and a window of the rotation hold each id once at most.
parts-once :
    (id : String) (services : List HomelabService) (limit start n : ℕ)
    (rotating : List HomelabService)
    → occurrences id services ≤ 1
    → (let fixed = fixed_part services limit in
        n ≤ length (rotating_part fixed services)
        → window (rotating_part fixed services) start 0 n ≡ some rotating
        → occurrences id (fixed ++ rotating) ≤ 1)
parts-once id services limit start n rotating single fits taken =
    let fixed = fixed_part services limit in
    let rest = rotating_part fixed services in
    elim (Bool-cases (id_in fixed id)) [
      | inl stays ↦ omega (
        arith,
        occurrences-append id fixed rotating,
        occurrences-fixed_part-le id services limit,
        window-none id rest start 0 n rotating (rotating_part-none id fixed services stays) taken,
      )
      | inr rotates ↦ omega (
        arith,
        occurrences-append id fixed rotating,
        occurrences_of_not-in id fixed rotates,
        window-once id rest start 0 n rotating
            (omega
              (arith, occurrences-keep-le (λ item. not (id_in fixed item.service_id)) id services))
            fits taken,
      )
    ]

some_inj : {a b : List HomelabService} → some a ≡ some b → a ≡ b
some_inj {a} h = ap (λ o. elim o as (λ _. List HomelabService) [ none ↦ a | some x ↦ x ]) h

-- A refresh probes no service twice, however often the catalog lists it.
pub select_probe_subset-once :
    (given : List HomelabService) (limit now : ℕ) (selected : List HomelabService) (id : String)
    → select_probe_subset given limit now ≡ some selected
    → occurrences id selected ≤ 1
unfolding select_probe_subset
select_probe_subset-once given zero now selected id e = ground arith
select_probe_subset-once given (suc n) now selected id e =
    let services = unique_services given in
    elim (Bool-cases (leb (length services) (suc n))) [
      | inl fits ↦ ground (arith, unique_services-occurrences id given)
      | inr over ↦
          let above : suc n < length services = ground arith in
          let (rotating, r) =
            select_probe_subset-IsRotation given (suc n) now (omega arith) above in
          let once =
            parts-once id services (suc n) _ _ rotating (unique_services-occurrences id given)
              (omega (
                arith,
                rotating_part-overflow given (suc n) above,
                length-fixed_part-le services (suc n),
              ))
              r.taken in
          let same : fixed_part services (suc n) ++ rotating ≡ selected =
            some_inj (sym r.selected ∙ e) in
          rw (← same) once
    ]
