-- ===== src/ProbePolicy/Turns.antt =====
-- nabla/api/homelab_probe_policy.py: the positions that the rotation comes to.
use native.Mathlib.Nat.{mod-eq_of_lt, add-mod_right, mod-add-mod, div-add-mod', le-div_iff_mul-le}
use fastapi_sample.Prelude.{
  sym, leb→le, ℕ, zero, suc, ◌+◌, ◌-◌, ◌*◌, ◌/◌, ◌%◌, ◌≤◌, ◌<◌, ◌≡◌, ◌∙◌, inl, inr, Bool-cases,
  Option-cases, List, ◌∷◌, Memᴰ, some, length, get_elem?, leb, arith,
}
use fastapi_sample.ProbePolicy.{HomelabService, health_cache_ttl, window, ceil_div}

-- The window at an offset inside its bounds, taken apart.
pub window-cons :
    (remainder : List HomelabService) (start offset n : ℕ) (w : List HomelabService)
    → window remainder start offset (suc n) ≡ some w
    → (item : HomelabService) × (items : List HomelabService) × (get_elem? remainder
          ((start + offset) % length remainder)
        ≡ some item)
      × (window remainder start (offset + 1) n ≡ some items)
      × (item ∷ items ≡ w)
unfolding window
window-cons remainder start offset n w e =
    elim (Option-cases (get_elem? remainder ((start + offset) % length remainder))) [
      | inl bad ↦ absurd (ground arith)
      | inr (item, found) ↦ elim (Option-cases (window remainder start (offset + 1) n)) [
        | inl bad ↦ absurd (ground arith)
        | inr (items, rest) ↦ (item, items, found, rest, ground arith)
      ]
    ]

-- A window holds what stands at each of its offsets.
pub window-Mem :
    (remainder : List HomelabService) (start offset n o : ℕ) (w : List HomelabService)
    (service : HomelabService)
    → o < n
    → window remainder start offset n ≡ some w
    → get_elem? remainder ((start + (offset + o)) % length remainder) ≡ some service
    → Memᴰ service w
window-Mem remainder start offset zero o w service h e f = elim h [ ]
window-Mem remainder start offset (suc n) zero w service h e f =
    let (item, items, found, rest, whole) = window-cons remainder start offset n w e in
    let here : offset + 0 ≡ offset = omega arith in
    let same : service ≡ item = cc (rw here at f) in rw (← whole) (Memᴰ.head same)
window-Mem remainder start offset (suc n) (suc o) w service h e f =
    let (item, items, found, rest, whole) = window-cons remainder start offset n w e in
    let later : offset + suc o ≡ offset + 1 + o = omega arith in
    rw (← whole) (
      Memᴰ.tail (
        window-Mem remainder start (offset + 1) n o items service (omega arith) rest
          (rw later at f)))

ahead_same : (m r j : ℕ) → j < r → m ≤ j → (m + (j - m)) % r ≡ j
ahead_same m r j b h = let e : m + (j - m) ≡ j = omega arith in rw e (mod-eq_of_lt b)

ahead_round : (m r j : ℕ) → m < r → j < r → (m + (j + r - m)) % r ≡ j
ahead_round m r j h b =
    let e : m + (j + r - m) ≡ j + r = omega arith in rw e (add-mod_right j r ∙ mod-eq_of_lt b)

pub round_lt : (d slots r : ℕ) → 0 < slots → d < r → d / slots < ceil_div r slots
round_lt d slots r h b = (le-div_iff_mul-le h).1 (omega (arith, div-add-mod' d slots))

round_position :
    (bucket d slots r : ℕ)
    → (((bucket + d / slots) * slots) % r + d % slots) % r ≡ ((bucket * slots) % r + d) % r
round_position bucket d slots r =
    let same : (bucket + d / slots) * slots + d % slots ≡ bucket * slots + d =
      omega (arith, div-add-mod' d slots) in
    mod-add-mod ((bucket + d / slots) * slots) r (d % slots)
    ∙ rw same (sym (mod-add-mod (bucket * slots) r d))

-- The distance from position `m` forward to position `j` in a circle of `r`.
ahead : (m r j : ℕ) → m < r → j < r → (d : ℕ) × (d < r) × ((m + d) % r ≡ j)
ahead m r j h b = elim (Bool-cases (leb m j)) [
  | inl e ↦ (j - m, ground arith, ahead_same m r j b (leb→le m j e))
  | inr e ↦ (j + r - m, ground arith, ahead_round m r j h b)
]

-- The rounds and the offset at which the rotation comes to position `j`, counted from a bucket.
pub rotation_arith :
    (bucket slots r j : ℕ)
    → 0 < slots
    → j < r
    → (k : ℕ) × (o : ℕ) × (k < ceil_div r slots)
      × (o < slots)
      × ((((bucket + k) * slots) % r + o) % r ≡ j)
rotation_arith bucket slots r j h b =
    let (d, below, reaches) = ahead ((bucket * slots) % r) r j (omega arith) b in
    (
      d / slots,
      d % slots,
      round_lt d slots r h below,
      omega arith,
      round_position bucket d slots r ∙ reaches,
    )

-- The bucket of a time that is `k` cache periods later.
pub later_bucket :
    (now k : ℕ) → (now + k * health_cache_ttl) / health_cache_ttl ≡ now / health_cache_ttl + k
later_bucket now k = omega arith
