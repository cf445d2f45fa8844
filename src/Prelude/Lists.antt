-- ===== src/Prelude/Lists.antt =====
-- Lists measured and indexed by native numbers, and predicates on their elements by recursion.
use Prim.Native.Nat.{ℕ, zero, suc, ◌+◌, ◌≤◌, ◌<◌, min}
use mathlib.Core.Path.{◌≡◌, refl}
use mathlib.Core.Bool.{Bool, true, false, ◌&&◌, ◌||◌}
use mathlib.Core.Logic.{inl, inr}
use mathlib.Core.List.{List, [], ◌∷◌, ◌++◌, Memᴰ}
use mathlib.Core.Option.{Option, none, some}
use native.Mathlib.Omega.{arith}
use fastapi_sample.Prelude.Tests.{if◌then◌else◌, Bool-cases}

module _ {ℓ} {A : Type ℓ} where
  abbrev pub length : List A → ℕ
  length [] = 0
  length (x ∷ xs) = suc (length xs)

  abbrev pub get_elem? : List A → ℕ → Option A
  get_elem? [] i = none
  get_elem? (x ∷ xs) zero = some x
  get_elem? (x ∷ xs) (suc i) = get_elem? xs i

  abbrev pub take : ℕ → List A → List A
  take zero xs = []
  take (suc n) [] = []
  take (suc n) (x ∷ xs) = x ∷ take n xs

  abbrev pub drop : ℕ → List A → List A
  drop zero xs = xs
  drop (suc n) [] = []
  drop (suc n) (x ∷ xs) = drop n xs

  -- The generator forms `[x for x in xs if p(x)]`, `any(...)`, `all(...)` and `sum(...)`.
  abbrev pub keep : (A → Bool) → List A → List A
  keep p [] = []
  keep p (x ∷ xs) = if p x then x ∷ keep p xs else keep p xs

  abbrev pub any : (A → Bool) → List A → Bool
  any p [] = false
  any p (x ∷ xs) = p x || any p xs

  abbrev pub all : (A → Bool) → List A → Bool
  all p [] = true
  all p (x ∷ xs) = p x && all p xs

  abbrev pub count : (A → Bool) → List A → ℕ
  count p [] = 0
  count p (x ∷ xs) = if p x then suc (count p xs) else count p xs

  pub length-append : (xs ys : List A) → length (xs ++ ys) ≡ length xs + length ys
  length-append [] ys = omega arith
  length-append (x ∷ xs) ys = omega (arith, length-append xs ys)

  pub length-take : (n : ℕ) (xs : List A) → length (take n xs) ≡ min n (length xs)
  length-take zero xs = omega arith
  length-take (suc n) [] = omega arith
  length-take (suc n) (x ∷ xs) = omega (arith, length-take n xs)

  pub length-keep-le : (p : A → Bool) (xs : List A) → length (keep p xs) ≤ length xs
  length-keep-le p [] = omega arith
  length-keep-le p (x ∷ xs) = ground (arith, length-keep-le p xs)

  pub Mem-append_left : {a : A} (xs ys : List A) → Memᴰ a xs → Memᴰ a (xs ++ ys)
  Mem-append_left [] ys h = elim h [ ]
  Mem-append_left (x ∷ xs) ys (Memᴰ.head e) = Memᴰ.head e
  Mem-append_left (x ∷ xs) ys (Memᴰ.tail h) = Memᴰ.tail (Mem-append_left xs ys h)

  pub Mem-append_right : {a : A} (xs ys : List A) → Memᴰ a ys → Memᴰ a (xs ++ ys)
  Mem-append_right [] ys h = h
  Mem-append_right (x ∷ xs) ys h = Memᴰ.tail (Mem-append_right xs ys h)

  pub Mem-take : {a : A} (n : ℕ) (xs : List A) → Memᴰ a (take n xs) → Memᴰ a xs
  Mem-take zero xs h = elim h [ ]
  Mem-take (suc n) [] h = elim h [ ]
  Mem-take (suc n) (x ∷ xs) (Memᴰ.head e) = Memᴰ.head e
  Mem-take (suc n) (x ∷ xs) (Memᴰ.tail h) = Memᴰ.tail (Mem-take n xs h)

  pub Mem-get_elem? : (xs : List A) (i : ℕ) {a : A} → get_elem? xs i ≡ some a → Memᴰ a xs
  Mem-get_elem? [] i h = cc
  Mem-get_elem? (x ∷ xs) zero h = Memᴰ.head (cc)
  Mem-get_elem? (x ∷ xs) (suc i) h = Memᴰ.tail (Mem-get_elem? xs i h)

-- A predicate of every element.
abbrev pub All {ℓ κ} : {A : Type ℓ} → (A → Type κ) → List A → Type κ
All P [] = Unit
All P (x ∷ xs) = P x × All P xs

pub All-Mem {ℓ κ} : {A : Type ℓ} (P : A → Type κ) (xs : List A) {a : A} → All P xs → Memᴰ a xs → P a
All-Mem P [] h m = elim m [ ]
All-Mem P (x ∷ xs) h (Memᴰ.head e) = rw e h.0
All-Mem P (x ∷ xs) h (Memᴰ.tail m) = All-Mem P xs h.1 m

pub any-Mem {ℓ} :
    {A : Type ℓ} (p : A → Bool) (xs : List A) → any p xs ≡ true → (a : A) × Memᴰ a xs × (p a ≡ true)
any-Mem p [] h = cc
any-Mem p (x ∷ xs) h = elim (Bool-cases (p x)) [
  | inl here ↦ (x, Memᴰ.head refl, here)
  | inr other ↦ let (a, m, e) = any-Mem p xs (ground arith) in (a, Memᴰ.tail m, e)
]

pub get_elem?-some {ℓ} :
    {A : Type ℓ} (xs : List A) (i : ℕ) → i < length xs → (a : A) × (get_elem? xs i ≡ some a)
get_elem?-some [] i h = elim h [ ]
get_elem?-some (x ∷ xs) zero h = (x, refl)
get_elem?-some (x ∷ xs) (suc i) h = get_elem?-some xs i (omega arith)

pub drop-get_elem? {ℓ} :
    {A : Type ℓ} (xs : List A) (i : ℕ) {a : A}
    → get_elem? xs i ≡ some a
    → drop i xs ≡ a ∷ drop (suc i) xs
drop-get_elem? [] i h = cc
drop-get_elem? (x ∷ xs) zero h = cc
drop-get_elem? (x ∷ xs) (suc i) h = drop-get_elem? xs i h

pub get_elem?-Mem {ℓ} :
    {A : Type ℓ} (xs : List A) {a : A}
    → Memᴰ a xs
    → (i : ℕ) × (i < length xs) × (get_elem? xs i ≡ some a)
get_elem?-Mem [] m = elim m [ ]
get_elem?-Mem (x ∷ xs) (Memᴰ.head e) = (0, omega arith, cc)
get_elem?-Mem (x ∷ xs) (Memᴰ.tail m) =
    let (i, below, found) = get_elem?-Mem xs m in (suc i, omega arith, found)

pub Mem-cons_mono {ℓ} :
    {A : Type ℓ} {a x : A} (xs ys : List A)
    → (Memᴰ a xs → Memᴰ a ys)
    → Memᴰ a (x ∷ xs)
    → Memᴰ a (x ∷ ys)
Mem-cons_mono xs ys f (Memᴰ.head e) = Memᴰ.head e
Mem-cons_mono xs ys f (Memᴰ.tail m) = Memᴰ.tail (f m)

pub Mem-keep {ℓ} :
    {A : Type ℓ} (p : A → Bool) (xs : List A) {a : A} → Memᴰ a (keep p xs) → Memᴰ a xs
Mem-keep p [] m = elim m [ ]
Mem-keep p (x ∷ xs) m = elim (Bool-cases (p x)) [
  | inl e ↦ Mem-cons_mono (keep p xs) xs (Mem-keep p xs) (rw e at m)
  | inr e ↦ Memᴰ.tail (Mem-keep p xs (rw e at m))
]

pub keep-Mem {ℓ} :
    {A : Type ℓ} (p : A → Bool) (xs : List A) {a : A} → Memᴰ a xs → p a ≡ true → Memᴰ a (keep p xs)
keep-Mem p [] m h = elim m [ ]
keep-Mem p (x ∷ xs) (Memᴰ.head e) h = let k : p x ≡ true = cc in rw k (Memᴰ.head e)
keep-Mem p (x ∷ xs) (Memᴰ.tail m) h = elim (Bool-cases (p x)) [
  | inl e ↦ rw e (Memᴰ.tail (keep-Mem p xs m h))
  | inr e ↦ rw e (keep-Mem p xs m h)
]

pub Mem-swap {ℓ} :
    {A : Type ℓ} {a x y : A} {xs : List A} → Memᴰ a (x ∷ y ∷ xs) → Memᴰ a (y ∷ x ∷ xs)
Mem-swap (Memᴰ.head e) = Memᴰ.tail (Memᴰ.head e)
Mem-swap (Memᴰ.tail (Memᴰ.head e)) = Memᴰ.head e
Mem-swap (Memᴰ.tail (Memᴰ.tail m)) = Memᴰ.tail (Memᴰ.tail m)
