-- ===== src/DependencyHealth/Settled.antt =====
-- nabla/api/homelab_dependency_health.py: the rounds are enough for the states to settle.
use fastapi_sample.Prelude.{
  String, ℕ, ◌≤◌, ◌<◌, ◌≡◌, refl, Bool, true, false, not, ◌&&◌, ◌||◌, List, [], ◌∷◌, any, count,
  length, Option, Bool-cases, arith, if◌then◌else◌,
}
use fastapi_sample.Prelude.Dict.{lookup}
use fastapi_sample.DependencyHealth.{
  HealthState, ok, warn, fail, unknown, is_fail, is_warn, dependency_state, is_bad,
  is_bad_dependency, effective_state, States, state_in, same_health, same_states,
}

is_bad-split : (s : HealthState) → is_bad s ≡ (is_fail s || is_warn s)
unfolding is_fail is_warn
is_bad-split ok = refl
is_bad-split warn = refl
is_bad-split fail = refl
is_bad-split unknown = refl

any-is_bad : (ss : List HealthState) → any is_bad ss ≡ (any is_fail ss || any is_warn ss)
any-is_bad [] = refl
any-is_bad (s ∷ ss) = ground (arith, is_bad-split s, any-is_bad ss)

-- A dependency is bad exactly if one of its targets is.
pub is_bad-dependency_state :
    (ss : List HealthState) → is_bad_dependency (dependency_state ss) ≡ any is_bad ss
unfolding dependency_state
is_bad-dependency_state [] = refl
is_bad-dependency_state (s ∷ ss) = ground (arith, any-is_bad (s ∷ ss))

pub is_bad-effective_state :
    (local : HealthState) (d : Option HealthState)
    → is_bad (effective_state local d) ≡ (is_bad local || is_bad_dependency d)
unfolding effective_state is_fail
is_bad-effective_state ok d = ground arith
is_bad-effective_state warn d = ground arith
is_bad-effective_state fail d = ground arith
is_bad-effective_state unknown d = ground arith

-- A state that a round may give a service: its own, or a warning.
abbrev pub raised : HealthState → Bool → HealthState
raised fail b = fail
raised local b = if b then warn else local

-- Two tables of the same services, which come from the local states by warnings, the second with
-- all the warnings of the first.
pub data Grows : States → States → States → Type 0 where
  empty : Grows [] [] []
  grow :
      (id : String) (l d e : HealthState) (a b : Bool) (ls ds es : States)
      → d ≡ raised l a
      → e ≡ raised l b
      → (a && not b) ≡ false
      → Grows ls ds es
      → Grows ((id, l) ∷ ls) ((id, d) ∷ ds) ((id, e) ∷ es)

abbrev pub count_bad : States → ℕ
count_bad states = count (λ e. is_bad e.1) states

raised-bad :
    (l : HealthState) (a b : Bool)
    → (a && not b) ≡ false
    → is_bad (raised l a) ≡ true
    → is_bad (raised l b) ≡ true
raised-bad ok a b h k = ground arith
raised-bad warn a b h k = ground arith
raised-bad fail a b h k = ground arith
raised-bad unknown a b h k = ground arith

-- Of two states of a service that differ, the second is the bad one.
raised-differs :
    (l : HealthState) (a b : Bool)
    → (a && not b) ≡ false
    → same_health (raised l a) (raised l b) ≡ false
    → (is_bad (raised l a) ≡ false) × (is_bad (raised l b) ≡ true)
unfolding same_health
raised-differs ok a b h k = ground arith
raised-differs warn a b h k = ground arith
raised-differs fail a b h k = ground arith
raised-differs unknown a b h k = ground arith

same_health-eq : (s t : HealthState) → same_health s t ≡ true → s ≡ t
unfolding same_health
same_health-eq ok ok h = refl
same_health-eq warn warn h = refl
same_health-eq fail fail h = refl
same_health-eq unknown unknown h = refl
same_health-eq ok warn h = absurd (ground arith)
same_health-eq ok fail h = absurd (ground arith)
same_health-eq ok unknown h = absurd (ground arith)
same_health-eq warn ok h = absurd (ground arith)
same_health-eq warn fail h = absurd (ground arith)
same_health-eq warn unknown h = absurd (ground arith)
same_health-eq fail ok h = absurd (ground arith)
same_health-eq fail warn h = absurd (ground arith)
same_health-eq fail unknown h = absurd (ground arith)
same_health-eq unknown ok h = absurd (ground arith)
same_health-eq unknown warn h = absurd (ground arith)
same_health-eq unknown fail h = absurd (ground arith)

pub Grows-le : (ls ds es : States) → Grows ls ds es → count_bad ds ≤ count_bad es
Grows-le _ _ _ empty = omega arith
Grows-le _ _ _ (grow id l d e a b ls ds es p q h g) =
    ground (arith, Grows-le ls ds es g, raised-bad l a b h)

-- A round that changes something adds a bad state.
pub Grows-lt :
    (ls ds es : States) → Grows ls ds es → same_states ds es ≡ false → count_bad ds < count_bad es
unfolding same_states
Grows-lt _ _ _ empty k = absurd (ground arith)
Grows-lt _ _ _ (grow id l d e a b ls ds es p q h g) k = ground (
  arith,
  Grows-le ls ds es g,
  Grows-lt ls ds es g,
  raised-bad l a b h,
  raised-differs l a b h,
  Bool-cases (same_health d e),
)

pub Grows-bound : (ls ds es : States) → Grows ls ds es → count_bad es ≤ length ls
Grows-bound _ _ _ empty = omega arith
Grows-bound _ _ _ (grow id l d e a b ls ds es p q h g) = ground (arith, Grows-bound ls ds es g)

pub Grows-same : (ls ds es : States) → Grows ls ds es → same_states ds es ≡ true → ds ≡ es
unfolding same_states
Grows-same _ _ _ empty k = refl
Grows-same _ _ _ (grow id l d e a b ls ds es p q h g) k =
    rw (same_health-eq d e (ground arith), Grows-same ls ds es g (ground arith)) refl

pub Grows-lookup :
    (ls ds es : States) (target : String)
    → Grows ls ds es
    → is_bad (state_in target ds) ≡ true
    → is_bad (state_in target es) ≡ true
unfolding lookup
Grows-lookup _ _ _ target empty k = k
Grows-lookup _ _ _ target (grow id l d e a b ls ds es p q h g) k =
    ground (arith, Grows-lookup ls ds es target g, raised-bad l a b h)
