-- ===== src/RoutePolicy/Protected.antt =====
-- nabla/route_policy.py: which routes can be public, and which never are.
use fastapi_sample.Prelude.{
  String, ◌≡◌, refl, ◌≢◌, ◌⊎◌, inl, inr, true, not, Bool-cases, ◌&&◌, ◌||◌, ◌==◌, List, [], ◌∷◌,
  Memᴰ, arith, eq_iff, upper, all, &&-eq-true, if-All, All, map,
}
use fastapi_sample.RoutePolicy.{
  public_candidate, review, no_key, RoutePolicy, one_of, public_routes, within, read_methods,
  prefix_policies, exact_policy, prefix_policy, route_policy_for, is_metrics_read, is_session_route,
  is_site_catalog_read, diagnostic_exact,
}
use fastapi_sample.RoutePolicy.Classes.{prefix_policy-All}

abbrev pub IsProtected : RoutePolicy → Type 0
IsProtected p =
    (p.visibility ≢ public_candidate) × (p.visibility ≢ review) × (p.credential ≢ no_key)

one_of-Mem : (names : List String) (path : String) → one_of names path ≡ true → Memᴰ path names
one_of-Mem [] path h = cc
one_of-Mem (name ∷ names) path h = elim (Bool-cases (path == name)) [
  | inl same ↦ Memᴰ.head ((eq_iff path name).0 same)
  | inr other ↦ Memᴰ.tail (one_of-Mem names path (ground arith))
]

-- The prefixes whose routes are protected: those of the loop.
abbrev pub private_prefixes : List String
private_prefixes = "/private/ops" ∷ "/a2a" ∷ "/admin" ∷ "/mcp" ∷ "/metrics" ∷ []

no_session :
    all
      (λ p. not (within "/api/ui/session" p) && not (within "/api/ui/session/logout" p))
      private_prefixes
    ≡ true
unfolding within
no_session = refl

session_outside :
    (names : List String) (path prefix : String)
    → Memᴰ prefix names
    → all (λ p. not (within "/api/ui/session" p) && not (within "/api/ui/session/logout" p)) names
      ≡ true
    → within path prefix ≡ true
    → (path ≢ "/api/ui/session") × (path ≢ "/api/ui/session/logout")
session_outside [] path prefix m h w = elim m [ ]
session_outside (name ∷ names) path prefix (Memᴰ.head e) h w =
    (λ same. ground arith, λ same. ground arith)
session_outside (name ∷ names) path prefix (Memᴰ.tail m) h w =
    session_outside names path prefix m (ground arith) w

-- A session endpoint, with the methods that it serves.
abbrev pub IsSessionCall : String → String → Type 0
IsSessionCall path verb =
    ((path ≡ "/api/ui/session") × Memᴰ verb ("GET" ∷ "HEAD" ∷ "POST" ∷ []))
    ⊎ ((path ≡ "/api/ui/session/logout") × (verb ≡ "POST"))

session_call : (path verb : String) → is_session_route path verb ≡ true → IsSessionCall path verb
session_call path verb h =
    elim (Bool-cases (path == "/api/ui/session" && one_of ("GET" ∷ "HEAD" ∷ "POST" ∷ []) verb)) [
      | inl login ↦
          let (at, served) = &&-eq-true _ _ login in
          inl ((eq_iff _ _).0 at, one_of-Mem ("GET" ∷ "HEAD" ∷ "POST" ∷ []) verb served)
      | inr other ↦
          let (at, served) =
            &&-eq-true (path == "/api/ui/session/logout") (verb == "POST") (rw other at h) in
          inr ((eq_iff _ _).0 at, (eq_iff _ _).0 served)
    ]

prefix_policy-IsProtected :
    (ps : List (String × RoutePolicy)) (path prefix : String) (rest : RoutePolicy)
    → All (λ p. IsProtected p.1) ps
    → Memᴰ prefix (map (λ p. p.0) ps)
    → within path prefix ≡ true
    → IsProtected (prefix_policy ps path rest)
unfolding prefix_policy
prefix_policy-IsProtected [] path prefix rest a m w = elim m [ ]
prefix_policy-IsProtected ((q, policy) ∷ ps) path prefix rest a (Memᴰ.head e) w = rw (rw e at w) a.0
prefix_policy-IsProtected ((q, policy) ∷ ps) path prefix rest a (Memᴰ.tail m) w =
    if-All IsProtected (within path q) a.0 (prefix_policy-IsProtected ps path prefix rest a.1 m w)

prefix_policies-IsProtected : All (λ p. IsProtected p.1) prefix_policies
prefix_policies-IsProtected = ground arith

-- Whatever its method, a request at or below one of the private prefixes needs a credential: its
-- route is neither public nor merely under review.
pub private_route-IsProtected :
    (path method prefix : String)
    → Memᴰ prefix private_prefixes
    → within path prefix ≡ true
    → IsProtected (route_policy_for path method "http")
unfolding route_policy_for
private_route-IsProtected path method prefix m w =
    let verb = upper method in
    let outside = session_outside private_prefixes path prefix m no_session w in
    if-All IsProtected (is_metrics_read path verb) (ground arith)
      (elim (Bool-cases (is_session_route path verb)) [
        | inl session ↦ elim (session_call path verb session) [
          | inl login ↦ absurd (outside.0 login.0)
          | inr logout ↦ absurd (outside.1 logout.0)
        ]
        | inr other ↦ rw other (
            if-All IsProtected (is_site_catalog_read path verb) (ground arith) (
              prefix_policy-IsProtected prefix_policies path prefix _ prefix_policies-IsProtected m
                w))
      ])

-- A read of one of the four public paths.
abbrev pub IsPublicRead : String → String → Type 0
IsPublicRead path verb = Memᴰ path public_routes × Memᴰ verb read_methods

exact_public :
    (path verb : String)
    → (exact_policy path verb).visibility ≡ public_candidate
    → IsPublicRead path verb ⊎ IsSessionCall path verb
unfolding exact_policy
exact_public path verb =
    let Goal : RoutePolicy → Type 0 =
      λ p. p.visibility ≡ public_candidate → IsPublicRead path verb ⊎ IsSessionCall path verb in
    if-All Goal
      (one_of diagnostic_exact path
        || within path "/api/homelab"
        || within path "/api/health-board")
      (λ h. cc)
      (elim (Bool-cases (one_of read_methods verb && one_of public_routes path)) [
        | inl open_read ↦ λ _.
            let (reads, at) = &&-eq-true _ _ open_read in
            inl (one_of-Mem public_routes path at, one_of-Mem read_methods verb reads)
        | inr other ↦ rw other (λ h. cc)
      ])

-- A route is public only as a read of one of the four public paths, or as one of the two session
-- endpoints with a method that it serves.
pub public_route-Mem :
    (path method : String)
    → (route_policy_for path method "http").visibility ≡ public_candidate
    → IsPublicRead path (upper method) ⊎ IsSessionCall path (upper method)
unfolding route_policy_for exact_policy
public_route-Mem path method =
    let verb = upper method in
    let Goal : RoutePolicy → Type 0 =
      λ p. p.visibility ≡ public_candidate → IsPublicRead path verb ⊎ IsSessionCall path verb in
    if-All Goal (is_metrics_read path verb) (λ h. cc)
      (elim (Bool-cases (is_session_route path verb)) [
        | inl session ↦ λ _. inr (session_call path verb session)
        | inr other ↦ rw other (
            if-All Goal (is_site_catalog_read path verb) (λ h. cc)
              (prefix_policy-All Goal path _ (λ h. cc) (λ h. cc) (λ h. cc) (λ h. cc)
                (exact_public path verb)))
      ])
