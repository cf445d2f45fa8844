-- ===== src/AccessControl/Grants.antt =====
-- nabla/access_control.py: what it takes for a protected request to be passed on.
use fastapi_sample.Prelude.{
  String, ◌≡◌, refl, ◌≢◌, ◌⊎◌, inl, inr, Bool, true, false, not, Bool-cases, Option-cases, ◌&&◌,
  ◌==◌, [], ◌∷◌, Option, none, some, if◌then◌else◌, strip, upper, arith, eq_iff,
}
use fastapi_sample.RoutePolicy.{
  Visibility, public_candidate, owner, review, Credential, diagnostics_key, access_jwt, one_of,
  route_policy_for,
}
use fastapi_sample.RoutePolicy.Protected.{IsProtected}
use fastapi_sample.TrustedIp.{Addresses, owner_source_permitted}
use fastapi_sample.AccessControl.{
  OwnerCheck, verified, config_error, keys_unavailable, unauthorized, Request, Settings, forward,
  deny, provided_access_key, key_field, is_owner_diagnostics, compare_digest, authorize_owner,
  owner_ui_authenticated, check_key, authorize_key, authorize, operations_access_middleware,
}

is_owner_diagnostics-eq :
    (v : Visibility) (c : Credential)
    → is_owner_diagnostics v c ≡ true
    → (v ≡ owner) × (c ≡ diagnostics_key)
unfolding is_owner_diagnostics
is_owner_diagnostics-eq owner diagnostics_key h = (refl, refl)
is_owner_diagnostics-eq _ _ h = cc

write_allowed :
    (reads origin : Bool) (sub : Option String)
    → (if not reads && not origin then deny 403 else forward none) ≡ forward sub
    → (none ≡ sub) × ((reads ≡ true) ⊎ (origin ≡ true))
write_allowed reads origin sub h = ground arith

pub OwnerCheck-cases :
    (t : OwnerCheck)
    → ((subject : String) × (t ≡ verified subject))
      ⊎ ((t ≡ config_error) ⊎ (t ≡ keys_unavailable) ⊎ (t ≡ unauthorized))
OwnerCheck-cases (verified subject) = inl (subject, refl)
OwnerCheck-cases config_error = inr (inl refl)
OwnerCheck-cases keys_unavailable = inr (inr (inl refl))
OwnerCheck-cases unauthorized = inr (inr (inr refl))

module _ (net : Addresses) (r : Request) (s : Settings) where
  -- The request comes from a permitted source.
  abbrev pub IsFromOwnerSource : Type 0
  IsFromOwnerSource = owner_source_permitted net r.scope s.network ≡ true

  -- The evidence for each credential. Owner diagnostics can also be reached with the signed
  -- browser cookie, from a permitted source, and for writes from the same origin only.
  pub data Evidence (v : Visibility) (c : Credential) : Option String → Type 0 where
    by_token :
        (subject : String)
        → c ≡ access_jwt
        → r.owner_token ≡ verified subject
        → IsFromOwnerSource
        → Evidence v c (some subject)
    by_cookie :
        (key header : String)
        → v ≡ owner
        → c ≡ diagnostics_key
        → key_field s c ≡ some (some key, header)
        → r.cookie_valid ≡ some true
        → IsFromOwnerSource
        → (one_of ("GET" ∷ "HEAD" ∷ "OPTIONS" ∷ []) (upper r.method) ≡ true)
          ⊎ (r.same_origin ≡ true)
        → Evidence v c none
    by_key :
        (key header : String)
        → key_field s c ≡ some (some key, header)
        → provided_access_key r header ≡ key
        → key ≢ ""
        → (is_owner_diagnostics v c ≡ true → strip s.network.trusted_cidrs ≢ "" → IsFromOwnerSource)
        → Evidence v c none

  check_key-Evidence :
      (v : Visibility) (c : Credential) (key header : String) (sub : Option String)
      → key_field s c ≡ some (some key, header)
      → check_key net v c key header r s ≡ forward sub
      → Evidence v c sub
  unfolding check_key compare_digest
  check_key-Evidence v c key header sub field h =
      let value = provided_access_key r header in
      elim (Bool-cases (value == key)) [
        | inl same ↦
            let passed : (none ≡ sub) × ((value == "") ≡ false) = ground arith in
            let equal = (eq_iff value key).0 same in
            rw (← passed.0) (
              by_key key header field equal (λ empty. ground (arith, eq_iff value ""))
                (λ owned restricted. ground (arith, eq_iff (strip s.network.trusted_cidrs) "")))
        | inr other ↦ absurd (ground arith)
      ]

  -- The answer of the cookie check, where it is made.
  abbrev cookie_answer : Visibility → Credential → Option Bool
  cookie_answer v c =
      if is_owner_diagnostics v c then owner_ui_authenticated net r s else some false

  cookie_answer-true :
      (v : Visibility) (c : Credential)
      → cookie_answer v c ≡ some true
      → (is_owner_diagnostics v c ≡ true) × (r.cookie_valid ≡ some true) × IsFromOwnerSource
  unfolding owner_ui_authenticated
  cookie_answer-true v c h = ground arith

  authorize_key-Evidence :
      (v : Visibility) (c : Credential) (sub : Option String)
      → authorize_key net v c r s ≡ forward sub
      → Evidence v c sub
  unfolding authorize_key owner_ui_authenticated
  authorize_key-Evidence v c sub h = elim (Option-cases (key_field s c)) [
    | inl missing ↦ absurd (ground arith)
    | inr ((none, header), unset) ↦ absurd (ground arith)
    | inr ((some key, header), set) ↦ elim (Option-cases (cookie_answer v c)) [
      | inl raised ↦ absurd (ground arith)
      | inr (false, other) ↦ check_key-Evidence v c key header sub set (ground arith)
      | inr (true, signed) ↦
          let (kind, valid, permitted) = cookie_answer-true v c signed in
          let (is_owner, is_diagnostics) = is_owner_diagnostics-eq v c kind in
          let (passed, allowed) =
            write_allowed (one_of ("GET" ∷ "HEAD" ∷ "OPTIONS" ∷ []) (upper r.method)) r.same_origin
              sub (ground arith) in
          rw (← passed) (by_cookie key header is_owner is_diagnostics set valid permitted allowed)
    ]
  ]

  token_evidence :
      (v : Visibility) (c : Credential) (sub : Option String)
      → c ≡ access_jwt
      → authorize_owner net r s ≡ forward sub
      → Evidence v c sub
  unfolding authorize_owner
  token_evidence v c sub e h = elim (OwnerCheck-cases r.owner_token) [
    | inl (subject, known) ↦
        let passed : (some subject ≡ sub) × IsFromOwnerSource = ground arith in
        rw (← passed.0) (by_token subject e known passed.1)
    | inr unknown ↦ absurd (ground arith)
  ]

  authorize-Evidence :
      (v : Visibility) (c : Credential) (sub : Option String)
      → v ≢ public_candidate
      → v ≢ review
      → authorize net v c r s ≡ forward sub
      → Evidence v c sub
  unfolding authorize authorize_owner
  authorize-Evidence public_candidate c sub p q h = absurd (p refl)
  authorize-Evidence review c sub p q h = absurd (q refl)
  authorize-Evidence v access_jwt sub p q h = token_evidence v access_jwt sub refl h
  authorize-Evidence v c sub p q h = authorize_key-Evidence v c sub h

  -- A request to a protected route that is passed on, other than by the temporary read rollback,
  -- carries the evidence that the route's credential asks for: a verified owner token from a
  -- permitted source, a valid owner cookie, or the configured, nonempty operational key.
  pub operations_access_middleware-Evidence :
      (sub : Option String)
      → IsProtected (route_policy_for r.path r.method "http")
      → operations_access_middleware net r s ≡ forward sub
      → Evidence
          (route_policy_for r.path r.method "http").visibility
          (route_policy_for r.path r.method "http").credential
          sub
  unfolding operations_access_middleware
  operations_access_middleware-Evidence sub protected h =
      authorize-Evidence _ _ sub protected.0 protected.1 (ground arith)
