-- ===== src/SickzPolicy/Guarantees.antt =====
-- nabla/api/sickz_policy.py: what a service's good status says of its exposure.
use Prim.Native.String
use fastapi_sample.Prelude.{
  String, ◌≡◌, refl, inl, inr, Bool, true, false, ◌==◌, List, [], ◌∷◌, ◌++◌, map, keep, Option,
  none, some, arith, Memᴰ, keep-Mem, eq_iff, ◌∙◌, Option-cases, Bool-cases,
}
use fastapi_sample.SickzPolicy.Access.{
  Status, ok, warn, fail, AccessPolicy, AccessApplication, AccessEvidence, HttpEvidence,
  TunnelEvidence, is_root_scope, is_public, host_policies, path_policies, scope_from, evidence_from,
  access_by_hostname, observed_access_policy_exception, observed_access, access_policy_result,
  is_down, tunnel_policy_result,
}
use fastapi_sample.SickzPolicy.Classify.{
  Service, Check, Observation, observed_http_status, is_untrusted, is_server_error,
  combine_policies, secure_external_policy, direct_external_policy, internal_policy,
  classify_service,
}

internal_policy-ok :
    (check : Check) (seen : Observation)
    → internal_policy check seen ≡ ok
    → (check.reachable ≡ false) × (seen.tunnel ≡ none) × (seen.access ≡ none)
unfolding internal_policy
internal_policy-ok check seen h = ground (arith, Option-cases seen.tunnel, Option-cases seen.access)

-- A service that is declared internal is in order only if the probe from outside does not reach it
-- and Cloudflare has neither a tunnel nor an Access application for its hostname.
pub classify_service-internal :
    (service : Service) (check : Check) (seen : Observation)
    → service.external ≡ false
    → classify_service service check seen ≡ ok
    → (check.reachable ≡ false) × (seen.tunnel ≡ none) × (seen.access ≡ none)
unfolding classify_service
classify_service-internal service check seen internal h =
    internal_policy-ok check seen (ground arith)

-- A list of labels is empty only if no policy is public.
keep-empty :
    (f : AccessPolicy → String) (ps : List AccessPolicy) (policy : AccessPolicy)
    → map f (keep is_public ps) ≡ []
    → Memᴰ policy ps
    → is_public policy ≡ false
keep-empty f [] policy e m = elim m [ ]
keep-empty f (p ∷ ps) policy e (Memᴰ.head same) = elim (Bool-cases (is_public p)) [
  | inl public ↦ absurd (ground arith)
  | inr private ↦ ground arith
]
keep-empty f (p ∷ ps) policy e (Memᴰ.tail m) = elim (Bool-cases (is_public p)) [
  | inl public ↦ absurd (ground arith)
  | inr private ↦ keep-empty f ps policy (ground arith) m
]

append-empty : (xs ys : List String) → xs ++ ys ≡ [] → (xs ≡ []) × (ys ≡ [])
append-empty [] ys e = (refl, e)
append-empty (x ∷ xs) ys e = absurd (ground arith)

-- Where neither list of public policies has an entry, no application has a public policy.
no_public :
    (apps : List AccessApplication) (app : AccessApplication) (policy : AccessPolicy)
    → host_policies apps ≡ []
    → path_policies apps ≡ []
    → Memᴰ app apps
    → Memᴰ policy app.policies
    → is_public policy ≡ false
unfolding host_policies path_policies
no_public [] app policy h p m q = elim m [ ]
no_public (a ∷ apps) app policy h p m q = elim (Bool-cases (is_root_scope a)) [
  | inl root ↦
      let (own, rest) =
        append-empty (map (λ p. p.label) (keep is_public a.policies)) (host_policies apps)
          (ground arith) in
      elim m [
        | Memᴰ.head same ↦ keep-empty (λ p. p.label) a.policies policy own (rw same at q)
        | Memᴰ.tail later ↦ no_public apps app policy rest (ground arith) later q
      ]
  | inr nested ↦
      let f : AccessPolicy → String = λ p. String.◌++◌ a.path (String.◌++◌ ": " p.label) in
      let (own, rest) =
        append-empty (map f (keep is_public a.policies)) (path_policies apps) (ground arith) in
      elim m [
        | Memᴰ.head same ↦ keep-empty f a.policies policy own (rw same at q)
        | Memᴰ.tail later ↦ no_public apps app policy (ground arith) rest later q
      ]
]

scope_from-none :
    (hosts paths : List String) → scope_from hosts paths ≡ none → (hosts ≡ []) × (paths ≡ [])
unfolding scope_from
scope_from-none [] [] e = (refl, refl)
scope_from-none [] (p ∷ ps) e = absurd (ground arith)
scope_from-none (h ∷ hs) paths e = absurd (ground arith)

observed_access-ok :
    (evidence : AccessEvidence) (http : HttpEvidence)
    → observed_access evidence http ≡ ok
    → evidence.public_scope ≡ none
unfolding observed_access observed_access_policy_exception
observed_access-ok evidence http h = ground (arith, Option-cases evidence.public_scope)

evidence_from-none :
    (apps : List AccessApplication) (evidence : AccessEvidence)
    → evidence_from apps ≡ some evidence
    → evidence.public_scope ≡ none
    → (host_policies apps ≡ []) × (path_policies apps ≡ [])
unfolding evidence_from
evidence_from-none [] evidence e h = absurd (ground arith)
evidence_from-none (a ∷ apps) evidence e h =
    scope_from-none (host_policies (a ∷ apps)) (path_policies (a ∷ apps)) (ground arith)

-- What a good status of an external service rests on.
secure_external_policy-ok :
    (required : Bool) (check : Check) (seen : Observation)
    → secure_external_policy required check seen ≡ ok
    → (check.reachable ≡ true)
      × (is_untrusted check.tls_trusted ≡ false)
      × (is_server_error (observed_http_status check) ≡ false)
      × (combine_policies
            (tunnel_policy_result seen.tunnel seen.observer_configured seen.tunnel_observer_error
              seen.http)
            (access_policy_result required seen.access seen.access_observer_error seen.http)
          ≡ ok)
unfolding secure_external_policy
secure_external_policy-ok required check seen h = ground arith

classify_service-secure :
    (service : Service) (check : Check) (seen : Observation)
    → service.external ≡ true
    → classify_service service check seen ≡ ok
    → (service.tunnel_secure ≡ some true)
      × (secure_external_policy service.access_required check seen ≡ ok)
unfolding classify_service direct_external_policy
classify_service-secure service check seen external h =
    ground (arith, Option-cases service.tunnel_secure)

combine_policies-ok :
    (tunnel : Status) (access : Option Status)
    → combine_policies tunnel access ≡ ok
    → (tunnel ≡ ok) × ((status : Status) → access ≡ some status → status ≡ ok)
unfolding combine_policies
combine_policies-ok ok none h = (refl, λ s e. absurd (ground arith))
combine_policies-ok ok (some ok) h = (refl, λ s e. ground arith)
combine_policies-ok ok (some warn) h = absurd (ground arith)
combine_policies-ok ok (some fail) h = absurd (ground arith)
combine_policies-ok warn access h = absurd (ground (arith, Option-cases access))
combine_policies-ok fail access h = absurd (ground (arith, Option-cases access))

tunnel_policy_result-ok :
    (tunnel : Option TunnelEvidence) (configured observer_error : Bool) (http : HttpEvidence)
    → tunnel_policy_result tunnel configured observer_error http ≡ ok
    → (t : TunnelEvidence) × (tunnel ≡ some t) × (is_down t ≡ false)
unfolding tunnel_policy_result
tunnel_policy_result-ok (some t) configured observer_error http h = (t, refl, ground arith)
tunnel_policy_result-ok none configured observer_error http h = absurd (ground arith)

-- An external service is in order only if it is declared to stand behind a tunnel, the probe
-- reaches it with no distrusted certificate and no server error, and a tunnel that is not down
-- serves its hostname.
pub classify_service-external :
    (service : Service) (check : Check) (seen : Observation)
    → service.external ≡ true
    → classify_service service check seen ≡ ok
    → (service.tunnel_secure ≡ some true)
      × (check.reachable ≡ true)
      × (is_untrusted check.tls_trusted ≡ false)
      × (is_server_error (observed_http_status check) ≡ false)
      × ((t : TunnelEvidence) × (seen.tunnel ≡ some t) × (is_down t ≡ false))
classify_service-external service check seen external h =
    let (declared, secure) = classify_service-secure service check seen external h in
    let (reached, trusted, served, both) =
      secure_external_policy-ok service.access_required check seen secure in
    let (tunnel, _) = combine_policies-ok _ _ both in
    (
      declared,
      reached,
      trusted,
      served,
      tunnel_policy_result-ok seen.tunnel seen.observer_configured seen.tunnel_observer_error
          seen.http tunnel,
    )

required_access :
    (evidence : AccessEvidence) (observer_error : Bool) (http : HttpEvidence)
    → access_policy_result true (some evidence) observer_error http
      ≡ some (observed_access evidence http)
unfolding access_policy_result
required_access evidence observer_error http = refl

evidence_from-Mem :
    (apps : List AccessApplication) (app : AccessApplication)
    → Memᴰ app apps
    → (evidence : AccessEvidence) × (evidence_from apps ≡ some evidence)
unfolding evidence_from
evidence_from-Mem [] app m = elim m [ ]
evidence_from-Mem (a ∷ apps) app m = (_, refl)

-- Behind Access, a good status means that the evidence of the hostname has no public scope.
access-scope :
    (check : Check) (seen : Observation) (evidence : AccessEvidence)
    → seen.access ≡ some evidence
    → secure_external_policy true check seen ≡ ok
    → evidence.public_scope ≡ none
access-scope check seen evidence e h =
    let (_, _, _, both) = secure_external_policy-ok true check seen h in
    let (_, fine) = combine_policies-ok _ _ both in
    observed_access-ok evidence seen.http (
      fine (observed_access evidence seen.http)
        (rw e (required_access evidence seen.access_observer_error seen.http)))

-- An external service that must stand behind Cloudflare Access is in order only if no application
-- that Access has for its hostname holds a policy that lets everyone in.
pub classify_service-access :
    (service : Service) (check : Check) (seen : Observation) (apps : List AccessApplication)
    (hostname : String) (app : AccessApplication) (policy : AccessPolicy)
    → service.external ≡ true
    → service.access_required ≡ true
    → seen.access ≡ access_by_hostname apps hostname
    → classify_service service check seen ≡ ok
    → Memᴰ app apps
    → app.hostname ≡ hostname
    → Memᴰ policy app.policies
    → is_public policy ≡ false
unfolding access_by_hostname
classify_service-access service check seen apps hostname app policy external required known h m own
      q =
    let found = keep (λ a. a.hostname == hostname) apps in
    let there : Memᴰ app found =
      keep-Mem (λ a. a.hostname == hostname) apps m ((eq_iff app.hostname hostname).1 own) in
    let (evidence, made) = evidence_from-Mem found app there in
    let (_, secure) = classify_service-secure service check seen external h in
    let scope = access-scope check seen evidence (known ∙ made) (rw required at secure) in
    let (hosts, paths) = evidence_from-none found evidence made scope in
    no_public found app policy hosts paths there q
