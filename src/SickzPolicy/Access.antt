-- ===== src/SickzPolicy/Access.antt =====
-- nabla/api/sickz_cloudflare_policy.py: the Access and Tunnel evidence of one hostname.
use Prim.Native.String
use fastapi_sample.Prelude.{
  String, ℕ, ◌+◌, Bool, false, not, ◌&&◌, ◌||◌, ◌==◌, List, [], ◌∷◌, ◌++◌, any, keep, map, length,
  Option, none, some, eqb, if◌then◌else◌, lower, upper,
}

pub data Status : Type 0 where
  ok warn fail : Status

-- What is read of an Access policy and of an application with its policies.
pub record AccessPolicy : Type 0 where
  pub label : String
  pub decision : Option String
  pub includes_everyone : Bool

pub record AccessApplication : Type 0 where
  pub hostname : String
  pub path : String
  pub policies : List AccessPolicy

pub data PublicScope : Type 0 where
  host_scope path_scope : PublicScope

pub record AccessEvidence : Type 0 where
  pub policy_count : Option ℕ
  pub public_scope : Option PublicScope
  pub public_policies : List String

unfoldable pub is_root_scope : AccessApplication → Bool
is_root_scope app = any (λ p. p == app.path) ("" ∷ "/" ∷ "/*" ∷ "*" ∷ [])

unfoldable pub is_public : AccessPolicy → Bool
is_public policy =
    let decision : String = elim policy.decision [ none ↦ "" | some d ↦ lower d ] in
    decision == "bypass" || (decision == "allow" && policy.includes_everyone)

-- The loops of `access_by_hostname` over the applications of one hostname.
unfoldable pub host_policies : List AccessApplication → List String
host_policies [] = []
host_policies (app ∷ apps) =
    let rest = host_policies apps in
    if is_root_scope app then map (λ p. p.label) (keep is_public app.policies) ++ rest else rest

unfoldable pub path_policies : List AccessApplication → List String
path_policies [] = []
path_policies (app ∷ apps) =
    let rest = path_policies apps in
    let labels = keep is_public app.policies in
    if is_root_scope app
    then rest
    else map (λ p. String.◌++◌ app.path (String.◌++◌ ": " p.label)) labels ++ rest

unfoldable pub count_policies : List AccessApplication → ℕ
count_policies [] = 0
count_policies (app ∷ apps) = length app.policies + count_policies apps

unfoldable pub scope_from : List String → List String → Option PublicScope
scope_from [] [] = none
scope_from [] (p ∷ ps) = some path_scope
scope_from (p ∷ ps) paths = some host_scope

unfoldable pub evidence_from : List AccessApplication → Option AccessEvidence
evidence_from [] = none
evidence_from (app ∷ apps) =
    let hosts = host_policies (app ∷ apps) in
    let paths = path_policies (app ∷ apps) in
    some (record {
      policy_count = some (count_policies (app ∷ apps));
      public_scope = scope_from hosts paths;
      public_policies = hosts ++ paths;
    })

-- `access_by_hostname(observations).get(hostname)`
unfoldable pub access_by_hostname : List AccessApplication → String → Option AccessEvidence
access_by_hostname apps hostname = evidence_from (keep (λ a. a.hostname == hostname) apps)

-- What the anonymous request and the one with a service token showed.
pub record HttpEvidence : Type 0 where
  pub default_deny : Bool
  pub access_signal : Bool
  pub service_auth_attempted : Bool
  pub service_auth_passed : Bool
  pub edge_seen : Bool

-- `_observed_access_policy_exception`
unfoldable pub observed_access_policy_exception : AccessEvidence → Bool → Option Status
observed_access_policy_exception evidence service_auth_passed =
    let empty : Bool = elim evidence.policy_count [ none ↦ false | some n ↦ eqb n 0 ] in
    if empty
    then (if service_auth_passed then some warn else some fail)
    else elim evidence.public_scope [
      | none ↦ none
      | some s ↦ elim s [ host_scope ↦ some fail | path_scope ↦ some warn ]
    ]

unfoldable pub service_auth_access_result : Bool → Bool → Bool → Option Status
service_auth_access_result blocked attempted passed =
    if not blocked then none else if passed then some ok else if attempted then some fail else none

-- `access_policy_result` where an Access application is observed, and where none is.
unfoldable pub observed_access : AccessEvidence → HttpEvidence → Status
observed_access evidence http =
    elim (observed_access_policy_exception evidence http.service_auth_passed) [
      | some status ↦ status
      | none ↦
          elim (service_auth_access_result (http.default_deny || http.access_signal)
            http.service_auth_attempted http.service_auth_passed) [
              | some status ↦ status
              | none ↦ if http.default_deny then warn else ok
            ]
    ]

unfoldable pub unobserved_access : Bool → HttpEvidence → Status
unobserved_access observer_error http =
    elim (service_auth_access_result (http.default_deny || http.access_signal)
      http.service_auth_attempted http.service_auth_passed) [
        | some status ↦ status
        | none ↦
            if http.default_deny
            then fail
            else if http.access_signal
            then ok
            else if observer_error
            then warn
            else fail
      ]

unfoldable pub access_policy_result :
    Bool → Option AccessEvidence → Bool → HttpEvidence → Option Status
access_policy_result required none observer_error http =
    if not required then none else some (unobserved_access observer_error http)
access_policy_result required (some evidence) observer_error http =
    if not required then none else some (observed_access evidence http)

-- A tunnel that serves the hostname, with the status it reports.
pub record TunnelEvidence : Type 0 where
  pub status : Option String

unfoldable pub is_down : TunnelEvidence → Bool
is_down tunnel =
    let status : String = elim tunnel.status [ none ↦ "" | some s ↦ upper s ] in
    any (λ s. s == status) ("DOWN" ∷ "FAILED" ∷ "INACTIVE" ∷ [])

unfoldable pub tunnel_policy_result : Option TunnelEvidence → Bool → Bool → HttpEvidence → Status
tunnel_policy_result (some tunnel) configured observer_error http =
    if is_down tunnel then fail else ok
tunnel_policy_result none configured observer_error http =
    if observer_error
    then warn
    else if not configured
    then (if http.edge_seen then warn else fail)
    else if http.edge_seen
    then warn
    else fail
