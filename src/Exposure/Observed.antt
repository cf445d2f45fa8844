-- ===== src/Exposure/Observed.antt =====
-- nabla/api/homelab_exposure.py: the tables by hostname and the origins; the summary of a snapshot
-- in nabla/api/cloudflare_exposure_observer.py. `urlsplit` is Python's, which is not defined here.
use Prim.Native.Char.{code}
use fastapi_sample.Prelude.{
  String, ℕ, ◌+◌, Bool, true, false, not, ◌&&◌, ◌||◌, ◌==◌, List, [], ◌∷◌, ◌++◌, any, count, length,
  Option, none, some, ltb, eqb, if◌then◌else◌, lower, strip,
}
use fastapi_sample.Prelude.Dict.{lookup, insert}
use fastapi_sample.SickzPolicy.Access.{
  AccessPolicy, AccessApplication, PublicScope, host_scope, path_scope, is_root_scope,
}

-- What is read of a split URL; the inner option of the port is none for a port that raises.
pub record Url : Type 0 where
  pub scheme : String
  pub hostname : Option String
  pub port : Option (Option ℕ)

-- `none` is a `ValueError`.
abbrev pub Urlsplit : Type 0
Urlsplit = String → Option Url

-- `s.rstrip(".")`
unfoldable pub rstrip_dots : String → String
rstrip_dots String.[] = ""
rstrip_dots (String.◌∷◌ c s) =
    let rest = rstrip_dots s in if eqb (code c) b'.' && rest == "" then "" else String.◌∷◌ c rest

-- `s.lower().rstrip(".")`
unfoldable pub normal_host : String → String
normal_host s = rstrip_dots (lower s)

-- `s or None`
unfoldable pub filled : String → Option String
filled s = if s == "" then none else some s

abbrev pub text_of : Option String → String
text_of none = ""
text_of (some s) = s

unfoldable pub url_host : Url → Option String
url_host u = filled (normal_host (text_of u.hostname))

unfoldable pub hostname : Urlsplit → Option String → Option String
hostname urlsplit url = elim (filled (text_of url)) [
  | none ↦ none
  | some s ↦ elim (urlsplit s) [ none ↦ none | some u ↦ url_host u ]
]

unfoldable pub default_port : String → Option ℕ
default_port scheme =
    if lower scheme == "http" then some 80 else if lower scheme == "https" then some 443 else none

unfoldable pub origin_host_port : Urlsplit → String → Option String × Option ℕ
origin_host_port urlsplit url = elim (filled url) [
  | none ↦ (none, none)
  | some s ↦ elim (urlsplit s) [
    | none ↦ (none, none)
    | some u ↦ elim u.port [
      | none ↦ (none, none)
      | some port ↦ elim port [
        | none ↦ (url_host u, default_port u.scheme)
        | some n ↦ (url_host u, some n)
      ]
    ]
  ]
]

pub record TunnelIngress : Type 0 where
  pub tunnel_name : String
  pub hostname : String
  pub service : String
  pub status : Option String

pub record TunnelObservation : Type 0 where
  pub name : String
  pub status : Option String
  pub config_source : Option String
  pub ingress : List TunnelIngress

pub record TunnelFacts : Type 0 where
  pub tunnel_name : String
  pub tunnel_status : Option String
  pub config_source : Option String
  pub origin_service : String

unfoldable pub tunnel_facts : TunnelObservation → TunnelIngress → TunnelFacts
tunnel_facts tunnel ingress = record {
  tunnel_name = if ingress.tunnel_name == "" then tunnel.name else ingress.tunnel_name;
  tunnel_status = if text_of ingress.status == "" then tunnel.status else ingress.status;
  config_source = tunnel.config_source;
  origin_service = ingress.service;
}

unfoldable pub add_ingress :
    TunnelObservation
    → List TunnelIngress
    → List (String × TunnelFacts)
    → List (String × TunnelFacts)
add_ingress tunnel [] table = table
add_ingress tunnel (i ∷ is) table =
    add_ingress tunnel is (insert (normal_host i.hostname) (tunnel_facts tunnel i) table)

unfoldable pub add_tunnels :
    List TunnelObservation → List (String × TunnelFacts) → List (String × TunnelFacts)
add_tunnels [] table = table
add_tunnels (t ∷ ts) table = add_tunnels ts (add_ingress t t.ingress table)

abbrev pub tunnels_by_hostname : List TunnelObservation → List (String × TunnelFacts)
tunnels_by_hostname observations = add_tunnels observations []

-- `grouped.setdefault(hostname, []).append(application)`
unfoldable pub group_applications :
    List AccessApplication
    → List (String × List AccessApplication)
    → List (String × List AccessApplication)
group_applications [] groups = groups
group_applications (app ∷ apps) groups =
    let key = normal_host app.hostname in
    let group : List AccessApplication = elim (lookup key groups) [ none ↦ [] | some g ↦ g ] in
    group_applications apps (insert key (group ++ (app ∷ [])) groups)

unfoldable pub is_public_policy : AccessPolicy → Bool
is_public_policy policy =
    let decision = lower (strip (text_of policy.decision)) in
    decision == "bypass" || (decision == "allow" && policy.includes_everyone)

-- What is known of the applications of a hostname; the decisions' names are left out.
pub record AccessFacts : Type 0 where
  pub application_count : ℕ
  pub policy_count : ℕ
  pub public_policy_count : ℕ
  pub public_scope : Option PublicScope

unfoldable pub policies_of : List AccessApplication → ℕ
policies_of [] = 0
policies_of (app ∷ apps) = length app.policies + policies_of apps

unfoldable pub public_policies_of : List AccessApplication → ℕ
public_policies_of [] = 0
public_policies_of (app ∷ apps) = count is_public_policy app.policies + public_policies_of apps

unfoldable pub is_public_at : Bool → AccessApplication → Bool
is_public_at root app =
    any is_public_policy app.policies
    && (if root then is_root_scope app else not (is_root_scope app))

unfoldable pub access_facts : List AccessApplication → AccessFacts
access_facts apps = record {
  application_count = length apps;
  policy_count = policies_of apps;
  public_policy_count = public_policies_of apps;
  public_scope =
      if any (is_public_at true) apps
      then some host_scope
      else if any (is_public_at false) apps
      then some path_scope
      else none;
}

abbrev pub is_access_public : AccessFacts → Bool
is_access_public a = ltb 0 a.public_policy_count

unfoldable pub facts_of_groups :
    List (String × List AccessApplication) → List (String × AccessFacts)
facts_of_groups [] = []
facts_of_groups (g ∷ gs) = (g.0, access_facts g.1) ∷ facts_of_groups gs

abbrev pub access_by_hostname : List AccessApplication → List (String × AccessFacts)
access_by_hostname observations = facts_of_groups (group_applications observations [])

pub record ControlPlane : Type 0 where
  pub reusable_policy_count : Option ℕ
  pub reusable_policy_app_count : Option ℕ
  pub reusable_policy_error : Option String
  pub service_token_count : Option ℕ
  pub service_token_enabled_count : Option ℕ
  pub service_token_error : Option String
  pub configured_service_token_present : Option Bool

-- What the reconciliation reads of a snapshot.
pub record CloudflareExposureSnapshot : Type 0 where
  pub configured : Bool
  pub tunnels : List TunnelObservation
  pub access_applications : List AccessApplication
  pub tunnel_error : Option String
  pub access_error : Option String
  pub access_control_plane : Option ControlPlane
  pub stale : Bool

-- A text that is there and not empty.
abbrev pub is_set : Option String → Bool
is_set error = not (text_of error == "")

abbrev pub is_empty {ℓ} : {A : Type ℓ} → List A → Bool
is_empty [] = true
is_empty (x ∷ xs) = false

-- `summary()["status_confirmed"]`
unfoldable pub status_confirmed : CloudflareExposureSnapshot → Bool
status_confirmed s =
    s.configured
    && not (is_empty s.tunnels)
    && not (is_set s.tunnel_error)
    && not (is_set s.access_error)
    && not s.stale

-- `summary()["warning"]` is there.
unfoldable pub has_provider_warning : CloudflareExposureSnapshot → Bool
has_provider_warning s = s.configured && not (status_confirmed s)
