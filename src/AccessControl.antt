-- ===== src/AccessControl.antt =====
-- nabla/access_control.py: the middleware that decides whether a request reaches its handler, with
-- nabla/diagnostics_readonly_mode.py. `owner_ui_authenticated` is the conjunction that
-- nabla/api/owner_ui_session.py writes; the answers of the signed-cookie check, of the same-origin
-- check and of the token verification stand in the request.
pub mod Grants
pub mod Refusals
mod Tests
use fastapi_sample.Prelude.{
  String, Bool, true, false, not, ◌&&◌, ◌||◌, ◌==◌, List, [], ◌∷◌, Option, none, some, ℕ,
  if◌then◌else◌, strip, lower, upper, before, after, is_ascii,
}
use fastapi_sample.RoutePolicy.{
  Visibility, public_candidate, owner, service, internal, review, Credential, no_key, admin_key,
  diagnostics_key, metrics_key, mcp_key, access_jwt, RoutePolicy, one_of, read_methods,
  route_policy_for,
}
use fastapi_sample.TrustedIp.{Addresses, Scope, NetworkSettings, owner_source_permitted}

-- How `verify_owner_token` ends: a subject, or one of its three exceptions.
pub data OwnerCheck : Type 0 where
  verified : String → OwnerCheck
  config_error keys_unavailable unauthorized : OwnerCheck

pub record Request : Type 0 where
  pub method : String
  pub path : String
  -- `request.headers.get`, which ignores letter case
  pub header : String → Option String
  pub scope : Scope
  pub owner_token : OwnerCheck
  -- `owner_cookie_valid`; none is its UnicodeEncodeError
  pub cookie_valid : Option Bool
  pub same_origin : Bool

pub record Settings : Type 0 where
  pub admin_access_key : Option String
  pub diagnostics_access_key : Option String
  pub metrics_scrape_key : Option String
  pub mcp_ops_key : Option String
  pub route_policy_strict : Bool
  pub network : NetworkSettings
  -- the environment variable HOMELAB_PUBLIC_DIAGNOSTICS_READONLY
  pub readonly_variable : Option String

pub data Error : Type 0 where
  key_error type_error unicode_encode_error : Error

-- The request is passed on, with the owner's subject noted if there is one; passed on with the
-- answer marked as not to be stored; answered with a status; or ended by an exception.
pub data Outcome : Type 0 where
  forward : Option String → Outcome
  forward_no_store : Outcome
  deny : ℕ → Outcome
  raise : Error → Outcome

abbrev pub temporary_read_routes : List String
temporary_read_routes =
    "/healthz" ∷ "/sickz" ∷ "/readyz" ∷ "/api/topology" ∷ "/api/topology-telemetry"
    ∷ "/api/health-board" ∷ "/api/homelab-services" ∷ "/api/homelab-topology"
    ∷ "/api/public-topology" ∷ "/api/runtime/topology" ∷ "/api/homelab/declared-services"
    ∷ "/api/homelab/runtime" ∷ "/api/homelab/status" ∷ "/api/homelab/health" ∷ "/api/homelab/probes"
    ∷ []

abbrev pub true_values : List String
true_values = "1" ∷ "true" ∷ "yes" ∷ "on" ∷ []

abbrev pub get_or_empty : Option String → String
get_or_empty none = ""
get_or_empty (some text) = text

unfoldable pub public_diagnostics_readonly_enabled : Option String → Bool
unfolding lower strip
public_diagnostics_readonly_enabled none = one_of true_values (lower (strip "true"))
public_diagnostics_readonly_enabled (some raw) = one_of true_values (lower (strip raw))

unfoldable pub provided_access_key : Request → String → String
provided_access_key request header_name =
    let header_value = strip (get_or_empty (request.header header_name)) in
    let authorization = get_or_empty (request.header "Authorization") in
    if not (header_value == "")
    then header_value
    else if lower (before b' ' authorization) == "bearer"
    then strip (after b' ' authorization)
    else ""

-- `key_fields[credential]`: the configured key and the header; `none` is the KeyError.
unfoldable pub key_field : Settings → Credential → Option (Option String × String)
key_field s admin_key = some (s.admin_access_key, "X-Admin-Key")
key_field s diagnostics_key = some (s.diagnostics_access_key, "X-Diagnostics-Key")
key_field s metrics_key = some (s.metrics_scrape_key, "X-Metrics-Key")
key_field s mcp_key = some (s.mcp_ops_key, "X-MCP-Key")
key_field s no_key = none
key_field s access_jwt = none

-- `policy.visibility is OWNER and policy.credential is DIAGNOSTICS_KEY`
unfoldable pub is_owner_diagnostics : Visibility → Credential → Bool
is_owner_diagnostics owner diagnostics_key = true
is_owner_diagnostics _ _ = false

-- `compare_digest` raises TypeError for texts that are not ASCII.
unfoldable pub compare_digest : String → String → Option Bool
compare_digest a b = if is_ascii a && is_ascii b then some (a == b) else none

module _ (net : Addresses) where
  unfoldable pub authorize_owner : Request → Settings → Outcome
  authorize_owner r s = elim r.owner_token [
    | config_error ↦ deny 503
    | keys_unavailable ↦ deny 503
    | unauthorized ↦ deny 401
    | verified subject ↦
        if not (owner_source_permitted net r.scope s.network)
        then deny 403
        else forward (some subject)
  ]

  unfoldable pub owner_ui_authenticated : Request → Settings → Option Bool
  owner_ui_authenticated r s =
      if owner_source_permitted net r.scope s.network then r.cookie_valid else some false

  -- From the comparison of the presented key on.
  unfoldable pub check_key :
      Visibility → Credential → String → String → Request → Settings → Outcome
  unfolding compare_digest
  check_key v c configured header r s =
      let value = provided_access_key r header in
      if value == "" then deny 401 else elim (compare_digest value configured) [
        | none ↦ raise type_error
        | some same ↦
            if not same
            then deny 401
            else if is_owner_diagnostics v c
                && not (strip s.network.trusted_cidrs == "")
                && not (owner_source_permitted net r.scope s.network)
            then deny 403
            else forward none
      ]

  -- From the table of keys on.
  unfoldable pub authorize_key : Visibility → Credential → Request → Settings → Outcome
  unfolding check_key owner_ui_authenticated
  authorize_key v c r s = elim (key_field s c) [
    | none ↦ raise key_error
    | some (none, header) ↦ deny 503
    | some (some configured, header) ↦
        elim (if is_owner_diagnostics v c then owner_ui_authenticated r s else some false) [
          | none ↦ raise unicode_encode_error
          | some signed ↦
              if signed
              then if not (one_of ("GET" ∷ "HEAD" ∷ "OPTIONS" ∷ []) (upper r.method))
                  && not r.same_origin
                then deny 403
                else forward none
              else check_key v c configured header r s
        ]
  ]

  -- The tests on the policy's visibility, then on its credential.
  unfoldable pub authorize : Visibility → Credential → Request → Settings → Outcome
  unfolding authorize_key authorize_owner
  authorize public_candidate c r s = forward none
  authorize review c r s = if s.route_policy_strict then deny 403 else forward none
  authorize v access_jwt r s = authorize_owner r s
  authorize v c r s = authorize_key v c r s

  -- The rollback: reads of the listed routes, while the switch is on.
  unfoldable pub is_temporary_read : Request → Settings → Bool
  is_temporary_read r s =
      one_of read_methods (upper r.method)
      && one_of temporary_read_routes r.path
      && public_diagnostics_readonly_enabled s.readonly_variable

  unfoldable pub operations_access_middleware : Request → Settings → Outcome
  unfolding is_temporary_read authorize
  operations_access_middleware r s =
      let policy = route_policy_for r.path r.method "http" in
      if is_temporary_read r s
      then forward_no_store
      else authorize policy.visibility policy.credential r s
