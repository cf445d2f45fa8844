-- ===== src/AccessControl/Refusals.antt =====
-- nabla/access_control.py: the ways in which a request is refused.
use fastapi_sample.Prelude.{String, ◌≡◌, refl, ◌≢◌, false, Option, none, some, upper, arith}
use fastapi_sample.RoutePolicy.{
  Visibility, public_candidate, review, Credential, no_key, access_jwt, one_of, read_methods,
  route_policy_for,
}
use fastapi_sample.RoutePolicy.Classes.{IsConsistent, route_policy_for-IsConsistent}
use fastapi_sample.RoutePolicy.Protected.{IsProtected}
use fastapi_sample.TrustedIp.{Addresses}
use fastapi_sample.AccessControl.{
  Request, Settings, key_error, deny, raise, key_field, compare_digest, authorize_owner,
  owner_ui_authenticated, check_key, authorize_key, authorize, is_temporary_read,
  operations_access_middleware,
}

module _ (net : Addresses) (r : Request) (s : Settings) where
  authorize_key-ne-key_error :
      (v : Visibility) (c : Credential)
      → c ≢ no_key
      → c ≢ access_jwt
      → authorize_key net v c r s ≢ raise key_error
  unfolding authorize_key check_key key_field compare_digest
  authorize_key-ne-key_error v no_key p q h = p refl
  authorize_key-ne-key_error v access_jwt p q h = q refl
  authorize_key-ne-key_error v c p q h = ground arith

  authorize-ne-key_error :
      (v : Visibility) (c : Credential)
      → IsConsistent (record { visibility = v; credential = c })
      → authorize net v c r s ≢ raise key_error
  unfolding authorize authorize_owner
  authorize-ne-key_error public_candidate c consistent h = cc
  authorize-ne-key_error review c consistent h = ground arith
  authorize-ne-key_error v access_jwt consistent h = ground arith
  authorize-ne-key_error v c consistent h =
      authorize_key-ne-key_error v c (λ e. ground (arith, consistent.0 e)) (λ e. cc) h

  -- The table of keys has an entry for every credential that the classification can ask for: no
  -- request ends in the KeyError of that lookup.
  pub operations_access_middleware-ne-key_error :
      operations_access_middleware net r s ≢ raise key_error
  unfolding operations_access_middleware
  operations_access_middleware-ne-key_error h =
      let policy = route_policy_for r.path r.method "http" in
      authorize-ne-key_error policy.visibility policy.credential
        (route_policy_for-IsConsistent r.path r.method "http") (ground arith)

  authorize-unset :
      (v : Visibility) (c : Credential) (header : String)
      → v ≢ public_candidate
      → v ≢ review
      → key_field s c ≡ some (none, header)
      → authorize net v c r s ≡ deny 503
  unfolding authorize authorize_key key_field
  authorize-unset public_candidate c header p q unset = absurd (p refl)
  authorize-unset review c header p q unset = absurd (q refl)
  authorize-unset v access_jwt header p q unset = cc
  authorize-unset v c header p q unset = ground arith

  -- A protected route whose key is not configured answers 503 to every request that neither the
  -- temporary read rollback lets through nor a token guards.
  pub operations_access_middleware-unset :
      (header : String)
      → is_temporary_read net r s ≡ false
      → IsProtected (route_policy_for r.path r.method "http")
      → key_field s (route_policy_for r.path r.method "http").credential ≡ some (none, header)
      → operations_access_middleware net r s ≡ deny 503
  unfolding operations_access_middleware
  operations_access_middleware-unset header temporary protected unset =
      let policy = route_policy_for r.path r.method "http" in
      rw temporary
        (authorize-unset policy.visibility policy.credential header protected.0 protected.1 unset)

authorize-variable :
    (net : Addresses) (r : Request) (s : Settings) (variable : Option String) (v : Visibility)
    (c : Credential)
    → authorize net v c r (record s { readonly_variable = variable }) ≡ authorize net v c r s
unfolding authorize authorize_key authorize_owner owner_ui_authenticated check_key key_field
authorize-variable net r s variable public_candidate c = refl
authorize-variable net r s variable review c = refl
authorize-variable net r s variable v access_jwt = refl
authorize-variable net r s variable v c = refl

-- The temporary read rollback changes nothing for a request that is no GET or HEAD: whatever the
-- environment variable says, the outcome is the same.
pub operations_access_middleware-write :
    (net : Addresses) (r : Request) (s : Settings) (variable : Option String)
    → one_of read_methods (upper r.method) ≡ false
    → operations_access_middleware net r (record s { readonly_variable = variable })
      ≡ operations_access_middleware net r s
unfolding operations_access_middleware is_temporary_read
operations_access_middleware-write net r s variable h =
    let policy = route_policy_for r.path r.method "http" in
    rw (h, authorize-variable net r s variable policy.visibility policy.credential)
