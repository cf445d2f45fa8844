-- ===== src/AccessControl/Tests.antt =====
-- nabla/access_control.py: the middleware on concrete requests.
use fastapi_sample.Prelude.{
  ◌≡◌, ◌≢◌, refl, true, false, ◌==◌, Option, none, some, [], String, starts_with, Memᴰ,
  if◌then◌else◌, strip, lstrip, rstrip, lower, upper, before, after, is_ascii,
}
use fastapi_sample.RoutePolicy.{
  owner, diagnostics_key, within, prefix_policy, exact_policy, http_route_policy, route_policy_for,
}
use fastapi_sample.RoutePolicy.Protected.{IsProtected, private_route-IsProtected}
use fastapi_sample.TrustedIp.{Addresses, owner_source_permitted}
use fastapi_sample.AccessControl.{
  unauthorized, Request, Settings, key_error, type_error, unicode_encode_error, forward, raise,
  provided_access_key, key_field, is_owner_diagnostics, compare_digest, owner_ui_authenticated,
  check_key, authorize_key, authorize, is_temporary_read, operations_access_middleware,
}
use fastapi_sample.AccessControl.Grants.{Evidence, operations_access_middleware-Evidence}
use fastapi_sample.AccessControl.Refusals.{
  operations_access_middleware-ne-key_error, operations_access_middleware-write,
}

abbrev texts : Addresses
texts = record {
  IpAddress = String;
  IpNetwork = String;
  ip_address = λ s. if s == "" then none else some s;
  ip_network = λ s. some s;
  prefixlen = λ n. 8;
  contains = λ n a. starts_with a n;
}

abbrev request : String → String → String → Request
request method path key = record {
  method = method;
  path = path;
  header = λ name. if name == "X-Admin-Key" then some key else none;
  scope = record { headers = some []; client = some "10.0.0.7" };
  owner_token = unauthorized;
  cookie_valid = some false;
  same_origin = false;
}

abbrev settings : Option String → Settings
settings key = record {
  admin_access_key = key;
  diagnostics_access_key = some "d1";
  metrics_scrape_key = none;
  mcp_ops_key = none;
  route_policy_strict = true;
  network = record {
    trusted_cidrs = "";
    trusted_proxy_cidrs = "";
    owner_remote_access_enabled = false;
  };
  readonly_variable = some "true";
}

admin_route : IsProtected (route_policy_for "/admin/users" "GET" "http")
unfolding within
admin_route =
    private_route-IsProtected "/admin/users" "GET" "/admin" (Memᴰ.tail (Memᴰ.tail (Memᴰ.head refl)))
      refl

admin_passes :
    operations_access_middleware texts (request "GET" "/admin/users" "k1") (settings (some "k1"))
    ≡ forward none
unfolding operations_access_middleware is_temporary_read authorize authorize_key check_key
    compare_digest is_owner_diagnostics key_field provided_access_key strip lstrip rstrip upper
    before lower after is_ascii within prefix_policy exact_policy http_route_policy route_policy_for
    owner_ui_authenticated
admin_passes = refl

operations_access_middleware-Evidence_example :
    (let policy = route_policy_for "/admin/users" "GET" "http" in
      Evidence texts
        (request "GET" "/admin/users" "k1")
        (settings (some "k1"))
        policy.visibility
        policy.credential
        none)
operations_access_middleware-Evidence_example =
    operations_access_middleware-Evidence texts (request "GET" "/admin/users" "k1")
      (settings (some "k1")) none admin_route admin_passes

operations_access_middleware-ne-key_error_example :
    operations_access_middleware texts (request "POST" "/a2a" "k1") (settings none)
    ≢ raise key_error
operations_access_middleware-ne-key_error_example =
    operations_access_middleware-ne-key_error texts (request "POST" "/a2a" "k1") (settings none)

operations_access_middleware-write_example :
    operations_access_middleware texts
      (request "POST" "/healthz" "k1")
      (record (settings none) { readonly_variable = some "on" })
    ≡ operations_access_middleware texts (request "POST" "/healthz" "k1") (settings none)
unfolding upper
operations_access_middleware-write_example =
    operations_access_middleware-write texts (request "POST" "/healthz" "k1") (settings none)
      (some "on") refl

-- A key outside ASCII, and a signed cookie whose time is outside ASCII.
non_ascii_key :
    operations_access_middleware texts (request "GET" "/admin/users" "é") (settings (some "k1"))
    ≡ raise type_error
unfolding operations_access_middleware is_temporary_read authorize authorize_key check_key
    compare_digest is_owner_diagnostics key_field provided_access_key strip lstrip rstrip upper
    before lower after is_ascii within prefix_policy exact_policy http_route_policy route_policy_for
    owner_ui_authenticated
non_ascii_key = refl

non_ascii_cookie :
    authorize_key texts owner diagnostics_key
      (record (request "GET" "/api/homelab" "") { cookie_valid = none })
      (record (settings none) {
        network = record {
          trusted_cidrs = "";
          trusted_proxy_cidrs = "";
          owner_remote_access_enabled = true;
        };
      })
    ≡ raise unicode_encode_error
unfolding authorize_key key_field is_owner_diagnostics owner_ui_authenticated owner_source_permitted
non_ascii_cookie = refl
