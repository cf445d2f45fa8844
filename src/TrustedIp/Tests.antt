-- ===== src/TrustedIp/Tests.antt =====
-- nabla/homelab_trusted_ip.py: the restriction on concrete requests. The addresses of these tests
-- are texts, a network is a text that its addresses start with, and "*" is the network of all.
use fastapi_sample.Prelude.{
  ◌≡◌, refl, true, false, ◌==◌, none, some, [], ◌∷◌, String, starts_with, if◌then◌else◌, strip,
  lstrip, rstrip, split, lower, has_char,
}
use fastapi_sample.Prelude.Dict.{lookup, insert}
use fastapi_sample.TrustedIp.{
  Addresses, field, Scope, NetworkSettings, is_sensitive, sensitive_from, sensitive_headers,
  header_value, parse_networks, parse_cidrs, forwarded_source, source_from_headers, source_allowed,
  allowed_owner_source,
}
use fastapi_sample.TrustedIp.Sources.{IsGrounded, allowed_owner_source-IsGrounded}

abbrev texts : Addresses
texts = record {
  IpAddress = String;
  IpNetwork = String;
  ip_address = λ s. if s == "" then none else some s;
  ip_network = λ s. some s;
  prefixlen = λ n. if n == "*" then 0 else 8;
  contains = λ n a. starts_with a n;
}

abbrev lan : NetworkSettings
lan = record {
  trusted_cidrs = "10., 192.168.";
  trusted_proxy_cidrs = "127.";
  owner_remote_access_enabled = false;
}

abbrev proxied_request : Scope
proxied_request = record {
  headers = some (field "X-Forwarded-For" " 10.0.0.7" ∷ []);
  client = some "127.0.0.1";
}

abbrev double_request : Scope
double_request = record {
  headers = some (field "X-Real-IP" "a" ∷ field "x-real-ip" "b" ∷ []);
  client = some "10.0.0.7";
}

accepts_proxied : allowed_owner_source texts proxied_request lan ≡ true
unfolding allowed_owner_source sensitive_headers sensitive_from is_sensitive header_value lookup
    insert source_from_headers forwarded_source source_allowed parse_cidrs parse_networks strip
    lstrip rstrip split lower has_char
accepts_proxied = refl

allowed_owner_source-IsGrounded_example : IsGrounded texts proxied_request lan
allowed_owner_source-IsGrounded_example =
    allowed_owner_source-IsGrounded texts proxied_request lan accepts_proxied
