-- ===== src/TrustedIp.antt =====
-- nabla/homelab_trusted_ip.py: the source-address restriction of the owner endpoints.
-- `ip_address`, `ip_network` and the test of an address in a network come as the record
-- `Addresses`: they are the operating environment's parser of addresses, and nothing is assumed of
-- it. Where the parser raises ValueError it answers `none`.
pub mod Sources
mod Tests
use fastapi_sample.Prelude.{
  String, ℕ, Bool, true, false, not, ◌&&◌, ◌||◌, ◌==◌, List, [], ◌∷◌, Option, none, some, any, all,
  length, leb, eqb, if◌then◌else◌, strip, split, has_char, lower, map,
}
use fastapi_sample.Prelude.Dict.{lookup, insert}

pub record Addresses : Type 1 where
  pub IpAddress : Type 0
  pub IpNetwork : Type 0
  pub ip_address : String → Option IpAddress
  pub ip_network : String → Option IpNetwork
  pub prefixlen : IpNetwork → ℕ
  pub contains : IpNetwork → IpAddress → Bool

-- A member of the ASGI header list: a pair of byte strings, or anything else.
pub data Header : Type 0 where
  field : String → String → Header
  malformed : Header

-- The parts of an ASGI scope that are read: the header list unless it is no list, and the first
-- member of `client` if it is text.
pub record Scope : Type 0 where
  pub headers : Option (List Header)
  pub client : Option String

pub record NetworkSettings : Type 0 where
  pub trusted_cidrs : String
  pub trusted_proxy_cidrs : String
  pub owner_remote_access_enabled : Bool

abbrev pub sensitive_names : List String
sensitive_names = "x-forwarded-for" ∷ "cf-connecting-ip" ∷ "forwarded" ∷ "x-real-ip" ∷ []

unfoldable pub is_sensitive : String → Bool
is_sensitive name = any (λ n. name == n) sensitive_names

-- The loop over the header list; `values` is the dictionary so far.
unfoldable pub sensitive_from :
    List (String × String) → List Header → Option (List (String × String))
sensitive_from values [] = some values
sensitive_from values (malformed ∷ more) = none
sensitive_from values (field key value ∷ more) =
    let name = lower key in
    let kept = sensitive_from (insert name (strip value) values) more in
    let skipped = sensitive_from values more in
    if is_sensitive name then elim (lookup name values) [ some _ ↦ none | none ↦ kept ] else skipped

unfoldable pub sensitive_headers : Option (List Header) → Option (List (String × String))
unfolding sensitive_from
sensitive_headers none = none
sensitive_headers (some raw) = sensitive_from [] raw

-- `addresses.get(name)` where a missing value and an empty one are both false.
unfoldable pub header_value : String → List (String × String) → String
unfolding lookup
header_value name values = elim (lookup name values) [ none ↦ "" | some v ↦ v ]

abbrev pub is_set : String → Bool
is_set text = not (text == "")

module _ (net : Addresses) where
  open net use {IpAddress, IpNetwork, ip_address, ip_network, prefixlen, contains}

  -- The loop of `parse_cidrs`; `none` is its ValueError.
  unfoldable pub parse_networks : List String → Option (List IpNetwork)
  parse_networks [] = some []
  parse_networks (entry ∷ entries) = elim (ip_network entry) [
    | none ↦ none
    | some network ↦
        if eqb (prefixlen network) 0
        then none
        else elim (parse_networks entries) [ none ↦ none | some more ↦ some (network ∷ more) ]
  ]

  unfoldable pub parse_cidrs : String → Option (List IpNetwork)
  unfolding parse_networks split strip
  parse_cidrs raw =
      let entries = map strip (split b',' raw) in
      if not (leb 1 (length entries) && leb (length entries) 32) || any (λ e. e == "") entries
      then none
      else parse_networks entries

  -- What the function returns, or its ValueError.
  pub data Source : Type 0 where
    source : IpAddress → Source
    no_source : Source
    value_error : Source

  -- What follows the checks on the header values: the proxies, then the forwarded address.
  unfoldable pub forwarded_source : String → IpAddress → NetworkSettings → Source
  unfolding parse_cidrs
  forwarded_source xff peer settings =
      if strip settings.trusted_proxy_cidrs == ""
      then no_source
      else elim (parse_cidrs settings.trusted_proxy_cidrs) [
        | none ↦ value_error
        | some proxies ↦
            if any (λ p. contains p peer) proxies
            then elim (ip_address xff) [ none ↦ value_error | some address ↦ source address ]
            else no_source
      ]

  unfoldable pub source_from_headers : List (String × String) → IpAddress → NetworkSettings → Source
  unfolding header_value forwarded_source has_char
  source_from_headers values peer settings =
      let xff = header_value "x-forwarded-for" values in
      let cf = header_value "cf-connecting-ip" values in
      if is_set (header_value "forwarded" values) || is_set (header_value "x-real-ip" values)
      then no_source
      else if not (is_set xff || is_set cf)
      then source peer
      else if not (is_set xff) || has_char b',' xff || (is_set cf && not (cf == xff))
      then no_source
      else forwarded_source xff peer settings

  -- `source in net for net in parse_cidrs(raw)`, after the source is known.
  unfoldable pub source_allowed : Source → String → Bool
  unfolding parse_cidrs
  source_allowed (source address) raw = elim (parse_cidrs raw) [
    | none ↦ false
    | some nets ↦ any (λ n. contains n address) nets
  ]
  source_allowed no_source raw = false
  source_allowed value_error raw = false

  unfoldable pub allowed_owner_source : Scope → NetworkSettings → Bool
  unfolding sensitive_headers source_from_headers source_allowed strip
  allowed_owner_source scope settings =
      if strip settings.trusted_cidrs == "" then false else elim scope.client [
        | none ↦ false
        | some host ↦ elim (ip_address host) [
          | none ↦ false
          | some peer ↦ elim (sensitive_headers scope.headers) [
            | none ↦ false
            | some values ↦
                source_allowed (source_from_headers values peer settings) settings.trusted_cidrs
          ]
        ]
      ]

  unfoldable pub owner_source_permitted : Scope → NetworkSettings → Bool
  unfolding allowed_owner_source
  owner_source_permitted scope settings =
      if settings.owner_remote_access_enabled then true else allowed_owner_source scope settings
