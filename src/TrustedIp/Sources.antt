-- ===== src/TrustedIp/Sources.antt =====
-- nabla/homelab_trusted_ip.py: what an accepted source address proves.
use fastapi_sample.Prelude.{
  String, ◌<◌, ◌≤◌, ◌≡◌, refl, ◌≢◌, ◌⊎◌, inl, inr, true, false, Bool-cases, Option-cases, ◌||◌,
  List, [], ◌∷◌, ◌++◌, Memᴰ, none, some, any, All, length, strip, split, lower, map, arith, eq_iff,
  eq_refl, any-Mem,
}
use fastapi_sample.Prelude.Dict.{lookup, insert, lookup-insert}
use fastapi_sample.TrustedIp.{
  Addresses, Header, field, malformed, Scope, NetworkSettings, is_sensitive, sensitive_from,
  sensitive_headers, header_value, is_set, parse_networks, parse_cidrs, source, no_source,
  value_error, forwarded_source, source_from_headers, source_allowed, allowed_owner_source, Source,
}

module _ (net : Addresses) where
  open net use {IpAddress, IpNetwork, ip_address, ip_network, prefixlen, contains}

  parse_networks-All :
      (entries : List String) (nets : List IpNetwork)
      → parse_networks net entries ≡ some nets
      → All (λ n. 0 < prefixlen n) nets × (length nets ≡ length entries)
  unfolding parse_networks
  parse_networks-All [] nets h =
      let e : ◌≡◌ {A = List IpNetwork} [] nets = cc in rw (← e) (tt, refl)
  parse_networks-All (entry ∷ entries) nets h = elim (Option-cases (ip_network entry)) [
    | inl bad ↦ absurd (ground arith)
    | inr (network, good) ↦ elim (Option-cases (parse_networks net entries)) [
      | inl bad ↦ absurd (ground arith)
      | inr (more, rest) ↦
          let e : (0 < prefixlen network) × (network ∷ more ≡ nets) = ground arith in
          let ih = parse_networks-All entries more rest in
          rw (← e.1) ((e.0, ih.0), omega (arith, ih.1))
    ]
  ]

  -- An accepted list of networks has between 1 and 32 members, and none covers every address.
  pub parse_cidrs_bounds :
      (raw : String) (nets : List IpNetwork)
      → parse_cidrs net raw ≡ some nets
      → All (λ n. 0 < prefixlen n) nets × (1 ≤ length nets) × (length nets ≤ 32)
  unfolding parse_cidrs
  parse_cidrs_bounds raw nets h =
      let entries = map strip (split b',' raw) in
      let found : (1 ≤ length entries)
          × (length entries ≤ 32)
          × (parse_networks net entries ≡ some nets) =
        ground arith in
      let all = parse_networks-All entries nets found.2 in
      (all.0, omega (arith, all.1), omega (arith, all.1))

  -- How an address came to be the source: the peer itself, with no forwarding header, or the one
  -- forwarded address, from a peer inside a configured proxy network.
  pub data Provenance (values : List (String × String)) (peer : IpAddress)
      (settings : NetworkSettings) (address : IpAddress) : Type 0 where
    direct :
        header_value "x-forwarded-for" values ≡ ""
        → header_value "cf-connecting-ip" values ≡ ""
        → address ≡ peer
        → Provenance values peer settings address
    proxied :
        (proxies : List IpNetwork)
        → parse_cidrs net settings.trusted_proxy_cidrs ≡ some proxies
        → any (λ p. contains p peer) proxies ≡ true
        → ip_address (header_value "x-forwarded-for" values) ≡ some address
        → Provenance values peer settings address

  source_from_headers-Provenance :
      (values : List (String × String)) (peer : IpAddress) (settings : NetworkSettings)
      (address : IpAddress)
      → source_from_headers net values peer settings ≡ source address
      → Provenance values peer settings address
  unfolding source_from_headers forwarded_source
  source_from_headers-Provenance values peer settings address h =
      let xff = header_value "x-forwarded-for" values in
      let cf = header_value "cf-connecting-ip" values in
      elim (Bool-cases (is_set xff || is_set cf)) [
        | inl forwarded ↦ elim (Option-cases (parse_cidrs net settings.trusted_proxy_cidrs)) [
          | inl bad ↦ absurd (ground arith)
          | inr (proxies, good) ↦ elim (Option-cases (ip_address xff)) [
            | inl bad ↦ absurd (ground arith)
            | inr (real, parsed) ↦ proxied proxies good (ground arith) (ground arith)
          ]
        ]
        | inr plain ↦
            direct (ground (arith, eq_iff xff "")) (ground (arith, eq_iff cf "")) (ground arith)
      ]

  Source-cases :
      (s : Source net)
      → ((a : IpAddress) × (s ≡ source a)) ⊎ ((raw : String) → source_allowed net s raw ≡ false)
  unfolding source_allowed
  Source-cases (source a) = inl (a, refl)
  Source-cases no_source = inr (λ raw. refl)
  Source-cases value_error = inr (λ raw. refl)

  -- What an accepted request proves: where its address came from, and the network that holds it.
  pub record IsGrounded (scope : Scope) (settings : NetworkSettings) : Type 0 where
    pub host : String
    pub peer : IpAddress
    pub values : List (String × String)
    pub address : IpAddress
    pub nets : List IpNetwork
    pub network : IpNetwork
    pub client : scope.client ≡ some host
    pub parsed : ip_address host ≡ some peer
    pub headers : sensitive_headers scope.headers ≡ some values
    pub provenance : Provenance values peer settings address
    pub trusted : parse_cidrs net settings.trusted_cidrs ≡ some nets
    pub listed : Memᴰ network nets
    pub holds : contains network address ≡ true

  source_allowed-IsGrounded :
      (scope : Scope) (settings : NetworkSettings) (host : String) (peer : IpAddress)
      (values : List (String × String))
      → scope.client ≡ some host
      → ip_address host ≡ some peer
      → sensitive_headers scope.headers ≡ some values
      → source_allowed net (source_from_headers net values peer settings) settings.trusted_cidrs
        ≡ true
      → IsGrounded scope settings
  unfolding source_allowed
  source_allowed-IsGrounded scope settings host peer values client parsed headers h =
      elim (Source-cases (source_from_headers net values peer settings)) [
        | inl (address, e) ↦ elim (Option-cases (parse_cidrs net settings.trusted_cidrs)) [
          | inl bad ↦ absurd (ground arith)
          | inr (nets, trusted) ↦
              let (network, listed, holds) =
                any-Mem (λ n. contains n address) nets (ground arith) in
              record {
                host = host;
                peer = peer;
                values = values;
                address = address;
                nets = nets;
                network = network;
                client = client;
                parsed = parsed;
                headers = headers;
                provenance = source_from_headers-Provenance values peer settings address e;
                trusted = trusted;
                listed = listed;
                holds = holds;
              }
        ]
        | inr refused ↦ absurd (ground (arith, refused settings.trusted_cidrs))
      ]

  -- With the network restriction on, a request is accepted only from an address that one of the
  -- trusted networks holds, and that address is the peer's own or was forwarded by a trusted proxy.
  pub allowed_owner_source-IsGrounded :
      (scope : Scope) (settings : NetworkSettings)
      → allowed_owner_source net scope settings ≡ true
      → IsGrounded scope settings
  unfolding allowed_owner_source source_allowed
  allowed_owner_source-IsGrounded scope settings h = elim (Option-cases scope.client) [
    | inl missing ↦ absurd (ground arith)
    | inr (host, client) ↦ elim (Option-cases (ip_address host)) [
      | inl bad ↦ absurd (ground arith)
      | inr (peer, parsed) ↦ elim (Option-cases (sensitive_headers scope.headers)) [
        | inl bad ↦ absurd (ground arith)
        | inr (values, headers) ↦
            source_allowed-IsGrounded scope settings host peer values client parsed headers
              (ground arith)
      ]
    ]
  ]

module _ (name : String) (sensitive : is_sensitive name ≡ true) where
  sensitive_from-seen :
      (values : List (String × String)) (mid post : List Header) (k v : String)
      → lower k ≡ name
      → lookup name values ≢ none
      → sensitive_from values (mid ++ field k v ∷ post) ≡ none
  unfolding sensitive_from
  sensitive_from-seen values [] post k v e seen = rw (e, sensitive) (ground arith)
  sensitive_from-seen values (malformed ∷ mid) post k v e seen = refl
  sensitive_from-seen values (field j w ∷ mid) post k v e seen = ground (
    arith,
    lookup-insert (lower j) name (strip w) values,
    sensitive_from-seen values mid post k v e seen,
    sensitive_from-seen (insert (lower j) (strip w) values) mid post k v e,
  )

module _ (k k' : String) (sensitive : is_sensitive (lower k) ≡ true)
    (same : lower k' ≡ lower k) where
  sensitive_from-twice :
      (values : List (String × String)) (pre mid post : List Header) (v v' : String)
      → sensitive_from values (pre ++ field k v ∷ (mid ++ field k' v' ∷ post)) ≡ none
  unfolding sensitive_from
  sensitive_from-twice values [] mid post v v' =
      let known = insert (lower k) (strip v) values in
      rw sensitive (
        ground (
          arith,
          eq_refl (lower k),
          lookup-insert (lower k) (lower k) (strip v) values,
          sensitive_from-seen (lower k) sensitive known mid post k' v' same,
        ))
  sensitive_from-twice values (malformed ∷ pre) mid post v v' = refl
  sensitive_from-twice values (field j w ∷ pre) mid post v v' = ground (
    arith,
    sensitive_from-twice values pre mid post v v',
    sensitive_from-twice (insert (lower j) (strip w) values) pre mid post v v',
  )

-- A request that names one provenance header twice, in whatever letter case and wherever the two
-- stand, is refused.
pub allowed_owner_source-duplicate :
    (net : Addresses) (scope : Scope) (settings : NetworkSettings) (pre mid post : List Header)
    (k k' v v' : String)
    → is_sensitive (lower k) ≡ true
    → lower k' ≡ lower k
    → scope.headers ≡ some (pre ++ field k v ∷ (mid ++ field k' v' ∷ post))
    → allowed_owner_source net scope settings ≡ false
unfolding allowed_owner_source sensitive_headers
allowed_owner_source-duplicate net scope settings pre mid post k k' v v' sensitive same e =
    let twice = sensitive_from-twice k k' sensitive same [] pre mid post v v' in ground arith
