-- ===== src/OwnerToken/Subject.antt =====
-- nabla/cloudflare_ops_access.py: what it takes for a token to be the owner's.
use fastapi_sample.Prelude.{
  String, ◌≡◌, true, false, Bool-cases, Option-cases, inl, inr, ◌==◌, List, [], ◌∷◌, Option, some,
  ℕ, arith, eq_iff, any, any-Mem, Memᴰ,
}
use fastapi_sample.AccessControl.{verified}
use fastapi_sample.OwnerToken.{
  text, other, AccessSettings, OwnerConfig, Jwk, Download, Claims, TokenHeader, is_text, is_true,
  is_signing_key, owner_settings, Look, signing_keys, find_key, check_claims, decode_with,
  token_kid, verify_owner_token,
}
use fastapi_sample.OwnerToken.Keys.{
  AreSigningKeys, IsSoundCache, signing_keys-AreSigningKeys, signing_keys-IsSoundCache,
}

-- The claims name the subject, for an application and no service token.
abbrev pub IsClaimOf : String → Claims → Type 0
IsClaimOf subject claims =
    (claims.sub ≡ some (text subject))
    × (is_text "app" claims.type ≡ true)
    × (is_true claims.service_token_id ≡ false)
    × (is_true claims.common_name ≡ false)

check_claims-verified :
    (subjects : List String) (claims : Claims) (subject : String)
    → check_claims subjects claims ≡ verified subject
    → Memᴰ subject subjects × IsClaimOf subject claims
unfolding check_claims
check_claims-verified subjects claims subject h = elim (Option-cases claims.sub) [
  | inl missing ↦ absurd (ground arith)
  | inr (other b, found) ↦ absurd (ground arith)
  | inr (text s, found) ↦
      let (member, same, app, user, person) : (any (λ t. t == s) subjects ≡ true)
          × (s ≡ subject)
          × (is_text "app" claims.type ≡ true)
          × (is_true claims.service_token_id ≡ false)
          × (is_true claims.common_name ≡ false) =
        ground arith in
      let (t, m, e) = any-Mem (λ t. t == s) subjects member in
      (rw (← same) (rw ((eq_iff t s).0 e) at m), (rw (← same) found, app, user, person))
]

find_key-lem :
    (kid : String) (keys : List Jwk) (key : Jwk)
    → AreSigningKeys keys
    → find_key kid keys ≡ some key
    → (is_signing_key key ≡ true) × (is_text kid key.kid ≡ true)
unfolding find_key
find_key-lem kid [] key signing h = absurd (ground arith)
find_key-lem kid (k ∷ keys) key signing h = elim (Bool-cases (is_text kid k.kid)) [
  | inl named ↦ let same : k ≡ key = ground arith in rw (← same) (signing.0, named)
  | inr another ↦ find_key-lem kid keys key signing.1 (ground arith)
]

module _ (get_unverified_header : String → Option TokenHeader)
    (decode : Jwk → String → String → String → Option Claims) where
  -- What a token of the subject shows: a key for RS256 signatures with the name that the token's
  -- header gives, under which it decodes to claims of the subject, who is a configured owner.
  pub data IsOwnerToken (cfg : AccessSettings) (token subject : String) : Type 0 where
    shown :
        (config : OwnerConfig) (kid : String) (key : Jwk) (claims : Claims)
        → owner_settings cfg ≡ some config
        → Memᴰ subject config.subjects
        → token_kid get_unverified_header decode token ≡ some kid
        → (is_signing_key key ≡ true) × (is_text kid key.kid ≡ true)
        → decode key config.audience config.issuer token ≡ some claims
        → IsClaimOf subject claims
        → IsOwnerToken cfg token subject

  decode_with-IsOwnerToken :
      (cfg : AccessSettings) (config : OwnerConfig) (token kid subject : String) (keys : List Jwk)
      → owner_settings cfg ≡ some config
      → token_kid get_unverified_header decode token ≡ some kid
      → AreSigningKeys keys
      → decode_with get_unverified_header decode config token kid keys ≡ verified subject
      → IsOwnerToken cfg token subject
  unfolding decode_with
  decode_with-IsOwnerToken cfg config token kid subject keys set at signing h =
      elim (Option-cases (find_key kid keys)) [
        | inl missing ↦ absurd (ground arith)
        | inr (key, found) ↦ elim (Option-cases (decode key config.audience config.issuer token)) [
          | inl refused ↦ absurd (ground arith)
          | inr (claims, decoded) ↦
              let (mine, facts) =
                check_claims-verified config.subjects claims subject (ground arith) in
              shown config kid key claims set mine at (find_key-lem kid keys key signing found)
                decoded facts
        ]
      ]

  -- A token is accepted only for a configured owner: it is signed with a key for RS256 signatures that
  -- its header names, it decodes under that key for the configured issuer and audience, and its claims
  -- name that owner, for an application and not for a service token; as long as the cache of keys held
  -- nothing but such keys at both looks.
  pub verify_owner_token-IsOwnerToken :
      (cfg : AccessSettings) (token subject : String) (first second : Look) (download : Download)
      (stored : ℕ)
      → IsSoundCache first.cache
      → IsSoundCache second.cache
      → (verify_owner_token get_unverified_header decode cfg token first second download stored).0
        ≡ verified subject
      → IsOwnerToken cfg token subject
  unfolding verify_owner_token
  verify_owner_token-IsOwnerToken cfg token subject first second download stored a b h =
      elim (Option-cases (owner_settings cfg)) [
        | inl unset ↦ absurd (ground arith)
        | inr (config, set) ↦ elim (Option-cases (token_kid get_unverified_header decode token)) [
          | inl refused ↦ absurd (ground arith)
          | inr (kid, at) ↦
              elim (Option-cases (signing_keys config.issuer first second download stored).0) [
                | inl no_keys ↦ absurd (ground arith)
                | inr (keys, found) ↦
                    decode_with-IsOwnerToken cfg config token kid subject keys set at
                      (signing_keys-AreSigningKeys config.issuer first second download stored a b
                        keys found)
                      (ground arith)
              ]
        ]
      ]

  -- However a verification ends, the cache that it leaves holds only keys for RS256 signatures that
  -- have a name, as long as those at its two looks do.
  pub verify_owner_token-IsSoundCache :
      (cfg : AccessSettings) (token : String) (first second : Look) (download : Download)
      (stored : ℕ)
      → IsSoundCache first.cache
      → IsSoundCache second.cache
      → IsSoundCache
          (verify_owner_token get_unverified_header decode cfg token first second download stored).1
  unfolding verify_owner_token
  verify_owner_token-IsSoundCache cfg token first second download stored a b =
      elim (Option-cases (owner_settings cfg)) [
        | inl unset ↦ rw (unset, verify_owner_token) a
        | inr (config, set) ↦ elim (Option-cases (token_kid get_unverified_header decode token)) [
          | inl refused ↦ rw (set, refused, verify_owner_token) a
          | inr (kid, at) ↦
              let sound =
                signing_keys-IsSoundCache config.issuer first second download stored a b in
              elim (Option-cases (signing_keys config.issuer first second download stored).0) [
                | inl no_keys ↦ rw (set, at, no_keys, verify_owner_token) sound
                | inr (keys, found) ↦ rw (set, at, found, verify_owner_token) sound
              ]
        ]
      ]
