-- ===== src/OwnerToken/Keys.antt =====
-- nabla/cloudflare_ops_access.py: the keys that are used, and those that are kept.
use fastapi_sample.Prelude.{
  String, ◌≡◌, true, Bool-cases, Option-cases, inl, inr, ◌==◌, List, [], ◌∷◌, none, some, ℕ, arith,
  All, if-All,
}
use fastapi_sample.Prelude.Dict.{lookup, insert}
use fastapi_sample.OwnerToken.{
  Jwk, Entry, dict, no_dict, Download, failed, body, KeyCache, is_signing_key, valid_keys,
  downloaded_keys, cached_keys, Look, signing_keys,
}

-- Keys for RS256 signatures, each with a name.
abbrev pub AreSigningKeys : List Jwk → Type 0
AreSigningKeys keys = All (λ k. is_signing_key k ≡ true) keys

abbrev pub IsSoundCache : KeyCache → Type 0
IsSoundCache cache = All (λ entry. AreSigningKeys entry.1.1) cache

valid_keys-AreSigningKeys : (entries : List Entry) → AreSigningKeys (valid_keys entries)
unfolding valid_keys
valid_keys-AreSigningKeys [] = tt
valid_keys-AreSigningKeys (no_dict ∷ more) = valid_keys-AreSigningKeys more
valid_keys-AreSigningKeys (dict k ∷ more) = elim (Bool-cases (is_signing_key k)) [
  | inl signs ↦ rw signs (signs, valid_keys-AreSigningKeys more)
  | inr not_one ↦ rw not_one (valid_keys-AreSigningKeys more)
]

downloaded_keys-AreSigningKeys :
    (download : Download) (keys : List Jwk)
    → downloaded_keys download ≡ some keys
    → AreSigningKeys keys
unfolding downloaded_keys
downloaded_keys-AreSigningKeys failed keys h = absurd (ground arith)
downloaded_keys-AreSigningKeys (body size none) keys h = absurd (ground arith)
downloaded_keys-AreSigningKeys (body size (some entries)) keys h =
    let same : valid_keys entries ≡ keys = ground arith in
    rw (← same) (valid_keys-AreSigningKeys entries)

lookup-AreSigningKeys :
    (issuer : String) (cache : KeyCache) (until : ℕ) (keys : List Jwk)
    → IsSoundCache cache
    → lookup issuer cache ≡ some (until, keys)
    → AreSigningKeys keys
unfolding lookup
lookup-AreSigningKeys issuer [] until keys sound h = absurd (ground arith)
lookup-AreSigningKeys issuer ((name, kept) ∷ cache) until keys sound h =
    elim (Bool-cases (name == issuer)) [
      | inl same ↦ let found : kept.1 ≡ keys = ground arith in rw (← found) sound.0
      | inr other ↦ lookup-AreSigningKeys issuer cache until keys sound.1 (ground arith)
    ]

cached_keys-AreSigningKeys :
    (issuer : String) (now : ℕ) (cache : KeyCache) (keys : List Jwk)
    → IsSoundCache cache
    → cached_keys issuer now cache ≡ some keys
    → AreSigningKeys keys
unfolding cached_keys
cached_keys-AreSigningKeys issuer now cache keys sound h =
    elim (Option-cases (lookup issuer cache)) [
      | inl missing ↦ absurd (ground arith)
      | inr ((until, kept), found) ↦
          let same : kept ≡ keys = ground arith in
          rw (← same) (lookup-AreSigningKeys issuer cache until kept sound found)
    ]

insert-IsSoundCache :
    (issuer : String) (until : ℕ) (keys : List Jwk) (cache : KeyCache)
    → AreSigningKeys keys
    → IsSoundCache cache
    → IsSoundCache (insert issuer (until, keys) cache)
unfolding insert
insert-IsSoundCache issuer until keys [] signing sound = (signing, tt)
insert-IsSoundCache issuer until keys (entry ∷ cache) signing sound =
    if-All IsSoundCache (entry.0 == issuer) (signing, sound.1)
      (sound.0, insert-IsSoundCache issuer until keys cache signing sound.1)

module _ (issuer : String) (first second : Look) (download : Download) (stored : ℕ)
    (first_sound : IsSoundCache first.cache) (second_sound : IsSoundCache second.cache) where
  pub signing_keys-IsSoundCache : IsSoundCache (signing_keys issuer first second download stored).1
  unfolding signing_keys
  signing_keys-IsSoundCache = elim (Option-cases (cached_keys issuer first.now first.cache)) [
    | inr (keys, hit) ↦ rw (hit, signing_keys) first_sound
    | inl miss ↦ elim (Option-cases (cached_keys issuer second.now second.cache)) [
      | inr (keys, hit) ↦ rw (miss, hit, signing_keys) second_sound
      | inl again ↦ elim (Option-cases (downloaded_keys download)) [
        | inl no_keys ↦ rw (miss, again, no_keys, signing_keys) second_sound
        | inr (keys, fetched) ↦
            rw (miss, again, fetched, signing_keys)
              (insert-IsSoundCache issuer _ keys second.cache
                (downloaded_keys-AreSigningKeys download keys fetched) second_sound)
      ]
    ]
  ]

  pub signing_keys-AreSigningKeys :
      (keys : List Jwk)
      → (signing_keys issuer first second download stored).0 ≡ some keys
      → AreSigningKeys keys
  unfolding signing_keys
  signing_keys-AreSigningKeys keys h =
      elim (Option-cases (cached_keys issuer first.now first.cache)) [
        | inr (held, hit) ↦
            cached_keys-AreSigningKeys issuer first.now first.cache keys first_sound (ground arith)
        | inl miss ↦ elim (Option-cases (cached_keys issuer second.now second.cache)) [
          | inr (held, hit) ↦
              cached_keys-AreSigningKeys issuer second.now second.cache keys second_sound
                (ground arith)
          | inl again ↦ elim (Option-cases (downloaded_keys download)) [
            | inl no_keys ↦ absurd (ground arith)
            | inr (fresh, fetched) ↦ downloaded_keys-AreSigningKeys download keys (ground arith)
          ]
        ]
      ]
