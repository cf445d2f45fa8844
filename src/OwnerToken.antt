-- ===== src/OwnerToken.antt =====
-- nabla/cloudflare_ops_access.py: the verification of the owner's Cloudflare Access token. The parser of
-- the token's header and the decoder that checks its signature and times (PyJWT) are parameters; what
-- the download of the signing keys brings is an argument.
pub mod Keys
pub mod Subject
mod Tests
use Prim.Native.Char.{Char, code}
use Prim.Native.String
use fastapi_sample.Prelude.{
  String, Bool, true, false, not, ◌==◌, ◌&&◌, ◌||◌, List, [], ◌∷◌, Option, none, some, ℕ, ◌+◌, ltb,
  leb, eqb, if◌then◌else◌, any, keep, map, length, strip, split, before, after, starts_with,
}
use fastapi_sample.Prelude.Dict.{lookup, insert}
use fastapi_sample.AccessControl.{
  OwnerCheck, verified, config_error, keys_unavailable, unauthorized, get_or_empty,
}
use fastapi_sample.OwnerSession.{text_length}

-- A value of a JSON object: a text, or something else and whether it is true in a condition.
pub data Value : Type 0 where
  text : String → Value
  other : Bool → Value

pub record AccessSettings : Type 0 where
  pub ops_access_issuer : Option String
  pub ops_access_aud : Option String
  pub ops_access_owner_subjects : Option String

pub record OwnerConfig : Type 0 where
  pub issuer : String
  pub audience : String
  pub subjects : List String

-- A member of the list of keys, with what `get` finds in it.
pub record Jwk : Type 0 where
  pub kty : Option Value
  pub kid : Option Value
  pub use_ : Option Value
  pub alg : Option Value

pub data Entry : Type 0 where
  dict : Jwk → Entry
  no_dict : Entry

-- What the download brings: an error of HTTP, of a status or of JSON; or a body with its length, and
-- the list under "keys" if the body is an object and has one there.
pub data Download : Type 0 where
  failed : Download
  body : ℕ → Option (List Entry) → Download

-- The claims that are read of a decoded token.
pub record Claims : Type 0 where
  pub sub : Option Value
  pub type : Option Value
  pub service_token_id : Option Value
  pub common_name : Option Value

pub record TokenHeader : Type 0 where
  pub alg : Option Value
  pub kid : Option Value

-- `_cache`: by issuer, the time until which the keys are kept, and the keys.
abbrev pub KeyCache : Type 0
KeyCache = List (String × (ℕ × List Jwk))

abbrev pub cache_ttl : ℕ
cache_ttl = 300000000

-- `s.rstrip("/")`
keep_unless_slash : Char → String → String
keep_unless_slash c String.[] = if eqb (code c) b'/' then String.[] else String.◌∷◌ c String.[]
keep_unless_slash c (String.◌∷◌ d s) = String.◌∷◌ c (String.◌∷◌ d s)

unfoldable pub rstrip_slash : String → String
unfolding keep_unless_slash
rstrip_slash String.[] = String.[]
rstrip_slash (String.◌∷◌ c s) = keep_unless_slash c (rstrip_slash s)

unfoldable pub all_label : String → Bool
all_label String.[] = true
all_label (String.◌∷◌ c s) =
    ((leb b'a' (code c) && leb (code c) b'z')
      || (leb b'0' (code c) && leb (code c) b'9')
      || eqb (code c) b'-')
    && all_label s

-- `_ISSUER_PATTERN.fullmatch`: the scheme, a label, and Cloudflare's domain.
unfoldable pub is_issuer : String → Bool
unfolding before after all_label
is_issuer s =
    let host = after b'/' (after b'/' s) in
    starts_with s "https://"
    && not (before b'.' host == "")
    && all_label (before b'.' host)
    && after b'.' host == "cloudflareaccess.com"

-- `none` is the OwnerConfigError.
unfoldable pub owner_settings : AccessSettings → Option OwnerConfig
owner_settings cfg =
    let issuer = rstrip_slash (get_or_empty cfg.ops_access_issuer) in
    let audience = strip (get_or_empty cfg.ops_access_aud) in
    let subjects =
      keep (λ v. not (v == ""))
        (map strip (split b',' (get_or_empty cfg.ops_access_owner_subjects))) in
    if not (is_issuer issuer) || audience == "" || eqb (length subjects) 0
    then none
    else some (record { issuer = issuer; audience = audience; subjects = subjects })

-- `value == expected`, where a missing value is none
abbrev pub is_text : String → Option Value → Bool
is_text expected (some (text s)) = s == expected
is_text expected _ = false

-- `value == expected` for a value that counts as expected where it is missing
abbrev pub is_text_or_missing : String → Option Value → Bool
is_text_or_missing expected none = true
is_text_or_missing expected (some v) = is_text expected (some v)

-- `isinstance(value, str) and value`
abbrev pub is_nonempty_text : Option Value → Bool
is_nonempty_text (some (text s)) = not (s == "")
is_nonempty_text _ = false

-- `bool(claims.get(...))`
abbrev pub is_true : Option Value → Bool
is_true none = false
is_true (some (text s)) = not (s == "")
is_true (some (other b)) = b

-- The conditions on a dictionary of the list of keys.
unfoldable pub is_signing_key : Jwk → Bool
is_signing_key k =
    is_text "RSA" k.kty
    && is_nonempty_text k.kid
    && is_text_or_missing "sig" k.use_
    && is_text_or_missing "RS256" k.alg

unfoldable pub valid_keys : List Entry → List Jwk
unfolding is_signing_key
valid_keys [] = []
valid_keys (no_dict ∷ more) = valid_keys more
valid_keys (dict k ∷ more) =
    let rest = valid_keys more in if is_signing_key k then k ∷ rest else rest

-- The keys of a download; `none` is the OwnerKeysUnavailable.
unfoldable pub downloaded_keys : Download → Option (List Jwk)
downloaded_keys failed = none
downloaded_keys (body size none) = none
downloaded_keys (body size (some keys)) =
    if ltb 131072 size || not (leb 1 (length keys) && leb (length keys) 12)
    then none
    else if eqb (length (valid_keys keys)) 0
    then none
    else some (valid_keys keys)

-- `_cache.get(issuer)`, if its time has not come
unfoldable pub cached_keys : String → ℕ → KeyCache → Option (List Jwk)
unfolding lookup
cached_keys issuer now cache = elim (lookup issuer cache) [
  | none ↦ none
  | some (until, keys) ↦ if ltb now until then some keys else none
]

-- The cache and the clock, at the first look, and at the second when the lock is held.
pub record Look : Type 0 where
  pub now : ℕ
  pub cache : KeyCache

-- The keys, and the cache that is left; `stored` is the time at the end of the download.
unfoldable pub signing_keys : String → Look → Look → Download → ℕ → Option (List Jwk) × KeyCache
unfolding cached_keys
signing_keys issuer first second download stored = elim (cached_keys issuer first.now first.cache) [
  | some keys ↦ (some keys, first.cache)
  | none ↦ elim (cached_keys issuer second.now second.cache) [
    | some keys ↦ (some keys, second.cache)
    | none ↦ elim (downloaded_keys download) [
      | none ↦ (none, second.cache)
      | some keys ↦ (some keys, insert issuer (stored + cache_ttl, keys) second.cache)
    ]
  ]
]

-- `next((key for key in keys if key["kid"] == header["kid"]), None)`
unfoldable pub find_key : String → List Jwk → Option Jwk
find_key kid [] = none
find_key kid (k ∷ keys) = let rest = find_key kid keys in if is_text kid k.kid then some k else rest

-- The last test: the claims of a token that was decoded.
unfoldable pub check_claims : List String → Claims → OwnerCheck
check_claims subjects claims = elim claims.sub [
  | some (text subject) ↦
      if not (is_text "app" claims.type)
        || not (any (λ s. s == subject) subjects)
        || is_true claims.service_token_id
        || is_true claims.common_name
      then unauthorized
      else verified subject
  | some (other b) ↦ unauthorized
  | none ↦ unauthorized
]

module _ (get_unverified_header : String → Option TokenHeader)
    (decode : Jwk → String → String → String → Option Claims) where
  -- From the search for the header's key on; `decode` has the key, the audience and the issuer.
  unfoldable pub decode_with : OwnerConfig → String → String → List Jwk → OwnerCheck
  unfolding find_key check_claims
  decode_with config token kid keys = elim (find_key kid keys) [
    | none ↦ unauthorized
    | some key ↦ elim (decode key config.audience config.issuer token) [
      | none ↦ unauthorized
      | some claims ↦ check_claims config.subjects claims
    ]
  ]

  -- The key identifier of a token whose header is in order; `none` is the OwnerUnauthorized.
  unfoldable pub token_kid : String → Option String
  unfolding text_length
  token_kid token =
      if token == "" || ltb 8192 (text_length token)
      then none
      else elim (get_unverified_header token) [
        | none ↦ none
        | some header ↦
            if not (is_text "RS256" header.alg) || not (is_nonempty_text header.kid)
            then none
            else elim header.kid [
              | some (text kid) ↦ some kid
              | some (other b) ↦ none
              | none ↦ none
            ]
      ]

  -- The answer, and the cache that is left.
  unfoldable pub verify_owner_token :
      AccessSettings → String → Look → Look → Download → ℕ → OwnerCheck × KeyCache
  unfolding owner_settings token_kid signing_keys decode_with
  verify_owner_token cfg token first second download stored = elim (owner_settings cfg) [
    | none ↦ (config_error, first.cache)
    | some config ↦ elim (token_kid token) [
      | none ↦ (unauthorized, first.cache)
      | some kid ↦
          let (keys, cache) = signing_keys config.issuer first second download stored in
          elim keys [
            | none ↦ (keys_unavailable, cache)
            | some found ↦ (decode_with config token kid found, cache)
          ]
    ]
  ]
