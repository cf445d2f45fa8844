-- ===== src/OwnerSession.antt =====
-- nabla/api/owner_ui_session.py: the signed cookie of the owner's browser, and the routes that
-- exchange the key for it. Python's `int`, `str` and `urlsplit` and the HMAC are parameters; times
-- are whole seconds.
pub mod Session
mod Tests
use Prim.Native.Char.{Char, code}
use Prim.Native.String
use fastapi_sample.AccessControl.{compare_digest}
use fastapi_sample.Prelude.{
  String, ℕ, zero, suc, ◌+◌, Bool, true, false, not, ◌&&◌, ◌||◌, ◌==◌, List, [], ◌∷◌, Option, none,
  some, ltb, leb, eqb, if◌then◌else◌, is_ascii, split,
}

-- What `int` makes of a text: a number, or `-(n + 1)`.
pub data Whole : Type 0 where
  whole minus : ℕ → Whole

abbrev pub session_seconds : ℕ
session_seconds = 1200

unfoldable pub text_length : String → ℕ
text_length String.[] = zero
text_length (String.◌∷◌ c s) = suc (text_length s)

unfoldable pub is_hex : Char → Bool
is_hex c = (leb b'0' (code c) && leb (code c) b'9') || (leb b'a' (code c) && leb (code c) b'f')

unfoldable pub all_hex : String → Bool
all_hex String.[] = true
all_hex (String.◌∷◌ c s) = is_hex c && all_hex s

-- `_TOKEN_NONCE.fullmatch` and `_TOKEN_SIGNATURE.fullmatch`
abbrev pub is_nonce : String → Bool
is_nonce s = eqb (text_length s) 32 && all_hex s

abbrev pub is_signature : String → Bool
is_signature s = eqb (text_length s) 64 && all_hex s

abbrev pub join_dot : String → String → String
join_dot a b = String.◌++◌ a (String.◌++◌ "." b)

-- The tests of the two times; none is a `ValueError`.
unfoldable pub is_within_session : Option Whole → Option Whole → ℕ → Bool
is_within_session (some (whole issued)) (some (whole expiry)) now =
    leb issued (now + 30) && ltb now expiry && eqb expiry (issued + session_seconds)
is_within_session (some (minus n)) (some (whole expiry)) now =
    ltb now expiry && eqb (expiry + n + 1) session_seconds
is_within_session _ _ now = false

module _ (hmac : String → String → String) where
  -- `_signature`; none is the `UnicodeEncodeError` of a payload that is not ASCII.
  unfoldable pub signature : String → String → Option String
  signature secret payload =
      if is_ascii payload
      then some (hmac secret (String.◌++◌ "nabla:owner-ui-session:v1:" payload))
      else none

  unfoldable pub check_signature : String → String → String → Option Bool
  check_signature secret payload given = elim (signature secret payload) [
    | none ↦ none
    | some s ↦ some (given == s)
  ]

  -- `create_owner_cookie`; `nonce` is `secrets.token_hex(16)`.
  unfoldable pub create_owner_cookie : (ℕ → String) → String → ℕ → String → Option String
  create_owner_cookie str secret issued nonce =
      let payload = join_dot (str issued) (join_dot (str (issued + session_seconds)) nonce) in
      elim (signature secret payload) [ none ↦ none | some s ↦ some (join_dot payload s) ]

module _ (int : String → Option Whole) (hmac : String → String → String) where
  unfoldable pub check_parts : List String → String → ℕ → Option Bool
  check_parts (issued ∷ expiry ∷ nonce ∷ given ∷ []) secret now =
      if not (is_nonce nonce) || not (is_signature given)
      then some false
      else if not (is_within_session (int issued) (int expiry) now)
      then some false
      else check_signature hmac secret (join_dot issued (join_dot expiry nonce)) given
  check_parts _ secret now = some false

  -- `owner_cookie_valid`; an exception is none.
  unfoldable pub owner_cookie_valid : Option String → Option String → ℕ → Option Bool
  owner_cookie_valid none secret now = some false
  owner_cookie_valid (some token) none now = some false
  owner_cookie_valid (some token) (some secret) now =
      if token == "" || ltb 180 (text_length token) || secret == ""
      then some false
      else check_parts (split b'.' token) secret now

-- An origin that `urlsplit` has split.
pub record SplitOrigin : Type 0 where
  pub scheme : String
  pub netloc : String
  pub username : Option String
  pub password : Option String
  pub path : String
  pub query : String
  pub fragment : String

abbrev is_blank : Option String → Bool
is_blank none = true
is_blank (some s) = s == ""

-- What the session routes read of a request; the answer of the trusted source is `permitted`.
pub record SessionRequest : Type 0 where
  pub origin : String
  pub host : String
  pub sec_fetch_site : String
  pub diagnostics_key : String
  pub permitted : Bool

-- `urlsplit` gives none for a `ValueError`.
unfoldable pub owner_cookie_write_allowed : (String → Option SplitOrigin) → SessionRequest → Bool
owner_cookie_write_allowed urlsplit r = elim (urlsplit r.origin) [
  | none ↦ false
  | some p ↦
      p.scheme == "https"
      && p.netloc == r.host
      && is_blank p.username
      && is_blank p.password
      && (p.path == "" || p.path == "/")
      && p.query == ""
      && p.fragment == ""
      && r.sec_fetch_site == "same-origin"
]

pub data Login : Type 0 where
  unconfigured origin_unverified source_unverified unauthorized login_raised : Login
  cookie_set : String → Login

unfoldable pub check_login_key : String → String → Option String → Login
check_login_key supplied secret cookie =
    if supplied == "" then unauthorized else elim (compare_digest supplied secret) [
      | none ↦ login_raised
      | some same ↦
          if same then elim cookie [ none ↦ login_raised | some c ↦ cookie_set c ] else unauthorized
    ]

-- `session_login`; `cookie` is what `create_owner_cookie` gives for the secret.
unfoldable pub session_login :
    (String → Option SplitOrigin)
    → Option String
    → (String → Option String)
    → SessionRequest
    → Login
session_login urlsplit none cookie r = unconfigured
session_login urlsplit (some secret) cookie r =
    if secret == ""
    then unconfigured
    else if not (owner_cookie_write_allowed urlsplit r)
    then origin_unverified
    else if not r.permitted
    then source_unverified
    else check_login_key r.diagnostics_key secret (cookie secret)

-- `session_logout`: whether the cookie is deleted.
unfoldable pub session_logout : (String → Option SplitOrigin) → SessionRequest → Bool
session_logout urlsplit r = owner_cookie_write_allowed urlsplit r
