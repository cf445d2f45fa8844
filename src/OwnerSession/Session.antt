-- ===== src/OwnerSession/Session.antt =====
-- nabla/api/owner_ui_session.py: how long a cookie lives, and what a login tells.
use fastapi_sample.Prelude.{
  String, ℕ, ◌+◌, ◌<◌, ◌≡◌, refl, true, false, ◌&&◌, List, [], ◌∷◌, Option, none, some,
  Option-cases, arith, split, eq_iff,
}
use fastapi_sample.AccessControl.{compare_digest}
use fastapi_sample.OwnerSession.{
  Whole, whole, minus, is_within_session, check_parts, owner_cookie_valid, SplitOrigin,
  SessionRequest, owner_cookie_write_allowed, cookie_set, check_login_key, session_login,
}

is_within_session-span :
    (issued expiry : Option Whole) (now later : ℕ)
    → is_within_session issued expiry now ≡ true
    → is_within_session issued expiry later ≡ true
    → later < now + 1230
unfolding is_within_session
is_within_session-span (some (whole i)) (some (whole e)) now later h k = ground arith
is_within_session-span (some (minus n)) (some (whole e)) now later h k = ground arith
is_within_session-span none expiry now later h k = absurd (ground arith)
is_within_session-span (some (whole i)) none now later h k = absurd (ground arith)
is_within_session-span (some (minus i)) none now later h k = absurd (ground arith)
is_within_session-span (some (whole i)) (some (minus e)) now later h k = absurd (ground arith)
is_within_session-span (some (minus i)) (some (minus e)) now later h k = absurd (ground arith)

module _ (int : String → Option Whole) (hmac : String → String → String) where
  -- What a cookie that is accepted shows: its four parts, at one time.
  check_parts-within :
      (parts : List String) (secret : String) (now later : ℕ)
      → check_parts int hmac parts secret now ≡ some true
      → check_parts int hmac parts secret later ≡ some true
      → later < now + 1230
  unfolding check_parts
  check_parts-within [] secret now later h k = absurd (ground arith)
  check_parts-within (a ∷ []) secret now later h k = absurd (ground arith)
  check_parts-within (a ∷ b ∷ []) secret now later h k = absurd (ground arith)
  check_parts-within (a ∷ b ∷ c ∷ []) secret now later h k = absurd (ground arith)
  check_parts-within (a ∷ b ∷ c ∷ d ∷ []) secret now later h k =
      ground (arith, is_within_session-span (int a) (int b) now later)
  check_parts-within (a ∷ b ∷ c ∷ d ∷ e ∷ es) secret now later h k = absurd (ground arith)

  -- A cookie that is accepted at some time is accepted at no time 1230 seconds later: no session
  -- outlives its twenty minutes by more than the thirty seconds that the clocks may differ.
  pub owner_cookie_valid-span :
      (token secret : Option String) (now later : ℕ)
      → owner_cookie_valid int hmac token secret now ≡ some true
      → owner_cookie_valid int hmac token secret later ≡ some true
      → later < now + 1230
  unfolding owner_cookie_valid
  owner_cookie_valid-span none secret now later h k = absurd (ground arith)
  owner_cookie_valid-span (some t) none now later h k = absurd (ground arith)
  owner_cookie_valid-span (some t) (some s) now later h k =
      ground (arith, check_parts-within (split b'.' t) s now later)

-- The same request with another key.
abbrev pub with_key : String → SessionRequest → SessionRequest
with_key key r = record {
  origin = r.origin;
  host = r.host;
  sec_fetch_site = r.sec_fetch_site;
  diagnostics_key = key;
  permitted = r.permitted;
}

-- A login from an untrusted network, or from another site, tells nothing of the key: its answer is
-- the same for every key that is sent.
pub session_login-with_key :
    (urlsplit : String → Option SplitOrigin) (secret : Option String)
    (cookie : String → Option String) (r : SessionRequest) (key : String)
    → (r.permitted && owner_cookie_write_allowed urlsplit r) ≡ false
    → session_login urlsplit secret cookie (with_key key r) ≡ session_login urlsplit secret cookie r
unfolding session_login owner_cookie_write_allowed
session_login-with_key urlsplit none cookie r key h = refl
session_login-with_key urlsplit (some s) cookie r key h = ground arith

check_login_key-cookie :
    (supplied secret c : String) (cookie : Option String)
    → check_login_key supplied secret cookie ≡ cookie_set c
    → (supplied ≡ secret) × (cookie ≡ some c)
unfolding check_login_key compare_digest
check_login_key-cookie supplied secret c cookie h = ground (
  arith,
  eq_iff supplied secret,
  Option-cases cookie,
  Option-cases (compare_digest supplied secret),
)

-- A login sets a cookie only for the configured key, sent from a trusted source by a page of the
-- same origin; and the cookie is the one that is made for that key.
pub session_login-cookie :
    (urlsplit : String → Option SplitOrigin) (secret : Option String)
    (cookie : String → Option String) (r : SessionRequest) (c : String)
    → session_login urlsplit secret cookie r ≡ cookie_set c
    → (secret ≡ some r.diagnostics_key)
      × (r.permitted ≡ true)
      × (owner_cookie_write_allowed urlsplit r ≡ true)
      × (cookie r.diagnostics_key ≡ some c)
unfolding session_login
session_login-cookie urlsplit none cookie r c h = absurd (ground arith)
session_login-cookie urlsplit (some s) cookie r c h =
    ground (arith, check_login_key-cookie r.diagnostics_key s c (cookie s))
