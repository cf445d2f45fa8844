-- ===== src/OwnerSession/Tests.antt =====
-- nabla/api/owner_ui_session.py: a cookie and a login, with a toy signature.
use fastapi_sample.Prelude.{
  eqb, String, ◌+◌, ◌<◌, ◌≡◌, refl, Bool, true, false, ◌==◌, Option, none, some, if◌then◌else◌,
  is_ascii, split, split_from,
}
use fastapi_sample.AccessControl.{compare_digest}
use fastapi_sample.OwnerSession.{
  Whole, whole, text_length, is_hex, all_hex, is_within_session, signature, check_signature,
  check_parts, owner_cookie_valid, create_owner_cookie, SplitOrigin, SessionRequest,
  owner_cookie_write_allowed, cookie_set, check_login_key, session_login,
}
use fastapi_sample.OwnerSession.Session.{owner_cookie_valid-span, session_login-cookie}

abbrev int : String → Option Whole
int s = if s == "100" then some (whole 100) else if s == "1300" then some (whole 1300) else none

abbrev hmac : String → String → String
hmac secret payload = "0123456789abcdef0123456789abcdef0123456789abcdef0123456789abcdef"

abbrev token : String
token =
    "100.1300.00000000000000000000000000000000.0123456789abcdef0123456789abcdef0123456789abcdef0123456789abcdef"

accepted_at_100 : owner_cookie_valid int hmac (some token) (some "key") 100 ≡ some true
unfolding owner_cookie_valid check_parts check_signature signature is_within_session split
    split_from text_length all_hex is_hex is_ascii
accepted_at_100 = refl

accepted_at_1299 : owner_cookie_valid int hmac (some token) (some "key") 1299 ≡ some true
unfolding owner_cookie_valid check_parts check_signature signature is_within_session split
    split_from text_length all_hex is_hex is_ascii
accepted_at_1299 = refl

refused_at_1300 : owner_cookie_valid int hmac (some token) (some "key") 1300 ≡ some false
unfolding owner_cookie_valid check_parts check_signature signature is_within_session split
    split_from text_length all_hex is_hex is_ascii
refused_at_1300 = refl

-- `int` ignores the spaces around a number, no-break ones too, and the payload cannot be encoded.
abbrev spaced : String → Option Whole
spaced s = if s == "100\u{a0}" then some (whole 100) else int s

raises :
    owner_cookie_valid spaced hmac
      (some
        "100\u{a0}.1300.00000000000000000000000000000000.0123456789abcdef0123456789abcdef0123456789abcdef0123456789abcdef")
      (some "key")
      100
    ≡ none
unfolding owner_cookie_valid check_parts check_signature signature is_within_session split
    split_from text_length all_hex is_hex is_ascii
raises = refl

created :
    create_owner_cookie hmac
      (λ n. if eqb n 100 then "100" else "1300")
      "key"
      100
      "00000000000000000000000000000000"
    ≡ some token
unfolding create_owner_cookie signature is_ascii
created = refl

owner_cookie_valid-span_example : 1299 < 100 + 1230
owner_cookie_valid-span_example =
    owner_cookie_valid-span int hmac (some token) (some "key") 100 1299 accepted_at_100
      accepted_at_1299

abbrev urlsplit : String → Option SplitOrigin
urlsplit origin = some (record {
  scheme = "https";
  netloc = "api.example";
  username = none;
  password = none;
  path = "";
  query = "";
  fragment = "";
})

abbrev request : Bool → SessionRequest
request permitted = record {
  origin = "https://api.example";
  host = "api.example";
  sec_fetch_site = "same-origin";
  diagnostics_key = "key";
  permitted = permitted;
}

abbrev cookie : String → Option String
cookie secret = some "cookie"

logged_in : session_login urlsplit (some "key") cookie (request true) ≡ cookie_set "cookie"
unfolding session_login owner_cookie_write_allowed check_login_key compare_digest is_ascii
logged_in = refl

abbrev key : Option String
key = some "key"

session_login-cookie_example :
    (key ≡ some (request true).diagnostics_key)
    × ((request true).permitted ≡ true)
    × (owner_cookie_write_allowed urlsplit (request true) ≡ true)
    × (cookie "key" ≡ some "cookie")
session_login-cookie_example =
    session_login-cookie urlsplit (some "key") cookie (request true) "cookie" logged_in
