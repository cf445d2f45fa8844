-- ===== src/OwnerToken/Tests.antt =====
-- nabla/cloudflare_ops_access.py: tokens and downloads, with a toy header parser and decoder.
use fastapi_sample.Prelude.{
  String, ◌≡◌, refl, false, [], ◌∷◌, Option, none, some, strip, lstrip, rstrip, split, split_from,
  before, after,
}
use fastapi_sample.Prelude.Dict.{lookup, insert}
use fastapi_sample.AccessControl.{OwnerCheck, verified, keys_unavailable, unauthorized}
use fastapi_sample.OwnerSession.{text_length}
use fastapi_sample.OwnerToken.{
  text, other, AccessSettings, Jwk, dict, no_dict, Download, failed, body, Claims, TokenHeader,
  KeyCache, rstrip_slash, all_label, is_issuer, owner_settings, is_signing_key, valid_keys,
  downloaded_keys, cached_keys, Look, signing_keys, find_key, check_claims, decode_with, token_kid,
  verify_owner_token,
}
use fastapi_sample.OwnerToken.Keys.{IsSoundCache}
use fastapi_sample.OwnerToken.Subject.{
  IsOwnerToken, verify_owner_token-IsOwnerToken, verify_owner_token-IsSoundCache,
}

abbrev settings : String → AccessSettings
settings issuer = record {
  ops_access_issuer = some issuer;
  ops_access_aud = some " aud ";
  ops_access_owner_subjects = some "alice, ,bob";
}

abbrev team : AccessSettings
team = settings "https://team.cloudflareaccess.com/"

configured :
    owner_settings team
    ≡ some (record {
      issuer = "https://team.cloudflareaccess.com";
      audience = "aud";
      subjects = "alice" ∷ "bob" ∷ [];
    })
unfolding owner_settings is_issuer all_label rstrip_slash strip lstrip rstrip split split_from
    before after
configured = refl

other_domain : owner_settings (settings "https://team.example.com") ≡ none
unfolding owner_settings is_issuer all_label rstrip_slash strip lstrip rstrip split split_from
    before after
other_domain = refl

nested_label : owner_settings (settings "https://a.b.cloudflareaccess.com") ≡ none
unfolding owner_settings is_issuer all_label rstrip_slash strip lstrip rstrip split split_from
    before after
nested_label = refl

abbrev rsa : Jwk
rsa = record { kty = some (text "RSA"); kid = some (text "k1"); use_ = none; alg = none }

abbrev ec : Jwk
ec = record { kty = some (text "EC"); kid = some (text "k1"); use_ = none; alg = none }

abbrev keys : Download
keys = body 900 (some (dict ec ∷ no_dict ∷ dict rsa ∷ []))

only_rsa : downloaded_keys keys ≡ some (rsa ∷ [])
unfolding downloaded_keys valid_keys is_signing_key
only_rsa = refl

oversized : downloaded_keys (body 131073 (some (dict rsa ∷ []))) ≡ none
unfolding downloaded_keys valid_keys is_signing_key
oversized = refl

abbrev header : String → Option TokenHeader
header token = some (record { alg = some (text "RS256"); kid = some (text "k1") })

abbrev decode : Jwk → String → String → String → Option Claims
decode key audience issuer token = some (record {
  sub = some (text token);
  type = some (text "app");
  service_token_id = none;
  common_name = some (other false);
})

abbrev empty_look : Look
empty_look = record { now = 5; cache = [] }

abbrev kept : KeyCache
kept = ("https://team.cloudflareaccess.com", (300000007, rsa ∷ [])) ∷ []

abbrev run : String → Look → Download → OwnerCheck × KeyCache
run token look download = verify_owner_token header decode team token look look download 7

alice : run "alice" empty_look keys ≡ (verified "alice", kept)
unfolding verify_owner_token owner_settings is_issuer all_label rstrip_slash strip lstrip rstrip
    split split_from before after token_kid text_length signing_keys cached_keys lookup insert
    downloaded_keys valid_keys is_signing_key decode_with find_key check_claims
alice = refl

stranger : run "mallory" empty_look keys ≡ (unauthorized, kept)
unfolding verify_owner_token owner_settings is_issuer all_label rstrip_slash strip lstrip rstrip
    split split_from before after token_kid text_length signing_keys cached_keys lookup insert
    downloaded_keys valid_keys is_signing_key decode_with find_key check_claims
stranger = refl

-- Within five minutes the download is not needed; then its failure shows.
cached : run "bob" (record { now = 300000006; cache = kept }) failed ≡ (verified "bob", kept)
unfolding verify_owner_token owner_settings is_issuer all_label rstrip_slash strip lstrip rstrip
    split split_from before after token_kid text_length signing_keys cached_keys lookup insert
    downloaded_keys valid_keys is_signing_key decode_with find_key check_claims
cached = refl

expired : run "bob" (record { now = 300000007; cache = kept }) failed ≡ (keys_unavailable, kept)
unfolding verify_owner_token owner_settings is_issuer all_label rstrip_slash strip lstrip rstrip
    split split_from before after token_kid text_length signing_keys cached_keys lookup insert
    downloaded_keys valid_keys is_signing_key decode_with find_key check_claims
expired = refl

alice_verified : (run "alice" empty_look keys).0 ≡ verified "alice"
unfolding verify_owner_token owner_settings is_issuer all_label rstrip_slash strip lstrip rstrip
    split split_from before after token_kid text_length signing_keys cached_keys lookup insert
    downloaded_keys valid_keys is_signing_key decode_with find_key check_claims
alice_verified = refl

verify_owner_token-IsOwnerToken_example : IsOwnerToken header decode team "alice" "alice"
verify_owner_token-IsOwnerToken_example =
    verify_owner_token-IsOwnerToken header decode team "alice" "alice" empty_look empty_look keys 7
      tt tt alice_verified

verify_owner_token-IsSoundCache_example : IsSoundCache (run "mallory" empty_look keys).1
verify_owner_token-IsSoundCache_example =
    verify_owner_token-IsSoundCache header decode team "mallory" empty_look empty_look keys 7 tt tt
