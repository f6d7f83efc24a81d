-- ===== src/OAuth/Tests.antt =====
-- The theorems of packages/oauth on the platform and the store of Sample.
use altscan.OAuth.Base64.{b64url, b64url_decode, sha256_b64url, drop_equals, mapped, every, equals}
use altscan.OAuth.Layout.{client_of, texts_of, text_items}
use altscan.OAuth.Sample.{
  to_base64, unary, encode, decode, sub, cfg, claims, client, platform, Codes, codes,
  platform-Documented,
}
use altscan.OAuth.Message.{clean_client_name}
use altscan.OAuth.Registered.{post_register-read}
use altscan.OAuth.Register.{Metadata, text_field, absent, post_register, register_uris}
use altscan.OAuth.Authorize.{
  post_authorize, grant_code, check_authorize, check_client, check_redirect, check_request, refused,
  signed_by, redirect_uri_allowed, url_allowed, same_origin, all_by,
}
use altscan.OAuth.Redirects.{location, Registered, post_authorize-Registered}
use altscan.OAuth.Granted.{code_in, Granted, post_authorize-Granted}
use altscan.OAuth.Earned.{is_token, Earned, code_grant-Earned}
use altscan.OAuth.SingleUse.{Event, token_request, sign_in, wait, exchanged, exchanged-once}
use altscan.Prelude.{
  text_length, false≢true, ◌≤◌, ◌≡◌, refl, true, List, [], ◌∷◌, none, some, String, ◌===◌,
  string_eq, if◌then◌else◌, length, get, has, arith,
}
use altscan.OAuth.{
  CodeGrant, registered, max_redirect_uris, Form, Response, token, access_token_ttl_s,
  max_token_length,
}
use altscan.OAuth.Text.{
  issued_format, split_on, address, repeated, after_0x, strip_prefix, constant_time_equal,
  code_units, differences, has_hash,
}
use altscan.OAuth.Tokens.{
  decode_json, mint_access_token, hmac_sign, read_client_id, read_client_parts, pkce_matches,
  hmac_verify, verify_decoded, mint_client_id,
}
use Prim.Native.String.{◌++◌ as joined}
use altscan.OAuth.Bearer.{verify_bearer, bearer}
use altscan.OAuth.Exchange.{issue, code_grant, redeem}
use altscan.OAuth.Accepted.{Checks, Vouched, read_access_token-signed}
use altscan.OAuth.RoundTrip.{verify_bearer-issue, read_access_token-mint}

fits : text_length (mint_access_token platform "secret" claims) ≤ max_token_length
unfolding text_length mint_access_token hmac_sign encode unary to_base64 b64url b64url_decode
    sha256_b64url decode_json client_of texts_of text_items drop_equals mapped every equals
fits = ground arith

lower : address sub ≡ true
unfolding after_0x repeated
lower = refl

granted : has "api" (split_on b' ' "api") ≡ true
unfolding has split_on
granted = refl

verify_bearer-issue_example :
    (text : String) × (issue platform cfg 1_000_000 "j" sub "ac1.b" "api"
      ≡ token text access_token_ttl_s "api")
    × (verify_bearer platform cfg 4_599_000 (some (joined "Bearer " text)) ≡ bearer sub "ac1.b")
verify_bearer-issue_example =
    verify_bearer-issue platform platform-Documented cfg 1_000_000 4_599_000 "j" sub "ac1.b" "api"
      refl fits lower granted (omega arith) (omega arith)

read_access_token-signed_example :
    Checks "https://bnbscan.com" "api" 2_000 claims
    × Vouched platform "secret" claims (split_on b'.' (mint_access_token platform "secret" claims))
read_access_token-signed_example =
    read_access_token-signed platform platform-Documented "secret"
      (mint_access_token platform "secret" claims) "https://bnbscan.com" "api" 2_000 claims
      (read_access_token-mint platform platform-Documented "secret" "https://bnbscan.com" "api"
        2_000 claims refl fits refl refl (omega arith) (omega arith) lower granted)

abbrev client_id : String
client_id = "ac1.b.bbbbbbbbbbbbbbbbbbbbbbbbbbbbbbbb"

abbrev challenge : String
challenge = "aaaaaaaaaaaaaaaaaaaaaaaaaaaaaaaaaaaaaaaaaab"

abbrev grant : CodeGrant
grant = record {
  iss = "https://bnbscan.com";
  client_id = client_id;
  redirect_uri = "https://app/cb";
  code_challenge = challenge;
  scope = "api";
  sub = sub;
}

abbrev token_form : Form
token_form name =
    if name === "grant_type"
    then some "authorization_code"
    else if name === "code"
    then some "c"
    else if name === "client_id"
    then some client_id
    else if name === "redirect_uri"
    then some "https://app/cb"
    else if name === "code_verifier"
    then some challenge
    else none

abbrev held : Codes
held = ("c", grant) ∷ []

earns : is_token (code_grant platform cfg codes 1_000_000 "j" token_form held).0 ≡ true
unfolding code_grant redeem read_client_id read_client_parts pkce_matches text_length split_on
    strip_prefix hmac_verify verify_decoded decode repeated constant_time_equal code_units
    differences encode unary to_base64 b64url b64url_decode sha256_b64url decode_json client_of
    texts_of text_items drop_equals mapped every equals issue get
earns = refl

code_grant-Earned_example :
    (g : CodeGrant) × (get "c" held ≡ some g)
    × Earned platform cfg 1_000_000 "j" token_form client_id g
        (code_grant platform cfg codes 1_000_000 "j" token_form held).0
    × (get "c" (code_grant platform cfg codes 1_000_000 "j" token_form held).1 ≡ none)
code_grant-Earned_example = code_grant-Earned platform cfg codes 1_000_000 "j" token_form held earns

-- The code is presented twice, with a sign-in and a wait between.
abbrev events : List (Event platform cfg codes)
events =
    token_request 1_000_000 "j" none token_form
    ∷ sign_in 1_000_100 "d" (some (λ name. none))
    ∷ wait 1_000
    ∷ token_request 1_002_000 "k" none token_form
    ∷ []

exchanged-once_example : exchanged platform cfg codes "c" events held ≤ 1
exchanged-once_example =
    exchanged-once platform cfg codes "c" events held
      (tt, ((λ h. false≢true ((string_eq.beq_iff "d" "c").1 h)), (tt, (tt, tt))))

abbrev sign_in_form : Form
sign_in_form name =
    if name === "client_id"
    then some client_id
    else if name === "redirect_uri"
    then some "https://app/cb"
    else if name === "response_type"
    then some "code"
    else if name === "code_challenge_method"
    then some "S256"
    else if name === "code_challenge"
    then some challenge
    else if name === "address"
    then some sub
    else if name === "signature"
    then some
        "0x0000000000000000000000000000000000000000000000000000000000000000000000000000000000000000000000000000000000000000000000000000000000"
    else if name === "nonce"
    then some "12345678"
    else if name === "issued_at"
    then some "1970-01-01T00:16:40Z"
    else none

abbrev signed_in : Response
signed_in = (post_authorize platform cfg codes 1_000_000 "c" (some sign_in_form) []).0

redirects : location signed_in ≡ some "https://app/cb"
unfolding post_authorize grant_code check_authorize check_client check_redirect check_request
    refused signed_by redirect_uri_allowed url_allowed read_client_id read_client_parts text_length
    split_on strip_prefix hmac_verify verify_decoded decode repeated encode unary to_base64 b64url
    b64url_decode sha256_b64url decode_json client_of texts_of text_items drop_equals mapped every
    equals after_0x has_hash same_origin has issued_format
redirects = refl

gives : code_in signed_in ≡ some "c"
unfolding post_authorize grant_code check_authorize check_client check_redirect check_request
    refused signed_by redirect_uri_allowed url_allowed read_client_id read_client_parts text_length
    split_on strip_prefix hmac_verify verify_decoded decode repeated encode unary to_base64 b64url
    b64url_decode sha256_b64url decode_json client_of texts_of text_items drop_equals mapped every
    equals after_0x has_hash same_origin has issued_format
gives = refl

post_authorize-Registered_example : Registered platform cfg sign_in_form "https://app/cb"
post_authorize-Registered_example =
    post_authorize-Registered platform cfg codes 1_000_000 "c" sign_in_form [] "https://app/cb"
      redirects

post_authorize-Granted_example :
    Granted platform cfg codes 1_000_000 "c" sign_in_form "c" []
      (post_authorize platform cfg codes 1_000_000 "c" (some sign_in_form) []).1
post_authorize-Granted_example =
    post_authorize-Granted platform cfg codes 1_000_000 "c" sign_in_form [] "c" gives

abbrev metadata : Metadata
metadata = record {
  redirect_uris = some (text_field "https://app/cb" ∷ []);
  token_endpoint_auth_method = text_field "none";
  client_name = absent;
}

abbrev made_id : String
made_id = mint_client_id platform "secret" client "r"

is_made : post_register platform cfg 900_000 "r" (some metadata) ≡ registered made_id client
unfolding post_register register_uris redirect_uri_allowed url_allowed clean_client_name has_hash
    text_length
is_made = refl

made_fits : text_length made_id ≤ max_token_length
unfolding mint_client_id hmac_sign text_length encode unary to_base64 b64url b64url_decode
    sha256_b64url decode_json client_of texts_of text_items drop_equals mapped every equals
made_fits = ground arith

post_register-read_example :
    (read_client_id platform "secret" made_id ≡ some client)
    × (all_by (redirect_uri_allowed platform) client.redirect_uris ≡ true)
    × (1 ≤ length client.redirect_uris)
    × (length client.redirect_uris ≤ max_redirect_uris)
post_register-read_example =
    post_register-read platform platform-Documented cfg 900_000 "r" metadata made_id client is_made
      refl made_fits
