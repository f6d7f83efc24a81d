-- ===== src/OAuth/Authorize.antt =====
-- packages/oauth/src/server.ts: the authorization endpoint, with the test of redirect URIs of checks.ts.
use altscan.Prelude.{
  text_length, ℕ, ◌+◌, ◌*◌, Bool, true, false, not, ◌&&◌, ◌||◌, List, [], ◌∷◌, Option, none, some,
  String, ltb, leb, ◌===◌, string_eq, if◌then◌else◌, any_by, has,
}
use Prim.Native.String.{◌++◌ as joined}
use text.Mathlib.Text.{starts_with}
use altscan.OAuth.Message.{sign_in_message, request_id_for, signer_of}
use altscan.OAuth.{
  Platform, Url, ClientRecord, SignIn, CodeGrant, CodeStore, Called, returned, thrown, OAuthConfig,
  Form, AuthzRequest, failed, coded, Response, error_page, sign_in_page, redirect_back, or_empty,
  code_ttl_s, sign_in_window_s, max_redirect_uri_length,
}
use altscan.OAuth.Text.{
  words, any_address, hex_signature, nonce_format, code_challenge, private_scheme, has_hash,
  issued_format,
}
use altscan.OAuth.Tokens.{read_client_id}

abbrev pub loopback : List String
loopback = "localhost" ∷ "127.0.0.1" ∷ "[::1]" ∷ []

abbrev pub blocked_schemes : List String
blocked_schemes =
    "javascript:" ∷ "data:" ∷ "file:" ∷ "vbscript:" ∷ "blob:" ∷ "about:" ∷ "ftp:" ∷ "ws:" ∷ "wss:"
    ∷ "search-ms:" ∷ "search:" ∷ "smb:" ∷ "ssh:" ∷ "telnet:" ∷ "mailto:" ∷ "tel:" ∷ "sms:"
    ∷ "intent:" ∷ "view-source:" ∷ []

abbrev pub blocked_scheme_prefixes : List String
blocked_scheme_prefixes = "ms-" ∷ "chrome" ∷ "moz-" ∷ []

unfoldable pub url_allowed : Option Url → Bool
url_allowed none = false
url_allowed (some u) =
    if not (u.username === "") || not (u.password === "")
    then false
    else if u.protocol === "https:"
    then true
    else if u.protocol === "http:"
    then has u.hostname loopback
    else if has u.protocol blocked_schemes
        || any_by (λ p. starts_with u.protocol p) blocked_scheme_prefixes
    then false
    else private_scheme u.protocol

abbrev pub all_by {ℓ} : {A : Type ℓ} → (A → Bool) → List A → Bool
all_by p [] = true
all_by p (x ∷ xs) = p x && all_by p xs

-- What `checkAuthorize` hands on.
pub data Checked : Type 0 where
  ok : AuthzRequest → Checked
  fail : Response → Checked

abbrev pub sole : List String → Option String
sole (uri ∷ []) = some uri
sole _ = none

abbrev pub asked_or : Option String → Option String → Option String
asked_or (some uri) default_uri = some uri
asked_or none default_uri = default_uri

abbrev origin_of : Option Url → Option String
origin_of none = none
origin_of (some u) = some u.origin

unfoldable pub same_origin : Option Url → Option Url → Bool
same_origin (some a) (some b) = a.origin === b.origin
same_origin _ _ = false

module _ (w : Platform) where
  unfoldable pub redirect_uri_allowed : String → Bool
  unfolding url_allowed
  redirect_uri_allowed uri =
      if ltb max_redirect_uri_length (text_length uri) || has_hash uri
      then false
      else url_allowed (w.new_url uri)

  module _ (cfg : OAuthConfig) where
    abbrev pub too_long : Option String → Bool
    too_long none = false
    too_long (some state) = ltb 1_024 (text_length state)

    abbrev pub is_value : String → Option String → Bool
    is_value value none = false
    is_value value (some s) = s === value

    abbrev pub scope_asked : Option String → String
    scope_asked none = cfg.scope
    scope_asked (some s) = s

    abbrev pub wrong_scopes : List String → Bool
    wrong_scopes [] = true
    wrong_scopes scopes = any_by (λ s. not (s === cfg.scope)) scopes

    abbrev pub wrong_resource : Option String → Bool
    wrong_resource none = false
    wrong_resource (some r) = not (same_origin (w.new_url r) (w.new_url cfg.issuer))

    abbrev back : String → Option String → String → Checked
    back uri state error = fail (redirect_back uri (failed error) state)

    -- What follows once the redirect URI is one that the client registered.
    unfoldable pub check_request : Form → (client_id : String) → ClientRecord → String → Checked
    check_request p client_id client uri =
        let state = p "state" in
        if too_long (p "state")
        then back uri state "invalid_request"
        else if not (is_value "code" (p "response_type"))
        then back uri state "unsupported_response_type"
        else if not (is_value "S256" (p "code_challenge_method"))
            || not (code_challenge (or_empty (p "code_challenge")))
        then back uri state "invalid_request"
        else if wrong_scopes (words (scope_asked (p "scope")))
        then back uri state "invalid_scope"
        else if wrong_resource (p "resource")
        then back uri state "invalid_target"
        else ok (record {
          client = client;
          client_id = client_id;
          redirect_uri = uri;
          state = state;
          code_challenge = or_empty (p "code_challenge");
          scope = cfg.scope;
        })

    unfoldable pub check_redirect :
        Form → (client_id : String) → ClientRecord → Option String → Checked
    unfolding check_request
    check_redirect p client_id client none =
        fail (error_page 400 "The redirect_uri is not one this app registered.")
    check_redirect p client_id client (some uri) =
        if uri === "" || not (has uri client.redirect_uris)
        then fail (error_page 400 "The redirect_uri is not one this app registered.")
        else check_request p client_id client uri

    unfoldable pub check_client : Form → (client_id : String) → Option ClientRecord → Checked
    unfolding check_redirect
    check_client p client_id none =
        fail (error_page 400 "This app is not registered here (unknown or altered client_id).")
    check_client p client_id (some client) =
        if not (all_by redirect_uri_allowed client.redirect_uris)
        then fail (error_page 400 "This app is not registered here (unknown or altered client_id).")
        else check_redirect p client_id client
            (asked_or (p "redirect_uri") (sole client.redirect_uris))

    unfoldable pub check_authorize : Form → Checked
    unfolding check_client
    check_authorize p =
        check_client p (or_empty (p "client_id"))
          (read_client_id w cfg.secret (or_empty (p "client_id")))

    abbrev pub host_of : Option Url → String
    host_of none = ""
    host_of (some u) = u.host

    -- The fields of the signed message, whose request id binds the client, the URI, the challenge and
    -- the scope. The issuer is a URL.
    abbrev sign_in_fields : AuthzRequest → (nonce issued_at : String) → SignIn
    sign_in_fields a nonce issued_at = record {
      host = host_of (w.new_url cfg.issuer);
      issuer = cfg.issuer;
      scope_label = cfg.scope_label;
      chain_id = cfg.chain_id;
      client_name = a.client.client_name;
      redirect_uri = a.redirect_uri;
      nonce = nonce;
      issued_at = issued_at;
      request_id = request_id_for w a.client_id a.redirect_uri a.code_challenge a.scope;
    }

    abbrev pub is_text : String → Option String → Bool
    is_text s none = false
    is_text s (some t) = t === s

    abbrev pub issued_ms : String → Option ℕ
    issued_ms text = if issued_format text then w.date_parse text else none

    abbrev pub in_window : (now : ℕ) → Option ℕ → Bool
    in_window now none = false
    in_window now (some issued) =
        leb issued (now + 60_000) && leb now (issued + sign_in_window_s * 1_000)

    -- `signerOf(...) === address.toLowerCase()`
    unfoldable pub signed_by : AuthzRequest → (nonce issued_at address signature : String) → Bool
    unfolding sign_in_message
    signed_by a nonce issued_at address signature =
        let m = sign_in_message w (sign_in_fields a nonce issued_at) in
        is_text (w.to_lower address)
          (signer_of w (joined m.before (joined address m.after)) signature)

    -- The tests of the posted form, in their order: what is wrong first.
    unfoldable pub refused : (now : ℕ) → Form → AuthzRequest → Bool
    unfolding signed_by
    refused now form a =
        let address = or_empty (form "address") in
        let signature = or_empty (form "signature") in
        let nonce = or_empty (form "nonce") in
        let issued_at = or_empty (form "issued_at") in
        not (any_address address)
        || not (hex_signature signature)
        || not (nonce_format nonce)
        || not (in_window now (issued_ms issued_at))
        || not (signed_by a nonce issued_at address signature)

    abbrev pub grant_of : Form → AuthzRequest → CodeGrant
    grant_of form a = record {
      iss = cfg.issuer;
      client_id = a.client_id;
      redirect_uri = a.redirect_uri;
      code_challenge = a.code_challenge;
      scope = a.scope;
      sub = w.to_lower (or_empty (form "address"));
    }

    module _ {S : Type 0} (store : CodeStore S) where
      abbrev pub stored : AuthzRequest → (code : String) → Called Unit × S → Response × S
      stored a code (returned u, s) = (redirect_back a.redirect_uri (coded code) a.state, s)
      stored a code (thrown, s) =
          (redirect_back a.redirect_uri (failed "temporarily_unavailable") a.state, s)

      unfoldable pub grant_code : (now : ℕ) (code : String) → Form → Checked → S → Response × S
      unfolding refused
      grant_code now code form (fail response) s = (response, s)
      grant_code now code form (ok a) s =
          if refused now form a
          then (redirect_back a.redirect_uri (failed "access_denied") a.state, s)
          else stored a code (store.put code (grant_of form a) code_ttl_s s)

      -- `handleAuthorize` of a POST: the body, if it could be read, is the form.
      unfoldable pub post_authorize : (now : ℕ) (code : String) → Option Form → S → Response × S
      unfolding grant_code check_authorize
      post_authorize now code none s =
          (error_page 400 "Send the sign-in form as application/x-www-form-urlencoded.", s)
      post_authorize now code (some form) s = grant_code now code form (check_authorize form) s

    abbrev shown : Checked → Response
    shown (ok a) = sign_in_page a
    shown (fail response) = response

    -- `handleAuthorize` of a GET.
    unfoldable pub get_authorize : Form → Response
    unfolding check_authorize
    get_authorize params = shown (check_authorize params)
