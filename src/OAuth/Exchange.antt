-- ===== src/OAuth/Exchange.antt =====
-- packages/oauth/src/server.ts: the token endpoint.
use altscan.Prelude.{
  text_length, ℕ, ◌+◌, ◌/◌, Bool, true, false, not, ◌&&◌, ◌||◌, Option, none, some, String, ltb,
  ◌===◌, string_eq, if◌then◌else◌, any_by,
}
use altscan.OAuth.{
  Platform, AccessClaims, CodeGrant, CodeStore, Called, returned, thrown, OAuthConfig, Form,
  Response, json_error, token, or_empty, access_token_ttl_s,
}
use altscan.OAuth.Text.{words}
use altscan.OAuth.Tokens.{read_client_id, mint_access_token, pkce_matches}

pub record Credentials : Type 0 where
  pub id : String
  pub secret : String

module _ (w : Platform) (cfg : OAuthConfig) where
  -- What a token says.
  abbrev pub claims_of : (now : ℕ) (jti sub client_id scope : String) → AccessClaims
  claims_of now jti sub client_id scope = record {
    iss = cfg.issuer;
    aud = cfg.issuer;
    sub = sub;
    client_id = client_id;
    scope = scope;
    iat = now / 1_000;
    exp = now / 1_000 + access_token_ttl_s;
    jti = jti;
  }

  unfoldable pub issue : (now : ℕ) (jti sub client_id scope : String) → Response
  issue now jti sub client_id scope =
      token (mint_access_token w cfg.secret (claims_of now jti sub client_id scope))
        access_token_ttl_s scope

  abbrev pub differs : Option String → String → Bool
  differs none uri = false
  differs (some asked) uri = not (asked === uri)

  -- What is tested of a grant once its code is spent.
  unfoldable pub redeem :
      (now : ℕ) (jti : String) → Form → (client_id : String) → Called (Option CodeGrant) → Response
  unfolding issue
  redeem now jti p client_id thrown = json_error 503 "temporarily_unavailable"
  redeem now jti p client_id (returned none) = json_error 400 "invalid_grant"
  redeem now jti p client_id (returned (some g)) =
      if not (g.iss === cfg.issuer) || not (g.client_id === client_id)
      then json_error 400 "invalid_grant"
      else if differs (p "redirect_uri") g.redirect_uri
      then json_error 400 "invalid_grant"
      else if not (pkce_matches w (or_empty (p "code_verifier")) g.code_challenge)
      then json_error 400 "invalid_grant"
      else issue now jti g.sub client_id g.scope

  abbrev pub is_known {ℓ} : {A : Type ℓ} → Option A → Bool
  is_known none = false
  is_known (some a) = true

  unfoldable pub client_credentials_grant :
      (now : ℕ) (jti : String) (basic : Option Credentials) → Form → Response
  unfolding issue
  client_credentials_grant now jti basic p =
      if is_known basic && (is_known (p "client_id") || is_known (p "client_secret"))
      then json_error 400 "invalid_request"
      else with_credentials (chosen basic)
    where
      chosen : Option Credentials → Credentials
      chosen (some c) = c
      chosen none = record { id = or_empty (p "client_id"); secret = or_empty (p "client_secret") }

      asked_scope : Option String → String
      asked_scope none = cfg.scope
      asked_scope (some s) = s

      owner : Credentials → Option String
      owner c =
          if c.id === "" || c.secret === "" then none else cfg.client_credentials c.id c.secret

      answer : Credentials → Option String → Response
      answer c none = json_error 401 "invalid_client"
      answer c (some sub) =
          if sub === ""
          then json_error 401 "invalid_client"
          else issue now jti (w.to_lower sub) c.id cfg.scope

      with_credentials : Credentials → Response
      with_credentials c =
          if any_by (λ s. not (s === cfg.scope)) (words (asked_scope (p "scope")))
          then json_error 400 "invalid_scope"
          else answer c (owner c)

  module _ {S : Type 0} (store : CodeStore S) where
    -- The code is taken before its grant is looked at.
    unfoldable pub code_grant : (now : ℕ) (jti : String) → Form → S → Response × S
    unfolding redeem
    code_grant now jti p s =
        let code = or_empty (p "code") in
        let client_id = or_empty (p "client_id") in
        if code === "" || ltb 128 (text_length code)
        then (json_error 400 "invalid_request", s)
        else if not (is_known (read_client_id w cfg.secret client_id))
        then (json_error 401 "invalid_client", s)
        else (redeem now jti p client_id (store.take code s).0, (store.take code s).1)

    abbrev pub is_grant : String → Option String → Bool
    is_grant kind none = false
    is_grant kind (some g) = g === kind

    -- `handleToken` of a POST.
    unfoldable pub post_token :
        (now : ℕ) (jti : String) (basic : Option Credentials) → Option Form → S → Response × S
    unfolding code_grant client_credentials_grant
    post_token now jti basic none s = (json_error 400 "invalid_request", s)
    post_token now jti basic (some p) s =
        if is_grant "authorization_code" (p "grant_type")
        then code_grant now jti p s
        else if is_grant "client_credentials" (p "grant_type") && cfg.has_client_credentials
        then (client_credentials_grant now jti basic p, s)
        else (json_error 400 "unsupported_grant_type", s)
