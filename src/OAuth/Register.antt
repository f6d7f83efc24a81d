-- ===== src/OAuth/Register.antt =====
-- packages/oauth/src/server.ts: the registration of a client.
use altscan.Prelude.{
  ℕ, ◌/◌, Bool, true, false, not, ◌||◌, List, [], ◌∷◌, Option, none, some, String, ltb, ◌===◌,
  string_eq, if◌then◌else◌, length,
}
use altscan.OAuth.{
  Platform, ClientRecord, OAuthConfig, Response, json_error, registered, max_redirect_uris,
}
use altscan.OAuth.Message.{clean_client_name}
use altscan.OAuth.Tokens.{mint_client_id}
use altscan.OAuth.Authorize.{all_by, redirect_uri_allowed}

-- A field of a JSON object.
pub data Field : Type 0 where
  absent other : Field
  text_field : String → Field

-- The metadata that a client sends. Redirect URIs that are no array are none.
pub record Metadata : Type 0 where
  pub redirect_uris : Option (List Field)
  pub token_endpoint_auth_method : Field
  pub client_name : Field

abbrev pub as_text : Field → Option String
as_text (text_field s) = some s
as_text _ = none

-- `uris as string[]`, once every one is a string.
abbrev pub texts : List Field → List String
texts [] = []
texts (text_field s ∷ fields) = s ∷ texts fields
texts (_ ∷ fields) = texts fields

abbrev pub is_public : Field → Bool
is_public absent = true
is_public (text_field method) = method === "none"
is_public other = false

module _ (w : Platform) (cfg : OAuthConfig) where
  abbrev pub allowed_field : Field → Bool
  allowed_field (text_field uri) = redirect_uri_allowed w uri
  allowed_field _ = false

  abbrev pub record_of : (now : ℕ) → List Field → Metadata → ClientRecord
  record_of now uris meta = record {
    redirect_uris = texts uris;
    client_name = clean_client_name (as_text meta.client_name);
    iat = now / 1_000;
  }

  unfoldable pub register_uris :
      (now : ℕ) (random : String) → Metadata → Option (List Field) → Response
  register_uris now random meta none = json_error 400 "invalid_redirect_uri"
  register_uris now random meta (some uris) =
      if ltb (length uris) 1 || ltb max_redirect_uris (length uris)
      then json_error 400 "invalid_redirect_uri"
      else if not (all_by allowed_field uris)
      then json_error 400 "invalid_redirect_uri"
      else if not (is_public meta.token_endpoint_auth_method)
      then json_error 400 "invalid_client_metadata"
      else registered (mint_client_id w cfg.secret (record_of now uris meta) random)
          (record_of now uris meta)

  -- `handleRegister` of a POST.
  unfoldable pub post_register : (now : ℕ) (random : String) → Option Metadata → Response
  unfolding register_uris
  post_register now random none = json_error 400 "invalid_client_metadata"
  post_register now random (some meta) = register_uris now random meta meta.redirect_uris
