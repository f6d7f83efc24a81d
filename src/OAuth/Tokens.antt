-- ===== src/OAuth/Tokens.antt =====
-- packages/oauth/src/tokens.ts, crypto.ts and the PKCE test of checks.ts: signing, access tokens and
-- client ids.
use Prim.Native.String.{◌++◌ as joined}
use altscan.Prelude.{
  text_length, ℕ, ◌+◌, Bool, false, not, ◌&&◌, List, [], ◌∷◌, Option, none, some, String, ltb, leb,
  ◌==◌, ◌===◌, string_eq, if◌then◌else◌, length, has,
}
use altscan.OAuth.Base64.{b64url, b64url_decode, sha256_b64url}
use altscan.OAuth.Layout.{◌>>=◌, header_json, claims_json, client_json, partial_claims, client_of}
use altscan.OAuth.{
  Json, Platform, Bytes, AccessClaims, PartialClaims, ClientRecord, max_token_length,
}
use altscan.OAuth.Text.{
  split_on, dotted, strip_prefix, address, code_verifier, code_challenge, constant_time_equal,
}

module _ (w : Platform) where
  unfoldable pub hmac_sign : (secret purpose text : String) → String
  hmac_sign secret purpose text = b64url w (w.subtle_sign secret purpose text)

  -- Only the canonical spelling of a signature passes.
  unfoldable pub verify_decoded : (secret purpose text signature : String) → Option Bytes → Bool
  verify_decoded secret purpose text signature none = false
  verify_decoded secret purpose text signature (some sig) =
      (length sig == 32) && (b64url w sig === signature) && w.subtle_verify secret purpose sig text

  unfoldable pub hmac_verify : (secret purpose text signature : String) → Bool
  unfolding verify_decoded
  hmac_verify secret purpose text signature =
      verify_decoded secret purpose text signature (b64url_decode w signature)

  abbrev pub header : String
  header = b64url w (w.json_stringify header_json)

  unfoldable pub mint_access_token : (secret : String) → AccessClaims → String
  unfolding hmac_sign
  mint_access_token secret claims =
      let body = dotted header (b64url w (w.json_stringify (claims_json claims))) in
      dotted body (hmac_sign secret "access-token" body)

  -- `decodeJson`, with none for its null.
  unfoldable pub decode_json : String → Option Json
  decode_json part = b64url_decode w part >>= w.json_parse

  -- The claims in their order, each of its type, and the address by its format.
  unfoldable pub check_claims :
      (issuer scope : String) (now_seconds : ℕ) → PartialClaims → Option AccessClaims
  check_claims issuer scope now c = do
    iss ← c.iss
    aud ← c.aud
    if not (iss === issuer && aud === issuer) then none else do
      exp ← c.exp
      if leb exp now then none else do
        iat ← c.iat
        if ltb (now + 60) iat then none else do
          sub ← c.sub
          if not (address sub) then none else do
            client_id ← c.client_id
            jti ← c.jti
            granted ← c.scope
            if not (has scope (split_on b' ' granted))
                then none
                else some (record {
                  iss = iss;
                  aud = aud;
                  sub = sub;
                  client_id = client_id;
                  scope = granted;
                  iat = iat;
                  exp = exp;
                  jti = jti;
                })

  unfoldable pub read_parts :
      (secret issuer scope : String) (now_seconds : ℕ) → List String → Option AccessClaims
  unfolding hmac_verify check_claims decode_json
  read_parts secret issuer scope now (h ∷ body ∷ signature ∷ []) =
      if not (h === header)
      then none
      else if not (hmac_verify secret "access-token" (dotted h body) signature)
      then none
      else decode_json body >>= partial_claims >>= check_claims issuer scope now
  read_parts secret issuer scope now _ = none

  unfoldable pub read_access_token :
      (secret token issuer scope : String) (now_seconds : ℕ) → Option AccessClaims
  unfolding read_parts
  read_access_token secret token issuer scope now =
      if ltb max_token_length (text_length token)
      then none
      else read_parts secret issuer scope now (split_on b'.' token)

  unfoldable pub mint_client_id : (secret : String) → ClientRecord → (random : String) → String
  unfolding hmac_sign
  mint_client_id secret rec random =
      let body = b64url w (w.json_stringify (client_json rec random)) in
      joined "ac1." (dotted body (hmac_sign secret "client-id" body))

  unfoldable pub read_client_parts : (secret : String) → List String → Option ClientRecord
  unfolding hmac_verify decode_json
  read_client_parts secret (body ∷ signature ∷ []) =
      if not (hmac_verify secret "client-id" body signature)
      then none
      else decode_json body >>= client_of
  read_client_parts secret _ = none

  abbrev stripped_parts : Option String → List String
  stripped_parts none = []
  stripped_parts (some s) = split_on b'.' s

  unfoldable pub read_client_id : (secret client_id : String) → Option ClientRecord
  unfolding read_client_parts
  read_client_id secret client_id =
      if ltb max_token_length (text_length client_id)
      then none
      else read_client_parts secret (stripped_parts (strip_prefix "ac1." client_id))

  unfoldable pub pkce_matches : (verifier challenge : String) → Bool
  pkce_matches verifier challenge =
      code_verifier verifier
      && code_challenge challenge
      && constant_time_equal (sha256_b64url w verifier) challenge
