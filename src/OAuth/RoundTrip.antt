-- ===== src/OAuth/RoundTrip.antt =====
-- packages/oauth/src/tokens.ts and server.ts: the tokens that the server issues and the ones it accepts.
use Prim.Native.Char.{Char}
use Prim.Native.String.{[] as end_of_text, ◌∷◌ as followed_by, ◌++◌ as joined}
use text.Mathlib.TextLemmas.{nil-append, cons-append, append_assoc}
use altscan.Prelude.{
  text_length, false≢true, all_three, ℕ, ◌+◌, ◌/◌, ◌≤◌, ◌<◌, ◌≡◌, refl, sym, ap, ◌∙◌, inl, inr,
  true, false, [], ◌∷◌, some, String, ltb, leb, ◌==◌, ◌===◌, string_eq, Option-cases, length, has,
  arith, is_empty,
}
use altscan.OAuth.{
  Platform, Json, Bytes, AccessClaims, OAuthConfig, token, access_token_ttl_s, max_token_length,
}
use altscan.OAuth.Text.{is_url_safe, split_on, dotted, dotless, split_on-three, address}
use altscan.OAuth.Tokens.{
  decode_json, hmac_sign, hmac_verify, verify_decoded, header, mint_access_token, check_claims,
  read_parts, read_access_token,
}
use altscan.OAuth.Base64.{
  b64url, b64url_decode, every, Encoded, dotless-url_safe, every-b64url, b64url_decode-b64url,
}
use altscan.OAuth.Layout.{claims_json, as_partial, partial_claims-json}
use altscan.OAuth.Bearer.{bearer, bearer_of, is_token_char, verify_bearer, verify_bearer-every}
use altscan.OAuth.Exchange.{claims_of, issue}

-- What the platform is relied on for: `btoa` gives padded base64, which `atob` reads back, a SHA-256
-- signature has 32 bytes, and a signature verifies exactly if it is the one that signing gives.
pub record Documented (w : Platform) : Type 0 where
  pub btoa-Encoded : (bytes : Bytes) → Encoded (w.btoa bytes)
  pub atob-btoa : (bytes : Bytes) → w.atob (w.btoa bytes) ≡ some bytes
  pub sign_length : (secret purpose text : String) → length (w.subtle_sign secret purpose text) ≡ 32
  pub verify_sign :
      (secret purpose text : String)
      → w.subtle_verify secret purpose (w.subtle_sign secret purpose text) text ≡ true
  pub verify_only :
      (secret purpose : String) (sig : Bytes) (text : String)
      → w.subtle_verify secret purpose sig text ≡ true
      → sig ≡ w.subtle_sign secret purpose text

dotted_assoc : (a b c : String) → dotted (dotted a b) c ≡ dotted a (dotted b c)
dotted_assoc a b c =
    append_assoc a (followed_by "." b) (followed_by "." c)
    ∙ ap (λ t. joined a t) (cons-append "." b (followed_by "." c))

pub same_text : (s : String) → (s === s) ≡ true
same_text s = (string_eq.beq_iff s s).1 refl

token_char : (c : Char) → is_url_safe c ≡ true → is_token_char c ≡ true
token_char c h = rw h

every-weaker : (s : String) → every is_url_safe s ≡ true → every is_token_char s ≡ true
unfolding every
every-weaker end_of_text h = refl
every-weaker (followed_by c s) h =
    let parts : (is_url_safe c ≡ true) × (every is_url_safe s ≡ true) = ground (arith, h) in
    rw (token_char c parts.0) (every-weaker s parts.1)

every-dotted :
    (a b : String)
    → every is_token_char a ≡ true
    → every is_token_char b ≡ true
    → every is_token_char (dotted a b) ≡ true
unfolding every
every-dotted end_of_text b ha hb = rw (nil-append (followed_by "." b)) hb
every-dotted (followed_by c s) b ha hb =
    let parts : (is_token_char c ≡ true) × (every is_token_char s ≡ true) = ground (arith, ha) in
    rw (cons-append c s (followed_by "." b), parts.0) (every-dotted s b parts.1 hb)

is_empty-dotted : (a b : String) → is_empty (dotted a b) ≡ false
is_empty-dotted end_of_text b = rw (nil-append (followed_by "." b))
is_empty-dotted (followed_by c s) b = rw (cons-append c s (followed_by "." b))

module _ (w : Platform) (doc : Documented w) where
  pub decode-b64url : (bytes : Bytes) → b64url_decode w (b64url w bytes) ≡ some bytes
  decode-b64url bytes = b64url_decode-b64url w bytes (doc.btoa-Encoded bytes) ∙ doc.atob-btoa bytes

  pub dotless-b64url : (bytes : Bytes) → dotless (b64url w bytes) ≡ true
  dotless-b64url bytes =
      dotless-url_safe (b64url w bytes) (every-b64url w bytes (doc.btoa-Encoded bytes))

  -- JSON that the platform reads back is read from its base64url.
  pub decode_json-b64url :
      (v : Json)
      → w.json_parse (w.json_stringify v) ≡ some v
      → decode_json w (b64url w (w.json_stringify v)) ≡ some v
  unfolding decode_json
  decode_json-b64url v h = rw (decode-b64url (w.json_stringify v)) h

  pub hmac_verify-sign :
      (secret purpose text : String)
      → hmac_verify w secret purpose text (hmac_sign w secret purpose text) ≡ true
  unfolding hmac_verify hmac_sign verify_decoded
  hmac_verify-sign secret purpose text =
      let sig = w.subtle_sign secret purpose text in
      rw (
        decode-b64url sig,
        doc.sign_length secret purpose text,
        doc.verify_sign secret purpose text,
        same_text (b64url w sig),
      )

  -- The one text that verifies is the one that signing gives.
  pub hmac_verify-only :
      (secret purpose text signature : String)
      → hmac_verify w secret purpose text signature ≡ true
      → signature ≡ hmac_sign w secret purpose text
  unfolding hmac_verify hmac_sign verify_decoded
  hmac_verify-only secret purpose text signature h =
      elim (Option-cases (b64url_decode w signature)) [
        | inl undecoded ↦ elim (false≢true (rw undecoded at h)) [ ]
        | inr (sig, read) ↦
            let passed =
              all_three (length sig == 32) (b64url w sig === signature)
                (w.subtle_verify secret purpose sig text) (rw read at h) in
            sym ((string_eq.beq_iff (b64url w sig) signature).0 passed.1)
            ∙ ap (b64url w) (doc.verify_only secret purpose sig text passed.2)
      ]

  split_on-minted :
      (secret : String) (claims : AccessClaims)
      → let body = b64url w (w.json_stringify (claims_json claims)) in
        split_on b'.' (mint_access_token w secret claims)
        ≡ header w ∷ body ∷ hmac_sign w secret "access-token" (dotted (header w) body) ∷ []
  unfolding mint_access_token hmac_sign
  split_on-minted secret claims =
      let body = b64url w (w.json_stringify (claims_json claims)) in
      let signature = hmac_sign w secret "access-token" (dotted (header w) body) in
      ap (split_on b'.') (dotted_assoc (header w) body signature)
      ∙ split_on-three (header w) body signature (dotless-b64url _) (dotless-b64url _)
          (dotless-b64url _)

  check_claims-partial :
      (c : AccessClaims) (issuer scope : String) (now : ℕ)
      → c.iss ≡ issuer
      → c.aud ≡ issuer
      → now < c.exp
      → c.iat ≤ now + 60
      → address c.sub ≡ true
      → has scope (split_on b' ' c.scope) ≡ true
      → check_claims w issuer scope now (as_partial c) ≡ some c
  unfolding check_claims
  check_claims-partial c issuer scope now iss aud fresh started sub granted =
      let issued : (c.iss === issuer) ≡ true = (string_eq.beq_iff c.iss issuer).1 iss in
      let meant : (c.aud === issuer) ≡ true = (string_eq.beq_iff c.aud issuer).1 aud in
      let alive : leb c.exp now ≡ false = ground arith in
      let begun : ltb (now + 60) c.iat ≡ false = ground arith in
      rw (issued, meant, alive, begun, sub, granted)

  -- Within the length limit, what `mintAccessToken` makes of claims for this issuer and scope, which have
  -- begun and not expired, is read back as these claims. It is assumed that JSON gives back what it
  -- wrote for them.
  pub read_access_token-mint :
      (secret issuer scope : String) (now : ℕ) (c : AccessClaims)
      → w.json_parse (w.json_stringify (claims_json c)) ≡ some (claims_json c)
      → text_length (mint_access_token w secret c) ≤ max_token_length
      → c.iss ≡ issuer
      → c.aud ≡ issuer
      → now < c.exp
      → c.iat ≤ now + 60
      → address c.sub ≡ true
      → has scope (split_on b' ' c.scope) ≡ true
      → read_access_token w secret (mint_access_token w secret c) issuer scope now ≡ some c
  unfolding read_access_token read_parts
  read_access_token-mint secret issuer scope now c json fits iss aud fresh started sub granted =
      let short : ltb max_token_length (text_length (mint_access_token w secret c)) ≡ false =
        ground arith in
      rw
        (
          short,
          split_on-minted secret c,
          same_text (header w),
          hmac_verify-sign secret "access-token"
              (dotted (header w) (b64url w (w.json_stringify (claims_json c)))),
          decode_json-b64url (claims_json c) json,
          partial_claims-json c,
        )
        (check_claims-partial c issuer scope now iss aud fresh started sub granted)

  every-b64url_token : (bytes : Bytes) → every is_token_char (b64url w bytes) ≡ true
  every-b64url_token bytes =
      every-weaker (b64url w bytes) (every-b64url w bytes (doc.btoa-Encoded bytes))

  every-mint :
      (secret : String) (c : AccessClaims)
      → (every is_token_char (mint_access_token w secret c) ≡ true)
        × (is_empty (mint_access_token w secret c) ≡ false)
  unfolding mint_access_token hmac_sign
  every-mint secret c =
      let body = b64url w (w.json_stringify (claims_json c)) in
      let signed = dotted (header w) body in
      let signature = hmac_sign w secret "access-token" signed in
      (
        every-dotted signed signature
            (every-dotted (header w) body (every-b64url_token _) (every-b64url_token _))
            (every-b64url_token _),
        is_empty-dotted signed signature,
      )

  -- A token that the endpoint issues at one time, sent as a bearer token, is accepted with its address
  -- and client at any later time until an hour has passed. The granted scope contains the server's, the
  -- address is in lower case, the token is within the length limit, and the platform's JSON gives
  -- back what it wrote.
  pub verify_bearer-issue :
      (cfg : OAuthConfig) (now later : ℕ) (jti sub client_id scope : String)
      → let c = claims_of w cfg now jti sub client_id scope in
        w.json_parse (w.json_stringify (claims_json c)) ≡ some (claims_json c)
        → text_length (mint_access_token w cfg.secret c) ≤ max_token_length
        → address sub ≡ true
        → has cfg.scope (split_on b' ' scope) ≡ true
        → now / 1_000 ≤ later / 1_000
        → later / 1_000 < now / 1_000 + access_token_ttl_s
        → (text : String) × (issue w cfg now jti sub client_id scope
            ≡ token text access_token_ttl_s scope)
          × (verify_bearer w cfg later (some (joined "Bearer " text)) ≡ bearer sub client_id)
  unfolding issue
  verify_bearer-issue cfg now later jti sub client_id scope json fits lower granted after before =
      let c = claims_of w cfg now jti sub client_id scope in
      let (plain, full) = every-mint cfg.secret c in
      (
        mint_access_token w cfg.secret c,
        refl,
        verify_bearer-every w cfg later (mint_access_token w cfg.secret c) full plain
            ∙ ap (bearer_of w cfg) (
                read_access_token-mint cfg.secret cfg.issuer cfg.scope (later / 1_000) c json fits
                  refl refl before (omega (arith, after)) lower granted),
      )
