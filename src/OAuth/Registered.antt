-- ===== src/OAuth/Registered.antt =====
-- packages/oauth/src/server.ts and tokens.ts: reading the id that a registration answers with.
use Prim.Native.Char.{code}
use Prim.Native.String.{[] as end_of_text, ◌∷◌ as followed_by, ◌++◌ as joined}
use text.Mathlib.TextLemmas.{nil-append, cons-append}
use altscan.Prelude.{
  text_length, false≢true, if-both, subst, suc, ℕ, ◌≤◌, ◌≡◌, refl, ap, ◌∙◌, true, false, not, ◌||◌,
  List, [], ◌∷◌, Option, none, some, String, ltb, ==_iff, length, arith,
}
use altscan.OAuth.{
  Platform, ClientRecord, OAuthConfig, Response, registered, max_redirect_uris, max_token_length,
}
use altscan.OAuth.Text.{strip_prefix, dotted, split_on-dotted, split_on-dotless}
use altscan.OAuth.Tokens.{hmac_sign, mint_client_id, read_client_id, read_client_parts}
use altscan.OAuth.Authorize.{all_by, redirect_uri_allowed}
use altscan.OAuth.Register.{
  is_public, Metadata, Field, text_field, absent, other, texts, allowed_field, register_uris,
  post_register,
}
use altscan.OAuth.RoundTrip.{Documented, hmac_verify-sign, decode_json-b64url, dotless-b64url}
use altscan.OAuth.Base64.{b64url}
use altscan.OAuth.Layout.{client_json, client_of-json}

strip_prefix-joined : (p s : String) → strip_prefix p (joined p s) ≡ some s
unfolding strip_prefix
strip_prefix-joined end_of_text s = rw (nil-append s)
strip_prefix-joined (followed_by c p) s =
    rw (cons-append c p s, (==_iff (code c) (code c)).1 refl) (strip_prefix-joined p s)

-- What stands behind a registration: the record is that of URIs that are allowed, few and not none.
abbrev Accepts : Platform → OAuthConfig → (random : String) → Response → Type 0
Accepts w cfg random (registered id rec) =
    (id ≡ mint_client_id w cfg.secret rec random)
    × (all_by (redirect_uri_allowed w) rec.redirect_uris ≡ true)
    × (1 ≤ length rec.redirect_uris)
    × (length rec.redirect_uris ≤ max_redirect_uris)
Accepts w cfg random _ = Unit

module _ (w : Platform) where
  read_client_id-mint :
      (doc : Documented w) (secret random : String) (rec : ClientRecord)
      → w.json_parse (w.json_stringify (client_json rec random)) ≡ some (client_json rec random)
      → text_length (mint_client_id w secret rec random) ≤ max_token_length
      → read_client_id w secret (mint_client_id w secret rec random) ≡ some rec
  unfolding read_client_id read_client_parts mint_client_id hmac_sign
  read_client_id-mint doc secret random rec parsed fits =
      let body = b64url w (w.json_stringify (client_json rec random)) in
      let signature = hmac_sign w secret "client-id" body in
      let short : ltb max_token_length (text_length (mint_client_id w secret rec random)) ≡ false =
        ground (arith, fits) in
      rw (
        short,
        strip_prefix-joined "ac1." (dotted body signature),
        split_on-dotted body signature
            (dotless-b64url w doc (w.json_stringify (client_json rec random))),
        split_on-dotless signature (dotless-b64url w doc (w.subtle_sign secret "client-id" body)),
        hmac_verify-sign w doc secret "client-id" body,
        decode_json-b64url w doc (client_json rec random) parsed,
        client_of-json rec random,
      )

  all_by-texts :
      (cfg : OAuthConfig) (uris : List Field)
      → all_by (allowed_field w cfg) uris ≡ true
      → (all_by (redirect_uri_allowed w) (texts uris) ≡ true) × (length (texts uris) ≡ length uris)
  all_by-texts cfg [] h = (refl, refl)
  all_by-texts cfg (text_field uri ∷ uris) h =
      let each : (redirect_uri_allowed w uri ≡ true) × (all_by (allowed_field w cfg) uris ≡ true) =
        ground arith in
      let (allowed, same) = all_by-texts cfg uris each.1 in
      (ground (arith, each.0, allowed), ap suc same)
  all_by-texts cfg (absent ∷ uris) h = elim (false≢true h) [ ]
  all_by-texts cfg (other ∷ uris) h = elim (false≢true h) [ ]

  register_uris-Accepts :
      (cfg : OAuthConfig) (now : ℕ) (random : String) (meta : Metadata) (uris : Option (List Field))
      → Accepts w cfg random (register_uris w cfg now random meta uris)
  unfolding register_uris
  register_uris-Accepts cfg now random meta none = tt
  register_uris-Accepts cfg now random meta (some uris) =
      let P = Accepts w cfg random in
      if-both P (ltb (length uris) 1 || ltb max_redirect_uris (length uris)) (λ _. tt)
        (λ few.
          if-both P (not (all_by (allowed_field w cfg) uris)) (λ _. tt)
            (λ good.
              if-both P (not (is_public meta.token_endpoint_auth_method)) (λ _. tt)
                (λ _.
                  let (allowed, same) = all_by-texts cfg uris (ground (arith, good)) in
                  (refl, allowed, ground (arith, few, same), ground (arith, few, same)))))

  -- A registration is answered with an id that can be used: when the id is not longer than 4096 units and
  -- the platform's JSON gives back the array that it wrote, the id gives back the record that the answer shows, whose
  -- URIs are between one and four and all allowed.
  pub post_register-read :
      (doc : Documented w) (cfg : OAuthConfig) (now : ℕ) (random : String) (meta : Metadata)
      (id : String) (rec : ClientRecord)
      → post_register w cfg now random (some meta) ≡ registered id rec
      → w.json_parse (w.json_stringify (client_json rec random)) ≡ some (client_json rec random)
      → text_length id ≤ max_token_length
      → (read_client_id w cfg.secret id ≡ some rec)
        × (all_by (redirect_uri_allowed w) rec.redirect_uris ≡ true)
        × (1 ≤ length rec.redirect_uris)
        × (length rec.redirect_uris ≤ max_redirect_uris)
  unfolding post_register
  post_register-read doc cfg now random meta id rec h parsed fits =
      let (minted, allowed, some_uri, few) =
        subst (Accepts w cfg random) h
          (register_uris-Accepts cfg now random meta meta.redirect_uris) in
      (
        ap (λ i. read_client_id w cfg.secret i) minted
            ∙ read_client_id-mint doc cfg.secret random rec parsed
                (subst (λ i. text_length i ≤ max_token_length) minted fits),
        allowed,
        some_uri,
        few,
      )
