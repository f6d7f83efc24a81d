-- ===== src/OAuth/Earned.antt =====
-- packages/oauth/src/server.ts: what a token answer to a code rests on.
use altscan.Prelude.{
  text_length, false≢true, ℕ, ◌≡◌, refl, sym, ◌∙◌, Bool, true, false, not, ◌||◌, Option, none, some,
  String, ltb, ◌===◌, string_eq, if◌then◌else◌, arith,
}
use altscan.OAuth.{
  Platform, CodeGrant, CodeStore, Called, returned, thrown, OAuthConfig, Form, Response, token,
  or_empty, access_token_ttl_s,
}
use altscan.OAuth.Tokens.{read_client_id, mint_access_token, pkce_matches}
use altscan.OAuth.Exchange.{claims_of, issue, redeem, code_grant, differs, is_known}

abbrev pub is_token : Response → Bool
is_token (token t expires_in scope) = true
is_token _ = false

-- A token that comes out of a guarded answer has passed the guard.
past_guard :
    {A : Type 0} (f : A → Bool) (b : Bool) (x y : A)
    → f x ≡ false
    → f (if b then x else y) ≡ true
    → (b ≡ false) × (f y ≡ true)
past_guard f true x y no_token h = elim (false≢true (sym no_token ∙ h)) [ ]
past_guard f false x y no_token h = (refl, h)

module _ (w : Platform) (cfg : OAuthConfig) where
  -- What a token answer to a grant rests on.
  pub record Earned (now : ℕ) (jti : String) (p : Form) (client_id : String) (g : CodeGrant)
      (answer : Response) : Type 0 where
    pub issuer_matches : g.iss ≡ cfg.issuer
    pub client_matches : g.client_id ≡ client_id
    pub uri_matches : differs w cfg (p "redirect_uri") g.redirect_uri ≡ false
    pub verifier_matches : pkce_matches w (or_empty (p "code_verifier")) g.code_challenge ≡ true
    pub says :
        answer
        ≡ token
            (mint_access_token w cfg.secret (claims_of w cfg now jti g.sub client_id g.scope))
            access_token_ttl_s
            g.scope

  redeem-Earned :
      (now : ℕ) (jti : String) (p : Form) (client_id : String) (taken : Called (Option CodeGrant))
      → is_token (redeem w cfg now jti p client_id taken) ≡ true
      → (g : CodeGrant) × (taken ≡ returned (some g))
        × Earned now jti p client_id g (redeem w cfg now jti p client_id taken)
  unfolding redeem issue
  redeem-Earned now jti p client_id thrown h = elim (false≢true h) [ ]
  redeem-Earned now jti p client_id (returned none) h = elim (false≢true h) [ ]
  redeem-Earned now jti p client_id (returned (some g)) h =
      let ours =
        past_guard is_token (not (g.iss === cfg.issuer) || not (g.client_id === client_id)) _ _ refl
          h in
      let uri =
        past_guard is_token (differs w cfg (p "redirect_uri") g.redirect_uri) _ _ refl ours.1 in
      let pkce =
        past_guard is_token (not (pkce_matches w (or_empty (p "code_verifier")) g.code_challenge)) _
          _ refl uri.1 in
      (
        g,
        refl,
        record {
          issuer_matches = (string_eq.beq_iff g.iss cfg.issuer).0 (ground (arith, ours.0));
          client_matches = (string_eq.beq_iff g.client_id client_id).0 (ground (arith, ours.0));
          uri_matches = uri.0;
          verifier_matches = ground (arith, pkce.0);
          says = rw (ours.0, uri.0, pkce.0);
        },
      )

  module _ {S : Type 0} (store : CodeStore S) where
    -- A token answer to a code rests on the grant that the store held for it: minted by this issuer,
    -- for this client, with the redirect URI that is asked for, if one is, and with a challenge that the
    -- verifier meets. The token then says the grant's address and scope, and the code is spent.
    pub code_grant-Earned :
        (now : ℕ) (jti : String) (p : Form) (s : S)
        → is_token (code_grant w cfg store now jti p s).0 ≡ true
        → (g : CodeGrant) × (store.held (or_empty (p "code")) s ≡ some g)
          × Earned now jti p (or_empty (p "client_id")) g (code_grant w cfg store now jti p s).0
          × (store.held (or_empty (p "code")) (code_grant w cfg store now jti p s).1 ≡ none)
    unfolding code_grant
    code_grant-Earned now jti p s h =
        let code = or_empty (p "code") in
        let client_id = or_empty (p "client_id") in
        let given =
          past_guard (λ (r : Response × S). is_token r.0)
            (code === "" || ltb 128 (text_length code)) _ _ refl h in
        let known =
          past_guard (λ (r : Response × S). is_token r.0)
            (not (is_known w cfg (read_client_id w cfg.secret client_id))) _ _ refl given.1 in
        let (g, taken, earned) = redeem-Earned now jti p client_id (store.take code s).0 known.1 in
        let spent = store.take_returns code s (some g) taken in
        rw (given.0, known.0) (g, sym spent.0, earned, spent.1)
