-- ===== src/OAuth/Redirects.antt =====
-- packages/oauth/src/server.ts: where the authorization endpoint redirects to.
use altscan.Prelude.{
  none≢some, some-injective, ℕ, ◌≡◌, refl, sym, ap, ◌∙◌, inl, inr, true, not, ◌||◌, Option, none,
  some, String, ◌===◌, string_eq, Bool-cases, Option-cases, has, arith,
}
use altscan.OAuth.{
  Platform, ClientRecord, CodeStore, Called, returned, thrown, OAuthConfig, Form, AuthzRequest,
  Response, redirect_back, or_empty, code_ttl_s,
}
use altscan.OAuth.Tokens.{read_client_id}
use altscan.OAuth.Authorize.{
  Checked, ok, fail, all_by, redirect_uri_allowed, asked_or, sole, check_request, check_redirect,
  check_client, check_authorize, refused, grant_of, stored, grant_code, post_authorize,
}

-- The `location` of an answer, without its parameters, and the code among these.
abbrev pub location : Response → Option String
location (redirect_back uri outcome state) = some uri
location _ = none

abbrev target : Checked → Option String
target (ok a) = some a.redirect_uri
target (fail response) = location response

module _ (w : Platform) (cfg : OAuthConfig) where
  -- A URI that the form's client registered, all of whose URIs today's rules allow.
  pub Registered : Form → String → Type 0
  Registered p uri =
      (client : ClientRecord) × (read_client_id w cfg.secret (or_empty (p "client_id"))
        ≡ some client)
      × (all_by (redirect_uri_allowed w) client.redirect_uris ≡ true)
      × (has uri client.redirect_uris ≡ true)

  check_request-target :
      (p : Form) (id : String) (client : ClientRecord) (uri : String)
      → target (check_request w cfg p id client uri) ≡ some uri
  unfolding check_request
  check_request-target p id client uri = ground arith

  check_redirect-target :
      (p : Form) (id : String) (client : ClientRecord) (asked : Option String) (uri : String)
      → target (check_redirect w cfg p id client asked) ≡ some uri
      → has uri client.redirect_uris ≡ true
  unfolding check_redirect
  check_redirect-target p id client none uri h = elim (none≢some h) [ ]
  check_redirect-target p id client (some asked) uri h =
      elim (Bool-cases (asked === "" || not (has asked client.redirect_uris))) [
        | inl wrong ↦ elim (none≢some (rw wrong at h)) [ ]
        | inr right ↦
            let is_uri : asked ≡ uri =
              some-injective (sym (check_request-target p id client asked) ∙ (rw right at h)) in
            ap (λ u. has u client.redirect_uris) (sym is_uri) ∙ ground arith
      ]

  check_authorize-Registered :
      (p : Form) (uri : String) → target (check_authorize w cfg p) ≡ some uri → Registered p uri
  unfolding check_authorize check_client Registered
  check_authorize-Registered p uri h =
      let id = or_empty (p "client_id") in
      elim (Option-cases (read_client_id w cfg.secret id)) [
        | inl unknown ↦ elim (none≢some (rw unknown at h)) [ ]
        | inr (client, known) ↦
            elim (Bool-cases (all_by (redirect_uri_allowed w) client.redirect_uris)) [
              | inl allowed ↦ (
                client,
                known,
                allowed,
                check_redirect-target p id client
                    (asked_or (p "redirect_uri") (sole client.redirect_uris)) uri
                    (rw (known, allowed) at h),
              )
              | inr blocked ↦ elim (none≢some (rw (known, blocked) at h)) [ ]
            ]
      ]

  module _ {S : Type 0} (store : CodeStore S) (now : ℕ) (code : String) (form : Form) where
    stored-location :
        (a : AuthzRequest) (r : Called Unit × S)
        → location (stored w cfg store a code r).0 ≡ some a.redirect_uri
    stored-location a (returned u, t) = refl
    stored-location a (thrown, t) = refl

    grant_code-location :
        (c : Checked) (s : S) (uri : String)
        → location (grant_code w cfg store now code form c s).0 ≡ some uri
        → target c ≡ some uri
    unfolding grant_code
    grant_code-location (fail response) s uri h = h
    grant_code-location (ok a) s uri h = elim (Bool-cases (refused w cfg now form a)) [
      | inl refuses ↦ rw refuses at h
      | inr accepts ↦
          sym (stored-location a (store.put code (grant_of w cfg form a) code_ttl_s s))
          ∙ (rw accepts at h)
    ]

    -- A sign-in redirects only to a URI that the form's client registered, while all its URIs are allowed
    -- today; anything wrong with the client or the URI is shown on a page instead.
    pub post_authorize-Registered :
        (s : S) (uri : String)
        → location (post_authorize w cfg store now code (some form) s).0 ≡ some uri
        → Registered form uri
    unfolding post_authorize
    post_authorize-Registered s uri h =
        check_authorize-Registered form uri
          (grant_code-location (check_authorize w cfg form) s uri h)
