-- ===== src/OAuth/Granted.antt =====
-- packages/oauth/src/server.ts: when the authorization endpoint gives a code, and what the code stands for.
use Prim.Native.String.{◌++◌ as joined}
use altscan.Prelude.{
  none≢some, some-injective, ℕ, ◌≡◌, refl, sym, ap, ◌∙◌, inl, inr, Bool, true, false, not, ◌||◌,
  Option, none, some, String, ◌===◌, string_eq, Option-cases, has, arith, ◌≤◌, ◌+◌, false≢true,
  if◌then◌else◌,
}
use altscan.OAuth.{
  Platform, ClientRecord, CodeStore, Called, returned, thrown, OAuthConfig, Form, AuthzRequest,
  coded, Response, redirect_back, or_empty, code_ttl_s,
}
use altscan.OAuth.Text.{words, code_challenge}
use altscan.OAuth.Base64.{sha256_b64url}
use altscan.OAuth.Tokens.{read_client_id}
use altscan.OAuth.Message.{lowered, sign_in_message}
use altscan.OAuth.Authorize.{
  Checked, ok, fail, asked_or, sole, check_request, check_redirect, is_value, in_window, too_long,
  wrong_scopes, scope_asked, wrong_resource, all_by, redirect_uri_allowed, is_text, check_client,
  check_authorize, refused, signed_by, grant_of, stored, grant_code, post_authorize, host_of,
  issued_ms,
}

-- The code among the parameters of an answer, and the request of a check that passed.
abbrev pub code_in : Response → Option String
code_in (redirect_back uri (coded code) state) = some code
code_in _ = none

abbrev pub accepted : Checked → Option AuthzRequest
accepted (ok a) = some a
accepted (fail response) = none

abbrev early_code : Checked → Option String
early_code (ok a) = none
early_code (fail response) = code_in response

-- What comes out of a guarded result that has nothing behind the guard.
past_guard :
    {A B : Type 0} (f : A → Option B) (b : Bool) (x y : A) (v : B)
    → f x ≡ none
    → f (if b then x else y) ≡ some v
    → (b ≡ false) × (f y ≡ some v)
past_guard f true x y v nothing h = elim (none≢some (sym nothing ∙ h)) [ ]
past_guard f false x y v nothing h = (refl, h)

module _ (w : Platform) (cfg : OAuthConfig) where
  value_is : (v : String) (o : Option String) → not (is_value w cfg v o) ≡ false → o ≡ some v
  value_is v none h = elim (false≢true (sym h)) [ ]
  value_is v (some s) h = ap some ((string_eq.beq_iff s v).0 (ground (arith, h)))

  -- The request that the form makes with a client and one of its URIs.
  abbrev pub request : Form → ClientRecord → String → AuthzRequest
  request form client uri = record {
    client = client;
    client_id = or_empty (form "client_id");
    redirect_uri = uri;
    state = form "state";
    code_challenge = or_empty (form "code_challenge");
    scope = cfg.scope;
  }

  -- A request for a code whose challenge is a SHA-256, from a registered client and to a URI of its.
  pub record Asks (form : Form) (client : ClientRecord) (uri : String) : Type 0 where
    pub known : read_client_id w cfg.secret (or_empty (form "client_id")) ≡ some client
    pub listed : has uri client.redirect_uris ≡ true
    pub code_flow : form "response_type" ≡ some "code"
    pub hashed : form "code_challenge_method" ≡ some "S256"
    pub challenged : code_challenge (or_empty (form "code_challenge")) ≡ true

  check_request-accepted :
      (form : Form) (client : ClientRecord) (uri : String) (a : AuthzRequest)
      → accepted (check_request w cfg form (or_empty (form "client_id")) client uri) ≡ some a
      → (form "response_type" ≡ some "code")
        × (form "code_challenge_method" ≡ some "S256")
        × (code_challenge (or_empty (form "code_challenge")) ≡ true)
        × (request form client uri ≡ a)
  unfolding check_request
  check_request-accepted form client uri a h =
      let short = past_guard accepted (too_long w cfg (form "state")) _ _ a refl h in
      let flow =
        past_guard accepted (not (is_value w cfg "code" (form "response_type"))) _ _ a refl
          short.1 in
      let method =
        past_guard accepted
          (not (is_value w cfg "S256" (form "code_challenge_method"))
            || not (code_challenge (or_empty (form "code_challenge"))))
          _ _ a refl flow.1 in
      let scopes =
        past_guard accepted (wrong_scopes w cfg (words (scope_asked w cfg (form "scope")))) _ _ a
          refl method.1 in
      let target =
        past_guard accepted (wrong_resource w cfg (form "resource")) _ _ a refl scopes.1 in
      (
        value_is "code" (form "response_type") flow.0,
        value_is "S256" (form "code_challenge_method") (let m = method.0 in ground (arith, m)),
        (let m = method.0 in ground (arith, m)),
        some-injective target.1,
      )

  check_redirect-accepted :
      (form : Form) (client : ClientRecord) (asked : Option String) (a : AuthzRequest)
      → read_client_id w cfg.secret (or_empty (form "client_id")) ≡ some client
      → accepted (check_redirect w cfg form (or_empty (form "client_id")) client asked) ≡ some a
      → (uri : String) × Asks form client uri × (request form client uri ≡ a)
  unfolding check_redirect
  check_redirect-accepted form client none a known h = elim (none≢some h) [ ]
  check_redirect-accepted form client (some uri) a known h =
      let ours =
        past_guard accepted (uri === "" || not (has uri client.redirect_uris)) _ _ a refl h in
      let (flow, method, challenge, same) = check_request-accepted form client uri a ours.1 in
      let asks : Asks form client uri = record {
        known = known;
        listed = (let o = ours.0 in ground (arith, o));
        code_flow = flow;
        hashed = method;
        challenged = challenge;
      } in
      (uri, asks, same)

  check_authorize-accepted :
      (form : Form) (a : AuthzRequest)
      → accepted (check_authorize w cfg form) ≡ some a
      → (client : ClientRecord) × (uri : String) × Asks form client uri
        × (request form client uri ≡ a)
  unfolding check_authorize check_client
  check_authorize-accepted form a h =
      elim (Option-cases (read_client_id w cfg.secret (or_empty (form "client_id")))) [
        | inl unknown ↦ elim (none≢some (rw unknown at h)) [ ]
        | inr (client, known) ↦
            let allowed =
              past_guard accepted (not (all_by (redirect_uri_allowed w) client.redirect_uris)) _ _ a
                refl (rw known at h) in
            let (uri, asks, same) =
              check_redirect-accepted form client
                (asked_or (form "redirect_uri") (sole client.redirect_uris)) a known allowed.1 in
            (client, uri, asks, same)
      ]

  -- What the posted form shows, for that request: a fresh date, and a signature of the message over the
  -- request, the nonce and the date, whose signer is the form's address.
  pub record Signs (now : ℕ) (form : Form) (a : AuthzRequest) (signer : String) : Type 0 where
    pub issued : ℕ
    pub dated : issued_ms w cfg (or_empty (form "issued_at")) ≡ some issued
    pub begun : issued ≤ now + 60_000
    pub recent : now ≤ issued + 600_000
    pub recovered :
        let m = sign_in_message w (record {
          host = host_of w cfg (w.new_url cfg.issuer);
          issuer = cfg.issuer;
          scope_label = cfg.scope_label;
          chain_id = cfg.chain_id;
          client_name = a.client.client_name;
          redirect_uri = a.redirect_uri;
          nonce = or_empty (form "nonce");
          issued_at = or_empty (form "issued_at");
          request_id =
              sha256_b64url w (w.request_json a.client_id a.redirect_uri a.code_challenge a.scope);
        }) in
        w.verify_message
          (joined m.before (joined (or_empty (form "address")) m.after))
          (or_empty (form "signature"))
        ≡ some signer
    pub own : w.to_lower signer ≡ w.to_lower (or_empty (form "address"))

  window-dates :
      (now : ℕ) (o : Option ℕ)
      → in_window w cfg now o ≡ true
      → (ms : ℕ) × (o ≡ some ms) × (ms ≤ now + 60_000) × (now ≤ ms + 600_000)
  window-dates now none h = elim (false≢true h) [ ]
  window-dates now (some ms) h = (ms, refl, ground (arith, h), ground (arith, h))

  lowered-text :
      (s : String) (o : Option String)
      → is_text w cfg s (lowered w o) ≡ true
      → (t : String) × (o ≡ some t) × (w.to_lower t ≡ s)
  lowered-text s none h = elim (false≢true h) [ ]
  lowered-text s (some t) h = (t, refl, (string_eq.beq_iff (w.to_lower t) s).0 h)

  refused-Signs :
      (now : ℕ) (form : Form) (a : AuthzRequest)
      → refused w cfg now form a ≡ false
      → (signer : String) × Signs now form a signer
  unfolding refused signed_by
  refused-Signs now form a h =
      let (issued, dated, begun, recent) =
        window-dates now (issued_ms w cfg (or_empty (form "issued_at"))) (ground (arith, h)) in
      let (signer, recovered, own) = lowered-text _ _ (ground (arith, h)) in
      (
        signer,
        record {
          issued = issued;
          dated = dated;
          begun = begun;
          recent = recent;
          recovered = recovered;
          own = own;
        },
      )

  check_redirect-early_code :
      (p : Form) (id : String) (client : ClientRecord) (asked : Option String)
      → early_code (check_redirect w cfg p id client asked) ≡ none
  unfolding check_redirect check_request
  check_redirect-early_code p id client none = refl
  check_redirect-early_code p id client (some uri) = ground arith

  check_client-early_code :
      (p : Form) (id : String) (client : Option ClientRecord)
      → early_code (check_client w cfg p id client) ≡ none
  unfolding check_client
  check_client-early_code p id none = refl
  check_client-early_code p id (some client) = ground (
    arith,
    check_redirect-early_code p id client (asked_or (p "redirect_uri") (sole client.redirect_uris)),
  )

  module _ {S : Type 0} (store : CodeStore S) (now : ℕ) (code : String) (form : Form) where
    -- The drawn code was given, and stored for a minute with the request and its signer.
    pub record Granted (given : String) (s t : S) : Type 0 where
      pub client : ClientRecord
      pub uri : String
      pub asks : Asks form client uri
      pub signer : String
      pub signs : Signs now form (request form client uri) signer
      pub drawn : given ≡ code
      pub kept :
          t
          ≡ (store.put code
              (record {
                iss = cfg.issuer;
                client_id = or_empty (form "client_id");
                redirect_uri = uri;
                code_challenge = or_empty (form "code_challenge");
                scope = cfg.scope;
                sub = w.to_lower signer;
              })
              60
              s).1

    stored-kept :
        (a : AuthzRequest) (r : Called Unit × S) (given : String)
        → code_in (stored w cfg store a code r).0 ≡ some given
        → (given ≡ code) × ((stored w cfg store a code r).1 ≡ r.1)
    stored-kept a (returned u, t) given h = (sym (some-injective h), refl)
    stored-kept a (thrown, t) given h = elim (none≢some h) [ ]

    grant_code-Granted :
        (a : AuthzRequest) (s : S) (given : String)
        → accepted (check_authorize w cfg form) ≡ some a
        → code_in (grant_code w cfg store now code form (ok a) s).0 ≡ some given
        → Granted given s (grant_code w cfg store now code form (ok a) s).1
    unfolding grant_code
    grant_code-Granted a s given checked h =
        let (accepts, coded_now) =
          past_guard (λ (r : Response × S). code_in r.0) (refused w cfg now form a) _ _ given refl
            h in
        let (client, uri, asks, same) = check_authorize-accepted form a checked in
        let (signer, signs) = refused-Signs now form a accepts in
        let (drawn, kept) =
          stored-kept a (store.put code (grant_of w cfg form a) code_ttl_s s) given coded_now in
        record {
          client = client;
          uri = uri;
          asks = asks;
          signer = signer;
          signs = rw same signs;
          drawn = drawn;
          kept = rw accepts (
              kept
              ∙ ap (λ x. (store.put code (grant_of w cfg form x) 60 s).1) (sym same)
              ∙ ap
                  (λ sub.
                    (store.put code
                      (record (grant_of w cfg form (request form client uri)) { sub = sub }) 60
                      s).1)
                  (sym signs.own));
        }

    -- A code is given only to a registered client's request for one, to a URI of the client's and with a
    -- SHA-256 challenge, whose form is dated between ten minutes ago and a minute ahead and carries a
    -- signature of the message over that very request by the form's address. It is the drawn code, and
    -- the store was handed it for a minute, with the request and the signer's address in lower case.
    pub post_authorize-Granted :
        (s : S) (given : String)
        → code_in (post_authorize w cfg store now code (some form) s).0 ≡ some given
        → Granted given s (post_authorize w cfg store now code (some form) s).1
    unfolding post_authorize grant_code check_authorize
    post_authorize-Granted s given h = of_checked (check_authorize w cfg form) refl h
      where
        of_checked :
            (c : Checked)
            → check_authorize w cfg form ≡ c
            → code_in (grant_code w cfg store now code form c s).0 ≡ some given
            → Granted given s (grant_code w cfg store now code form c s).1
        of_checked (fail response) same k =
            elim (none≢some (
              sym (
                sym (ap early_code same)
                ∙ check_client-early_code form (or_empty (form "client_id"))
                    (read_client_id w cfg.secret (or_empty (form "client_id"))))
              ∙ k)) [ ]
        of_checked (ok a) same k = grant_code-Granted a s given (ap accepted same) k
