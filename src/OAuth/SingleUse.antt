-- ===== src/OAuth/SingleUse.antt =====
-- packages/oauth/src/server.ts: the exchanges of a code over a sequence of requests and sign-ins.
use altscan.OAuth.Earned.{is_token, code_grant-Earned}
use altscan.Prelude.{
  text_length, false≢true, none≢some, all_three, ℕ, ◌+◌, ◌≤◌, ◌≡◌, ◌≢◌, ◌⊎◌, refl, sym, ap, ◌∙◌,
  inl, inr, Bool, true, false, not, ◌&&◌, ◌||◌, List, [], ◌∷◌, Option, none, some, String, ltb,
  ◌===◌, string_eq, if◌then◌else◌, Bool-cases, Option-cases, All, arith, if-both,
}
use altscan.OAuth.{
  Platform, CodeGrant, CodeStore, Called, returned, thrown, OAuthConfig, Form, Response, or_empty,
  preflight, AuthzRequest, code_ttl_s,
}
use altscan.OAuth.Tokens.{read_client_id}
use altscan.OAuth.Authorize.{
  post_authorize, grant_code, check_authorize, Checked, ok, fail, refused, grant_of, stored,
}
use altscan.OAuth.Exchange.{Credentials, code_grant, post_token, is_known, is_grant}

module _ (w : Platform) (cfg : OAuthConfig) where
  module _ {S : Type 0} (store : CodeStore S) where
    -- What happens at the server and its store: a token request, a sign-in, or time.
    pub data Event : Type 0 where
      token_request : (now : ℕ) (jti : String) (basic : Option Credentials) (p : Form) → Event
      sign_in : (now : ℕ) (code : String) (form : Option Form) → Event
      wait : (ms : ℕ) → Event

    unfoldable pub after : Event → S → Response × S
    after (token_request now jti basic p) s = post_token w cfg store now jti basic (some p) s
    after (sign_in now code form) s = post_authorize w cfg store now code form s
    after (wait ms) s = (preflight, store.elapse ms s)

    -- A token answer to an exchange of a code.
    abbrev pub exchanges : (code : String) → Event → Response → Bool
    exchanges code (token_request now jti basic p) answer =
        is_grant w cfg store "authorization_code" (p "grant_type")
        && (or_empty (p "code") === code)
        && is_token answer
    exchanges code _ answer = false

    unfoldable pub exchanged : (code : String) → List Event → S → ℕ
    unfolding after
    exchanged code [] s = 0
    exchanged code (event ∷ events) s =
        let more = exchanged code events (after event s).1 in
        if exchanges code event (after event s).0 then more + 1 else more

    -- Later sign-ins draw other codes.
    abbrev pub OtherCode : (code : String) → Event → Type 0
    OtherCode code (sign_in now drawn form) = drawn ≢ code
    OtherCode code _ = Unit

    -- Whatever is held afterwards was held before.
    no_gain :
        (code : String) (s t : S)
        → ((g : CodeGrant) → store.held code t ≡ some g → store.held code s ≡ some g)
        → store.held code s ≡ none
        → store.held code t ≡ none
    no_gain code s t keeps empty = elim (Option-cases (store.held code t)) [
      | inl nothing ↦ nothing
      | inr (g, there) ↦ elim (none≢some (sym empty ∙ keeps g there)) [ ]
    ]

    Keeps : (code : String) → S → Response × S → Type 0
    Keeps code s r = (g : CodeGrant) → store.held code r.1 ≡ some g → store.held code s ≡ some g

    code_grant-Keeps :
        (code : String) (now : ℕ) (jti : String) (p : Form) (s : S)
        → Keeps code s (code_grant w cfg store now jti p s)
    unfolding code_grant Keeps
    code_grant-Keeps code now jti p s =
        let given = or_empty (p "code") in
        if-both (Keeps code s) (given === "" || ltb 128 (text_length given)) (λ _ g h. h)
          (λ _.
            if-both (Keeps code s)
              (not (is_known w cfg (read_client_id w cfg.secret (or_empty (p "client_id")))))
              (λ _ g h. h) (λ _. store.take_keeps given code s))

    post_token-Keeps :
        (code : String) (now : ℕ) (jti : String) (basic : Option Credentials) (p : Form) (s : S)
        → Keeps code s (post_token w cfg store now jti basic (some p) s)
    unfolding post_token Keeps
    post_token-Keeps code now jti basic p s =
        if-both (Keeps code s) (is_grant w cfg store "authorization_code" (p "grant_type"))
          (λ _. code_grant-Keeps code now jti p s)
          (λ _.
            if-both (Keeps code s)
              (is_grant w cfg store "client_credentials" (p "grant_type")
                && cfg.has_client_credentials)
              (λ _ g h. h) (λ _ g h. h))

    stored-Keeps :
        (code drawn : String) (a : AuthzRequest) (grant : CodeGrant) (s : S) (r : Called Unit × S)
        → drawn ≢ code
        → r ≡ store.put drawn grant code_ttl_s s
        → Keeps code s (stored w cfg store a drawn r)
    unfolding Keeps
    stored-Keeps code drawn a grant s (returned u, t) other same g h = later (
        store.put_holds drawn code grant g code_ttl_s s
          (ap (λ r. store.held code r.1) (sym same) ∙ h))
      where
        later :
            ((code ≡ drawn) × (g ≡ grant)) ⊎ (store.held code s ≡ some g)
            → store.held code s ≡ some g
        later (inl (own, _)) = elim (other (sym own)) [ ]
        later (inr before) = before
    stored-Keeps code drawn a grant s (thrown, t) other same g h = later (
        store.put_holds drawn code grant g code_ttl_s s
          (ap (λ r. store.held code r.1) (sym same) ∙ h))
      where
        later :
            ((code ≡ drawn) × (g ≡ grant)) ⊎ (store.held code s ≡ some g)
            → store.held code s ≡ some g
        later (inl (own, _)) = elim (other (sym own)) [ ]
        later (inr before) = before

    grant_code-Keeps :
        (code : String) (now : ℕ) (drawn : String) (form : Form) (c : Checked) (s : S)
        → drawn ≢ code
        → Keeps code s (grant_code w cfg store now drawn form c s)
    unfolding grant_code Keeps
    grant_code-Keeps code now drawn form (fail response) s other = λ g h. h
    grant_code-Keeps code now drawn form (ok a) s other =
        if-both (Keeps code s) (refused w cfg now form a) (λ _ g h. h)
          (λ _. stored-Keeps code drawn a (grant_of w cfg form a) s _ other refl)

    sign_in-Keeps :
        (code : String) (now : ℕ) (drawn : String) (form : Option Form) (s : S)
        → drawn ≢ code
        → Keeps code s (post_authorize w cfg store now drawn form s)
    unfolding post_authorize Keeps
    sign_in-Keeps code now drawn none s other = λ g h. h
    sign_in-Keeps code now drawn (some form) s other =
        grant_code-Keeps code now drawn form (check_authorize w cfg form) s other

    after-held :
        (code : String) (event : Event) (s : S)
        → OtherCode code event
        → store.held code s ≡ none
        → store.held code (after event s).1 ≡ none
    unfolding after Keeps
    after-held code (token_request now jti basic p) s other empty =
        no_gain code s _ (post_token-Keeps code now jti basic p s) empty
    after-held code (sign_in now drawn form) s other empty =
        no_gain code s _ (sign_in-Keeps code now drawn form s other) empty
    after-held code (wait ms) s other empty =
        no_gain code s (store.elapse ms s) (store.elapse_keeps ms code s) empty

    -- A token answer to an exchange takes a code that is held, and leaves it spent.
    exchanges-held :
        (code : String) (event : Event) (s : S)
        → exchanges code event (after event s).0 ≡ true
        → (store.held code s ≢ none) × (store.held code (after event s).1 ≡ none)
    unfolding after post_token
    exchanges-held code (token_request now jti basic p) s h =
        let parts =
          all_three (is_grant w cfg store "authorization_code" (p "grant_type"))
            (or_empty (p "code") === code)
            (is_token (post_token w cfg store now jti basic (some p) s).0) h in
        let own : or_empty (p "code") ≡ code =
          (string_eq.beq_iff (or_empty (p "code")) code).0 parts.1 in
        let (g, there, earned, spent) =
          code_grant-Earned w cfg store now jti p s (by_grant parts.0 parts.2) in
        rw parts.0 (
          λ empty. none≢some (sym empty ∙ ap (λ c. store.held c s) (sym own) ∙ there),
          ap (λ c. store.held c (code_grant w cfg store now jti p s).1) (sym own) ∙ spent,
        )
      where
        by_grant :
            is_grant w cfg store "authorization_code" (p "grant_type") ≡ true
            → is_token (post_token w cfg store now jti basic (some p) s).0 ≡ true
            → is_token (code_grant w cfg store now jti p s).0 ≡ true
        by_grant exchange yields = rw exchange at yields
    exchanges-held code (sign_in now drawn form) s h = elim (false≢true h) [ ]
    exchanges-held code (wait ms) s h = elim (false≢true h) [ ]

    exchanged-spent :
        (code : String) (events : List Event) (s : S)
        → All (OtherCode code) events
        → store.held code s ≡ none
        → exchanged code events s ≡ 0
    unfolding exchanged
    exchanged-spent code [] s all empty = refl
    exchanged-spent code (event ∷ events) s (other, all) empty =
        elim (Bool-cases (exchanges code event (after event s).0)) [
          | inl yields ↦ elim ((exchanges-held code event s yields).0 empty) [ ]
          | inr not_yet ↦ rw not_yet (
              exchanged-spent code events (after event s).1 all
                (after-held code event s other empty))
        ]

    -- A code is worth one token at most: over any sequence of token requests, sign-ins and waits in
    -- which sign-ins draw other codes, the exchanges of the code that are answered with a token
    -- number at most one, whatever the store's failures.
    pub exchanged-once :
        (code : String) (events : List Event) (s : S)
        → All (OtherCode code) events
        → exchanged code events s ≤ 1
    unfolding exchanged
    exchanged-once code [] s all = omega arith
    exchanged-once code (event ∷ events) s (other, all) =
        elim (Bool-cases (exchanges code event (after event s).0)) [
          | inl yields ↦ rw yields (
              omega (
                arith,
                exchanged-spent code events (after event s).1 all
                    (exchanges-held code event s yields).1,
              ))
          | inr not_yet ↦ rw not_yet (exchanged-once code events (after event s).1 all)
        ]
