-- ===== src/OAuth/Accepted.antt =====
-- packages/oauth/src/tokens.ts: what an access token that the server accepts must be.
use altscan.Prelude.{
  text_length, none≢some, some-injective, ℕ, ◌+◌, ◌≤◌, ◌<◌, ◌≡◌, refl, subst, Bool, true, false,
  not, ◌&&◌, List, [], ◌∷◌, Option, none, some, String, ltb, leb, ◌===◌, string_eq, if◌then◌else◌,
  has, arith, ap, ◌∙◌,
}
use altscan.OAuth.Layout.{◌>>=◌, partial_claims, as_partial}
use altscan.OAuth.{Json, Platform, AccessClaims, PartialClaims, max_token_length}
use altscan.OAuth.Text.{split_on, dotted, address}
use altscan.OAuth.Tokens.{
  hmac_sign, hmac_verify, header, check_claims, decode_json, read_parts, read_access_token,
}
use altscan.OAuth.RoundTrip.{Documented, hmac_verify-only}

bind_some :
    {A B : Type 0} (o : Option A) (f : A → Option B) {b : B}
    → (o >>= f) ≡ some b
    → (a : A) × (o ≡ some a) × (f a ≡ some b)
bind_some none f h = elim (none≢some h) [ ]
bind_some (some a) f h = (a, refl, h)

guard_some :
    {B : Type 0} (t : Bool) (o : Option B) {b : B}
    → (if t then none else o) ≡ some b
    → (t ≡ false) × (o ≡ some b)
guard_some true o h = elim (none≢some h) [ ]
guard_some false o h = (refl, h)

as_partial-eq :
    (p : PartialClaims) (c : AccessClaims)
    → p.iss ≡ some c.iss
    → p.aud ≡ some c.aud
    → p.sub ≡ some c.sub
    → p.client_id ≡ some c.client_id
    → p.scope ≡ some c.scope
    → p.iat ≡ some c.iat
    → p.exp ≡ some c.exp
    → p.jti ≡ some c.jti
    → p ≡ as_partial c
as_partial-eq p c iss aud sub client_id scope iat exp jti = λ i. record {
  iss = iss i;
  aud = aud i;
  sub = sub i;
  client_id = client_id i;
  scope = scope i;
  iat = iat i;
  exp = exp i;
  jti = jti i;
}

-- What the checks on the claims leave.
pub record Checks (issuer scope : String) (now : ℕ) (c : AccessClaims) : Type 0 where
  pub issuer_matches : (c.iss ≡ issuer) × (c.aud ≡ issuer)
  pub alive : (now < c.exp) × (c.iat ≤ now + 60)
  pub address_format : address c.sub ≡ true
  pub scope_granted : has scope (split_on b' ' c.scope) ≡ true

module _ (w : Platform) where
  check_claims-Checks :
      (issuer scope : String) (now : ℕ) (p : PartialClaims) (c : AccessClaims)
      → check_claims w issuer scope now p ≡ some c
      → Checks issuer scope now c × (p ≡ as_partial c)
  unfolding check_claims
  check_claims-Checks issuer scope now p c h =
      let (iss, e1, h1) = bind_some p.iss _ h in
      let (aud, e2, h2) = bind_some p.aud _ h1 in
      let (ours, h3) = guard_some (not (iss === issuer && aud === issuer)) _ h2 in
      let (exp, e3, h4) = bind_some p.exp _ h3 in
      let (fresh, h5) = guard_some (leb exp now) _ h4 in
      let (iat, e4, h6) = bind_some p.iat _ h5 in
      let (begun, h7) = guard_some (ltb (now + 60) iat) _ h6 in
      let (sub, e5, h8) = bind_some p.sub _ h7 in
      let (lower, h9) = guard_some (not (address sub)) _ h8 in
      let (client_id, e6, h10) = bind_some p.client_id _ h9 in
      let (jti, e7, h11) = bind_some p.jti _ h10 in
      let (granted, e8, h12) = bind_some p.scope _ h11 in
      let (held, h13) = guard_some (not (has scope (split_on b' ' granted))) _ h12 in
      let found : AccessClaims = record {
        iss = iss;
        aud = aud;
        sub = sub;
        client_id = client_id;
        scope = granted;
        iat = iat;
        exp = exp;
        jti = jti;
      } in
      let fields : p ≡ as_partial found = as_partial-eq p found e1 e2 e5 e6 e8 e4 e3 e7 in
      subst (λ x. Checks issuer scope now x × (p ≡ as_partial x)) (some-injective h13)
        (
          record {
            issuer_matches = (
              (string_eq.beq_iff iss issuer).0 (ground (arith, ours)),
              (string_eq.beq_iff aud issuer).0 (ground (arith, ours)),
            );
            alive = (ground (arith, fresh), ground (arith, begun));
            address_format = ground (arith, lower);
            scope_granted = ground (arith, held);
          },
          fields,
        )

  -- The three parts of an accepted token, whose body holds the claims.
  pub record Vouched (secret : String) (c : AccessClaims) (parts : List String) : Type 0 where
    pub body : String
    pub value : Json
    pub spelled :
        parts ≡ header w ∷ body ∷ hmac_sign w secret "access-token" (dotted (header w) body) ∷ []
    pub decoded : decode_json w body ≡ some value
    pub claimed : partial_claims value ≡ some (as_partial c)

  module _ (doc : Documented w) where
    read_parts-signed :
        (secret issuer scope : String) (now : ℕ) (parts : List String) (c : AccessClaims)
        → read_parts w secret issuer scope now parts ≡ some c
        → Checks issuer scope now c × Vouched secret c parts
    unfolding read_parts
    read_parts-signed secret issuer scope now (h ∷ body ∷ signature ∷ []) c e =
        let (headed, e1) = guard_some (not (h === header w)) _ e in
        let (verified, e2) =
          guard_some (not (hmac_verify w secret "access-token" (dotted h body) signature)) _ e1 in
        let (p, is_p, e3) = bind_some (decode_json w body >>= partial_claims) _ e2 in
        let (value, is_value, from_value) = bind_some (decode_json w body) partial_claims is_p in
        let (checked, same) = check_claims-Checks issuer scope now p c e3 in
        let is_header : h ≡ header w =
          (string_eq.beq_iff h (header w)).0 (ground (arith, headed)) in
        let is_signature =
          hmac_verify-only w doc secret "access-token" (dotted h body) signature
            (ground (arith, verified)) in
        (
          checked,
          record {
            body = body;
            value = value;
            spelled = rw (is_signature, is_header);
            decoded = is_value;
            claimed = from_value ∙ ap (λ q. some q) same;
          },
        )
    read_parts-signed secret issuer scope now [] c e = elim (none≢some e) [ ]
    read_parts-signed secret issuer scope now (a ∷ []) c e = elim (none≢some e) [ ]
    read_parts-signed secret issuer scope now (a ∷ b ∷ []) c e = elim (none≢some e) [ ]
    read_parts-signed secret issuer scope now (a ∷ b ∷ d ∷ f ∷ l) c e = elim (none≢some e) [ ]

    -- A token is accepted only if its three parts are the server's header, some body, and exactly the
    -- text that signing these two gives, so that a body has one accepted spelling; and only if the claims
    -- that the body decodes to are those of the answer, are for this issuer and scope, are dated no more
    -- than a minute ahead, have not expired, and name a lowercase address.
    pub read_access_token-signed :
        (secret token issuer scope : String) (now : ℕ) (c : AccessClaims)
        → read_access_token w secret token issuer scope now ≡ some c
        → Checks issuer scope now c × Vouched secret c (split_on b'.' token)
    unfolding read_access_token
    read_access_token-signed secret token issuer scope now c h =
        let (fits, e) = guard_some (ltb max_token_length (text_length token)) _ h in
        read_parts-signed secret issuer scope now (split_on b'.' token) c e
