-- ===== src/OAuth/Sample.antt =====
-- A platform for the tests of packages/oauth: base64 in unary, one signature for every text, one kind
-- of claims and client, and a store that never fails.
use Prim.Native.String.{[] as end_of_text, ◌∷◌ as followed_by, ◌++◌ as joined}
use Prim.Native.Char.{code}
use altscan.Prelude.{
  none≢some, some-injective, ℕ, zero, suc, ◌≡◌, ◌⊎◌, refl, sym, ◌∙◌, inl, inr, Bool, true, false,
  ◌&&◌, List, [], ◌∷◌, Option, none, some, String, ◌==◌, ◌===◌, string_eq, if◌then◌else◌,
  Bool-cases, get, put, delete, get-put, get-delete, arith, ◌%◌, ◌-◌, ◌≤◌, text_length, ◌+◌,
}
use altscan.OAuth.{
  Json, array, object, fields, no_fields, Platform, Bytes, Url, AccessClaims, ClientRecord,
  CodeGrant, CodeStore, returned, OAuthConfig,
}
use altscan.OAuth.RoundTrip.{Documented, same_text}
use altscan.OAuth.Base64.{every, is_base64, equals, Encoded}
use altscan.OAuth.Layout.{claims_json, client_json}
use text.Mathlib.TextLemmas.{nil-append, cons-append}

unfoldable pub unary : ℕ → String → String
unary zero s = followed_by "b" s
unary (suc n) s = followed_by "a" (unary n s)

unfoldable pub encode : Bytes → String
unfolding unary
encode [] = ""
encode (n ∷ bytes) = unary n (encode bytes)

abbrev first_up : Option Bytes → Option Bytes
first_up (some (n ∷ bytes)) = some (suc n ∷ bytes)
first_up _ = none

abbrev zero_first : Option Bytes → Option Bytes
zero_first (some bytes) = some (0 ∷ bytes)
zero_first none = none

-- How many `=` fill a length up to a multiple of four.
abbrev pub missing_of : ℕ → ℕ
missing_of n = if n % 4 == 0 then 0 else 4 - n % 4

unfoldable pub to_base64 : Bytes → String
unfolding encode equals text_length
to_base64 bytes = joined (encode bytes) (equals (missing_of (text_length (encode bytes))))

unfoldable pub decode : String → Option Bytes
decode end_of_text = some []
decode (followed_by c s) =
    let rest = decode s in
    if code c == b'=' then rest else if code c == b'a' then first_up rest else zero_first rest

decode-equals : (n : ℕ) → decode (equals n) ≡ some []
unfolding decode equals
decode-equals zero = refl
decode-equals (suc n) = decode-equals n

decode-unary :
    (n : ℕ) (s pads : String) (bytes : Bytes)
    → decode (joined s pads) ≡ some bytes
    → decode (joined (unary n s) pads) ≡ some (n ∷ bytes)
unfolding decode unary
decode-unary zero s pads bytes h = rw (cons-append "b" s pads, h)
decode-unary (suc n) s pads bytes h =
    rw (cons-append "a" (unary n s) pads, decode-unary n s pads bytes h)

decode-encode :
    (bytes : Bytes) (pads : String)
    → decode pads ≡ some []
    → decode (joined (encode bytes) pads) ≡ some bytes
unfolding encode
decode-encode [] pads h = rw (nil-append pads) h
decode-encode (n ∷ bytes) pads h =
    decode-unary n (encode bytes) pads bytes (decode-encode bytes pads h)

every-unary : (n : ℕ) (s : String) → every is_base64 s ≡ true → every is_base64 (unary n s) ≡ true
unfolding every unary
every-unary zero s h = h
every-unary (suc n) s h = every-unary n s h

every-encode : (bytes : Bytes) → every is_base64 (encode bytes) ≡ true
unfolding encode every
every-encode [] = refl
every-encode (n ∷ bytes) = every-unary n (encode bytes) (every-encode bytes)

few : (n : ℕ) → missing_of n ≤ 3
few n = ground arith

fours : (n : ℕ) → (n + missing_of n) % 4 ≡ 0
fours n = ground arith

to_base64-Encoded : (bytes : Bytes) → Encoded (to_base64 bytes)
unfolding to_base64
to_base64-Encoded bytes = record {
  core = encode bytes;
  pads = missing_of (text_length (encode bytes));
  is_padded = refl;
  in_alphabet = every-encode bytes;
  few_pads = few (text_length (encode bytes));
  in_fours = fours (text_length (encode bytes));
}

decode-to_base64 : (bytes : Bytes) → decode (to_base64 bytes) ≡ some bytes
unfolding to_base64
decode-to_base64 bytes =
    decode-encode bytes (equals (missing_of (text_length (encode bytes)))) (decode-equals _)

abbrev times : ℕ → Bytes
times zero = []
times (suc n) = 0 ∷ times n

abbrev same_bytes : Bytes → Bytes → Bool
same_bytes [] [] = true
same_bytes (a ∷ u) (b ∷ v) = (a == b) && same_bytes u v
same_bytes _ _ = false

same_bytes_refl : (u : Bytes) → same_bytes u u ≡ true
same_bytes_refl [] = refl
same_bytes_refl (a ∷ u) = ground (arith, same_bytes_refl u)

same_bytes_only : (u v : Bytes) → same_bytes u v ≡ true → u ≡ v
same_bytes_only [] [] h = refl
same_bytes_only [] (b ∷ v) h = ground arith
same_bytes_only (a ∷ u) [] h = ground arith
same_bytes_only (a ∷ u) (b ∷ v) h = ground (arith, same_bytes_only u v)

abbrev pub sub : String
sub = "0x00000000000000000000000000000000000000aa"

abbrev pub cfg : OAuthConfig
cfg = record {
  issuer = "https://bnbscan.com";
  secret = "secret";
  scope = "api";
  scope_label = "the BNBScan API";
  chain_id = 56;
  has_client_credentials = false;
  client_credentials = λ id secret. none;
}

abbrev pub claims : AccessClaims
claims = record {
  iss = "https://bnbscan.com";
  aud = "https://bnbscan.com";
  sub = sub;
  client_id = "ac1.b";
  scope = "api";
  iat = 1_000;
  exp = 4_600;
  jti = "j";
}

abbrev pub client : ClientRecord
client = record { redirect_uris = "https://app/cb" ∷ []; client_name = none; iat = 900 }

abbrev app_url : Url
app_url = record {
  protocol = "https:";
  hostname = "app";
  host = "app";
  origin = "https://app";
  username = "";
  password = "";
}

-- JSON by its shape: an array is a client's, a long object a token's.
abbrev stringify : Json → Bytes
stringify (array vs) = 3 ∷ []
stringify (object (fields a v (fields b u no_fields))) = 1 ∷ []
stringify _ = 2 ∷ []

abbrev parse : Bytes → Option Json
parse (n ∷ []) = some (if n == 2 then claims_json claims else client_json client "r")
parse _ = none

abbrev pub platform : Platform
platform = record {
  btoa = to_base64;
  atob = decode;
  subtle_sign = λ secret purpose text. times 32;
  subtle_verify = λ secret purpose sig text. same_bytes sig (times 32);
  sha256 = λ text. 42 ∷ [];
  json_stringify = stringify;
  json_parse = parse;
  request_json = λ id uri challenge scope. id;
  new_url = λ text. some app_url;
  to_lower = λ text. text;
  date_parse = λ text. some 1_000_000;
  verify_message = λ message signature. some sub;
  decimal = λ n. "56";
}

pub platform-Documented : Documented platform
platform-Documented = record {
  btoa-Encoded = to_base64-Encoded;
  atob-btoa = decode-to_base64;
  sign_length = λ secret purpose text. refl;
  verify_sign = λ secret purpose text. same_bytes_refl (times 32);
  verify_only = λ secret purpose sig text h. same_bytes_only sig (times 32) h;
}

-- A store that never fails and never forgets.
abbrev pub Codes : Type 0
Codes = List (String × CodeGrant)

pub returned-injective : {A : Type 0} {a b : A} → returned a ≡ returned b → a ≡ b
returned-injective h = ground arith

pub spent : (code : String) (s : Codes) → get code (delete code s) ≡ none
spent code s = rw (get-delete code code s, same_text code)

pub still :
    (code other : String) (s : Codes) (g : CodeGrant)
    → get other (delete code s) ≡ some g
    → get other s ≡ some g
still code other s g h = kept (other === code) (sym (get-delete code other s) ∙ h)
  where
    kept : (b : Bool) → (if b then none else get other s) ≡ some g → get other s ≡ some g
    kept true e = elim (none≢some e) [ ]
    kept false e = e

pub found :
    (code other : String) (grant g : CodeGrant) (s : Codes)
    → get other (put code grant s) ≡ some g
    → ((other ≡ code) × (g ≡ grant)) ⊎ (get other s ≡ some g)
found code other grant g s h = elim (Bool-cases (code === other)) [
  | inl own ↦ inl (
    sym ((string_eq.beq_iff code other).0 own),
    sym (some-injective (rw own at (sym (get-put code other grant s) ∙ h))),
  )
  | inr another ↦ inr (rw another at (sym (get-put code other grant s) ∙ h))
]

abbrev pub codes : CodeStore Codes
codes = record {
  put = λ code g ttl s. (returned tt, put code g s);
  take = λ code s. (returned (get code s), delete code s);
  held = λ code s. get code s;
  elapse = λ ms s. s;
  take_returns = λ code s g h. (sym (returned-injective h), spent code s);
  take_keeps = λ code other s g h. still code other s g h;
  put_holds = λ code other grant g ttl s h. found code other grant g s h;
  elapse_keeps = λ ms other s g h. h;
}
