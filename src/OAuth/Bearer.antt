-- ===== src/OAuth/Bearer.antt =====
-- packages/oauth/src/server.ts: `verifyBearer`, from the Authorization header on.
use Prim.Native.Char.{Char, code}
use Prim.Native.String.{[] as end_of_text, ◌∷◌ as followed_by, ◌++◌ as joined}
use text.Mathlib.TextLemmas.{nil-append, cons-append}
use altscan.Prelude.{
  ℕ, ◌+◌, ◌/◌, ◌≡◌, refl, ap, ◌∙◌, Bool, true, false, not, ◌&&◌, ◌||◌, Option, none, some, String,
  ◌==◌, if◌then◌else◌, within, is_digit, is_space, is_empty, trim_left, trim_right, arith,
}
use altscan.OAuth.{Platform, AccessClaims, OAuthConfig}
use altscan.OAuth.Text.{is_letter, is_url_safe}
use altscan.OAuth.Base64.{every}
use altscan.OAuth.Tokens.{read_access_token}

pub data Bearer : Type 0 where
  no_bearer invalid : Bearer
  bearer : (sub client_id : String) → Bearer

abbrev pub lower_code : Char → ℕ
lower_code c = if within b'A' b'Z' c then code c + 32 else code c

-- What follows a prefix in lower case, whatever the case of its letters in the text.
unfoldable pub after_any_case : (prefix : String) → String → Option String
after_any_case end_of_text s = some s
after_any_case (followed_by p prefix) end_of_text = none
after_any_case (followed_by p prefix) (followed_by c s) =
    let rest = after_any_case prefix s in if code p == lower_code c then rest else none

-- `\b` after a letter.
abbrev pub at_boundary : String → Bool
at_boundary end_of_text = true
at_boundary (followed_by c s) = not (is_letter c || is_digit c || code c == b'_')

-- `[A-Za-z0-9._~+/-]`
abbrev pub is_token_char : Char → Bool
is_token_char c =
    is_url_safe c || code c == b'.' || code c == b'~' || code c == b'+' || code c == b'/'

unfoldable pub only_equals : String → Bool
only_equals end_of_text = true
only_equals (followed_by c s) = code c == b'=' && only_equals s

unfoldable pub token_rest : String → Bool
unfolding only_equals
token_rest end_of_text = true
token_rest (followed_by c s) =
    let rest = token_rest s in if is_token_char c then rest else only_equals (followed_by c s)

-- `[A-Za-z0-9._~+/-]+=*`, of a whole text.
unfoldable pub is_token68 : String → Bool
unfolding token_rest
is_token68 end_of_text = false
is_token68 (followed_by c s) = is_token_char c && token_rest s

module _ (w : Platform) (cfg : OAuthConfig) where
  abbrev pub bearer_of : Option AccessClaims → Bearer
  bearer_of none = invalid
  bearer_of (some c) = bearer c.sub c.client_id

  abbrev pub with_token : (now : ℕ) → Option String → Bearer
  with_token now none = invalid
  with_token now (some token_text) =
      if not (is_token68 token_text)
      then invalid
      else bearer_of (read_access_token w cfg.secret token_text cfg.issuer cfg.scope (now / 1_000))

  abbrev pub with_scheme : (now : ℕ) → (trimmed : String) → Option String → Bearer
  with_scheme now trimmed none = no_bearer
  with_scheme now trimmed (some rest) =
      if not (at_boundary rest)
      then no_bearer
      else with_token now (after_any_case "bearer " trimmed)

  abbrev pub with_header : (now : ℕ) (trimmed : String) → Bearer
  with_header now trimmed = with_scheme now trimmed (after_any_case "bearer" trimmed)

  -- `verifyBearer`
  unfoldable pub verify_bearer : (now : ℕ) (header : Option String) → Bearer
  unfolding after_any_case is_token68 trim_left trim_right
  verify_bearer now none = no_bearer
  verify_bearer now (some header) =
      if is_empty header then no_bearer else with_header now (trim_right (trim_left header))

both_parts : (a b : Bool) → (a && b) ≡ true → (a ≡ true) × (b ≡ true)
both_parts a b h = ground arith

token_rest-every : (s : String) → every is_token_char s ≡ true → token_rest s ≡ true
unfolding every token_rest
token_rest-every end_of_text h = refl
token_rest-every (followed_by c s) h =
    let (one, more) = both_parts (is_token_char c) (every is_token_char s) h in
    rw one (token_rest-every s more)

is_token68-every :
    (s : String) → is_empty s ≡ false → every is_token_char s ≡ true → is_token68 s ≡ true
unfolding every is_token68
is_token68-every end_of_text full h = ground arith
is_token68-every (followed_by c s) full h =
    let (one, more) = both_parts (is_token_char c) (every is_token_char s) h in
    rw (one, token_rest-every s more)

solid : (c : Char) → is_token_char c ≡ true → is_space c ≡ false
solid c h = ground (arith, h)

if_neither : (b : Bool) (t : String) → (if b && false then end_of_text else t) ≡ t
if_neither true t = refl
if_neither false t = refl

trim_right-every : (s : String) → every is_token_char s ≡ true → trim_right s ≡ s
unfolding every trim_right
trim_right-every end_of_text h = refl
trim_right-every (followed_by c s) h =
    let (one, more) = both_parts (is_token_char c) (every is_token_char s) h in
    rw (trim_right-every s more, solid c one) (if_neither (is_empty s) (followed_by c s))

-- "Bearer " before a text, character by character.
abbrev spelled : String → String
spelled t = followed_by "B" (
    followed_by "e"
      (followed_by "a" (followed_by "r" (followed_by "e" (followed_by "r" (followed_by " " t))))))

joined-spelled : (t : String) → joined "Bearer " t ≡ spelled t
joined-spelled t = rw (
  cons-append "B" "earer " t,
  cons-append "e" "arer " t,
  cons-append "a" "rer " t,
  cons-append "r" "er " t,
  cons-append "e" "r " t,
  cons-append "r" " " t,
  cons-append " " "" t,
  nil-append t,
)

module _ (w : Platform) (cfg : OAuthConfig) where
  -- A header of the scheme's name, a space and token characters.
  pub verify_bearer-every :
      (now : ℕ) (t : String)
      → is_empty t ≡ false
      → every is_token_char t ≡ true
      → verify_bearer w cfg now (some (joined "Bearer " t))
        ≡ bearer_of w cfg (read_access_token w cfg.secret t cfg.issuer cfg.scope (now / 1_000))
  unfolding verify_bearer trim_left trim_right after_any_case
  verify_bearer-every now t full plain =
      ap (λ h. verify_bearer w cfg now (some h)) (joined-spelled t)
      ∙ rw (trim_right-every t plain, full, is_token68-every t full plain)
