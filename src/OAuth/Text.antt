-- ===== src/OAuth/Text.antt =====
-- packages/oauth/src/checks.ts and tokens.ts: what they use of JavaScript's strings: the UTF-16 length,
-- `split`, and the tests of their regular expressions.
use Prim.Native.Char.{Char, code}
use Prim.Native.String.{String, [] as end_of_text, ◌∷◌ as followed_by, ◌++◌ as joined}
use Prim.Native.Nat.{bit_or, bit_xor}
use text.Mathlib.TextLemmas.{nil-append, cons-append}
use altscan.Prelude.{
  ℕ, ◌+◌, ◌-◌, ◌≡◌, refl, ◌∙◌, Bool, true, false, not, ◌&&◌, ◌||◌, List, [], ◌∷◌, ltb, leb, ◌==◌,
  if◌then◌else◌, filter_by, ◌===◌, string_eq, arith, ap, Option, some, none, ◌/◌, ◌%◌, length,
  within, is_digit,
}

abbrev cons_first : Char → List String → List String
cons_first c [] = followed_by c end_of_text ∷ []
cons_first c (part ∷ parts) = followed_by c part ∷ parts

-- `s.split(separator)`, for a separator of one character.
unfoldable pub split_on : (separator : ℕ) → String → List String
split_on separator end_of_text = "" ∷ []
split_on separator (followed_by c s) =
    let rest = split_on separator s in if code c == separator then "" ∷ rest else cons_first c rest

-- `s.split(' ').filter(Boolean)`
abbrev pub words : String → List String
words s = filter_by (λ w. not (w === "")) (split_on b' ' s)

abbrev pub is_letter : Char → Bool
is_letter c = within b'a' b'z' c || within b'A' b'Z' c

abbrev pub is_url_safe : Char → Bool
is_url_safe c = is_letter c || is_digit c || code c == b'_' || code c == b'-'

abbrev is_unreserved : Char → Bool
is_unreserved c = is_url_safe c || code c == b'.' || code c == b'~'

abbrev is_lower_hex : Char → Bool
is_lower_hex c = is_digit c || within b'a' b'f' c

abbrev is_hex : Char → Bool
is_hex c = is_lower_hex c || within b'A' b'F' c

-- `^[class]{low,high}$`
unfoldable pub repeated : (Char → Bool) → (low high : ℕ) → String → Bool
repeated p low high end_of_text = leb low 0
repeated p low high (followed_by c s) = p c && leb 1 high && repeated p (low - 1) (high - 1) s

unfoldable pub after_0x : (String → Bool) → String → Bool
after_0x p (followed_by zero (followed_by x s)) = code zero == b'0' && code x == b'x' && p s
after_0x p _ = false

abbrev pub code_verifier : String → Bool
code_verifier s = repeated is_unreserved 43 128 s

abbrev pub code_challenge : String → Bool
code_challenge s = repeated is_url_safe 43 43 s

abbrev pub address : String → Bool
address s = after_0x (repeated is_lower_hex 40 40) s

abbrev pub any_address : String → Bool
any_address s = after_0x (repeated is_hex 40 40) s

abbrev pub hex_signature : String → Bool
hex_signature s = after_0x (repeated is_hex 130 130) s

abbrev pub nonce_format : String → Bool
nonce_format s = repeated is_url_safe 8 64 s

-- A text whose characters pass the tests one by one.
unfoldable matches : List (Char → Bool) → String → Bool
matches [] end_of_text = true
matches (p ∷ ps) (followed_by c s) = p c && matches ps s
matches _ _ = false

abbrev is_char : ℕ → Char → Bool
is_char n c = code c == n

-- `^\d{4}-\d{2}-\d{2}T\d{2}:\d{2}:\d{2}(\.\d{3})?Z$`
abbrev to_the_second : List (Char → Bool) → List (Char → Bool)
to_the_second rest =
    is_digit
    ∷ is_digit
    ∷ is_digit
    ∷ is_digit
    ∷ is_char b'-'
    ∷ is_digit
    ∷ is_digit
    ∷ is_char b'-'
    ∷ is_digit
    ∷ is_digit
    ∷ is_char b'T'
    ∷ is_digit
    ∷ is_digit
    ∷ is_char b':'
    ∷ is_digit
    ∷ is_digit
    ∷ is_char b':'
    ∷ is_digit
    ∷ is_digit
    ∷ rest

unfoldable pub issued_format : String → Bool
unfolding matches
issued_format s =
    matches (to_the_second (is_char b'Z' ∷ [])) s
    || matches (to_the_second (is_char b'.' ∷ is_digit ∷ is_digit ∷ is_digit ∷ is_char b'Z' ∷ [])) s

-- `${a}.${b}`
abbrev pub dotted : String → String → String
dotted a b = joined a (followed_by "." b)

-- A text without a dot.
unfoldable pub dotless : String → Bool
dotless end_of_text = true
dotless (followed_by c s) = not (code c == b'.') && dotless s

pub split_on-dotless : (a : String) → dotless a ≡ true → split_on b'.' a ≡ a ∷ []
unfolding split_on dotless
split_on-dotless end_of_text h = refl
split_on-dotless (followed_by c s) h =
    let plain : ((code c == b'.') ≡ false) × (dotless s ≡ true) = ground arith in
    rw (plain.0, split_on-dotless s plain.1)

pub split_on-dotted :
    (a b : String) → dotless a ≡ true → split_on b'.' (dotted a b) ≡ a ∷ split_on b'.' b
unfolding split_on dotless
split_on-dotted end_of_text b h = rw (nil-append (followed_by "." b))
split_on-dotted (followed_by c s) b h =
    let plain : ((code c == b'.') ≡ false) × (dotless s ≡ true) = ground arith in
    rw (cons-append c s (followed_by "." b), plain.0, split_on-dotted s b plain.1)

pub split_on-three :
    (a b c : String)
    → dotless a ≡ true
    → dotless b ≡ true
    → dotless c ≡ true
    → split_on b'.' (dotted a (dotted b c)) ≡ a ∷ b ∷ c ∷ []
split_on-three a b c ha hb hc =
    split_on-dotted a (dotted b c) ha
    ∙ ap (λ l. a ∷ l) (split_on-dotted b c hb ∙ ap (λ l. b ∷ l) (split_on-dotless c hc))

abbrev is_scheme_tail : Char → Bool
is_scheme_tail c =
    within b'a' b'z' c || is_digit c || code c == b'+' || code c == b'.' || code c == b'-'

-- `^[a-z0-9+.-]*:$`
unfoldable pub scheme_rest : String → Bool
scheme_rest end_of_text = false
scheme_rest (followed_by c end_of_text) = code c == b':'
scheme_rest (followed_by c (followed_by d s)) = is_scheme_tail c && scheme_rest (followed_by d s)

-- `^[a-z][a-z0-9+.-]*:$`
unfoldable pub private_scheme : String → Bool
private_scheme end_of_text = false
private_scheme (followed_by c s) = within b'a' b'z' c && scheme_rest s

unfoldable pub has_hash : String → Bool
has_hash end_of_text = false
has_hash (followed_by c s) = code c == b'#' || has_hash s

-- `s.slice(p.length)` where `s.startsWith(p)`.
unfoldable pub strip_prefix : (prefix : String) → String → Option String
strip_prefix end_of_text s = some s
strip_prefix (followed_by p prefix) end_of_text = none
strip_prefix (followed_by p prefix) (followed_by c s) =
    let rest = strip_prefix prefix s in if code p == code c then rest else none

-- The UTF-16 units of a text.
unfoldable pub code_units : String → List ℕ
code_units end_of_text = []
code_units (followed_by c s) =
    let rest = code_units s in
    if ltb (code c) 65_536
    then code c ∷ rest
    else ((code c - 65_536) / 1_024 + 55_296) ∷ ((code c - 65_536) % 1_024 + 56_320) ∷ rest

unfoldable pub differences : List ℕ → List ℕ → ℕ
differences (a ∷ us) (b ∷ vs) = bit_or (differences us vs) (bit_xor a b)
differences _ _ = 0

unfoldable pub constant_time_equal : String → String → Bool
constant_time_equal a b =
    let us = code_units a in
    let vs = code_units b in if length us == length vs then differences us vs == 0 else false
