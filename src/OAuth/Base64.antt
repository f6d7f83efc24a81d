-- ===== src/OAuth/Base64.antt =====
-- packages/oauth/src/crypto.ts: base64url, by the platform's `btoa` and `atob`, and the hash of a text in it.
use Prim.Native.Char.{Char, code}
use Prim.Native.String.{[] as end_of_text, ◌∷◌ as followed_by, ◌++◌ as joined}
use text.Mathlib.TextEquality.{Char-path}
use text.Mathlib.TextLemmas.{nil-append, cons-append}
use altscan.Prelude.{
  ℕ, zero, suc, ◌+◌, ◌%◌, ◌≤◌, ◌≡◌, refl, sym, ap, ◌∙◌, Bool, true, false, not, ◌&&◌, ◌||◌, Option,
  none, String, ltb, ◌==◌, ◌===◌, string_eq, if◌then◌else◌, if-both, text_length, is_digit, arith,
  ==_iff,
}
use altscan.OAuth.{Platform, Bytes}
use altscan.OAuth.Text.{is_letter, is_url_safe, dotless}

unfoldable pub every : (Char → Bool) → String → Bool
every p end_of_text = true
every p (followed_by c s) = p c && every p s

unfoldable pub mapped : (Char → Char) → String → String
mapped f end_of_text = end_of_text
mapped f (followed_by c s) = followed_by (f c) (mapped f s)

-- `replace(/\+/g, '-').replace(/\//g, '_')`, and back.
abbrev pub to_url : Char → Char
to_url c = if code c == b'+' then "-" else if code c == b'/' then "_" else c

abbrev pub to_base : Char → Char
to_base c = if code c == b'-' then "+" else if code c == b'_' then "/" else c

-- `replace(/=+$/, '')`
unfoldable pub drop_equals : String → String
drop_equals end_of_text = end_of_text
drop_equals (followed_by c s) =
    let rest = drop_equals s in
    if rest === "" && code c == b'=' then end_of_text else followed_by c rest

-- `'==='.slice(n)`
abbrev pub slice_equals : ℕ → String
slice_equals n = if n == 0 then "===" else if n == 1 then "==" else if n == 2 then "=" else ""

abbrev pub is_base64 : Char → Bool
is_base64 c = is_letter c || is_digit c || code c == b'+' || code c == b'/'

unfoldable pub equals : ℕ → String
equals zero = end_of_text
equals (suc n) = followed_by "=" (equals n)

-- What `btoa` gives: characters of base64, filled up with `=` to a multiple of four.
pub record Encoded (text : String) : Type 0 where
  pub core : String
  pub pads : ℕ
  pub is_padded : text ≡ joined core (equals pads)
  pub in_alphabet : every is_base64 core ≡ true
  pub few_pads : pads ≤ 3
  pub in_fours : (text_length core + pads) % 4 ≡ 0

module _ (w : Platform) where
  -- `b64url`
  unfoldable pub b64url : Bytes → String
  unfolding mapped drop_equals
  b64url bytes = drop_equals (mapped to_url (w.btoa bytes))

  -- `b64urlDecode`
  unfoldable pub b64url_decode : String → Option Bytes
  unfolding every mapped
  b64url_decode s =
      if not (every is_url_safe s)
      then none
      else w.atob (joined (mapped to_base s) (slice_equals ((text_length s + 3) % 4)))

  unfoldable pub sha256_b64url : String → String
  sha256_b64url s = b64url (w.sha256 s)

dropped-equals : (n : ℕ) → drop_equals (mapped to_url (equals n)) ≡ ""
unfolding drop_equals mapped equals
dropped-equals zero = refl
dropped-equals (suc n) = rw (dropped-equals n)

-- A character of base64 by its three cases.
not_equals : (c : Char) → is_base64 c ≡ true → (code (to_url c) == b'=') ≡ false
not_equals c h =
    if-both (λ (d : Char). (code d == b'=') ≡ false) (code c == b'+') (λ _. refl)
      (λ _.
        if-both (λ (d : Char). (code d == b'=') ≡ false) (code c == b'/') (λ _. refl)
          (λ _. ground (arith, h)))

url_safe : (c : Char) → is_base64 c ≡ true → is_url_safe (to_url c) ≡ true
url_safe c h =
    if-both (λ d. is_url_safe d ≡ true) (code c == b'+') (λ _. refl)
      (λ no_plus.
        if-both (λ d. is_url_safe d ≡ true) (code c == b'/') (λ _. refl)
          (λ no_slash. ground (arith, h, no_plus, no_slash)))

and_back : (c : Char) → is_base64 c ≡ true → to_base (to_url c) ≡ c
and_back c h =
    if-both (λ d. to_base d ≡ c) (code c == b'+')
      (λ plus. Char-path "+" c (sym ((==_iff (code c) b'+').0 plus)))
      (λ no_plus.
        if-both (λ d. to_base d ≡ c) (code c == b'/')
          (λ slash. Char-path "/" c (sym ((==_iff (code c) b'/').0 slash)))
          (λ no_slash.
            let no_dash : (code c == b'-') ≡ false = ground (arith, h) in
            let no_line : (code c == b'_') ≡ false = ground (arith, h) in rw (no_dash, no_line)))

pub dotless-url_safe : (s : String) → every is_url_safe s ≡ true → dotless s ≡ true
unfolding every dotless
dotless-url_safe end_of_text h = refl
dotless-url_safe (followed_by c s) h = ground (arith, dotless-url_safe s)

narrow : (c : Char) → is_base64 c ≡ true → ltb (code (to_url c)) 65_536 ≡ true
narrow c h =
    if-both (λ (d : Char). ltb (code d) 65_536 ≡ true) (code c == b'+') (λ _. refl)
      (λ _.
        if-both (λ (d : Char). ltb (code d) 65_536 ≡ true) (code c == b'/') (λ _. refl)
          (λ _. ground (arith, h)))

both_parts : (a b : Bool) → (a && b) ≡ true → (a ≡ true) × (b ≡ true)
both_parts a b h = ground arith

-- What `b64url` makes of an encoded text, and its way back.
drop_equals-encoded :
    (core : String) (pads : ℕ)
    → every is_base64 core ≡ true
    → drop_equals (mapped to_url (joined core (equals pads))) ≡ mapped to_url core
unfolding every mapped drop_equals
drop_equals-encoded end_of_text pads h =
    ap (λ t. drop_equals (mapped to_url t)) (nil-append (equals pads)) ∙ dropped-equals pads
drop_equals-encoded (followed_by c s) pads h =
    let (one, more) = both_parts (is_base64 c) (every is_base64 s) h in
    ap (λ t. drop_equals (mapped to_url t)) (cons-append c s (equals pads))
    ∙ rw (drop_equals-encoded s pads more, not_equals c one)
        (kept (mapped to_url s === "") (to_url c) (mapped to_url s))
  where
    kept :
        (b : Bool) (d : Char) (t : String)
        → (if b && false then end_of_text else followed_by d t) ≡ followed_by d t
    kept true d t = refl
    kept false d t = refl

every-mapped :
    (core : String) → every is_base64 core ≡ true → every is_url_safe (mapped to_url core) ≡ true
unfolding every mapped
every-mapped end_of_text h = refl
every-mapped (followed_by c s) h =
    let (one, more) = both_parts (is_base64 c) (every is_base64 s) h in
    rw (url_safe c one) (every-mapped s more)

mapped-mapped :
    (core : String) → every is_base64 core ≡ true → mapped to_base (mapped to_url core) ≡ core
unfolding every mapped
mapped-mapped end_of_text h = refl
mapped-mapped (followed_by c s) h =
    let (one, more) = both_parts (is_base64 c) (every is_base64 s) h in
    rw (and_back c one, mapped-mapped s more)

text_length-mapped :
    (core : String)
    → every is_base64 core ≡ true
    → text_length (mapped to_url core) ≡ text_length core
unfolding every mapped text_length
text_length-mapped end_of_text h = refl
text_length-mapped (followed_by c s) h =
    let (one, more) = both_parts (is_base64 c) (every is_base64 s) h in
    let plain : ltb (code c) 65_536 ≡ true = ground (arith, one) in
    rw (narrow c one, plain, text_length-mapped s more)

slice_equals-pads :
    (n pads : ℕ) → pads ≤ 3 → (n + pads) % 4 ≡ 0 → slice_equals ((n + 3) % 4) ≡ equals pads
unfolding equals
slice_equals-pads n zero few fours = let r : (n + 3) % 4 ≡ 3 = omega (arith, fours) in rw r
slice_equals-pads n (suc zero) few fours = let r : (n + 3) % 4 ≡ 2 = omega (arith, fours) in rw r
slice_equals-pads n (suc (suc zero)) few fours =
    let r : (n + 3) % 4 ≡ 1 = omega (arith, fours) in rw r
slice_equals-pads n (suc (suc (suc zero))) few fours =
    let r : (n + 3) % 4 ≡ 0 = omega (arith, fours) in rw r
slice_equals-pads n (suc (suc (suc (suc m)))) few fours = absurd (omega (arith, few))

module _ (w : Platform) (bytes : Bytes) (e : Encoded (w.btoa bytes)) where
  b64url-encoded : b64url w bytes ≡ mapped to_url e.core
  unfolding b64url
  b64url-encoded =
      ap (λ t. drop_equals (mapped to_url t)) e.is_padded
      ∙ drop_equals-encoded e.core e.pads e.in_alphabet

  pub every-b64url : every is_url_safe (b64url w bytes) ≡ true
  every-b64url = ap (every is_url_safe) b64url-encoded ∙ every-mapped e.core e.in_alphabet

  pub b64url_decode-b64url : b64url_decode w (b64url w bytes) ≡ w.atob (w.btoa bytes)
  unfolding b64url_decode
  b64url_decode-b64url =
      rw
        (
          b64url-encoded,
          every-mapped e.core e.in_alphabet,
          mapped-mapped e.core e.in_alphabet,
          text_length-mapped e.core e.in_alphabet,
          slice_equals-pads (text_length e.core) e.pads e.few_pads e.in_fours,
        )
        (ap w.atob (sym e.is_padded))
