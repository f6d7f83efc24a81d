-- ===== src/Prelude/Strings.antt =====
-- The length of JavaScript's strings, and classes of characters in JavaScript's regular expressions.
use Prim.Native.Nat.{ℕ, ◌+◌}
use Prim.Native.String.{String, [] as end_of_text, ◌∷◌ as followed_by}
use Prim.Native.Char.{Char, code}
use mathlib.Core.Bool.{Bool, true, false, ◌&&◌, ◌||◌}
use mathlib.Core.List.{List, [], ◌∷◌}
use altscan.Prelude.Tests.{ltb, if◌then◌else◌, leb, ◌==◌}

-- `s.length` counts a character beyond the first plane twice.
unfoldable pub text_length : String → ℕ
text_length end_of_text = 0
text_length (followed_by c s) = text_length s + (if ltb (code c) 65_536 then 1 else 2)

abbrev pub within : ℕ → ℕ → Char → Bool
within low high c = leb low (code c) && leb (code c) high

-- `\d`
abbrev pub is_digit : Char → Bool
is_digit c = within b'0' b'9' c

-- The separate code points of `\s`; the others are the ranges of `is_space`.
abbrev pub lone_spaces : List ℕ
lone_spaces = 32 ∷ 160 ∷ 5_760 ∷ 8_232 ∷ 8_233 ∷ 8_239 ∷ 8_287 ∷ 12_288 ∷ 65_279 ∷ []

abbrev pub is_one_of : ℕ → List ℕ → Bool
is_one_of n [] = false
is_one_of n (m ∷ ms) = (n == m) || is_one_of n ms

abbrev pub is_space : Char → Bool
is_space c = is_one_of (code c) lone_spaces || within 9 13 c || within 8_192 8_202 c

abbrev pub is_empty : String → Bool
is_empty end_of_text = true
is_empty (followed_by c s) = false

-- `s.trim()`, at its start and at its end.
unfoldable pub trim_left : String → String
trim_left end_of_text = end_of_text
trim_left (followed_by c s) = let rest = trim_left s in if is_space c then rest else followed_by c s

unfoldable pub trim_right : String → String
trim_right end_of_text = end_of_text
trim_right (followed_by c s) =
    let rest = trim_right s in
    if is_empty rest && is_space c then end_of_text else followed_by c rest
