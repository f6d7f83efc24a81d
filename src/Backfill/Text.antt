-- ===== src/Backfill/Text.antt =====
-- apps/indexer/src/postgres-text.ts: text as PostgreSQL can store it.
use Prim.Native.Char.{Char, char, code}
use Prim.Native.String.{[] as end_of_text, ◌∷◌ as followed_by}
use altscan.Prelude.{
  ℕ, ◌-◌, Bool, ◌&&◌, ◌||◌, Option, none, some, String, leb, ltb, ◌==◌, ◌===◌, string_eq,
  if◌then◌else◌, trim_left, trim_right,
}

-- The class `UNSTORABLE`: control characters but for tab, line feed and carriage return.
abbrev pub unstorable : Char → Bool
unstorable c =
    leb (code c) 8
    || code c == 11
    || code c == 12
    || (leb 14 (code c) && leb (code c) 31)
    || code c == 127

unfoldable pub storable : String → String
storable end_of_text = end_of_text
storable (followed_by c s) =
    let rest = storable s in if unstorable c then rest else followed_by c rest

abbrev pub units : Char → ℕ
units c = if ltb (code c) 65_536 then 1 else 2

-- U+FFFD, which stands for half a surrogate pair: UTF-8 has no other way to write it, and it is one unit.
abbrev pub replacement : Char
replacement = char 65_533 tt

-- `slice(0, n)`, in UTF-16 units, as the column receives it: a pair may be cut in half.
unfoldable pub slice : ℕ → String → String
slice n end_of_text = end_of_text
slice n (followed_by c s) =
    let rest = slice (n - units c) s in
    if leb (units c) n
    then followed_by c rest
    else if n == 1
    then followed_by replacement end_of_text
    else end_of_text

abbrev pub sliced : Option ℕ → String → String
sliced none s = s
sliced (some n) s = slice n s

-- `strip` of text.
unfoldable pub strip : String → Option ℕ → String
unfolding storable trim_left trim_right slice
strip value max_length = sliced max_length (trim_right (trim_left (storable value)))

unfoldable pub sanitize_token_metadata : (value fallback : String) (max_length : ℕ) → String
unfolding strip
sanitize_token_metadata value fallback max_length =
    let sanitized = strip value (some max_length) in
    if sanitized === "" then fallback else sanitized

unfoldable pub sanitize_nullable_text : Option String → (max_length : Option ℕ) → Option String
unfolding strip
sanitize_nullable_text none max_length = none
sanitize_nullable_text (some value) max_length =
    let sanitized = strip value max_length in if sanitized === "" then none else some sanitized
