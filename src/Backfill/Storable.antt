-- ===== src/Backfill/Storable.antt =====
-- apps/indexer/src/postgres-text.ts: what a sanitized text is.
use Prim.Native.String.{[] as end_of_text, ◌∷◌ as followed_by}
use altscan.Prelude.{
  ℕ, ◌+◌, ◌-◌, ◌≤◌, ◌≡◌, ◌≢◌, refl, sym, ◌∙◌, subst, inl, inr, Bool, true, false, not, ◌&&◌, Option,
  none, some, String, ◌===◌, string_eq, Bool-cases, if-both, text_length, is_space, arith,
  some-injective, false≢true, none≢some, leb, trim_left, trim_right, is_empty, ◌==◌,
}
use altscan.Backfill.Text.{
  unstorable, storable, slice, sliced, strip, units, sanitize_nullable_text,
}

-- No character of the text is one that PostgreSQL refuses.
unfoldable pub is_storable : String → Bool
is_storable end_of_text = true
is_storable (followed_by c s) = not (unstorable c) && is_storable s

abbrev pub Fits : Option ℕ → String → Type 0
Fits none s = Unit
Fits (some n) s = text_length s ≤ n

and_true : (a b : Bool) → a ≡ true → b ≡ true → (a && b) ≡ true
and_true a b h k = ground arith

parts : (a b : Bool) → (a && b) ≡ true → (a ≡ true) × (b ≡ true)
parts a b h = ground arith

not-false : (a : Bool) → a ≡ false → not a ≡ true
not-false a h = ground arith

add_back : (a u n : ℕ) → a ≤ n - u → leb u n ≡ true → a + u ≤ n
add_back a u n h fits = ground arith

is_storable-storable : (s : String) → is_storable (storable s) ≡ true
unfolding is_storable storable
is_storable-storable end_of_text = refl
is_storable-storable (followed_by c s) =
    if-both (λ t. is_storable t ≡ true) (unstorable c) (λ _. is_storable-storable s)
      (λ kept.
        and_true (not (unstorable c)) (is_storable (storable s)) (not-false (unstorable c) kept)
          (is_storable-storable s))

is_storable-trim_left : (s : String) → is_storable s ≡ true → is_storable (trim_left s) ≡ true
unfolding is_storable trim_left
is_storable-trim_left end_of_text h = refl
is_storable-trim_left (followed_by c s) h =
    if-both (λ t. is_storable t ≡ true) (is_space c)
      (λ _. is_storable-trim_left s (parts (not (unstorable c)) (is_storable s) h).1) (λ _. h)

is_storable-trim_right : (s : String) → is_storable s ≡ true → is_storable (trim_right s) ≡ true
unfolding is_storable trim_right
is_storable-trim_right end_of_text h = refl
is_storable-trim_right (followed_by c s) h =
    let (one, more) = parts (not (unstorable c)) (is_storable s) h in
    if-both (λ t. is_storable t ≡ true) (is_empty (trim_right s) && is_space c) (λ _. refl)
      (λ _.
        and_true (not (unstorable c)) (is_storable (trim_right s)) one
          (is_storable-trim_right s more))

is_storable-slice : (n : ℕ) (s : String) → is_storable s ≡ true → is_storable (slice n s) ≡ true
unfolding is_storable slice
is_storable-slice n end_of_text h = refl
is_storable-slice n (followed_by c s) h =
    let (one, more) = parts (not (unstorable c)) (is_storable s) h in
    if-both (λ t. is_storable t ≡ true) (leb (units c) n)
      (λ _.
        and_true (not (unstorable c)) (is_storable (slice (n - units c) s)) one
          (is_storable-slice (n - units c) s more))
      (λ _. if-both (λ t. is_storable t ≡ true) (n == 1) (λ _. refl) (λ _. refl))

text_length-slice-le : (n : ℕ) (s : String) → text_length (slice n s) ≤ n
unfolding text_length slice
text_length-slice-le n end_of_text = omega arith
text_length-slice-le n (followed_by c s) =
    if-both (λ t. text_length t ≤ n) (leb (units c) n)
      (λ fits.
        add_back (text_length (slice (n - units c) s)) (units c) n
          (text_length-slice-le (n - units c) s) fits)
      (λ _. if-both (λ t. text_length t ≤ n) (n == 1) (λ one. ground arith) (λ _. omega arith))

is_storable-sliced :
    (max_length : Option ℕ) (s : String)
    → is_storable s ≡ true
    → (is_storable (sliced max_length s) ≡ true) × Fits max_length (sliced max_length s)
is_storable-sliced none s h = (h, tt)
is_storable-sliced (some n) s h = (is_storable-slice n s h, text_length-slice-le n s)

strip-Fits :
    (value : String) (max_length : Option ℕ)
    → (is_storable (strip value max_length) ≡ true) × Fits max_length (strip value max_length)
unfolding strip
strip-Fits value max_length =
    is_storable-sliced max_length (trim_right (trim_left (storable value))) (
      is_storable-trim_right (trim_left (storable value))
        (is_storable-trim_left (storable value) (is_storable-storable value)))

-- Whatever a provider sends, what goes into a nullable column of text is a text that is not empty, has no
-- character that PostgreSQL refuses, and is no longer than the column. A surrogate pair that the cut
-- halves counts as the replacement character that UTF-8 gives for it.
pub sanitize_nullable_text-Fits :
    (value : Option String) (max_length : Option ℕ) (s : String)
    → sanitize_nullable_text value max_length ≡ some s
    → (is_storable s ≡ true) × (s ≢ "") × Fits max_length s
unfolding sanitize_nullable_text
sanitize_nullable_text-Fits none max_length s h = elim (none≢some h) [ ]
sanitize_nullable_text-Fits (some value) max_length s h =
    elim (Bool-cases (strip value max_length === "")) [
      | inl empty ↦ elim (none≢some (rw empty at h)) [ ]
      | inr full ↦
          let is_s : strip value max_length ≡ s = some-injective (rw full at h) in
          let (clean, fits) = strip-Fits value max_length in
          (
            subst (λ t. is_storable t ≡ true) is_s clean,
            λ e.
                false≢true
                  (sym full ∙ (string_eq.beq_iff (strip value max_length) "").1 (is_s ∙ e)),
            subst (Fits max_length) is_s fits,
          )
    ]
