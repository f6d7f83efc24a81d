-- ===== src/Db/Heights.antt =====
-- What the statements of apps/indexer/src/gap-healer.ts and index.ts ask of a range of heights.
use native.Mathlib.Decide.{ℕ_discrete}
use altscan.Prelude.{
  ℕ, zero, suc, ◌+◌, ◌-◌, ◌≤◌, ◌<◌, ◌≡◌, max, Bool, false, not, ◌&&◌, List, [], ◌∷◌, Option, none,
  some, any_by, arith,
}
use altscan.Db.{Db, BlockRow, has_block, has_poison}

abbrev pub raised_to : ℕ → Option ℕ → ℕ
raised_to n none = n
raised_to n (some m) = max n m

-- `generate_series(lo, hi)`
abbrev pub count_up : (lo count : ℕ) → List ℕ
count_up lo zero = []
count_up lo (suc k) = lo ∷ count_up (suc lo) k

abbrev pub generate_series : (lo hi : ℕ) → List ℕ
generate_series lo hi = count_up lo (suc hi - lo)

-- No row of `blocks`, and none of `poison_blocks`.
unfoldable pub missing : Db → ℕ → Bool
missing db n = not (has_block n db.blocks) && not (has_poison n db.poison_blocks)

-- `MAX(number)` of the blocks.
abbrev pub newest : List BlockRow → Option ℕ
newest [] = none
newest (b ∷ bs) = some (raised_to b.number (newest bs))

-- A range in which no height passes the test.
pub none_in_range :
    (p : ℕ → Bool) (lo count n : ℕ)
    → any_by p (count_up lo count) ≡ false
    → lo ≤ n
    → n < lo + count
    → p n ≡ false
none_in_range p lo zero n e low high = absurd (omega arith)
none_in_range p lo (suc count) n e low high = elim (ℕ_discrete n lo) [
  | yes same ↦ rw same (ground arith)
  | no other ↦ none_in_range p (suc lo) count n (ground arith) (omega arith) (omega arith)
]
