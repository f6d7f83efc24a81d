-- ===== src/Db/Upserts.antt =====
-- The two upserts, row by row.
use altscan.Prelude.{
  ℕ, ◌≡◌, refl, ◌||◌, List, [], ◌∷◌, Option, none, some, String, arith, ◌==◌, if◌then◌else◌,
}
use altscan.Db.{
  IndexGap, PoisonBlock, find_gap, has_poison, merge_gap, new_gap, upsert_gap, upsert_poison,
}

-- What the row with the key becomes.
abbrev pub merged : ℕ → ℕ → String → Option IndexGap → IndexGap
merged from_block to_block reason none = new_gap from_block to_block reason
merged from_block to_block reason (some g) = merge_gap to_block reason g

pub find_gap-upsert_gap :
    (n from_block to_block : ℕ) (reason : String) (gs : List IndexGap)
    → find_gap n (upsert_gap from_block to_block reason gs) ≡ (
        if from_block == n
        then some (merged from_block to_block reason (find_gap from_block gs))
        else find_gap n gs)
unfolding find_gap upsert_gap
find_gap-upsert_gap n from_block to_block reason [] = refl
find_gap-upsert_gap n from_block to_block reason (g ∷ gs) =
    ground (arith, find_gap-upsert_gap n from_block to_block reason gs)

pub has_poison-upsert_poison :
    (n b failures now : ℕ) (ps : List PoisonBlock)
    → has_poison n (upsert_poison b failures now ps) ≡ ((b == n) || has_poison n ps)
unfolding has_poison upsert_poison
has_poison-upsert_poison n b failures now [] = ground arith
has_poison-upsert_poison n b failures now (p ∷ ps) =
    ground (arith, has_poison-upsert_poison n b failures now ps)

pub find_gap-key :
    (n : ℕ) (gs : List IndexGap) (g : IndexGap) → find_gap n gs ≡ some g → g.from_block ≡ n
unfolding find_gap
find_gap-key n [] g e = ground arith
find_gap-key n (h ∷ gs) g e = ground (arith, find_gap-key n gs g)
