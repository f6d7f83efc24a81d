-- ===== src/Healer/WorkSet.antt =====
-- Which blocks the healer re-indexes.
use altscan.Prelude.{ℕ, ◌≡◌, Option, String}
use altscan.Db.{Db}
use altscan.Healer.{HealDeps}

module _ (deps : HealDeps) (reindex : ℕ → Db → Db × Option String) where
  -- The same tick with another way to re-index a block.
  abbrev pub with_reindex : HealDeps
  with_reindex = record deps { reindex_block = reindex }

  abbrev Same : ℕ → Type 0
  Same n = (d : Db) → reindex n d ≡ deps.reindex_block n d
