-- ===== src/Db.antt =====
-- The tables of packages/db/schema.ts and apps/indexer/src/ensure-schema.ts that the indexer's
-- recovery code reads and writes, as lists of rows. A row of a table that is only deleted by its
-- block number keeps that number and a `key` that stands for its other columns. `index_gaps` and
-- `poison_blocks` have a primary key, by which the SQL statements find a row.
pub mod Upserts
pub mod Heights
use altscan.Prelude.{
  ℕ, suc, ◌+◌, ◌≤◌, max, Bool, true, false, not, List, [], ◌∷◌, Option, none, some, String, ltb,
  leb, ◌==◌, if◌then◌else◌, filter_by, any_by, map,
}

pub record BlockRow : Type 0 where
  pub number : ℕ
  pub hash : String
  pub tx_count : ℕ

pub record Row : Type 0 where
  pub block_number : ℕ
  pub key : ℕ

pub record IndexGap : Type 0 where
  pub from_block : ℕ
  pub to_block : ℕ
  pub reason : String
  pub healed_at : Option ℕ
  pub heal_cursor : Option ℕ
  pub heal_lease_owner : Option String
  pub heal_lease_until : Option ℕ

pub record PoisonBlock : Type 0 where
  pub block_number : ℕ
  pub failures : ℕ
  pub recorded_at : ℕ

pub record Db : Type 0 where
  pub blocks : List BlockRow
  pub transactions : List Row
  pub logs : List Row
  pub token_transfers : List Row
  pub dex_trades : List Row
  pub internal_transactions : List Row
  pub gas_history : List Row
  pub index_gaps : List IndexGap
  pub poison_blocks : List PoisonBlock

-- `SELECT 1 FROM blocks WHERE number = n`
unfoldable pub has_block : ℕ → List BlockRow → Bool
has_block n bs = any_by (λ b. b.number == n) bs

-- `SELECT 1 FROM poison_blocks WHERE block_number = n`
unfoldable pub has_poison : ℕ → List PoisonBlock → Bool
has_poison n ps = any_by (λ p. p.block_number == n) ps

pub find_gap : ℕ → List IndexGap → Option IndexGap
find_gap n [] = none
find_gap n (g ∷ gs) = if g.from_block == n then some g else find_gap n gs

-- The `ON CONFLICT (from_block) DO UPDATE` that both writers of `index_gaps` share.
abbrev pub merge_gap : ℕ → String → IndexGap → IndexGap
merge_gap to_block reason g = record g {
  to_block = max g.to_block to_block;
  reason = reason;
  healed_at = none;
  heal_cursor = elim g.healed_at [ some _ ↦ none | none ↦ g.heal_cursor ];
}

abbrev pub new_gap : ℕ → ℕ → String → IndexGap
new_gap from_block to_block reason = record {
  from_block = from_block;
  to_block = to_block;
  reason = reason;
  healed_at = none;
  heal_cursor = none;
  heal_lease_owner = none;
  heal_lease_until = none;
}

pub upsert_gap : ℕ → ℕ → String → List IndexGap → List IndexGap
upsert_gap from_block to_block reason [] = new_gap from_block to_block reason ∷ []
upsert_gap from_block to_block reason (g ∷ gs) =
    if g.from_block == from_block
    then merge_gap to_block reason g ∷ gs
    else g ∷ upsert_gap from_block to_block reason gs

pub upsert_poison : ℕ → ℕ → ℕ → List PoisonBlock → List PoisonBlock
upsert_poison n failures now [] =
    record { block_number = n; failures = failures; recorded_at = now } ∷ []
upsert_poison n failures now (p ∷ ps) =
    if p.block_number == n
    then record p { failures = failures; recorded_at = now } ∷ ps
    else p ∷ upsert_poison n failures now ps
