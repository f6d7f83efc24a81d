-- ===== src/Gaps.antt =====
-- apps/indexer/src/index-gaps.ts: the record of abandoned ranges and of quarantined blocks, and the
-- plan of the bulk skip. Each statement runs against the database as a whole or not at all; `driver`
-- is what `db.execute` hands back for a number of returned rows, and `unreachable` stands for a
-- statement that throws. `none` is a number that is not finite.
pub mod Skip
pub mod Records
mod Tests
use altscan.Prelude.{
  ℕ, suc, ◌+◌, ◌-◌, Bool, true, false, not, List, [], ◌∷◌, Option, none, some, String, ltb, leb,
  ◌==◌, if◌then◌else◌,
}
use altscan.Db.{Db, has_block, has_poison, upsert_gap, upsert_poison}

-- The result of an awaited call: a value, or a rejection.
pub data Reply {ℓ} (A : Type ℓ) : Type ℓ where
  replied : A → Reply A
  rejected : Reply A

pub data DriverResult : Type 0 where
  array : (rows : ℕ) → DriverResult
  row_list : (rows : ℕ) → DriverResult
  unrecognised : DriverResult
  unreachable : DriverResult

-- `rowCount`
unfoldable pub row_count : DriverResult → Reply ℕ
row_count (array rows) = replied rows
row_count (row_list rows) = replied rows
row_count unrecognised = rejected
row_count unreachable = rejected

abbrev pub any_rows : Reply ℕ → Reply Bool
any_rows (replied n) = replied (ltb 0 n)
any_rows rejected = rejected

abbrev pub reaches : DriverResult → Bool
reaches unreachable = false
reaches _ = true

-- The one statement of `recordPoisonGapIfAbsent`, with the number of rows that it returns.
abbrev pub poison_statement : Db → ℕ → ℕ → String → ℕ → Db × ℕ
poison_statement db now block reason failures = if has_block block db.blocks then (db, 0) else (
  record db {
    index_gaps = upsert_gap block block reason db.index_gaps;
    poison_blocks = upsert_poison block failures now db.poison_blocks;
  },
  1,
)

unfoldable pub record_poison_gap_if_absent :
    (driver : ℕ → DriverResult)
    → Db
    → (now : ℕ) → (block : Option ℕ) → String
    → (failures : Option ℕ) → Db × Reply Bool
unfolding row_count
record_poison_gap_if_absent driver db now none reason failures = (db, replied false)
record_poison_gap_if_absent driver db now (some block) reason none = (db, replied false)
record_poison_gap_if_absent driver db now (some block) reason (some failures) =
    let (after, rows) = poison_statement db now block reason failures in
    (if reaches (driver rows) then after else db, any_rows (row_count (driver rows)))

unfoldable pub is_poison_block : (driver : ℕ → DriverResult) → Db → (block : Option ℕ) → Reply Bool
unfolding row_count
is_poison_block driver db none = replied false
is_poison_block driver db (some block) =
    any_rows (row_count (driver (if has_poison block db.poison_blocks then 1 else 0)))

abbrev pub max_lag_skip_keep : ℕ
max_lag_skip_keep = 200

pub record MaxLagSkip : Type 0 where
  pub abandoned_from : ℕ
  pub abandoned_to : ℕ

-- `latest - lastIndexed > maxLag`, and a difference that stops at 0 where the source's is negative.
unfoldable pub plan_max_lag_skip : ℕ → ℕ → ℕ → Option MaxLagSkip
plan_max_lag_skip latest last_indexed max_lag =
    let abandoned_from = last_indexed + 1 in
    let abandoned_to = latest - max_lag_skip_keep in
    if not (ltb (last_indexed + max_lag) latest)
    then none
    else if not (leb abandoned_from abandoned_to)
    then none
    else some (record { abandoned_from = abandoned_from; abandoned_to = abandoned_to })

unfoldable pub record_index_gap :
    (reached : Bool) → Db → (from_block to_block : Option ℕ) → String → Db × Reply Bool
record_index_gap reached db none to_block reason = (db, replied false)
record_index_gap reached db (some from_block) none reason = (db, replied false)
record_index_gap reached db (some from_block) (some to_block) reason =
    if ltb to_block from_block
    then (db, replied false)
    else if reached
    then (
      record db { index_gaps = upsert_gap from_block to_block reason db.index_gaps },
      replied true,
    )
    else (db, rejected)
