-- ===== src/Gaps/Records.antt =====
-- What a recorded gap says, and that a quarantine is recorded in both tables or in neither.
use altscan.Prelude.{
  ℕ, ◌≤◌, ◌<◌, ◌≡◌, ◌≢◌, ◌⊎◌, inl, inr, refl, true, false, Option, none, some, String, arith,
  if◌then◌else◌, Bool-cases,
}
use altscan.Db.{Db, IndexGap, has_block, has_poison, find_gap, upsert_gap, upsert_poison}
use altscan.Db.Upserts.{merged, find_gap-upsert_gap, has_poison-upsert_poison}
use altscan.Gaps.{
  replied, rejected, DriverResult, array, row_list, unrecognised, unreachable, row_count, any_rows,
  reaches, record_poison_gap_if_absent, record_index_gap,
}

-- The driver's contract: it hands back the number of returned rows, or something that is refused.
abbrev pub Counts : (ℕ → DriverResult) → Type 0
Counts driver = (n : ℕ) → (row_count (driver n) ≡ replied n) ⊎ (row_count (driver n) ≡ rejected)

-- `after` records the quarantine of a block that `before` does not have.
pub record Quarantined (before after : Db) (block : ℕ) : Type 0 where
  pub absent : has_block block before.blocks ≡ false
  pub gap : IndexGap
  pub found : find_gap block after.index_gaps ≡ some gap
  pub covers : block ≤ gap.to_block
  pub unhealed : gap.healed_at ≡ none
  pub poisoned : has_poison block after.poison_blocks ≡ true
  pub same_blocks : after.blocks ≡ before.blocks
  pub other_gaps : (n : ℕ) → n ≢ block → find_gap n after.index_gaps ≡ find_gap n before.index_gaps
  pub other_poison :
      (n : ℕ) → n ≢ block → has_poison n after.poison_blocks ≡ has_poison n before.poison_blocks

merged_covers :
    (block to_block : ℕ) (reason : String) (o : Option IndexGap)
    → (to_block ≤ (merged block to_block reason o).to_block)
      × ((merged block to_block reason o).healed_at ≡ none)
merged_covers block to_block reason none = (omega arith, refl)
merged_covers block to_block reason (some g) = (omega arith, refl)

Quarantined-upserts :
    (db : Db) (now block failures : ℕ) (reason : String)
    → has_block block db.blocks ≡ false
    → Quarantined db
        (record db {
          index_gaps = upsert_gap block block reason db.index_gaps;
          poison_blocks = upsert_poison block failures now db.poison_blocks;
        })
        block
Quarantined-upserts db now block failures reason absent = record {
  absent = absent;
  gap = merged block block reason (find_gap block db.index_gaps);
  found = ground (arith, find_gap-upsert_gap block block block reason db.index_gaps);
  covers = (merged_covers block block reason (find_gap block db.index_gaps)).0;
  unhealed = (merged_covers block block reason (find_gap block db.index_gaps)).1;
  poisoned = ground (arith, has_poison-upsert_poison block block failures now db.poison_blocks);
  same_blocks = refl;
  other_gaps = λ n ne. ground (arith, find_gap-upsert_gap n block block reason db.index_gaps);
  other_poison =
      λ n ne. ground (arith, has_poison-upsert_poison n block failures now db.poison_blocks);
}

-- What the caller learns when the statement has run as `after` and returned `rows` rows.
abbrev Answer : Db → Db → ℕ → DriverResult → Type 0
Answer db after block d =
    let final = if reaches d then after else db in
    ((final ≡ db) ⊎ Quarantined db final block)
    × (any_rows (row_count d) ≡ replied true → Quarantined db final block)
    × (any_rows (row_count d) ≡ replied false → (final ≡ db) × (has_block block db.blocks ≡ true))

present-Answer :
    (db : Db) (block : ℕ) (d : DriverResult)
    → has_block block db.blocks ≡ true
    → (row_count d ≡ replied 0) ⊎ (row_count d ≡ rejected)
    → Answer db db block d
unfolding row_count
present-Answer db block (array n) present c = (inl refl, λ e. ground arith, λ e. (refl, present))
present-Answer db block (row_list n) present c = (inl refl, λ e. ground arith, λ e. (refl, present))
present-Answer db block unrecognised present c = (inl refl, λ e. cc, λ e. cc)
present-Answer db block unreachable present c = (inl refl, λ e. cc, λ e. cc)

absent-Answer :
    (db after : Db) (block : ℕ) (d : DriverResult)
    → Quarantined db after block
    → (row_count d ≡ replied 1) ⊎ (row_count d ≡ rejected)
    → Answer db after block d
unfolding row_count
absent-Answer db after block (array n) q c = (inr q, λ e. q, λ e. absurd (ground arith))
absent-Answer db after block (row_list n) q c = (inr q, λ e. q, λ e. absurd (ground arith))
absent-Answer db after block unrecognised q c = (inr q, λ e. cc, λ e. cc)
absent-Answer db after block unreachable q c = (inl refl, λ e. cc, λ e. cc)

-- Whatever the driver hands back or however the statement fails, a quarantine is recorded in both
-- tables or in neither. The answer `true` means that it is recorded and that the block is absent;
-- the answer `false` means that the block is present and that nothing has changed. The driver hands
-- back the number of rows or something that is refused.
pub record_poison_gap-Quarantined :
    (driver : ℕ → DriverResult) (db : Db) (now block failures : ℕ) (reason : String)
    → Counts driver
    → let (after, reply) =
        record_poison_gap_if_absent driver db now (some block) reason (some failures) in
      ((after ≡ db) ⊎ Quarantined db after block)
      × (reply ≡ replied true → Quarantined db after block)
      × (reply ≡ replied false → (after ≡ db) × (has_block block db.blocks ≡ true))
unfolding record_poison_gap_if_absent
record_poison_gap-Quarantined driver db now block failures reason counts =
    elim (Bool-cases (has_block block db.blocks)) [
      | inl present ↦
          let a = present-Answer db block (driver 0) present (counts 0) in
          rw present (a.0, a.1, λ e. ((a.2 e).0, refl))
      | inr absent ↦
          let q = Quarantined-upserts db now block failures reason absent in
          let a = absent-Answer db _ block (driver 1) q (counts 1) in
          rw absent (a.0, a.1, λ e. ((a.2 e).0, (rw absent at (a.2 e).1)))
    ]

record_index_gap-eq :
    (db : Db) (from_block to_block : ℕ) (reason : String)
    → from_block ≤ to_block
    → record_index_gap true db (some from_block) (some to_block) reason ≡ (
      record db { index_gaps = upsert_gap from_block to_block reason db.index_gaps },
      replied true,
    )
unfolding record_index_gap
record_index_gap-eq db from_block to_block reason h = ground arith

merged_old :
    (from_block to_block : ℕ) (reason : String) (o : Option IndexGap) (old : IndexGap)
    → o ≡ some old
    → let g = merged from_block to_block reason o in
      (old.to_block ≤ g.to_block)
      × (old.healed_at ≡ none → g.heal_cursor ≡ old.heal_cursor)
      × (old.healed_at ≢ none → g.heal_cursor ≡ none)
merged_old from_block to_block reason none old e = cc
merged_old from_block to_block reason (some o) old e = ground arith

-- A recorded gap covers its range and is unhealed. A row that was there for the same first block
-- never shrinks; it keeps the progress of healing if it was unhealed, and starts again if it was
-- healed. No other row and no other table changes. An empty range records nothing.
pub record_index_gap_lem :
    (db : Db) (from_block to_block : ℕ) (reason : String)
    → let (after, reply) = record_index_gap true db (some from_block) (some to_block) reason in
      (to_block < from_block → (after ≡ db) × (reply ≡ replied false))
      × (from_block ≤ to_block
          → (reply ≡ replied true)
            × ((n : ℕ) → n ≢ from_block → find_gap n after.index_gaps ≡ find_gap n db.index_gaps)
            × (after ≡ record db { index_gaps = after.index_gaps })
            × ((g : IndexGap) × (find_gap from_block after.index_gaps ≡ some g)
                × (to_block ≤ g.to_block)
                × (g.healed_at ≡ none)
                × ((old : IndexGap)
                    → find_gap from_block db.index_gaps ≡ some old
                    → (old.to_block ≤ g.to_block)
                      × (old.healed_at ≡ none → g.heal_cursor ≡ old.heal_cursor)
                      × (old.healed_at ≢ none → g.heal_cursor ≡ none))))
record_index_gap_lem db from_block to_block reason = (
  λ h. unfold record_index_gap in ground arith,
  λ h.
      let o = find_gap from_block db.index_gaps in
      let (covers, unhealed) = merged_covers from_block to_block reason o in
      rw (record_index_gap-eq db from_block to_block reason h) (
        refl,
        λ n ne. ground (arith, find_gap-upsert_gap n from_block to_block reason db.index_gaps),
        refl,
        (
          merged from_block to_block reason o,
          ground (arith, find_gap-upsert_gap from_block from_block to_block reason db.index_gaps),
          covers,
          unhealed,
          merged_old from_block to_block reason o,
        ),
      ),
)
