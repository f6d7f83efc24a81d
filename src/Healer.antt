-- ===== src/Healer.antt =====
-- apps/indexer/src/gap-healer.ts: one bounded tick of the healer. Each SQL statement is a function of
-- the database, and `floor` is `compact_cutoff_block`. What the tick awaits is a parameter: a call of
-- `reindexBlock` or of `flushTransfers` turns the database into another one, which may hold the writes
-- of other processes too, and says whether it threw. The local clock, the database's clock and the lag
-- are functions of the number of earlier readings; a lag that cannot be read or is not finite is `none`,
-- and a negative one counts as 0. The row of `indexer_cursor` is there, and the limit of the
-- lag is a whole number or unusable. Logging is left out.
mod Selection
pub mod Density
pub mod WorkSet
mod Tests
unfoldable pub use Selection.*
use altscan.Prelude.{
  ℕ, zero, suc, ◌+◌, ◌-◌, ◌%◌, ◌/◌, min, max, Bool, true, false, not, ◌&&◌, ◌||◌, List, [], ◌∷◌,
  Option, none, some, String, ltb, leb, ◌==◌, ◌===◌, string_eq, if◌then◌else◌, length, filter_by,
  any_by, map,
}
use altscan.Poison.{Knob, integer, unusable, positive_or}
use altscan.Db.{Db, IndexGap, BlockRow, Row, has_block, has_poison}
use altscan.Db.Heights.{generate_series, missing}

-- The loop over the work set: it ran to its end, it stopped early, or a block failed.
pub data Repair : Type 0 where
  finished stopped : Db → (repaired : ℕ) → Repair
  broken : Db → (repaired : ℕ) → String → Repair

abbrev pub too_far_behind : ℕ → Option ℕ → Bool
too_far_behind ceiling none = true
too_far_behind ceiling (some lag) = ltb ceiling lag

-- Every round that ends repairs one block, so the rounds count the repaired blocks.
abbrev pub reindexed : ℕ → (Db → Repair) → Db × Option String → Repair
reindexed repaired next (db, none) = next db
reindexed repaired next (db, some error) = broken db repaired error

unfoldable pub repair :
    HealDeps → (lag_ceiling lease_deadline i : ℕ) → (work_set : List ℕ) → Db → Repair
repair deps ceiling deadline i [] db = finished db i
repair deps ceiling deadline i (n ∷ ns) db =
    let next = repair deps ceiling deadline (suc i) ns in
    if ltb deadline (deps.clock (suc i) + lease_safety_ms)
    then stopped db i
    else if (i % lag_recheck_every == 0)
        && too_far_behind ceiling (deps.read_lag (suc (i / lag_recheck_every)))
    then stopped db i
    else reindexed i next (deps.reindex_block n db)

-- The fence of the two last statements: the lease is still this process's.
abbrev pub fenced : HealDeps → ℕ → IndexGap → IndexGap → Bool
fenced deps statement chosen g =
    (g.from_block == chosen.from_block)
    && is_none g.healed_at
    && elim g.heal_lease_owner [ none ↦ false | some o ↦ o === deps.owner ]
    && elim g.heal_lease_until [ none ↦ false | some until ↦ ltb (deps.db_clock statement) until ]

-- The block is absent, or it is mismatched; a quarantined height is let pass.
abbrev pub incomplete : Db → ℕ → Bool
incomplete db n =
    not (has_poison n db.poison_blocks) && (not (has_block n db.blocks) || mismatched db n)

abbrev pub undense : Db → ℕ → Bool
undense db n = not (has_block n db.blocks) || mismatched db n

abbrev pub flushed : HealDeps → Db → Db × Bool
flushed deps db = elim deps.flush_transfers [ none ↦ (db, true) | some flush ↦ flush db ]

abbrev pub advance_cursor : (healed_through heal_from : ℕ) → IndexGap → IndexGap
advance_cursor window_end heal_from g = record g {
  heal_cursor = some (max (elim g.heal_cursor [ none ↦ heal_from - 1 | some c ↦ c ]) window_end);
}

-- The last statement proves the range dense again, and stamps it.
abbrev pub finishes : HealDeps → IndexGap → Db → IndexGap → Bool
finishes deps g db row =
    fenced deps 2 g row
    && (row.to_block == g.to_block)
    && not (any_by (undense db) (generate_series (verify_from deps.floor g) g.to_block))

unfoldable pub stamp : HealDeps → IndexGap → (repaired : ℕ) → Db → Db × HealOutcome
unfolding update_gaps
stamp deps g repaired db =
    if any_by (finishes deps g db) db.index_gaps
    then (
      record db {
        index_gaps =
            update_gaps (finishes deps g db) (λ row. record row { healed_at = some deps.now })
              db.index_gaps;
      },
      healed g.from_block g.to_block repaired,
    )
    else (db, progressed g.from_block g.to_block repaired)

-- From the drained queue on: verification, the cursor, and the stamp when the window is the last one.
unfoldable pub confirm :
    HealDeps → IndexGap → (window_end repaired : ℕ) → Db × Bool → Db × HealOutcome
unfolding stamp update_gaps
confirm deps g window_end repaired (db, false) = (db, progressed g.from_block g.to_block repaired)
confirm deps g window_end repaired (db, true) =
    let start = heal_from deps.floor g in
    let advanced = record db {
      index_gaps = update_gaps (fenced deps 1 g) (advance_cursor window_end start) db.index_gaps;
    } in
    if any_by (incomplete db) (generate_series start window_end)
    then (db, progressed g.from_block g.to_block repaired)
    else if not (any_by (fenced deps 1 g) db.index_gaps)
    then (db, progressed g.from_block g.to_block repaired)
    else if ltb window_end g.to_block
    then (advanced, progressed g.from_block g.to_block repaired)
    else stamp deps g repaired advanced

abbrev pub after_repair : HealDeps → IndexGap → ℕ → Repair → Db × HealOutcome
after_repair deps g window_end (stopped db repaired) =
    (db, progressed g.from_block g.to_block repaired)
after_repair deps g window_end (broken db repaired error) =
    (db, failed g.from_block g.to_block repaired error)
after_repair deps g window_end (finished db repaired) =
    confirm deps g window_end repaired (flushed deps db)

-- The work on a claimed gap, one window of it.
unfoldable pub heal_window :
    HealDeps → (batch lag_ceiling lease_ms : ℕ) → IndexGap → Db → Db × HealOutcome
unfolding repair missing confirm
heal_window deps batch ceiling lease_ms g db =
    let start = heal_from deps.floor g in
    let window_end = min g.to_block (start + batch - 1) in
    let work_set = filter_by (missing db) (generate_series start window_end) in
    after_repair deps g window_end (repair deps ceiling (deps.clock 0 + lease_ms) 0 work_set db)

abbrev pub work_on :
    HealDeps → (batch lag_ceiling lease_ms : ℕ) → Db → Option IndexGap → Db × HealOutcome
work_on deps batch ceiling lease_ms db none = (db, idle)
work_on deps batch ceiling lease_ms db (some g) =
    if lapsed (deps.db_clock 0) g.heal_lease_until
    then heal_window deps batch ceiling lease_ms g (claimed deps lease_ms g db)
    else (db, idle)

pub heal_next_gap : HealDeps → (batch_size max_lag lease_ms : Knob) → Db → Db × HealOutcome
unfolding candidate heal_window update_gaps
heal_next_gap deps batch_size max_lag lease_ms db =
    if too_far_behind (lag_ceiling_of max_lag) (deps.read_lag 0)
    then (db, skipped (deps.read_lag 0))
    else work_on deps (positive_or default_heal_batch batch_size) (lag_ceiling_of max_lag)
        (lease_ms_of lease_ms) db (candidate deps db db.index_gaps)
