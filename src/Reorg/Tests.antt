-- ===== src/Reorg/Tests.antt =====
-- The theorems of apps/indexer/src/reorg-handler.ts on a chain of five blocks whose last one is
-- reorganised.
use altscan.Prelude.{ℕ, ◌+◌, ◌≤◌, ◌<◌, refl, [], ◌∷◌, none, some, arith, ltb, ◌==◌, if◌then◌else◌}
use altscan.Health.{nonneg, rotation, rotate_from, rotation_start}
use altscan.Failover.{read_with_failover, read_each, ordered, health_success}
use altscan.Db.{Db, Row, has_block}
use altscan.Reorg.{
  ReorgDeps, fulfilled, present, agrees_at, walk_back, find_fork_point, detect_reorg,
  detect_reorg_pinned, in_time, unwind_from, run_statements, unwind_statements,
}
use altscan.Reorg.Walk.{Agrees}
use altscan.Reorg.Detect.{detect_reorg_iff}
use altscan.Reorg.Rejections.{PlainReads}
use altscan.Reorg.Pinned.{Grounds, detect_reorg_pinned-Grounds}
use altscan.Reorg.Unwind.{EndsBelow, unwind_from-EndsBelow}
use altscan.Reorg.Crash.{Referenced, run_statements-unwind}

abbrev view : ReorgDeps
view = record {
  stored_hash = λ n. fulfilled (some (if n == 5 then "orphan" else "same"));
  rpc_block = λ n. fulfilled (
      if ltb n 6
      then some (record { hash = if n == 5 then "tip" else "same"; parent_hash = "same" })
      else none);
}

view-PlainReads : PlainReads view
view-PlainReads = record { stored = λ n e h. cc; on_chain = λ n e h. cc }

detect_reorg_iff_example :
    (4 ≤ 5) × (5 ≤ 4 + 3) × Agrees view 4 × ((k : ℕ) → 4 < k → k ≤ 5 → ¬ Agrees view k)
unfolding detect_reorg find_fork_point walk_back agrees_at present
detect_reorg_iff_example = (detect_reorg_iff view 5 3 4).1 refl

detect_reorg_pinned-Grounds_example : Grounds (λ p. view) (λ p. in_time) 5 3 (1 ∷ 2 ∷ []) 4
unfolding detect_reorg_pinned detect_reorg find_fork_point walk_back agrees_at present
    read_with_failover read_each ordered rotation rotate_from rotation_start health_success
detect_reorg_pinned-Grounds_example =
    detect_reorg_pinned-Grounds (λ p. view) (λ p. in_time) 5 3 4 (λ i. i) (1 ∷ 2 ∷ []) (nonneg 0)
      none (λ p. view-PlainReads) (omega arith) refl

abbrev row_of : ℕ → Row
row_of n = record { block_number = n; key = 0 }

abbrev indexed : Db
indexed = record {
  blocks =
      record { number = 4; hash = "same"; tx_count = 1 }
      ∷ record { number = 5; hash = "orphan"; tx_count = 1 }
      ∷ [];
  transactions = row_of 4 ∷ row_of 5 ∷ [];
  logs = row_of 5 ∷ [];
  token_transfers = row_of 4 ∷ row_of 5 ∷ [];
  dex_trades = [];
  internal_transactions = [];
  gas_history = row_of 5 ∷ [];
  index_gaps = [];
  poison_blocks = record { block_number = 6; failures = 5; recorded_at = 0 } ∷ [];
}

indexed-Referenced : Referenced indexed
unfolding has_block
indexed-Referenced = (refl, (refl, tt))

unwind_from-EndsBelow_example : EndsBelow 5 (unwind_from 5 indexed)
unwind_from-EndsBelow_example = (unwind_from-EndsBelow 5 indexed (omega arith)).0

run_statements-unwind_example : Referenced (run_statements 8 (unwind_statements 5) indexed)
run_statements-unwind_example = (run_statements-unwind 5 indexed 8 indexed-Referenced).0
