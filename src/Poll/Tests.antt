-- ===== src/Poll/Tests.antt =====
-- The theorems of the poll loop of apps/indexer/src/index.ts on a small index.
use altscan.Prelude.{ℕ, ◌-◌, ◌≤◌, ◌<◌, ◌≡◌, refl, true, inl, List, [], ◌∷◌, none, some}
use altscan.Poison.{integer}
use altscan.Failover.Errors.{new_error}
use altscan.Db.{Db}
use altscan.Gaps.{array, row_count}
use altscan.Gaps.Records.{Counts}
use altscan.Poll.{Poller, Completion, indexed, threw, run_batch, fresh_batch, after_failure}
use altscan.Poll.Batch.{completed, run_batch-completed}
use altscan.Poll.Resume.{Resumed, get_resume_cursor, get_resume_cursor-Resumed}
use altscan.Poll.Steps.{Stepped, after_failure-Stepped}

abbrev four_blocks : Db
four_blocks = record {
  blocks = record { number = 4; hash = "h4"; tx_count = 0 } ∷ [];
  transactions = [];
  logs = [];
  token_transfers = [];
  dex_trades = [];
  internal_transactions = [];
  gas_history = [];
  index_gaps = [];
  poison_blocks = [];
}

-- Block 5 has failed cleanly five times.
abbrev at_four : Poller
at_four = record {
  db = four_blocks;
  last_indexed = 4;
  poison_blocks = record { fails = (5, 5) ∷ [] };
  resume_gap_backfill_until = none;
}

abbrev completions : List Completion
completions = indexed 1 ∷ threw 2 new_error ∷ indexed 0 ∷ []

run_batch-completed_example :
    (4 ≤ (run_batch 5 3 completions (fresh_batch at_four)).last_indexed)
    × ((run_batch 5 3 completions (fresh_batch at_four)).last_indexed ≤ 7)
    × ((n : ℕ)
        → 4 < n
        → n ≤ (run_batch 5 3 completions (fresh_batch at_four)).last_indexed
        → completed (n - 5) completions ≡ true)
run_batch-completed_example = run_batch-completed at_four 3 completions

array-Counts : Counts array
unfolding row_count
array-Counts n = inl refl

after_failure-Stepped_example :
    Stepped
      (integer 5)
      at_four
      (after_failure true (integer 5) array 0 "poison_block(5 clean failovers)" at_four)
after_failure-Stepped_example =
    after_failure-Stepped true (integer 5) array 0 "poison_block(5 clean failovers)" at_four
      array-Counts

-- Blocks 3, 4 and 6 are there, and the transfers are written up to block 3.
abbrev holed : Db
holed = record four_blocks {
  blocks =
      record { number = 6; hash = "h6"; tx_count = 0 }
      ∷ record { number = 3; hash = "h3"; tx_count = 0 }
      ∷ record { number = 4; hash = "h4"; tx_count = 0 }
      ∷ [];
}

get_resume_cursor-Resumed_example :
    Resumed holed 3 6 (get_resume_cursor true 20_000 3 holed (some 3))
    × ((get_resume_cursor true 20_000 3 holed (some 3)).seeded_above ≡ some 4)
unfolding get_resume_cursor
get_resume_cursor-Resumed_example = get_resume_cursor-Resumed true 20_000 3 6 holed (some 3) refl
