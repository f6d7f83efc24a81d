-- ===== src/Gaps/Tests.antt =====
-- The theorems of apps/indexer/src/index-gaps.ts on a small database.
use altscan.Prelude.{inl, refl, [], ◌∷◌, none, some}
use altscan.Db.{Db, IndexGap, has_block}
use altscan.Gaps.{array, row_count, record_poison_gap_if_absent}
use altscan.Gaps.Records.{Counts, Quarantined, record_poison_gap-Quarantined}

abbrev healed : IndexGap
healed = record {
  from_block = 5;
  to_block = 9;
  reason = "max_lag_skip";
  healed_at = some 100;
  heal_cursor = some 9;
  heal_lease_owner = none;
  heal_lease_until = none;
}

abbrev two_blocks : Db
two_blocks = record {
  blocks =
      record { number = 3; hash = "h3"; tx_count = 0 }
      ∷ record { number = 4; hash = "h4"; tx_count = 0 }
      ∷ [];
  transactions = [];
  logs = [];
  token_transfers = [];
  dex_trades = [];
  internal_transactions = [];
  gas_history = [];
  index_gaps = healed ∷ [];
  poison_blocks = [];
}

array-Counts : Counts array
unfolding row_count
array-Counts n = inl refl

record_poison_gap-Quarantined_example :
    Quarantined two_blocks
      (record_poison_gap_if_absent array two_blocks 70 (some 6) "poison_block" (some 5)).0
      6
unfolding record_poison_gap_if_absent row_count has_block
record_poison_gap-Quarantined_example =
    (record_poison_gap-Quarantined array two_blocks 70 6 5 "poison_block" array-Counts).1 refl
