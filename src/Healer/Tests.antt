-- ===== src/Healer/Tests.antt =====
-- The theorems of apps/indexer/src/gap-healer.ts on a gap of two blocks.
use altscan.Prelude.{◌≡◌, refl, true, [], ◌∷◌, none, some, ◌==◌, if◌then◌else◌, ℕ, Option, String}
use altscan.Poison.{Knob, integer}
use altscan.Db.{Db, IndexGap, has_block, has_poison}
use altscan.Healer.{
  HealDeps, heal_next_gap, candidate, selectable, unfinishable, mismatched, update_gaps, repair,
  stamp, confirm, heal_window, lapsed,
}
use altscan.Healer.Density.{IsDense, heal_next_gap-IsDense}
use altscan.Db.Heights.{missing}

abbrev deps : HealDeps
deps = record {
  reindex_block = λ n db.
      (record db { blocks = record { number = n; hash = "h"; tx_count = 0 } ∷ db.blocks }, none);
  read_lag = λ i. some 0;
  resume_window = 2;
  owner = "me";
  flush_transfers = none;
  now = 9;
  clock = λ i. 0;
  db_clock = λ i. 0;
  floor = none;
}

abbrev gap : IndexGap
gap = record {
  from_block = 5;
  to_block = 6;
  reason = "max_lag_skip";
  healed_at = none;
  heal_cursor = none;
  heal_lease_owner = none;
  heal_lease_until = none;
}

abbrev holed : Db
holed = record {
  blocks = record { number = 10; hash = "h10"; tx_count = 0 } ∷ [];
  transactions = [];
  logs = [];
  token_transfers = [];
  dex_trades = [];
  internal_transactions = [];
  gas_history = [];
  index_gaps = gap ∷ [];
  poison_blocks = [];
}

abbrev batch : Knob
batch = integer 25

heal_next_gap-IsDense_example :
    (g : IndexGap) × (candidate deps holed holed.index_gaps ≡ some g)
    × (lapsed 0 g.heal_lease_until ≡ true)
    × (5 ≡ g.from_block)
    × (6 ≡ g.to_block)
    × IsDense none g (heal_next_gap deps batch batch batch holed).0
unfolding heal_next_gap candidate selectable unfinishable mismatched missing update_gaps repair
    stamp confirm heal_window has_block has_poison
heal_next_gap-IsDense_example =
    (heal_next_gap-IsDense deps batch batch batch holed
      (heal_next_gap deps batch batch batch holed).0 5 6 2 refl).1

-- It would fail on block 10, which is present.
abbrev careful : ℕ → Db → Db × Option String
careful n db = if n == 10 then (db, some "present") else deps.reindex_block n db
