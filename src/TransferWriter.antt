-- ===== src/TransferWriter.antt =====
-- apps/indexer/src/block-processor.ts: the asynchronous writer of token transfers. The module's
-- variables are the record `Writer`; the one drainer, which awaits the database or a timer, is its
-- field `pass`, and a rollback that waits for the drainer its field `rollback`. An event is what runs
-- between two awaits: a call of an exported function, or the end of something awaited, with its
-- outcome. `token_transfers` is the partitioned table, which has no unique constraint, so that
-- `onConflictDoNothing` skips no row. The holder balances, the profile and the log lines are left out.
pub mod Steps
pub mod Seen
pub mod Kept
pub mod Passes
pub mod History
pub mod Queue
pub mod Fold
pub mod Watermark
pub mod Keys
pub mod Table
pub mod Carried
pub mod Placed
pub mod Requeue
pub mod Flush
mod Tests
use altscan.Prelude.{
  ℕ, zero, suc, ◌+◌, ◌-◌, max, Bool, true, false, not, ◌&&◌, ◌||◌, List, [], ◌∷◌, ◌++◌, map, Option,
  none, some, String, ltb, leb, ◌==◌, if◌then◌else◌, length, filter_by, get, put, keep, has, add,
  nat_eq,
}

pub data TokenType : Type 0 where
  bep20 bep721 bep1155 : TokenType

pub record TokenTransferRow : Type 0 where
  pub tx_hash : String
  pub log_index : ℕ
  pub token_address : String
  pub from_address : String
  pub to_address : String
  pub value : String
  pub token_id : Option String
  pub block_number : ℕ
  pub timestamp : ℕ
  pub token_type : TokenType

-- A row of `token_transfers`: the columns that `writeTransferBlocks` gives a value.
pub record StoredTransfer : Type 0 where
  pub tx_hash : String
  pub log_index : ℕ
  pub token_address : String
  pub from_address : String
  pub to_address : String
  pub value : String
  pub token_id : Option String
  pub block_number : ℕ
  pub timestamp : ℕ

abbrev pub stored : TokenTransferRow → StoredTransfer
stored r = record {
  tx_hash = r.tx_hash;
  log_index = r.log_index;
  token_address = r.token_address;
  from_address = r.from_address;
  to_address = r.to_address;
  value = r.value;
  token_id = r.token_id;
  block_number = r.block_number;
  timestamp = r.timestamp;
}

pub record PendingBatch : Type 0 where
  pub rows : List TokenTransferRow
  pub quarantine : Bool

abbrev pub Queue : Type 0
Queue = List (ℕ × PendingBatch)

-- What the drainer awaits: nothing, the transaction of the batches that it took, the UPDATE of the
-- watermark to a new value, or the 250 ms before the next pass.
pub data Pass : Type 0 where
  idle : Pass
  writing : (drained : Queue) → Pass
  persisting : (drained : Queue) (new_durable : ℕ) → Pass
  retrying : Pass

-- A call of `rollbackTransferWriterTo`: none, one that waits for the drainer, or one that awaits the
-- UPDATE of the rewound watermark.
pub data Rollback : Type 0 where
  no_rollback : Rollback
  quiescing : (fork_point : ℕ) → Rollback
  rewinding : Rollback

pub record Writer : Type 0 where
  pub transfer_pending : Queue
  pub transfer_pending_rows : ℕ
  pub transfer_written : List ℕ
  pub durable_block : ℕ
  pub transfer_writer_seeded : Bool
  pub transfer_writer_paused : Bool
  pub tt_queue_over_high_water : Bool
  pub tt_writer_consecutive_failures : ℕ
  pub pass : Pass
  pub rollback : Rollback

abbrev pub new_writer : Writer
new_writer = record {
  transfer_pending = [];
  transfer_pending_rows = 0;
  transfer_written = [];
  durable_block = 0;
  transfer_writer_seeded = false;
  transfer_writer_paused = false;
  tt_queue_over_high_water = false;
  tt_writer_consecutive_failures = 0;
  pass = idle;
  rollback = no_rollback;
}

abbrev pub is_idle : Pass → Bool
is_idle idle = true
is_idle _ = false

abbrev pub is_empty : Queue → Bool
is_empty [] = true
is_empty _ = false

-- The heights of a drain, those it deletes, and its rows.
unfoldable pub heights : Queue → List ℕ
heights [] = []
heights ((n, batch) ∷ m) = n ∷ heights m

unfoldable pub delete_nums : Queue → List ℕ
delete_nums [] = []
delete_nums ((n, batch) ∷ m) =
    let rest = delete_nums m in if batch.quarantine then rest else n ∷ rest

unfoldable pub rows_of : Queue → List TokenTransferRow
rows_of [] = []
rows_of ((n, batch) ∷ m) = batch.rows ++ rows_of m

-- `rows.sort(...)`, which is stable: a row goes behind the rows that do not come after it.
abbrev pub comes_before : TokenTransferRow → TokenTransferRow → Bool
comes_before a b =
    if a.block_number == b.block_number
    then leb a.log_index b.log_index
    else ltb a.block_number b.block_number

unfoldable pub insert_row : TokenTransferRow → List TokenTransferRow → List TokenTransferRow
insert_row r [] = r ∷ []
insert_row r (s ∷ rows) =
    let later = insert_row r rows in if comes_before r s then r ∷ s ∷ rows else s ∷ later

unfoldable pub sort_rows : List TokenTransferRow → List TokenTransferRow
unfolding insert_row
sort_rows [] = []
sort_rows (r ∷ rows) = insert_row r (sort_rows rows)

-- The transaction of `writeTransferBlocks`: the chunks of 500 make one DELETE and one INSERT.
unfoldable pub write_transfer_blocks :
    (delete_nums : List ℕ) (rows : List TokenTransferRow)
    → List StoredTransfer
    → List StoredTransfer
write_transfer_blocks nums rows table =
    filter_by (λ r. not (has r.block_number nums)) table ++ map stored rows

-- `for (const n of blockNums) if (n > durableBlock) transferWritten.add(n)`
unfoldable pub note_written : ℕ → List ℕ → List ℕ → List ℕ
note_written durable [] written = written
note_written durable (n ∷ ns) written =
    note_written durable ns (if ltb durable n then add n written else written)

abbrev pub largest : List ℕ → ℕ
largest [] = 0
largest (n ∷ ns) = max n (largest ns)

unfoldable pub fold_through : (fuel : ℕ) → List ℕ → ℕ → ℕ
fold_through zero written durable = durable
fold_through (suc fuel) written durable =
    let further = fold_through fuel written (durable + 1) in
    if has (durable + 1) written then further else durable

-- `while (transferWritten.has(newDurable + 1)) newDurable++`
unfoldable pub new_durable : List ℕ → ℕ → ℕ
unfolding fold_through
new_durable written durable = fold_through (largest written) written durable

-- The catch block's requeue: a newer decode of the same block stays.
unfoldable pub requeue : Queue → Queue → Queue
requeue [] pending = pending
requeue ((n, batch) ∷ drained) pending =
    requeue drained (if has n (heights pending) then pending else put n batch pending)

unfoldable pub requeued_rows : Queue → Queue → ℕ
requeued_rows [] pending = 0
requeued_rows ((n, batch) ∷ drained) pending =
    if has n (heights pending)
    then requeued_rows drained pending
    else length batch.rows + requeued_rows drained (put n batch pending)

abbrev pub rows_at : Option PendingBatch → ℕ
rows_at none = 0
rows_at (some batch) = length batch.rows

-- A real decode that is queued outranks the quarantine.
abbrev pub is_decode : Option PendingBatch → Bool
is_decode none = false
is_decode (some batch) = not batch.quarantine

abbrev pub dropped_rows : ℕ → Queue → ℕ
dropped_rows fork_point [] = 0
dropped_rows fork_point ((n, batch) ∷ m) =
    let rest = dropped_rows fork_point m in
    if ltb fork_point n then length batch.rows + rest else rest

-- The head of the loop's body: the whole queue is taken.
abbrev pub begin_pass : Writer → Writer
begin_pass s = record s {
  transfer_pending = [];
  transfer_pending_rows = 0;
  pass = writing s.transfer_pending;
}

pub data Event : Type 0 where
  init_transfer_writer : (seed_durable_block : ℕ) → Event
  set_durable_floor : (block : ℕ) → Event
  enqueue_transfer_write : (block_number : ℕ) → List TokenTransferRow → Event
  enqueue_quarantined_block : (block_number : ℕ) → Event
  write_committed write_failed persist_committed persist_failed retry_timer : Event
  rollback_called : (fork_point : ℕ) → Event
  rollback_polled rewind_settled : Event
