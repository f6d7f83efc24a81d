-- ===== src/TransferWriter/Seen.antt =====
-- apps/indexer/src/block-processor.ts: what a history of the transfer writer does outside its
-- variables. The table `token_transfers` changes in the transaction of a pass. Two more functions
-- are kept for the theorems: the heights whose transfers are accounted for (a committed pass held
-- them, or the seed or a floor is not below them), and the rows of the last decode of each height. Both
-- forget the heights above a fork point when the queue is purged. The rows that a reorg deletes from
-- the table belong to the unwinding.
use altscan.Prelude.{
  ℕ, Bool, not, ◌&&◌, ◌||◌, List, [], ◌∷◌, Option, none, some, ltb, leb, ◌==◌, if◌then◌else◌, has,
  nat_eq,
}
use altscan.TransferWriter.{
  TokenTransferRow, StoredTransfer, Queue, Pass, writing, Rollback, quiescing, Writer, is_idle,
  heights, delete_nums, rows_of, sort_rows, write_transfer_blocks, Event, init_transfer_writer,
  set_durable_floor, enqueue_transfer_write, write_committed, rollback_polled,
}
use altscan.TransferWriter.Steps.{step}

pub data Change : Type 0 where
  seeded floored purged : ℕ → Change
  decoded : ℕ → List TokenTransferRow → Change
  committed : Queue → Change
  unchanged : Change

abbrev pub committing : Pass → Change
committing (writing drained) = committed drained
committing _ = unchanged

abbrev pub purging : Rollback → Writer → Change
purging (quiescing fork_point) s = if is_idle s.pass then purged fork_point else unchanged
purging _ s = unchanged

unfoldable pub change : Event → Writer → Change
change (init_transfer_writer block) s = seeded block
change (set_durable_floor block) s =
    if not s.transfer_writer_seeded || leb block s.durable_block then unchanged else floored block
change (enqueue_transfer_write n rows) s = decoded n rows
change write_committed s = committing s.pass
change rollback_polled s = purging s.rollback s
change _ s = unchanged

pub record Seen : Type 0 where
  pub table : List StoredTransfer
  pub accounted : ℕ → Bool
  pub latest : ℕ → Option (List TokenTransferRow)

unfoldable pub after : Change → Seen → Seen
after (seeded block) g = record g { accounted = λ n. g.accounted n || leb n block }
after (floored block) g = record g { accounted = λ n. g.accounted n || leb n block }
after (purged fork_point) g = record g {
  accounted = λ n. g.accounted n && not (ltb fork_point n);
  latest = λ n. if ltb fork_point n then none else g.latest n;
}
after (decoded n rows) g = record g { latest = λ k. if n == k then some rows else g.latest k }
after (committed drained) g = record g {
  table = write_transfer_blocks (delete_nums drained) (sort_rows (rows_of drained)) g.table;
  accounted = λ n. g.accounted n || has n (heights drained);
}
after unchanged g = g

unfoldable pub watch : (high_water_rows alert_rows : ℕ) → List Event → Writer → Seen → Seen
watch high_water alert [] s g = g
watch high_water alert (event ∷ events) s g =
    watch high_water alert events (step high_water alert event s) (after (change event s) g)

-- The start of a process: nothing decoded, and no height but 0 accounted for.
abbrev pub seen_from : List StoredTransfer → Seen
seen_from table = record { table = table; accounted = λ n. leb n 0; latest = λ n. none }
