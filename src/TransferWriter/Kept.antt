-- ===== src/TransferWriter/Kept.antt =====
-- apps/indexer/src/block-processor.ts: what keeps a property of the transfer writer. The laws are about
-- the assignments that its functions make; that every event then keeps the property is proved once.
use altscan.Prelude.{
  ℕ, ◌+◌, ◌-◌, ◌≡◌, Bool, true, false, not, ◌&&◌, List, [], ltb, leb, if◌then◌else◌, length,
  filter_by, get, put, keep, nat_eq,
}
use altscan.TransferWriter.{
  TokenTransferRow, PendingBatch, Queue, Pass, idle, writing, persisting, retrying, Rollback,
  Writer, heights, note_written, new_durable, requeue, requeued_rows, rows_at, is_decode,
  dropped_rows, begin_pass, Event, enqueue_transfer_write, enqueue_quarantined_block,
}
use altscan.TransferWriter.Seen.{Seen, seeded, floored, purged, decoded, committed, after}

abbrev pub is_writing : Pass → Bool
is_writing (writing drained) = true
is_writing _ = false

-- The assignments of the writer's functions.
abbrev pub flagged : Bool → Bool → ℕ → Rollback → Writer → Writer
flagged over paused failures r s = record s {
  tt_queue_over_high_water = over;
  transfer_writer_paused = paused;
  tt_writer_consecutive_failures = failures;
  rollback = r;
}

abbrev pub put_batch : ℕ → PendingBatch → Writer → Writer
put_batch n batch s = record s {
  transfer_pending = put n batch s.transfer_pending;
  transfer_pending_rows =
      s.transfer_pending_rows - rows_at (get n s.transfer_pending) + length batch.rows;
}

abbrev pub put_quarantine : ℕ → Writer → Writer
put_quarantine n s = record s {
  transfer_pending = put n (record { rows = []; quarantine = true }) s.transfer_pending;
  transfer_pending_rows = s.transfer_pending_rows - rows_at (get n s.transfer_pending);
}

abbrev pub folded : Queue → Writer → Writer
folded drained s =
    let written = note_written s.durable_block (heights drained) s.transfer_written in
    record s {
      transfer_written = written;
      pass = persisting drained (new_durable written s.durable_block);
    }

abbrev pub advanced : ℕ → Writer → Writer
advanced moved s = record s {
  transfer_written = filter_by (λ n. not (ltb s.durable_block n && leb n moved)) s.transfer_written;
  durable_block = moved;
}

abbrev pub requeued : Queue → Writer → Writer
requeued drained s = record s {
  transfer_pending = requeue drained s.transfer_pending;
  transfer_pending_rows = s.transfer_pending_rows + requeued_rows drained s.transfer_pending;
  pass = retrying;
}

abbrev pub cut : ℕ → Writer → Writer
cut fork_point s = record s {
  transfer_pending = keep (λ n _. not (ltb fork_point n)) s.transfer_pending;
  transfer_pending_rows = s.transfer_pending_rows - dropped_rows fork_point s.transfer_pending;
  transfer_written = filter_by (λ n. not (ltb fork_point n)) s.transfer_written;
  durable_block =
      if s.transfer_writer_seeded && ltb fork_point s.durable_block
      then fork_point
      else s.durable_block;
}

-- `Fits n rows` is asked of a decode of a height, and `Leaves n` of a quarantined height.
pub record Kept (Fits : ℕ → List TokenTransferRow → Type 0) (Leaves : ℕ → Type 0)
    (P : Seen → Writer → Type 0) : Type 0 where
  pub flag :
      (g : Seen) (s : Writer) (over paused : Bool) (failures : ℕ) (r : Rollback)
      → P g s
      → P g (flagged over paused failures r s)
  pub stop :
      (g : Seen) (s : Writer) → is_writing s.pass ≡ false → P g s → P g (record s { pass = idle })
  pub begin : (g : Seen) (s : Writer) → is_writing s.pass ≡ false → P g s → P g (begin_pass s)
  pub start :
      (g : Seen) (s : Writer) (block : ℕ)
      → P g s
      → P
          (after (seeded block) g)
          (record s { durable_block = block; transfer_writer_seeded = true })
  pub floor :
      (g : Seen) (s : Writer) (block : ℕ)
      → s.transfer_writer_seeded ≡ true
      → P g s
      → P (after (floored block) g) (record s {
        durable_block = block;
        transfer_written = filter_by (ltb block) s.transfer_written;
      })
  pub decode :
      (g : Seen) (s : Writer) (n : ℕ) (rows : List TokenTransferRow)
      → Fits n rows
      → P g s
      → P (after (decoded n rows) g) (put_batch n (record { rows = rows; quarantine = false }) s)
  pub quarantine :
      (g : Seen) (s : Writer) (n : ℕ)
      → Leaves n
      → is_decode (get n s.transfer_pending) ≡ false
      → P g s
      → P g (put_quarantine n s)
  pub commit :
      (g : Seen) (s : Writer) (drained : Queue)
      → s.pass ≡ writing drained
      → P g s
      → P (after (committed drained) g) (folded drained s)
  pub move :
      (g : Seen) (s : Writer) (drained : Queue) (moved : ℕ)
      → s.pass ≡ persisting drained moved
      → P g s
      → P g (advanced moved s)
  pub fail_writing :
      (g : Seen) (s : Writer) (drained : Queue)
      → s.pass ≡ writing drained
      → P g s
      → P g (requeued drained s)
  pub fail_persisting :
      (g : Seen) (s : Writer) (drained : Queue) (moved : ℕ)
      → s.pass ≡ persisting drained moved
      → P g s
      → P g (requeued drained s)
  pub purge :
      (g : Seen) (s : Writer) (fork_point : ℕ)
      → s.pass ≡ idle
      → P g s
      → P (after (purged fork_point) g) (cut fork_point s)

abbrev pub Allowed : (ℕ → List TokenTransferRow → Type 0) → (ℕ → Type 0) → Event → Type 0
Allowed Fits Leaves (enqueue_transfer_write n rows) = Fits n rows
Allowed Fits Leaves (enqueue_quarantined_block n) = Leaves n
Allowed Fits Leaves _ = Unit

abbrev pub AlwaysFits : ℕ → List TokenTransferRow → Type 0
AlwaysFits n rows = Unit

abbrev pub AlwaysLeaves : ℕ → Type 0
AlwaysLeaves n = Unit
