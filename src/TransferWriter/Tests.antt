-- ===== src/TransferWriter/Tests.antt =====
-- The theorems of the transfer writer of apps/indexer/src/block-processor.ts on three blocks.
use altscan.Prelude.{
  ℕ, ◌+◌, ◌≤◌, ◌<◌, ◌≡◌, ◌⊎◌, refl, true, false, List, [], ◌∷◌, none, some, get, put, keep, has,
  add, nat_eq, arith,
}
use altscan.TransferWriter.{
  TokenTransferRow, bep20, Queue, Writer, idle, writing, persisting, new_writer, Event,
  init_transfer_writer, set_durable_floor, enqueue_transfer_write, write_committed, write_failed,
  persist_committed, new_durable, heights, delete_nums, rows_of, insert_row, sort_rows,
  write_transfer_blocks, note_written, fold_through, requeue, requeued_rows,
}
use altscan.TransferWriter.Steps.{
  run, step, seed, floor_at, enqueue, quarantine_block, fold_pass, advance, fail_pass, loop_test,
  run_transfer_writer, evaluate_high_water, purge_above, resume, roll_back,
}
use altscan.TransferWriter.Seen.{watch, change, after, seen_from}
use altscan.TransferWriter.Fold.{new_durable-gap}
use altscan.TransferWriter.Watermark.{
  seeded_run, seeded_watch, seeded_run-accounted, persist_committed-floor,
}
use altscan.TransferWriter.Keys.{WellKeyed}
use altscan.TransferWriter.Table.{decode_of}
use altscan.TransferWriter.Carried.{Carried}
use altscan.TransferWriter.Placed.{watch-Placed}
use altscan.TransferWriter.Requeue.{first_of, write_failed-get}
use altscan.TransferWriter.Flush.{until_written, run-until_written}

abbrev row : ℕ → ℕ → TokenTransferRow
row n i = record {
  tx_hash = "0x1";
  log_index = i;
  token_address = "0xa";
  from_address = "0xb";
  to_address = "0xc";
  value = "5";
  token_id = none;
  block_number = n;
  timestamp = 1_000;
  token_type = bep20;
}

-- Blocks 12 and 11 are decoded and written at once; block 12 is decoded again, and a rollback to 11
-- begins before that is written.
abbrev calls : List Event
calls =
    enqueue_transfer_write 12 (row 12 0 ∷ [])
    ∷ enqueue_transfer_write 11 (row 11 4 ∷ row 11 3 ∷ [])
    ∷ write_committed
    ∷ enqueue_transfer_write 12 (row 12 1 ∷ [])
    ∷ write_failed
    ∷ persist_committed
    ∷ write_committed
    ∷ persist_committed
    ∷ []

new_durable-gap_example :
    (10 ≤ new_durable (11 ∷ 12 ∷ 14 ∷ []) 10)
    × ((n : ℕ) → 10 < n → n ≤ new_durable (11 ∷ 12 ∷ 14 ∷ []) 10 → has n (11 ∷ 12 ∷ 14 ∷ []) ≡ true)
    × (has (new_durable (11 ∷ 12 ∷ 14 ∷ []) 10 + 1) (11 ∷ 12 ∷ 14 ∷ []) ≡ false)
new_durable-gap_example = new_durable-gap (11 ∷ 12 ∷ 14 ∷ []) 10

seeded_run-accounted_example :
    ((n : ℕ)
      → n ≤ (seeded_run 100 200 10 calls).durable_block
      → (seeded_watch 100 200 10 [] calls).accounted n ≡ true)
    × ((drained : Queue) (moved : ℕ)
        → (seeded_run 100 200 10 calls).pass ≡ persisting drained moved
        → (n : ℕ) → n ≤ moved
        → (seeded_watch 100 200 10 [] calls).accounted n ≡ true)
seeded_run-accounted_example = seeded_run-accounted 100 200 10 [] calls

-- A pass with blocks 11 and 12 awaits the UPDATE of the watermark to 12.
abbrev at_ten : Writer
at_ten = record new_writer {
  durable_block = 10;
  transfer_writer_seeded = true;
  transfer_written = 12 ∷ 11 ∷ [];
  pass = persisting [] 12;
}

persist_committed-floor_example :
    ((step 100 200 (set_durable_floor 500) at_ten).durable_block ≡ 500)
    × ((step 100 200 persist_committed (step 100 200 (set_durable_floor 500) at_ten)).durable_block
        ≡ 12)
persist_committed-floor_example =
    persist_committed-floor 100 200 at_ten [] 12 500 refl refl (ground arith)

abbrev history : List Event
history = init_transfer_writer 10 ∷ calls

latest_eleven :
    (watch 100 200 history new_writer (seen_from [])).latest 11 ≡ some (row 11 4 ∷ row 11 3 ∷ [])
unfolding watch change after step seed floor_at enqueue quarantine_block fold_pass advance fail_pass
    loop_test run_transfer_writer evaluate_high_water purge_above resume roll_back heights
    delete_nums rows_of insert_row sort_rows write_transfer_blocks note_written fold_through
    new_durable requeue requeued_rows get put keep has add
latest_eleven = refl

watch-Placed_example :
    (get 11 (run 100 200 history new_writer).transfer_pending
      ≡ some (decode_of (row 11 4 ∷ row 11 3 ∷ [])))
    ⊎ ((get 11 (run 100 200 history new_writer).transfer_pending ≡ none)
        × Carried 11
            (row 11 4 ∷ row 11 3 ∷ [])
            (watch 100 200 history new_writer (seen_from [])).table
            (run 100 200 history new_writer).pass)
watch-Placed_example =
    watch-Placed 100 200 11 [] history
      (tt, ((refl, tt), ((refl, (refl, tt)), (tt, ((refl, tt), (tt, (tt, (tt, (tt, tt)))))))))
      (row 11 4 ∷ row 11 3 ∷ []) latest_eleven

abbrev eleven : Queue
eleven = (11, decode_of (row 11 3 ∷ [])) ∷ []

-- Block 11 is being written, and has been quarantined meanwhile.
abbrev two_kinds : Writer
two_kinds = record at_ten {
  transfer_pending = (11, record { rows = []; quarantine = true }) ∷ [];
  pass = writing eleven;
}

eleven-WellKeyed : WellKeyed eleven
unfolding WellKeyed get
eleven-WellKeyed = (refl, (refl, tt), tt)

write_failed-get_example :
    get 11 (step 100 200 write_failed two_kinds).transfer_pending
    ≡ first_of (get 11 two_kinds.transfer_pending) (get 11 eleven)
write_failed-get_example = write_failed-get 100 200 11 two_kinds eleven refl eleven-WellKeyed

abbrev busy : Writer
busy = record at_ten { pass = writing eleven }

run-until_written_example :
    ((run 100 200 (until_written 3) busy).transfer_pending ≡ [])
    × ((run 100 200 (until_written 3) busy).pass ≡ idle)
run-until_written_example = run-until_written 100 200 3 busy eleven refl refl refl
