-- ===== src/TransferWriter/Steps.antt =====
-- apps/indexer/src/block-processor.ts: what the calls of the transfer writer, and the ends of what its
-- drainer awaits, do to its variables and to the table.
use altscan.Prelude.{
  ℕ, ◌+◌, ◌-◌, true, false, not, ◌&&◌, ◌||◌, List, [], ◌∷◌, ltb, leb, if◌then◌else◌, length,
  filter_by, get, put, keep, nat_eq,
}
use altscan.TransferWriter.{
  TokenTransferRow, Queue, Pass, idle, writing, persisting, retrying, Rollback, no_rollback,
  quiescing, rewinding, Writer, is_idle, is_empty, heights, note_written, new_durable, requeue,
  requeued_rows, rows_at, Event, init_transfer_writer, set_durable_floor, enqueue_transfer_write,
  enqueue_quarantined_block, write_committed, write_failed, persist_committed, persist_failed,
  retry_timer, rollback_called, rollback_polled, rewind_settled, dropped_rows, is_decode,
  begin_pass,
}

module _ (high_water_rows alert_rows : ℕ) where
  unfoldable pub evaluate_high_water : Writer → Writer
  evaluate_high_water s =
      if not s.tt_queue_over_high_water && ltb alert_rows s.transfer_pending_rows
      then record s { tt_queue_over_high_water = true }
      else if s.tt_queue_over_high_water && leb s.transfer_pending_rows high_water_rows
      then record s { tt_queue_over_high_water = false }
      else s

  -- `while (!transferWriterPaused && transferPending.size > 0)`, and what follows the loop.
  unfoldable pub loop_test : Writer → Writer
  loop_test s =
      if s.transfer_writer_paused || is_empty s.transfer_pending
      then record (evaluate_high_water s) { pass = idle }
      else begin_pass s

  unfoldable pub run_transfer_writer : Writer → Writer
  run_transfer_writer s =
      if s.transfer_writer_seeded
        && not s.transfer_writer_paused
        && is_idle s.pass
        && not (is_empty s.transfer_pending)
      then begin_pass s
      else s

  unfoldable pub seed : ℕ → Writer → Writer
  seed block s =
      run_transfer_writer (record s { durable_block = block; transfer_writer_seeded = true })

  unfoldable pub floor_at : ℕ → Writer → Writer
  floor_at block s =
      if not s.transfer_writer_seeded || leb block s.durable_block then s else record s {
        durable_block = block;
        transfer_written = filter_by (ltb block) s.transfer_written;
      }

  unfoldable pub enqueue : ℕ → List TokenTransferRow → Writer → Writer
  enqueue n rows s = run_transfer_writer (
      evaluate_high_water (record s {
        transfer_pending = put n (record { rows = rows; quarantine = false }) s.transfer_pending;
        transfer_pending_rows =
            s.transfer_pending_rows - rows_at (get n s.transfer_pending) + length rows;
      }))

  unfoldable pub quarantine_block : ℕ → Writer → Writer
  quarantine_block n s =
      if is_decode (get n s.transfer_pending)
      then s
      else run_transfer_writer (
          evaluate_high_water (record s {
            transfer_pending = put n (record { rows = []; quarantine = true }) s.transfer_pending;
            transfer_pending_rows = s.transfer_pending_rows - rows_at (get n s.transfer_pending);
          }))

  -- The end of a pass that succeeded.
  abbrev pub pass_done : Writer → Writer
  pass_done s = loop_test (record s { tt_writer_consecutive_failures = 0 })

  -- After the transaction: the fold, up to the UPDATE of the watermark if there is one.
  unfoldable pub fold_pass : Queue → Writer → Writer
  fold_pass drained s =
      let written = note_written s.durable_block (heights drained) s.transfer_written in
      let moved = new_durable written s.durable_block in
      let noted = record s { transfer_written = written } in
      if ltb s.durable_block moved
      then record noted { pass = persisting drained moved }
      else pass_done noted

  -- After the UPDATE: the heights from `durableBlock + 1`, as it is by now, leave `transferWritten`.
  unfoldable pub advance : ℕ → Writer → Writer
  advance moved s = pass_done (record s {
    transfer_written =
        filter_by (λ n. not (ltb s.durable_block n && leb n moved)) s.transfer_written;
    durable_block = moved;
  })

  -- The catch block, up to its timer.
  unfoldable pub fail_pass : Queue → Writer → Writer
  fail_pass drained s = evaluate_high_water (record s {
    transfer_pending = requeue drained s.transfer_pending;
    transfer_pending_rows = s.transfer_pending_rows + requeued_rows drained s.transfer_pending;
    tt_writer_consecutive_failures = s.tt_writer_consecutive_failures + 1;
    pass = retrying;
  })

  unfoldable pub purge_above : ℕ → Writer → Writer
  purge_above fork_point s =
      let dropped = dropped_rows fork_point s.transfer_pending in
      let purged = record s {
        transfer_pending = keep (λ n _. not (ltb fork_point n)) s.transfer_pending;
        transfer_pending_rows = s.transfer_pending_rows - dropped;
        transfer_written = filter_by (λ n. not (ltb fork_point n)) s.transfer_written;
      } in
      if ltb 0 dropped then evaluate_high_water purged else purged

  -- The `finally` of `rollbackTransferWriterTo`.
  unfoldable pub resume : Writer → Writer
  resume s =
      run_transfer_writer (record s { transfer_writer_paused = false; rollback = no_rollback })

  -- `while (transferWriterRunning)` is left: the purge, and the rewind if the watermark is above.
  unfoldable pub roll_back : ℕ → Writer → Writer
  roll_back fork_point s =
      let purged = purge_above fork_point s in
      if purged.transfer_writer_seeded && ltb fork_point purged.durable_block
      then record purged { durable_block = fork_point; rollback = rewinding }
      else resume purged

  abbrev pub call_rollback : ℕ → Rollback → Writer → Writer
  call_rollback fork_point no_rollback s = record s {
    transfer_writer_paused = true;
    rollback = quiescing fork_point;
  }
  call_rollback fork_point _ s = s

  abbrev pub poll_rollback : Rollback → Writer → Writer
  poll_rollback (quiescing fork_point) s = if is_idle s.pass then roll_back fork_point s else s
  poll_rollback _ s = s

  abbrev pub settle_rewind : Rollback → Writer → Writer
  settle_rewind rewinding s = resume s
  settle_rewind _ s = s

  abbrev pub commit_write : Pass → Writer → Writer
  commit_write (writing drained) s = fold_pass drained s
  commit_write _ s = s

  abbrev pub fail_write : Pass → Writer → Writer
  fail_write (writing drained) s = fail_pass drained s
  fail_write _ s = s

  abbrev pub commit_persist : Pass → Writer → Writer
  commit_persist (persisting drained moved) s = advance moved s
  commit_persist _ s = s

  abbrev pub fail_persist : Pass → Writer → Writer
  fail_persist (persisting drained moved) s = fail_pass drained s
  fail_persist _ s = s

  abbrev pub ring_timer : Pass → Writer → Writer
  ring_timer retrying s = loop_test s
  ring_timer _ s = s

  -- What an event does to the variables. An outcome that nothing awaits does not happen.
  unfoldable pub step : Event → Writer → Writer
  step (init_transfer_writer block) s = seed block s
  step (set_durable_floor block) s = floor_at block s
  step (enqueue_transfer_write n rows) s = enqueue n rows s
  step (enqueue_quarantined_block n) s = quarantine_block n s
  step write_committed s = commit_write s.pass s
  step write_failed s = fail_write s.pass s
  step persist_committed s = commit_persist s.pass s
  step persist_failed s = fail_persist s.pass s
  step retry_timer s = ring_timer s.pass s
  step (rollback_called fork_point) s = call_rollback fork_point s.rollback s
  step rollback_polled s = poll_rollback s.rollback s
  step rewind_settled s = settle_rewind s.rollback s

  unfoldable pub run : List Event → Writer → Writer
  run [] s = s
  run (event ∷ events) s = run events (step event s)
