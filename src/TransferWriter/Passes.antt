-- ===== src/TransferWriter/Passes.antt =====
-- apps/indexer/src/block-processor.ts: the transfer writer's own calls, from the high-water test to a whole
-- rollback, keep what its assignments keep.
use altscan.Prelude.{
  ℕ, ◌+◌, ◌≡◌, refl, sym, subst, inl, inr, Bool, true, false, not, ◌&&◌, ◌||◌, List, ltb, leb,
  Bool-cases, get, nat_eq, arith,
}
use altscan.TransferWriter.{
  TokenTransferRow, Queue, Pass, idle, writing, persisting, retrying, Rollback, no_rollback,
  rewinding, Writer, is_idle, is_empty, heights, note_written, new_durable, is_decode, dropped_rows,
}
use altscan.TransferWriter.Steps.{
  evaluate_high_water, loop_test, run_transfer_writer, enqueue, quarantine_block, fold_pass,
  advance, fail_pass, purge_above, resume, roll_back, pass_done,
}
use altscan.TransferWriter.Seen.{Seen, purged, decoded, committed, after}
use altscan.TransferWriter.Kept.{is_writing, folded, advanced, requeued, cut, Kept}

idle-settled : (p : Pass) → is_idle p ≡ true → is_writing p ≡ false
idle-settled idle h = refl
idle-settled (writing drained) h = sym h
idle-settled (persisting drained moved) h = refl
idle-settled retrying h = refl

pub idle_refl : (p : Pass) → is_idle p ≡ true → p ≡ idle
idle_refl p h = ground arith

-- What a purge leaves, before the watermark is rewound.
abbrev purged_queue : ℕ → Writer → Writer
purged_queue fork_point s = record (cut fork_point s) { durable_block = s.durable_block }

may_run-idle :
    (ready paused now waiting : Bool) → (ready && not paused && now && waiting) ≡ true → now ≡ true
may_run-idle ready paused now waiting h = ground arith

module _ (high_water alert : ℕ) where
  evaluate-flagged :
      (s : Writer)
      → (b : Bool) × (evaluate_high_water high_water alert s
          ≡ record s { tt_queue_over_high_water = b })
  unfolding evaluate_high_water
  evaluate-flagged s =
      elim (Bool-cases (not s.tt_queue_over_high_water && ltb alert s.transfer_pending_rows)) [
        | inl over ↦ (true, rw over)
        | inr calm ↦
            elim (Bool-cases
              (s.tt_queue_over_high_water && leb s.transfer_pending_rows high_water)) [
                | inl under ↦ (false, rw (calm, under))
                | inr neither ↦ (s.tt_queue_over_high_water, rw (calm, neither))
              ]
      ]

  purge_above-flagged :
      (s : Writer) (fork_point : ℕ)
      → (b : Bool) × (purge_above high_water alert fork_point s
          ≡ record (purged_queue fork_point s) { tt_queue_over_high_water = b })
  unfolding purge_above
  purge_above-flagged s fork_point =
      elim (Bool-cases (ltb 0 (dropped_rows fork_point s.transfer_pending))) [
        | inl some_dropped ↦ rw some_dropped (evaluate-flagged (purged_queue fork_point s))
        | inr none_dropped ↦ (s.tt_queue_over_high_water, rw none_dropped)
      ]

  module _ {Fits : ℕ → List TokenTransferRow → Type 0} {Leaves : ℕ → Type 0}
      {P : Seen → Writer → Type 0} (kept : Kept Fits Leaves P) where
    pub evaluate-kept :
        (g : Seen) (s : Writer) → P g s → P g (evaluate_high_water high_water alert s)
    evaluate-kept g s h =
        let (b, same) = evaluate-flagged s in
        subst (P g) (sym same)
          (kept.flag g s b s.transfer_writer_paused s.tt_writer_consecutive_failures s.rollback h)

    pub run_writer-kept :
        (g : Seen) (s : Writer) → P g s → P g (run_transfer_writer high_water alert s)
    unfolding run_transfer_writer
    run_writer-kept g s h =
        elim (Bool-cases (
          s.transfer_writer_seeded
          && not s.transfer_writer_paused
          && is_idle s.pass
          && not (is_empty s.transfer_pending))) [
            | inl may ↦ rw may (
                kept.begin g s
                  (idle-settled s.pass (
                    may_run-idle s.transfer_writer_seeded s.transfer_writer_paused (is_idle s.pass)
                      (not (is_empty s.transfer_pending)) may))
                  h)
            | inr may_not ↦ rw may_not h
          ]

    -- Between two passes, whatever `pass` still says.
    pub loop_test-kept :
        (g : Seen) (s : Writer) (p : Pass)
        → is_writing p ≡ false
        → P g (record s { pass = p })
        → P g (loop_test high_water alert s)
    unfolding loop_test
    loop_test-kept g s p between h =
        let (b, same) = evaluate-flagged s in
        let flagged_too : P g (record s { tt_queue_over_high_water = b; pass = p }) =
          kept.flag g (record s { pass = p }) b s.transfer_writer_paused
            s.tt_writer_consecutive_failures s.rollback h in
        elim (Bool-cases (s.transfer_writer_paused || is_empty s.transfer_pending)) [
          | inl left ↦
              rw (left, same)
                (kept.stop g (record s { tt_queue_over_high_water = b; pass = p }) between
                  flagged_too)
          | inr goes_on ↦ rw goes_on (kept.begin g (record s { pass = p }) between h)
        ]

    pub pass_done-kept :
        (g : Seen) (s : Writer) (p : Pass)
        → is_writing p ≡ false
        → P g (record s { pass = p })
        → P g (pass_done high_water alert s)
    pass_done-kept g s p between h =
        loop_test-kept g (record s { tt_writer_consecutive_failures = 0 }) p between
          (kept.flag g (record s { pass = p }) s.tt_queue_over_high_water s.transfer_writer_paused 0
            s.rollback h)

    pub fold_pass-kept :
        (g : Seen) (s : Writer) (drained : Queue)
        → s.pass ≡ writing drained
        → P g s
        → P (after (committed drained) g) (fold_pass high_water alert drained s)
    unfolding fold_pass
    fold_pass-kept g s drained taken h =
        let done : P (after (committed drained) g) (folded drained s) =
          kept.commit g s drained taken h in
        let written = note_written s.durable_block (heights drained) s.transfer_written in
        let moved = new_durable written s.durable_block in
        elim (Bool-cases (ltb s.durable_block moved)) [
          | inl ahead ↦ rw ahead done
          | inr level ↦ rw level (
              pass_done-kept (after (committed drained) g) (record s { transfer_written = written })
                (persisting drained moved) refl done)
        ]

    pub advance-kept :
        (g : Seen) (s : Writer) (drained : Queue) (moved : ℕ)
        → s.pass ≡ persisting drained moved
        → P g s
        → P g (advance high_water alert moved s)
    unfolding advance
    advance-kept g s drained moved taken h =
        pass_done-kept g (advanced moved s) s.pass (ground arith)
          (kept.move g s drained moved taken h)

    pub fail_pass-kept :
        (g : Seen) (s : Writer) (drained : Queue)
        → P g (requeued drained s)
        → P g (fail_pass high_water alert drained s)
    unfolding fail_pass
    fail_pass-kept g s drained h = evaluate-kept g _ (
        kept.flag g (requeued drained s) s.tt_queue_over_high_water s.transfer_writer_paused
          (s.tt_writer_consecutive_failures + 1) s.rollback h)

    pub resume-kept : (g : Seen) (s : Writer) → P g s → P g (resume high_water alert s)
    unfolding resume
    resume-kept g s h = run_writer-kept g _ (
        kept.flag g s s.tt_queue_over_high_water false s.tt_writer_consecutive_failures no_rollback
          h)

    pub roll_back-kept :
        (g : Seen) (s : Writer) (fork_point : ℕ)
        → s.pass ≡ idle
        → P g s
        → P (after (purged fork_point) g) (roll_back high_water alert fork_point s)
    unfolding roll_back
    roll_back-kept g s fork_point now_idle h =
        let (b, same) = purge_above-flagged s fork_point in
        let done : P (after (purged fork_point) g) (cut fork_point s) =
          kept.purge g s fork_point now_idle h in
        let flagged_too : (r : Rollback)
            → P (after (purged fork_point) g)
                (record (cut fork_point s) { tt_queue_over_high_water = b; rollback = r }) =
          λ r.
            kept.flag (after (purged fork_point) g) (cut fork_point s) b s.transfer_writer_paused
              s.tt_writer_consecutive_failures r done in
        elim (Bool-cases (s.transfer_writer_seeded && ltb fork_point s.durable_block)) [
          | inl above ↦
              rw (same, above)
                (subst
                  (λ w. P (after (purged fork_point) g) (record (cut fork_point s) {
                    tt_queue_over_high_water = b;
                    rollback = rewinding;
                    durable_block = w;
                  }))
                  (rw above) (flagged_too rewinding))
          | inr below ↦
              rw (same, below)
                (resume-kept (after (purged fork_point) g)
                  (record (purged_queue fork_point s) { tt_queue_over_high_water = b })
                  (subst
                    (λ w. P (after (purged fork_point) g) (record (cut fork_point s) {
                      tt_queue_over_high_water = b;
                      durable_block = w;
                    }))
                    (rw below) (flagged_too s.rollback)))
        ]

    pub enqueue-kept :
        (g : Seen) (s : Writer) (n : ℕ) (rows : List TokenTransferRow)
        → Fits n rows
        → P g s
        → P (after (decoded n rows) g) (enqueue high_water alert n rows s)
    unfolding enqueue
    enqueue-kept g s n rows fits h =
        run_writer-kept _ _ (evaluate-kept _ _ (kept.decode g s n rows fits h))

    pub quarantine-kept :
        (g : Seen) (s : Writer) (n : ℕ)
        → Leaves n
        → P g s
        → P g (quarantine_block high_water alert n s)
    unfolding quarantine_block
    quarantine-kept g s n leaves h = elim (Bool-cases (is_decode (get n s.transfer_pending))) [
      | inl outranked ↦ rw outranked h
      | inr free ↦
          rw free (run_writer-kept g _ (evaluate-kept g _ (kept.quarantine g s n leaves free h)))
    ]
