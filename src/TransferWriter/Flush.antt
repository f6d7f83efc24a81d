-- ===== src/TransferWriter/Flush.antt =====
-- apps/indexer/src/block-processor.ts: the transfer writer when its failures end.
use altscan.Prelude.{
  ℕ, zero, suc, ◌≡◌, ◌⊎◌, refl, sym, subst, ◌∙◌, inl, inr, true, false, ◌||◌, List, [], ◌∷◌, ltb,
  arith, Bool-cases, ◌+◌,
}
use altscan.TransferWriter.{
  Queue, Pass, idle, writing, retrying, Writer, is_empty, heights, note_written, new_durable, Event,
  write_committed, write_failed, persist_committed, retry_timer,
}
use altscan.TransferWriter.Steps.{
  evaluate_high_water, loop_test, fold_pass, advance, fail_pass, step, run, commit_persist,
  ring_timer, fail_write, commit_write,
}
use altscan.TransferWriter.Kept.{requeued}

-- So many failed transactions, each with the timer that follows it, and then one that goes through.
pub until_written : ℕ → List Event
until_written zero = write_committed ∷ persist_committed ∷ []
until_written (suc failures) = write_failed ∷ retry_timer ∷ until_written failures

-- What the catch block leaves, before the alert is evaluated.
abbrev failed : Queue → Writer → Writer
failed drained s = record (requeued drained s) {
  tt_writer_consecutive_failures = s.tt_writer_consecutive_failures + 1;
}

module _ (high_water alert : ℕ) where
  evaluate-frame :
      (s : Writer)
      → let e = evaluate_high_water high_water alert s in
        (e.transfer_pending ≡ s.transfer_pending)
        × (e.transfer_writer_paused ≡ s.transfer_writer_paused)
        × (e.pass ≡ s.pass)
  unfolding evaluate_high_water
  evaluate-frame s = ground arith

  -- The writer runs, nothing new is queued, and the pass is being written or there is none.
  record Draining (s : Writer) : Type 0 where
    running : s.transfer_writer_paused ≡ false
    nothing_new : s.transfer_pending ≡ []
    busy_or_idle : ((drained : Queue) × (s.pass ≡ writing drained)) ⊎ (s.pass ≡ idle)

  abbrev Drained : Writer → Type 0
  Drained s = (s.transfer_pending ≡ []) × (s.pass ≡ idle)

  loop_test-empty : (s : Writer) → s.transfer_pending ≡ [] → Drained (loop_test high_water alert s)
  unfolding loop_test
  loop_test-empty s empty =
      let stops : (s.transfer_writer_paused || is_empty s.transfer_pending) ≡ true = ground arith in
      rw stops ((evaluate-frame s).0 ∙ empty, refl)

  loop_test-Draining :
      (s : Writer) → s.transfer_writer_paused ≡ false → Draining (loop_test high_water alert s)
  unfolding loop_test
  loop_test-Draining s runs =
      elim (Bool-cases (s.transfer_writer_paused || is_empty s.transfer_pending)) [
        | inl stops ↦
            let empty : s.transfer_pending ≡ [] = ground arith in
            rw stops (record {
              running = (evaluate-frame s).1 ∙ runs;
              nothing_new = (evaluate-frame s).0 ∙ empty;
              busy_or_idle = inr refl;
            })
        | inr goes_on ↦ rw goes_on (record {
          running = runs;
          nothing_new = refl;
          busy_or_idle = inl (s.transfer_pending, refl);
        })
      ]

  fail_pass-frame :
      (drained : Queue) (s : Writer)
      → let t = fail_pass high_water alert drained s in
        (t.transfer_writer_paused ≡ s.transfer_writer_paused) × (t.pass ≡ retrying)
  unfolding fail_pass
  fail_pass-frame drained s =
      ((evaluate-frame (failed drained s)).1, (evaluate-frame (failed drained s)).2)

  abbrev retried : Writer → Pass → Writer
  retried s p =
      ring_timer high_water alert (fail_write high_water alert p s).pass
        (fail_write high_water alert p s)

  retried-Draining :
      (s : Writer)
      → Draining s
      → Draining (step high_water alert retry_timer (step high_water alert write_failed s))
  unfolding step
  retried-Draining s h = elim h.busy_or_idle [
    | inl (drained, busy) ↦
        let frame = fail_pass-frame drained s in
        let failed_now = fail_pass high_water alert drained s in
        subst (λ p. Draining (retried s p)) (sym busy)
          (subst (λ q. Draining (ring_timer high_water alert q failed_now)) (sym frame.1)
            (loop_test-Draining failed_now (frame.0 ∙ h.running)))
    | inr now_idle ↦
        subst (λ p. Draining (retried s p)) (sym now_idle)
          (subst (λ q. Draining (ring_timer high_water alert q s)) (sym now_idle) h)
  ]

  commit_persist-Drained :
      (s : Writer) → Drained s → Drained (commit_persist high_water alert s.pass s)
  commit_persist-Drained s h =
      subst (λ p. Drained (commit_persist high_water alert p s)) (sym h.1) h

  fold_pass-Drained :
      (drained : Queue) (s : Writer)
      → s.transfer_pending ≡ []
      → Drained (
          commit_persist high_water alert
            (fold_pass high_water alert drained s).pass
            (fold_pass high_water alert drained s))
  unfolding fold_pass advance
  fold_pass-Drained drained s empty =
      let written = note_written s.durable_block (heights drained) s.transfer_written in
      elim (Bool-cases (ltb s.durable_block (new_durable written s.durable_block))) [
        | inl ahead ↦ rw ahead (loop_test-empty _ empty)
        | inr level ↦ rw level (commit_persist-Drained _ (loop_test-empty _ empty))
      ]

  abbrev persisted : Writer → Pass → Writer
  persisted s p =
      commit_persist high_water alert (commit_write high_water alert p s).pass
        (commit_write high_water alert p s)

  written-Drained :
      (s : Writer)
      → Draining s
      → Drained (step high_water alert persist_committed (step high_water alert write_committed s))
  unfolding step
  written-Drained s h = elim h.busy_or_idle [
    | inl (drained, busy) ↦
        subst (λ p. Drained (persisted s p)) (sym busy) (fold_pass-Drained drained s h.nothing_new)
    | inr now_idle ↦
        subst (λ p. Drained (persisted s p)) (sym now_idle)
          (commit_persist-Drained s (h.nothing_new, now_idle))
  ]

  until_written-Drained :
      (failures : ℕ) (s : Writer)
      → Draining s
      → Drained (run high_water alert (until_written failures) s)
  unfolding run until_written
  until_written-Drained zero s h = written-Drained s h
  until_written-Drained (suc failures) s h = until_written-Drained failures _ (retried-Draining s h)

  -- However often the transaction of a pass fails first, once it and the UPDATE that follows go
  -- through, and if nothing new was queued and no rollback is under way, the queue is empty and the
  -- drainer has ended.
  pub run-until_written :
      (failures : ℕ) (s : Writer) (drained : Queue)
      → s.pass ≡ writing drained
      → s.transfer_pending ≡ []
      → s.transfer_writer_paused ≡ false
      → ((run high_water alert (until_written failures) s).transfer_pending ≡ [])
        × ((run high_water alert (until_written failures) s).pass ≡ idle)
  run-until_written failures s drained busy empty runs =
      until_written-Drained failures s
        (record { running = runs; nothing_new = empty; busy_or_idle = inl (drained, busy) })
