-- ===== src/TransferWriter/Requeue.antt =====
-- apps/indexer/src/block-processor.ts: the queue after a pass of the transfer writer has failed.
use altscan.Prelude.{
  ℕ, ◌+◌, ◌≡◌, sym, subst, ◌∙◌, inl, inr, Option, none, some, Option-cases, get, nat_eq, arith,
}
use altscan.TransferWriter.{PendingBatch, Queue, writing, Writer, write_failed}
use altscan.TransferWriter.Steps.{evaluate_high_water, fail_pass, fail_write, step}
use altscan.TransferWriter.Kept.{requeued}
use altscan.TransferWriter.Keys.{WellKeyed, get-requeue_kept, get-requeue_back}

-- The first batch, or the second if there is no first.
abbrev pub first_of : Option PendingBatch → Option PendingBatch → Option PendingBatch
first_of none o = o
first_of (some batch) o = some batch

evaluate-pending :
    (high_water alert : ℕ) (s : Writer)
    → (evaluate_high_water high_water alert s).transfer_pending ≡ s.transfer_pending
unfolding evaluate_high_water
evaluate-pending high_water alert s = ground arith

-- After a failed transaction, each height has the batch that was queued for it meanwhile, whichever
-- kind it is, and otherwise the batch that the failed pass held. The pass's batches are of distinct
-- heights.
pub write_failed-get :
    (high_water alert n : ℕ) (s : Writer) (drained : Queue)
    → s.pass ≡ writing drained
    → WellKeyed drained
    → get n (step high_water alert write_failed s).transfer_pending
      ≡ first_of (get n s.transfer_pending) (get n drained)
unfolding step fail_pass
write_failed-get high_water alert n s drained busy keyed =
    let left : Writer = record (requeued drained s) {
      tt_writer_consecutive_failures = s.tt_writer_consecutive_failures + 1;
    } in
    subst
      (λ p.
        get n (fail_write high_water alert p s).transfer_pending
        ≡ first_of (get n s.transfer_pending) (get n drained))
      (sym busy)
      (rw (evaluate-pending high_water alert left) (elim (Option-cases (get n s.transfer_pending)) [
        | inl missing ↦ get-requeue_back n drained s.transfer_pending keyed missing ∙ rw missing
        | inr (batch, queued) ↦ get-requeue_kept n drained s.transfer_pending queued ∙ rw queued
      ]))
