-- ===== src/TransferWriter/History.antt =====
-- apps/indexer/src/block-processor.ts: every event of the transfer writer keeps what its assignments
-- keep, whatever happens in which order.
use altscan.Prelude.{
  ℕ, ◌≡◌, refl, inl, inr, true, false, not, ◌||◌, List, [], ◌∷◌, leb, Bool-cases, nat_eq, arith,
  All, All-each,
}
use altscan.TransferWriter.{
  TokenTransferRow, Pass, idle, writing, persisting, retrying, Rollback, no_rollback, quiescing,
  rewinding, Writer, is_idle, Event, init_transfer_writer, set_durable_floor,
  enqueue_transfer_write, enqueue_quarantined_block, write_committed, write_failed,
  persist_committed, persist_failed, retry_timer, rollback_called, rollback_polled, rewind_settled,
}
use altscan.TransferWriter.Steps.{
  seed, floor_at, step, run, commit_write, fail_write, commit_persist, fail_persist, ring_timer,
  call_rollback, poll_rollback, settle_rewind,
}
use altscan.TransferWriter.Seen.{Seen, after, change, watch, committing, purging}
use altscan.TransferWriter.Kept.{Kept, Allowed, AlwaysFits, AlwaysLeaves}
use altscan.TransferWriter.Passes.{
  idle_refl, run_writer-kept, loop_test-kept, fold_pass-kept, advance-kept, fail_pass-kept,
  resume-kept, roll_back-kept, enqueue-kept, quarantine-kept,
}

module _ (high_water alert : ℕ) where
  module _ {Fits : ℕ → List TokenTransferRow → Type 0} {Leaves : ℕ → Type 0}
      {P : Seen → Writer → Type 0} (kept : Kept Fits Leaves P) where
    write-kept :
        (g : Seen) (s : Writer) (p : Pass)
        → s.pass ≡ p
        → P g s
        → P (after (committing p) g) (commit_write high_water alert p s)
          × P g (fail_write high_water alert p s)
    unfolding after
    write-kept g s idle same h = (h, h)
    write-kept g s (writing drained) same h = (
      fold_pass-kept high_water alert kept g s drained same h,
      fail_pass-kept high_water alert kept g s drained (kept.fail_writing g s drained same h),
    )
    write-kept g s (persisting drained moved) same h = (h, h)
    write-kept g s retrying same h = (h, h)

    persist-kept :
        (g : Seen) (s : Writer) (p : Pass)
        → s.pass ≡ p
        → P g s
        → P g (commit_persist high_water alert p s)
          × P g (fail_persist high_water alert p s)
          × P g (ring_timer high_water alert p s)
    persist-kept g s idle same h = (h, h, h)
    persist-kept g s (writing drained) same h = (h, h, h)
    persist-kept g s (persisting drained moved) same h = (
      advance-kept high_water alert kept g s drained moved same h,
      fail_pass-kept high_water alert kept g s drained
          (kept.fail_persisting g s drained moved same h),
      h,
    )
    persist-kept g s retrying same h =
        (h, h, loop_test-kept high_water alert kept g s s.pass (ground arith) h)

    rollback-kept :
        (g : Seen) (s : Writer) (f : ℕ) (r : Rollback)
        → P g s
        → P g (call_rollback high_water alert f r s)
          × P (after (purging r s) g) (poll_rollback high_water alert r s)
          × P g (settle_rewind high_water alert r s)
    unfolding after
    rollback-kept g s f no_rollback h = (
      kept.flag g s s.tt_queue_over_high_water true s.tt_writer_consecutive_failures (quiescing f)
          h,
      h,
      h,
    )
    rollback-kept g s f (quiescing fork_point) h = (
      h,
      elim (Bool-cases (is_idle s.pass)) [
        | inl now_idle ↦
            rw now_idle
              (roll_back-kept high_water alert kept g s fork_point (idle_refl s.pass now_idle) h)
        | inr busy ↦ rw busy h
      ],
      h,
    )
    rollback-kept g s f rewinding h = (h, h, resume-kept high_water alert kept g s h)

    step-kept :
        (g : Seen) (s : Writer) (event : Event)
        → Allowed Fits Leaves event
        → P g s
        → P (after (change event s) g) (step high_water alert event s)
    unfolding step change seed floor_at after
    step-kept g s (init_transfer_writer block) q h =
        run_writer-kept high_water alert kept _ _ (kept.start g s block h)
    step-kept g s (set_durable_floor block) q h =
        elim (Bool-cases (not s.transfer_writer_seeded || leb block s.durable_block)) [
          | inl idle_call ↦ rw idle_call h
          | inr above ↦ rw above (kept.floor g s block (ready above) h)
        ]
      where
        ready :
            (not s.transfer_writer_seeded || leb block s.durable_block) ≡ false
            → s.transfer_writer_seeded ≡ true
        ready above = ground arith
    step-kept g s (enqueue_transfer_write n rows) q h =
        enqueue-kept high_water alert kept g s n rows q h
    step-kept g s (enqueue_quarantined_block n) q h =
        quarantine-kept high_water alert kept g s n q h
    step-kept g s write_committed q h = (write-kept g s s.pass refl h).0
    step-kept g s write_failed q h = (write-kept g s s.pass refl h).1
    step-kept g s persist_committed q h = (persist-kept g s s.pass refl h).0
    step-kept g s persist_failed q h = (persist-kept g s s.pass refl h).1
    step-kept g s retry_timer q h = (persist-kept g s s.pass refl h).2
    step-kept g s (rollback_called f) q h = (rollback-kept g s f s.rollback h).0
    step-kept g s rollback_polled q h = (rollback-kept g s 0 s.rollback h).1
    step-kept g s rewind_settled q h = (rollback-kept g s 0 s.rollback h).2

    pub watch-kept :
        (events : List Event) (g : Seen) (s : Writer)
        → All (Allowed Fits Leaves) events
        → P g s
        → P (watch high_water alert events s g) (run high_water alert events s)
    unfolding watch run
    watch-kept [] g s all h = h
    watch-kept (event ∷ events) g s (allowed, all) h =
        watch-kept events (after (change event s) g) (step high_water alert event s) all
          (step-kept g s event allowed h)

always-Allowed : (event : Event) → Allowed AlwaysFits AlwaysLeaves event
always-Allowed event = elim event as (λ e. Allowed AlwaysFits AlwaysLeaves e) [
  | enqueue_transfer_write n rows ↦ tt
  | enqueue_quarantined_block n ↦ tt
  | _ ↦ tt
]

-- A property that every decode and every quarantine keeps.
pub watch-kept_always :
    (high_water alert : ℕ) {P : Seen → Writer → Type 0}
    → Kept AlwaysFits AlwaysLeaves P
    → (events : List Event) (g : Seen) (s : Writer) → P g s
    → P (watch high_water alert events s g) (run high_water alert events s)
watch-kept_always high_water alert kept events g s h =
    watch-kept high_water alert kept events g s
      (All-each (Allowed AlwaysFits AlwaysLeaves) always-Allowed events) h
