-- ===== src/TransferWriter/Queue.antt =====
-- apps/indexer/src/block-processor.ts: `transferPendingRows`, the counter on which backpressure and the
-- high-water alert rest.
use altscan.Prelude.{
  ℕ, ◌+◌, ◌≤◌, ◌≡◌, refl, inl, inr, true, false, List, [], ◌∷◌, none, arith, ltb, Bool-cases,
  length, get, put, keep, has, nat_eq, not,
}
use altscan.TransferWriter.{
  PendingBatch, Queue, Writer, heights, requeue, requeued_rows, rows_at, dropped_rows, Event,
  new_writer,
}
use altscan.TransferWriter.Steps.{run}
use altscan.TransferWriter.Seen.{Seen, seen_from}
use altscan.TransferWriter.Kept.{Kept, AlwaysFits, AlwaysLeaves, put_batch, requeued}
use altscan.TransferWriter.History.{watch-kept_always}

-- The rows that the queue holds.
queued : Queue → ℕ
queued [] = 0
queued ((n, batch) ∷ m) = length batch.rows + queued m

queued-put :
    (n : ℕ) (batch : PendingBatch) (m : Queue)
    → queued (put n batch m) + rows_at (get n m) ≡ queued m + length batch.rows
unfolding put get queued
queued-put n batch [] = omega arith
queued-put n batch ((k, old) ∷ m) = ground (arith, queued-put n batch m)

queued-keep :
    (fork_point : ℕ) (m : Queue)
    → queued (keep (λ n _. not (ltb fork_point n)) m) + dropped_rows fork_point m ≡ queued m
unfolding keep queued
queued-keep fork_point [] = omega arith
queued-keep fork_point ((k, old) ∷ m) = ground (arith, queued-keep fork_point m)

pub get-unqueued : (n : ℕ) (m : Queue) → has n (heights m) ≡ false → get n m ≡ none
unfolding has heights get
get-unqueued n [] h = refl
get-unqueued n ((k, batch) ∷ m) h = ground (arith, get-unqueued n m)

queued-requeue :
    (drained pending : Queue)
    → queued (requeue drained pending) ≡ queued pending + requeued_rows drained pending
unfolding requeue requeued_rows
queued-requeue [] pending = omega arith
queued-requeue ((n, batch) ∷ drained) pending = elim (Bool-cases (has n (heights pending))) [
  | inl there ↦ rw there (queued-requeue drained pending)
  | inr missing ↦
      let nothing : get n pending ≡ none = get-unqueued n pending missing in
      let grown : queued (put n batch pending) ≡ queued pending + length batch.rows =
        by_put nothing (queued-put n batch pending) in
      rw missing (omega (arith, queued-requeue drained (put n batch pending), grown))
]
  where
    by_put :
        get n pending ≡ none
        → queued (put n batch pending) + rows_at (get n pending)
          ≡ queued pending + length batch.rows
        → queued (put n batch pending) ≡ queued pending + length batch.rows
    by_put nothing h = ground arith

queued-get : (n : ℕ) (m : Queue) → rows_at (get n m) ≤ queued m
unfolding get queued
queued-get n [] = omega arith
queued-get n ((k, batch) ∷ m) = ground (arith, queued-get n m)

record Counted (g : Seen) (s : Writer) : Type 0 where
  pub rows_counted : s.transfer_pending_rows ≡ queued s.transfer_pending

put-Counted :
    (g k : Seen) (n : ℕ) (batch : PendingBatch) (s : Writer)
    → Counted g s
    → Counted k (put_batch n batch s)
put-Counted g k n batch s h = record {
  rows_counted = omega (
    arith,
    h.rows_counted,
    queued-put n batch s.transfer_pending,
    queued-get n s.transfer_pending,
  );
}

requeued-Counted :
    (g : Seen) (s : Writer) (drained : Queue) → Counted g s → Counted g (requeued drained s)
requeued-Counted g s drained h = record {
  rows_counted = omega (arith, h.rows_counted, queued-requeue drained s.transfer_pending);
}

Counted-Kept : Kept AlwaysFits AlwaysLeaves Counted
unfolding queued
Counted-Kept = record {
  flag = λ g s over paused failures r h. record { rows_counted = h.rows_counted };
  stop = λ g s between h. record { rows_counted = h.rows_counted };
  begin = λ g s between h. record { rows_counted = refl };
  start = λ g s block h. record { rows_counted = h.rows_counted };
  floor = λ g s block seeded h. record { rows_counted = h.rows_counted };
  decode = λ g s n rows fits h. put-Counted g _ n (record { rows = rows; quarantine = false }) s h;
  quarantine = λ g s n leaves free h.
      let put_there = put-Counted g g n (record { rows = []; quarantine = true }) s h in
      record { rows_counted = omega (arith, put_there.rows_counted) };
  commit = λ g s drained taken h. record { rows_counted = h.rows_counted };
  move = λ g s drained moved taken h. record { rows_counted = h.rows_counted };
  fail_writing = λ g s drained taken h. requeued-Counted g s drained h;
  fail_persisting = λ g s drained moved taken h. requeued-Counted g s drained h;
  purge = λ g s fork_point now_idle h. record {
    rows_counted = omega (arith, h.rows_counted, queued-keep fork_point s.transfer_pending);
  };
}

-- From the start of the process, through any calls, outcomes and rollbacks in any order, the
-- counter of queued rows is the number of rows in the queue.
run-queued :
    (high_water alert : ℕ) (events : List Event)
    → (run high_water alert events new_writer).transfer_pending_rows
      ≡ queued (run high_water alert events new_writer).transfer_pending
unfolding queued
run-queued high_water alert events =
    (watch-kept_always high_water alert Counted-Kept events (seen_from []) new_writer
      (record { rows_counted = refl })).rows_counted
