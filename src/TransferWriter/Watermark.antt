-- ===== src/TransferWriter/Watermark.antt =====
-- apps/indexer/src/block-processor.ts: `durableBlock`, the watermark of the transfer writer.
use altscan.Prelude.{
  ℕ, ◌≤◌, ◌<◌, ◌≡◌, refl, inl, inr, Bool, true, false, not, ◌&&◌, ◌||◌, List, ◌∷◌, arith, ltb, leb,
  Bool-cases, has, nat_eq,
}
use altscan.TransferWriter.{
  Queue, StoredTransfer, idle, writing, persisting, Writer, heights, note_written, new_durable,
  Event, set_durable_floor, persist_committed, new_writer, init_transfer_writer,
}
use altscan.TransferWriter.Steps.{
  run, step, floor_at, advance, loop_test, evaluate_high_water, seed, run_transfer_writer,
}
use altscan.TransferWriter.Seen.{Seen, seen_from, watch, after, seeded, purged, committed, change}
use altscan.TransferWriter.Kept.{Kept, AlwaysFits, AlwaysLeaves, folded, cut}
use altscan.TransferWriter.History.{watch-kept_always}
use altscan.TransferWriter.Fold.{
  has-note_written, has-filter_by, has-filter_by_self, new_durable-gap,
}

pub record Accounted (g : Seen) (s : Writer) : Type 0 where
  pub up_to_durable : (n : ℕ) → n ≤ s.durable_block → g.accounted n ≡ true
  pub of_written : (n : ℕ) → has n s.transfer_written ≡ true → g.accounted n ≡ true
  pub up_to_moved :
      (drained : Queue) (moved : ℕ)
      → s.pass ≡ persisting drained moved
      → (n : ℕ) → n ≤ moved
      → g.accounted n ≡ true
  pub ready : s.transfer_writer_seeded ≡ true

or_left : (a b : Bool) → a ≡ true → (a || b) ≡ true
or_left a b h = ground arith

or_right : (a b : Bool) → b ≡ true → (a || b) ≡ true
or_right a b h = ground arith

accounted-note_written :
    (g : Seen) (s : Writer) (drained : Queue) (n : ℕ)
    → Accounted g s
    → has n (note_written s.durable_block (heights drained) s.transfer_written) ≡ true
    → (g.accounted n || has n (heights drained)) ≡ true
accounted-note_written g s drained n h there =
    elim (has-note_written n s.durable_block (heights drained) s.transfer_written there) [
      | inl drained_now ↦ or_right (g.accounted n) _ drained_now
      | inr before ↦ or_left (g.accounted n) _ (h.of_written n before)
    ]

persisting-moved : {d e : Queue} {m n : ℕ} → persisting d m ≡ persisting e n → m ≡ n
persisting-moved h = ground arith

commit-Accounted :
    (g : Seen) (s : Writer) (drained : Queue)
    → s.pass ≡ writing drained
    → Accounted g s
    → Accounted (after (committed drained) g) (folded drained s)
unfolding after
commit-Accounted g s drained taken h =
    let written = note_written s.durable_block (heights drained) s.transfer_written in
    record {
      up_to_durable = λ n le. or_left (g.accounted n) _ (h.up_to_durable n le);
      of_written = λ n there. accounted-note_written g s drained n h there;
      up_to_moved = λ d moved same n le. elim (Bool-cases (leb n s.durable_block)) [
        | inl low ↦ or_left (g.accounted n) _ (h.up_to_durable n (ground arith))
        | inr high ↦
            let is_moved : new_durable written s.durable_block ≡ moved = persisting-moved same in
            accounted-note_written g s drained n h
              ((new_durable-gap written s.durable_block).1 n (ground arith) (omega arith))
      ];
      ready = h.ready;
    }

purge-Accounted :
    (g : Seen) (s : Writer) (fork_point : ℕ)
    → s.pass ≡ idle
    → Accounted g s
    → Accounted (after (purged fork_point) g) (cut fork_point s)
unfolding after
purge-Accounted g s fork_point now_idle h = record {
  up_to_durable = λ n le.
      let low : (n ≤ s.durable_block) × (n ≤ fork_point) = bounds n le in
      both (g.accounted n) n (h.up_to_durable n low.0) low.1;
  of_written = λ n there.
      let kept = has-filter_by_self n (λ k. not (ltb fork_point k)) s.transfer_written there in
      let old = h.of_written n (has-filter_by n _ s.transfer_written there) in
      ground (arith, kept, old);
  up_to_moved = λ d moved same. ground arith;
  ready = h.ready;
}
  where
    bounds :
        (n : ℕ) → n ≤ (cut fork_point s).durable_block → (n ≤ s.durable_block) × (n ≤ fork_point)
    bounds n le = ground (arith, h.ready)

    both : (b : Bool) (n : ℕ) → b ≡ true → n ≤ fork_point → (b && not (ltb fork_point n)) ≡ true
    both b n is le = ground arith

Accounted-Kept : Kept AlwaysFits AlwaysLeaves Accounted
unfolding after
Accounted-Kept = record {
  flag = λ g s over paused failures r h. record {
    up_to_durable = h.up_to_durable;
    of_written = h.of_written;
    up_to_moved = h.up_to_moved;
    ready = h.ready;
  };
  stop = λ g s between h. record {
    up_to_durable = h.up_to_durable;
    of_written = h.of_written;
    up_to_moved = λ d moved same. ground arith;
    ready = h.ready;
  };
  begin = λ g s between h. record {
    up_to_durable = h.up_to_durable;
    of_written = h.of_written;
    up_to_moved = λ d moved same. ground arith;
    ready = h.ready;
  };
  start = λ g s block h. record {
    up_to_durable = λ n le. ground arith;
    of_written = λ n there. or_left _ _ (h.of_written n there);
    up_to_moved = λ d moved same n le. or_left _ _ (h.up_to_moved d moved same n le);
    ready = refl;
  };
  floor = λ g s block ready h. record {
    up_to_durable = λ n le. ground arith;
    of_written = λ n there.
        or_left _ _ (h.of_written n (has-filter_by n (ltb block) s.transfer_written there));
    up_to_moved = λ d moved same n le. or_left _ _ (h.up_to_moved d moved same n le);
    ready = h.ready;
  };
  decode = λ g s n rows fits h. record {
    up_to_durable = h.up_to_durable;
    of_written = h.of_written;
    up_to_moved = h.up_to_moved;
    ready = h.ready;
  };
  quarantine = λ g s n leaves free h. record {
    up_to_durable = h.up_to_durable;
    of_written = h.of_written;
    up_to_moved = h.up_to_moved;
    ready = h.ready;
  };
  commit = commit-Accounted;
  move = λ g s drained moved taken h. record {
    up_to_durable = h.up_to_moved drained moved taken;
    of_written = λ n there. h.of_written n (has-filter_by n _ s.transfer_written there);
    up_to_moved = h.up_to_moved;
    ready = h.ready;
  };
  fail_writing = λ g s drained taken h. record {
    up_to_durable = h.up_to_durable;
    of_written = h.of_written;
    up_to_moved = λ d moved same. ground arith;
    ready = h.ready;
  };
  fail_persisting = λ g s drained moved taken h. record {
    up_to_durable = h.up_to_durable;
    of_written = h.of_written;
    up_to_moved = λ d moved same. ground arith;
    ready = h.ready;
  };
  purge = purge-Accounted;
}

-- A run of the process: the writer is seeded first, as the indexer does before its loop.
abbrev pub seeded_run : (high_water alert seed : ℕ) → List Event → Writer
seeded_run high_water alert block events =
    run high_water alert (init_transfer_writer block ∷ events) new_writer

abbrev pub seeded_watch : (high_water alert seed : ℕ) → List StoredTransfer → List Event → Seen
seeded_watch high_water alert block table events =
    watch high_water alert (init_transfer_writer block ∷ events) new_writer (seen_from table)

-- Once the writer is seeded, every height up to the watermark, and every height up to the value that
-- is on its way to the cursor, is accounted for: a committed pass held its batch, or the seed or a
-- floor is not below it, since the last rollback below it. This holds through any calls, failures and
-- rollbacks in any order.
pub seeded_run-accounted :
    (high_water alert block : ℕ) (table : List StoredTransfer) (events : List Event)
    → let s = seeded_run high_water alert block events in
      let g = seeded_watch high_water alert block table events in
      ((n : ℕ) → n ≤ s.durable_block → g.accounted n ≡ true)
      × ((drained : Queue) (moved : ℕ)
          → s.pass ≡ persisting drained moved
          → (n : ℕ) → n ≤ moved
          → g.accounted n ≡ true)
unfolding run watch step seed run_transfer_writer change after has
seeded_run-accounted high_water alert block table events =
    let start : Accounted (after (seeded block) (seen_from table))
        (record new_writer { durable_block = block; transfer_writer_seeded = true }) =
      record {
        up_to_durable = λ n le. ground arith;
        of_written = λ n there. ground arith;
        up_to_moved = λ d moved same. ground arith;
        ready = refl;
      } in
    let kept = watch-kept_always high_water alert Accounted-Kept events _ _ start in
    (kept.up_to_durable, kept.up_to_moved)

evaluate-durable :
    (high_water alert : ℕ) (s : Writer)
    → (evaluate_high_water high_water alert s).durable_block ≡ s.durable_block
unfolding evaluate_high_water
evaluate-durable high_water alert s = ground arith

loop_test-durable :
    (high_water alert : ℕ) (s : Writer)
    → (loop_test high_water alert s).durable_block ≡ s.durable_block
unfolding loop_test
loop_test-durable high_water alert s = ground (arith, evaluate-durable high_water alert s)

-- When a floor arrives while a pass awaits the UPDATE of the watermark, the end of that UPDATE sets the
-- watermark back to the pass's value, whatever the floor was.
pub persist_committed-floor :
    (high_water alert : ℕ) (s : Writer) (drained : Queue) (moved block : ℕ)
    → s.pass ≡ persisting drained moved
    → s.transfer_writer_seeded ≡ true
    → s.durable_block < block
    → ((step high_water alert (set_durable_floor block) s).durable_block ≡ block)
      × ((step high_water alert persist_committed
            (step high_water alert (set_durable_floor block) s)).durable_block
          ≡ moved)
unfolding step floor_at advance
persist_committed-floor high_water alert s drained moved block taken ready above =
    let applies : (not s.transfer_writer_seeded || leb block s.durable_block) ≡ false =
      ground arith in
    rw (applies, taken) (refl, loop_test-durable high_water alert _)
