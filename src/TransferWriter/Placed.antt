-- ===== src/TransferWriter/Placed.antt =====
-- apps/indexer/src/block-processor.ts: where the last decode of a height is, between its call of
-- `enqueueTransferWrite` and its rows in `token_transfers`.
use altscan.Prelude.{
  ℕ, ◌≡◌, ◌⊎◌, subst, inl, inr, false, List, none, some, arith, ◌==◌, All, get, nat_eq,
}
use altscan.TransferWriter.{
  TokenTransferRow, StoredTransfer, Queue, writing, persisting, Event, new_writer,
}
use altscan.TransferWriter.Steps.{run}
use altscan.TransferWriter.Seen.{seen_from, watch, after}
use altscan.TransferWriter.Kept.{Kept, Allowed}
use altscan.TransferWriter.History.{watch-kept}
use altscan.TransferWriter.Table.{decode_of}
use altscan.TransferWriter.Keys.{OfHeight}
use altscan.TransferWriter.Carried.{
  Carried, Placed, WellKeyed-nil, Carried-settled, begin-Placed, decode-Placed, quarantine-Placed,
  commit-Placed, requeue-Placed, purge-Placed,
}

module _ (n : ℕ) where
  Leaves : ℕ → Type 0
  Leaves k = (k == n) ≡ false

  Placed-Kept : Kept OfHeight Leaves (Placed n)
  unfolding after Leaves
  Placed-Kept = record {
    flag = λ g s over paused failures r h. record {
      keyed = h.keyed;
      keyed_writing = h.keyed_writing;
      keyed_persisting = h.keyed_persisting;
      placed = h.placed;
    };
    stop = λ g s between h. record {
      keyed = h.keyed;
      keyed_writing = λ d same. ground arith;
      keyed_persisting = λ d moved same. ground arith;
      placed = λ rows l. elim (h.placed rows l) [
        | inl queued ↦ inl queued
        | inr (missing, c) ↦ inr (missing, Carried-settled n rows g.table s.pass between c)
      ];
    };
    begin = begin-Placed n;
    start = λ g s block h. record {
      keyed = h.keyed;
      keyed_writing = h.keyed_writing;
      keyed_persisting = h.keyed_persisting;
      placed = h.placed;
    };
    floor = λ g s block ready h. record {
      keyed = h.keyed;
      keyed_writing = h.keyed_writing;
      keyed_persisting = h.keyed_persisting;
      placed = h.placed;
    };
    decode = decode-Placed n;
    quarantine = λ g s k leaves free h. quarantine-Placed n g s k leaves h;
    commit = commit-Placed n;
    move = λ g s drained moved taken h. record {
      keyed = h.keyed;
      keyed_writing = h.keyed_writing;
      keyed_persisting = h.keyed_persisting;
      placed = h.placed;
    };
    fail_writing = λ g s drained taken h.
        requeue-Placed n g s drained (h.keyed_writing drained taken)
          (λ rows c. subst (Carried n rows g.table) taken c) h;
    fail_persisting = λ g s drained moved taken h.
        requeue-Placed n g s drained (h.keyed_persisting drained moved taken)
          (λ rows c. held rows g.table drained moved (subst (Carried n rows g.table) taken c)) h;
    purge = purge-Placed n;
  }
    where
      held :
          (rows : List TokenTransferRow) (table : List StoredTransfer) (drained : Queue) (moved : ℕ)
          → Carried n rows table (persisting drained moved)
          → Carried n rows table (writing drained)
      held rows table drained moved (inl there, c) = inl there
      held rows table drained moved (inr missing, c) = inr (missing, c)

-- In a history in which every decode has rows of its own height, and height `n` is never quarantined,
-- the last decode of `n` since the last rollback below it is queued, or held by the pass that is being
-- written, or exactly its rows are the rows of height `n` in `token_transfers`. Until a newer decode
-- comes, no failure, retry, replay or write of another height changes that.
pub watch-Placed :
    (high_water alert n : ℕ) (table : List StoredTransfer) (events : List Event)
    → All (Allowed OfHeight (λ k. (k == n) ≡ false)) events
    → (rows : List TokenTransferRow)
    → (watch high_water alert events new_writer (seen_from table)).latest n ≡ some rows
    → (get n (run high_water alert events new_writer).transfer_pending ≡ some (decode_of rows))
      ⊎ ((get n (run high_water alert events new_writer).transfer_pending ≡ none)
          × Carried n rows
              (watch high_water alert events new_writer (seen_from table)).table
              (run high_water alert events new_writer).pass)
unfolding Leaves
watch-Placed high_water alert n table events allowed =
    (watch-kept high_water alert (Placed-Kept n) events (seen_from table) new_writer allowed
      (record {
        keyed = WellKeyed-nil;
        keyed_writing = λ d same. ground arith;
        keyed_persisting = λ d moved same. ground arith;
        placed = λ rows l. ground arith;
      })).placed
