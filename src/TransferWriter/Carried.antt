-- ===== src/TransferWriter/Carried.antt =====
-- apps/indexer/src/block-processor.ts: what each assignment of the transfer writer does to the place of the
-- last decode of a height.
use altscan.Prelude.{
  ℕ, ◌≡◌, ◌⊎◌, refl, sym, ap, subst, ◌∙◌, inl, inr, true, false, not, List, [], none, some, arith,
  ltb, ◌==◌, ==_iff, Bool-cases, get, put, get-put_self, get-keep_key, nat_eq, get-put_other,
}
use altscan.TransferWriter.{
  TokenTransferRow, StoredTransfer, Queue, Pass, idle, writing, persisting, retrying, Writer,
  requeue, begin_pass,
}
use altscan.TransferWriter.Seen.{Seen, after, purged, decoded, committed}
use altscan.TransferWriter.Kept.{is_writing, put_batch, put_quarantine, folded, requeued, cut}
use altscan.TransferWriter.Table.{InTable, decode_of, write-decoded, write-other}
use altscan.TransferWriter.Keys.{
  OfHeight, WellKeyed, WellKeyed-put, WellKeyed-keep, WellKeyed-requeue, get-nothing, none≢some,
  true≢false, get-requeue_kept, get-requeue_back,
}

-- A drain that holds the decode of a height, or no batch of it.
abbrev Holds : ℕ → List TokenTransferRow → Queue → Type 0
Holds n rows drained = (get n drained ≡ some (decode_of rows)) ⊎ (get n drained ≡ none)

-- With the height not queued: the drain holds the decode, or the table has its rows.
abbrev pub Carried : ℕ → List TokenTransferRow → List StoredTransfer → Pass → Type 0
Carried n rows table (writing drained) =
    (get n drained ≡ some (decode_of rows)) ⊎ ((get n drained ≡ none) × InTable n rows table)
Carried n rows table (persisting drained moved) = Holds n rows drained × InTable n rows table
Carried n rows table _ = InTable n rows table

pub record Placed (n : ℕ) (g : Seen) (s : Writer) : Type 0 where
  pub keyed : WellKeyed s.transfer_pending
  pub keyed_writing : (drained : Queue) → s.pass ≡ writing drained → WellKeyed drained
  pub keyed_persisting :
      (drained : Queue) (moved : ℕ) → s.pass ≡ persisting drained moved → WellKeyed drained
  pub placed :
      (rows : List TokenTransferRow)
      → g.latest n ≡ some rows
      → (get n s.transfer_pending ≡ some (decode_of rows))
        ⊎ ((get n s.transfer_pending ≡ none) × Carried n rows g.table s.pass)

pub WellKeyed-nil : WellKeyed []
unfolding WellKeyed
WellKeyed-nil = tt

writing-drained : {d e : Queue} → writing d ≡ writing e → d ≡ e
writing-drained h = ground arith

persisting-drained : {d e : Queue} {m n : ℕ} → persisting d m ≡ persisting e n → d ≡ e
persisting-drained h = ground arith

module _ (n : ℕ) where
  pub Carried-settled :
      (rows : List TokenTransferRow) (table : List StoredTransfer) (p : Pass)
      → is_writing p ≡ false
      → Carried n rows table p
      → InTable n rows table
  Carried-settled rows table idle h c = c
  Carried-settled rows table (writing drained) h c = elim (true≢false h) [ ]
  Carried-settled rows table (persisting drained moved) h c = c.1
  Carried-settled rows table retrying h c = c

  pub begin-Placed :
      (g : Seen) (s : Writer) → is_writing s.pass ≡ false → Placed n g s → Placed n g (begin_pass s)
  begin-Placed g s between h = record {
    keyed = WellKeyed-nil;
    keyed_writing = λ drained same. subst WellKeyed (writing-drained same) h.keyed;
    keyed_persisting = λ drained moved same. ground arith;
    placed = λ rows l. elim (h.placed rows l) [
      | inl queued ↦ inr (get-nothing n, inl queued)
      | inr (missing, c) ↦
          inr (get-nothing n, inr (missing, Carried-settled rows g.table s.pass between c))
    ];
  }

  pub decode-Placed :
      (g : Seen) (s : Writer) (k : ℕ) (decoded_rows : List TokenTransferRow)
      → OfHeight k decoded_rows
      → Placed n g s
      → Placed n (after (decoded k decoded_rows) g) (put_batch k (decode_of decoded_rows) s)
  unfolding after
  decode-Placed g s k decoded_rows of_height h = record {
    keyed = WellKeyed-put k (decode_of decoded_rows) s.transfer_pending of_height h.keyed;
    keyed_writing = h.keyed_writing;
    keyed_persisting = h.keyed_persisting;
    placed = λ rows l. elim (Bool-cases (k == n)) [
      | inl same ↦
          let is_n : k ≡ n = (==_iff k n).0 same in
          let is_rows : decoded_rows ≡ rows = latest_is rows (rw same at l) in
          inl (
            subst
              (λ j.
                get n (put j (decode_of decoded_rows) s.transfer_pending) ≡ some (decode_of rows))
              (sym is_n)
              (get-put_self n (decode_of decoded_rows) s.transfer_pending
                ∙ ap (λ r. some (decode_of r)) is_rows))
      | inr other ↦
          rw (get-put_other n k (decode_of decoded_rows) s.transfer_pending other)
            (h.placed rows (rw other at l))
    ];
  }
    where
      latest_is :
          (rows : List TokenTransferRow) → some decoded_rows ≡ some rows → decoded_rows ≡ rows
      latest_is rows e = ground arith

  pub quarantine-Placed :
      (g : Seen) (s : Writer) (k : ℕ)
      → (k == n) ≡ false
      → Placed n g s
      → Placed n g (put_quarantine k s)
  quarantine-Placed g s k other h = record {
    keyed = WellKeyed-put k (record { rows = []; quarantine = true }) s.transfer_pending tt h.keyed;
    keyed_writing = h.keyed_writing;
    keyed_persisting = h.keyed_persisting;
    placed = λ rows l.
        rw (get-put_other n k (record { rows = []; quarantine = true }) s.transfer_pending other)
          (h.placed rows l);
  }

  pub commit-Placed :
      (g : Seen) (s : Writer) (drained : Queue)
      → s.pass ≡ writing drained
      → Placed n g s
      → Placed n (after (committed drained) g) (folded drained s)
  unfolding after
  commit-Placed g s drained taken h =
      let drain_keyed = h.keyed_writing drained taken in
      record {
        keyed = h.keyed;
        keyed_writing = λ d same. ground arith;
        keyed_persisting = λ d moved same. subst WellKeyed (persisting-drained same) drain_keyed;
        placed = λ rows l. elim (h.placed rows l) [
          | inl queued ↦ inl queued
          | inr (missing, c) ↦
              inr (missing, written rows (subst (Carried n rows g.table) taken c) drain_keyed)
        ];
      }
    where
      written :
          (rows : List TokenTransferRow)
          → Carried n rows g.table (writing drained)
          → WellKeyed drained
          → Holds n rows drained × InTable n rows ((after (committed drained) g).table)
      written rows (inl there) keyed = (inl there, write-decoded n rows drained g.table keyed there)
      written rows (inr (missing, c)) keyed =
          (inr missing, write-other n rows drained g.table keyed missing c)

  pub requeue-Placed :
      (g : Seen) (s : Writer) (drained : Queue)
      → WellKeyed drained
      → ((rows : List TokenTransferRow)
          → Carried n rows g.table s.pass
          → Carried n rows g.table (writing drained))
      → Placed n g s
      → Placed n g (requeued drained s)
  requeue-Placed g s drained drain_keyed taken h = record {
    keyed = WellKeyed-requeue drained s.transfer_pending drain_keyed h.keyed;
    keyed_writing = λ d same. ground arith;
    keyed_persisting = λ d moved same. ground arith;
    placed = λ rows l. elim (h.placed rows l) [
      | inl queued ↦ inl (get-requeue_kept n drained s.transfer_pending queued)
      | inr (missing, c) ↦ back rows missing (taken rows c)
    ];
  }
    where
      back :
          (rows : List TokenTransferRow)
          → get n s.transfer_pending ≡ none
          → Carried n rows g.table (writing drained)
          → (get n (requeue drained s.transfer_pending) ≡ some (decode_of rows))
            ⊎ ((get n (requeue drained s.transfer_pending) ≡ none) × InTable n rows g.table)
      back rows missing (inl there) =
          inl (get-requeue_back n drained s.transfer_pending drain_keyed missing ∙ there)
      back rows missing (inr (absent, c)) =
          inr (get-requeue_back n drained s.transfer_pending drain_keyed missing ∙ absent, c)

  pub purge-Placed :
      (g : Seen) (s : Writer) (fork_point : ℕ)
      → s.pass ≡ idle
      → Placed n g s
      → Placed n (after (purged fork_point) g) (cut fork_point s)
  unfolding after
  purge-Placed g s fork_point now_idle h = record {
    keyed = WellKeyed-keep (λ k. not (ltb fork_point k)) s.transfer_pending h.keyed;
    keyed_writing = h.keyed_writing;
    keyed_persisting = h.keyed_persisting;
    placed = λ rows l. elim (Bool-cases (ltb fork_point n)) [
      | inl above ↦ elim (none≢some {x = rows} refl (rw above at l)) [ ]
      | inr below ↦
          rw (get-keep_key (λ k. not (ltb fork_point k)) n s.transfer_pending, below)
            (h.placed rows (rw below at l))
    ];
  }
