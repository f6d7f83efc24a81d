-- ===== src/Reorg/Crash.antt =====
-- The rollback when one of its statements fails: the statements before it have run.
use native.Mathlib.Decide.{dec_le}
use altscan.Prelude.{
  ℕ, zero, suc, ◌≤◌, ◌<◌, ◌≡◌, ◌⊎◌, inl, inr, refl, sym, subst, true, List, [], ◌∷◌, ◌++◌, arith,
  ltb, length, All, All-filter_by, filter_by, map,
}
use altscan.Db.{Db, Row, BlockRow, has_block}
use altscan.Reorg.{
  rows_below, rewind_cursor, unwind_order, delete_from, unwind_statements, run_statements,
  unwind_from, logs, token_transfers, dex_trades, internal_transactions, gas_history, transactions,
  blocks,
}
use altscan.Reorg.Unwind.{All-below}

-- Every transaction's block is there: the foreign key of `transactions`.
abbrev pub Referenced : Db → Type 0
Referenced db = All (λ t. has_block t.block_number db.blocks ≡ true) db.transactions

has_block-below :
    (n k : ℕ) (bs : List BlockRow)
    → k < n
    → has_block k bs ≡ true
    → has_block k (filter_by (λ b. ltb b.number n) bs) ≡ true
unfolding has_block
has_block-below n k [] h e = e
has_block-below n k (b ∷ bs) h e = ground (arith, has_block-below n k bs h)

Referenced-delete_blocks :
    (n : ℕ) (bs : List BlockRow) (ts : List Row)
    → All (λ t. t.block_number < n) ts
    → All (λ t. has_block t.block_number bs ≡ true) ts
    → All (λ t. has_block t.block_number (filter_by (λ b. ltb b.number n) bs) ≡ true) ts
Referenced-delete_blocks n bs [] low r = tt
Referenced-delete_blocks n bs (t ∷ ts) (l, low) (h, r) =
    (has_block-below n t.block_number bs l h, Referenced-delete_blocks n bs ts low r)

run_statements_append :
    (done : ℕ) (steps more : List (Db → Db)) (db : Db)
    → done ≤ length steps
    → run_statements done (steps ++ more) db ≡ run_statements done steps db
unfolding run_statements
run_statements_append zero steps more db h = refl
run_statements_append (suc done) [] more db h = elim h [ ]
run_statements_append (suc done) (step ∷ steps) more db h =
    run_statements_append done steps more (step db) (omega arith)

run_statements_all :
    (done : ℕ) (steps : List (Db → Db)) (db : Db)
    → length steps ≤ done
    → run_statements done steps db ≡ run_statements (length steps) steps db
unfolding run_statements
run_statements_all zero [] db h = refl
run_statements_all (suc done) [] db h = refl
run_statements_all zero (step ∷ steps) db h = elim h [ ]
run_statements_all (suc done) (step ∷ steps) db h =
    run_statements_all done steps (step db) (omega arith)

-- What every one of a list of statements keeps, a part of them keeps.
run_statements_inv {ℓ} :
    (P : Db → Type ℓ) (steps : List (Db → Db)) (done : ℕ) (db : Db)
    → All (λ step. (d : Db) → P d → P (step d)) steps
    → P db
    → P (run_statements done steps db)
unfolding run_statements
run_statements_inv P steps zero db keeps h = h
run_statements_inv P [] (suc done) db keeps h = h
run_statements_inv P (step ∷ steps) (suc done) db (k, keeps) h =
    run_statements_inv P steps done (step db) keeps (k db h)

module _ (n : ℕ) (db : Db) (linked : Referenced db) where
  -- The statements before the last one, which deletes the blocks.
  abbrev early : List (Db → Db)
  early =
      (λ d. record d { poison_blocks = filter_by (λ p. ltb p.block_number n) d.poison_blocks })
      ∷ (λ d. record d { index_gaps = map (rewind_cursor n) d.index_gaps })
      ∷ map (delete_from n) (
          logs ∷ token_transfers ∷ dex_trades ∷ internal_transactions ∷ gas_history ∷ transactions
          ∷ [])

  abbrev Kept : Db → Type 0
  Kept d = (d.blocks ≡ db.blocks) × Referenced d

  early_keeps : All (λ step. (d : Db) → Kept d → Kept (step d)) early
  early_keeps =
      let same : (d : Db) → Kept d → Kept d = λ d k. k in
      let unlinked : (d : Db) → Kept d → Kept (delete_from n transactions d) = λ d k. (
        k.0,
        All-filter_by (λ t. has_block t.block_number d.blocks ≡ true) (λ r. ltb r.block_number n)
            d.transactions k.1,
      ) in
      (same, (same, (same, (same, (same, (same, (same, (unlinked, tt))))))))

  finished : Referenced (unwind_from n db)
  unfolding unwind_from run_statements
  finished =
      Referenced-delete_blocks n db.blocks (rows_below n db.transactions)
        (All-below (λ r. r.block_number) n db.transactions)
        (All-filter_by (λ t. has_block t.block_number db.blocks ≡ true) (λ r. ltb r.block_number n)
          db.transactions linked)

  all_run : (done : ℕ) → 9 ≤ done → run_statements done (unwind_statements n) db ≡ unwind_from n db
  unfolding unwind_from
  all_run done h = run_statements_all done (unwind_statements n) db h

  part_run :
      (done : ℕ)
      → let d = run_statements done (unwind_statements n) db in
        Referenced d × ((d.blocks ≡ db.blocks) ⊎ (d ≡ unwind_from n db))
  part_run done = elim (dec_le done 8) [
    | yes before ↦
        let kept : Kept (run_statements done (unwind_statements n) db) =
          subst (λ d. Kept d)
            (sym (run_statements_append done early (delete_from n blocks ∷ []) db before))
            (run_statements_inv Kept early done db early_keeps (refl, linked)) in
        (kept.1, inl kept.0)
    | no after ↦
        let all : run_statements done (unwind_statements n) db ≡ unwind_from n db =
          all_run done (omega arith) in
        (subst Referenced (sym all) finished, inr all)
  ]

unpoisoned :
    (n : ℕ) (db : Db) (done : ℕ)
    → 1 ≤ done
    → All (λ p. p.block_number < n) (run_statements done (unwind_statements n) db).poison_blocks
unfolding run_statements
unpoisoned n db zero h = elim h [ ]
unpoisoned n db (suc done) h =
    let Clean : Db → Type 0 = λ d. All (λ p. p.block_number < n) d.poison_blocks in
    let same : (d : Db) → Clean d → Clean d = λ d k. k in
    run_statements_inv Clean
      ((λ d. record d { index_gaps = map (rewind_cursor n) d.index_gaps })
        ∷ map (delete_from n) unwind_order)
      done (record db { poison_blocks = filter_by (λ p. ltb p.block_number n) db.poison_blocks })
      (same, (same, (same, (same, (same, (same, (same, (same, tt))))))))
      (All-below (λ p. p.block_number) n db.poison_blocks)

-- Whatever statement of the rollback fails, no transaction is left without its block, if none was
-- before. Either the `blocks` table is as it was, so that the same fork is seen again, or the
-- rollback is complete. And from the first statement on, no quarantine of a height that is rolled
-- back is left.
pub run_statements-unwind :
    (n : ℕ) (db : Db) (done : ℕ)
    → Referenced db
    → let d = run_statements done (unwind_statements n) db in
      Referenced d
      × ((d.blocks ≡ db.blocks) ⊎ (d ≡ unwind_from n db))
      × (1 ≤ done → All (λ p. p.block_number < n) d.poison_blocks)
run_statements-unwind n db done linked =
    let run = part_run n db linked done in (run.0, run.1, unpoisoned n db done)
