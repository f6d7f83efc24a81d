-- ===== src/Reorg/Rollback.antt =====
-- apps/indexer/src/reorg-handler.ts: `unwindFrom`, statement by statement.
use altscan.Prelude.{
  ℕ, zero, suc, ◌-◌, List, [], ◌∷◌, none, some, ltb, leb, string_eq, nat_eq, if◌then◌else◌, length,
  filter_by, map,
}
use altscan.Db.{Db, Row, IndexGap}

-- `DELETE FROM … WHERE block_number >= n`
abbrev pub rows_below : ℕ → List Row → List Row
rows_below n rows = filter_by (λ r. ltb r.block_number n) rows

abbrev pub rewind_cursor : ℕ → IndexGap → IndexGap
rewind_cursor n g = record g {
  heal_cursor = elim g.heal_cursor [
    | none ↦ none
    | some c ↦ if leb n c then some (n - 1) else some c
  ];
}

-- The tables of `UNWIND_ORDER`.
pub data Unwound : Type 0 where
  logs token_transfers dex_trades internal_transactions gas_history transactions blocks : Unwound

abbrev pub unwind_order : List Unwound
unwind_order =
    logs ∷ token_transfers ∷ dex_trades ∷ internal_transactions ∷ gas_history ∷ transactions
    ∷ blocks ∷ []

abbrev pub delete_from : ℕ → Unwound → Db → Db
delete_from n logs db = record db { logs = rows_below n db.logs }
delete_from n token_transfers db = record db { token_transfers = rows_below n db.token_transfers }
delete_from n dex_trades db = record db { dex_trades = rows_below n db.dex_trades }
delete_from n internal_transactions db = record db {
  internal_transactions = rows_below n db.internal_transactions;
}
delete_from n gas_history db = record db { gas_history = rows_below n db.gas_history }
delete_from n transactions db = record db { transactions = rows_below n db.transactions }
delete_from n blocks db = record db { blocks = filter_by (λ b. ltb b.number n) db.blocks }

-- The statements of `unwindFrom`, in order.
abbrev pub unwind_statements : ℕ → List (Db → Db)
unwind_statements n =
    (λ db. record db { poison_blocks = filter_by (λ p. ltb p.block_number n) db.poison_blocks })
    ∷ (λ db. record db { index_gaps = map (rewind_cursor n) db.index_gaps })
    ∷ map (delete_from n) unwind_order

-- `unwindFrom` up to the statement that fails: the first `done` of its statements have run.
unfoldable pub run_statements : ℕ → List (Db → Db) → Db → Db
run_statements zero steps db = db
run_statements (suc done) [] db = db
run_statements (suc done) (step ∷ steps) db = run_statements done steps (step db)

unfoldable pub unwind_from : (from_block_number : ℕ) → Db → Db
unfolding run_statements
unwind_from n db = run_statements (length (unwind_statements n)) (unwind_statements n) db
