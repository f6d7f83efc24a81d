-- ===== src/Reorg/Unwind.antt =====
-- The rollback of the index: what it leaves, and what it leaves when one of its statements fails.
use altscan.Prelude.{
  ℕ, ◌-◌, ◌≤◌, ◌<◌, ◌≡◌, inl, inr, refl, List, [], ◌∷◌, Option, none, some, arith, ltb, leb,
  if◌then◌else◌, Bool-cases, All, filter_by, map,
}
use altscan.Db.{Db, Row, IndexGap}
use altscan.Reorg.{rows_below, rewind_cursor, unwind_from}

-- A healing cursor that points below a height, or none.
abbrev pub CursorBelow : ℕ → Option ℕ → Type 0
CursorBelow n none = Unit {0}
CursorBelow n (some c) = c < n

-- No row speaks of a height at or above `n`.
pub record EndsBelow (n : ℕ) (db : Db) : Type 0 where
  pub blocks : All (λ b. b.number < n) db.blocks
  pub transactions : All (λ r. r.block_number < n) db.transactions
  pub logs : All (λ r. r.block_number < n) db.logs
  pub token_transfers : All (λ r. r.block_number < n) db.token_transfers
  pub dex_trades : All (λ r. r.block_number < n) db.dex_trades
  pub internal_transactions : All (λ r. r.block_number < n) db.internal_transactions
  pub gas_history : All (λ r. r.block_number < n) db.gas_history
  pub poison_blocks : All (λ p. p.block_number < n) db.poison_blocks
  pub heal_cursors : All (λ g. CursorBelow n g.heal_cursor) db.index_gaps

module _ {ℓ} {A : Type ℓ} (height : A → ℕ) (n : ℕ) where
  abbrev pub below : List A → List A
  below xs = filter_by (λ x. ltb (height x) n) xs

  pub All-below : (xs : List A) → All (λ x. height x < n) (below xs)
  All-below [] = tt
  All-below (x ∷ xs) = elim (Bool-cases (ltb (height x) n)) [
    | inl low ↦ rw low (ground arith, All-below xs)
    | inr high ↦ rw high (All-below xs)
  ]

  below-below : (xs : List A) → below (below xs) ≡ below xs
  below-below [] = refl
  below-below (x ∷ xs) = elim (Bool-cases (ltb (height x) n)) [
    | inl low ↦ rw (low, low, below-below xs) refl
    | inr high ↦ rw (high, below-below xs) refl
  ]

rewind_cursor-below :
    (n : ℕ)
    → 1 ≤ n
    → (gs : List IndexGap) → All (λ g. CursorBelow n g.heal_cursor) (map (rewind_cursor n) gs)
rewind_cursor-below n pos [] = tt
rewind_cursor-below n pos (g ∷ gs) = (go g.heal_cursor, rewind_cursor-below n pos gs)
  where
    go :
        (c : Option ℕ)
        → CursorBelow n (elim c [ none ↦ none | some k ↦ if leb n k then some (n - 1) else some k ])
    go none = tt
    go (some k) = elim (Bool-cases (leb n k)) [
      | inl high ↦ rw high (omega arith)
      | inr low ↦ rw low (ground arith)
    ]

-- After the rollback no row of any table, no quarantine and no healing cursor speaks of a height at
-- or above the first block rolled back, which is at least 1. No row below it is lost: each of the
-- tables keeps what it had there.
pub unwind_from-EndsBelow :
    (n : ℕ) (db : Db)
    → 1 ≤ n
    → let after = unwind_from n db in
      EndsBelow n after
      × (below (λ b. b.number) n after.blocks ≡ below (λ b. b.number) n db.blocks)
      × (rows_below n after.transactions ≡ rows_below n db.transactions)
      × (rows_below n after.logs ≡ rows_below n db.logs)
      × (rows_below n after.token_transfers ≡ rows_below n db.token_transfers)
      × (rows_below n after.dex_trades ≡ rows_below n db.dex_trades)
      × (rows_below n after.internal_transactions ≡ rows_below n db.internal_transactions)
      × (rows_below n after.gas_history ≡ rows_below n db.gas_history)
unfolding unwind_from
unwind_from-EndsBelow n db pos =
    let row_number : Row → ℕ = λ r. r.block_number in
    (
      record {
        blocks = All-below (λ b. b.number) n db.blocks;
        transactions = All-below row_number n db.transactions;
        logs = All-below row_number n db.logs;
        token_transfers = All-below row_number n db.token_transfers;
        dex_trades = All-below row_number n db.dex_trades;
        internal_transactions = All-below row_number n db.internal_transactions;
        gas_history = All-below row_number n db.gas_history;
        poison_blocks = All-below (λ p. p.block_number) n db.poison_blocks;
        heal_cursors = rewind_cursor-below n pos db.index_gaps;
      },
      below-below (λ b. b.number) n db.blocks,
      below-below row_number n db.transactions,
      below-below row_number n db.logs,
      below-below row_number n db.token_transfers,
      below-below row_number n db.dex_trades,
      below-below row_number n db.internal_transactions,
      below-below row_number n db.gas_history,
    )
