-- ===== src/TransferWriter/Table.antt =====
-- apps/indexer/src/block-processor.ts: what the transfer writer leaves in `token_transfers`.
use altscan.Prelude.{
  ℕ, ◌≡◌, refl, ap, subst, ◌∙◌, inl, inr, Bool, true, false, not, List, [], ◌∷◌, ◌++◌, map, Perm,
  append-nil, Option, none, some, arith, ◌==◌, ==_iff, if◌then◌else◌, Bool-cases, filter_by, get,
  has, nat_eq,
}
use mathlib.Core.List.Perm
use altscan.TransferWriter.{
  TokenTransferRow, StoredTransfer, stored, PendingBatch, Queue, delete_nums, rows_of, insert_row,
  sort_rows, write_transfer_blocks, is_decode, comes_before,
}
use altscan.TransferWriter.Keys.{OfHeight, WellKeyed}

-- The height of a row, by which the table is read.
abbrev pub at : ℕ → StoredTransfer → Bool
at n r = r.block_number == n

abbrev row_at : ℕ → TokenTransferRow → Bool
row_at n r = r.block_number == n

filter_by-append {ℓ} :
    {A : Type ℓ} (p : A → Bool) (xs ys : List A)
    → filter_by p (xs ++ ys) ≡ filter_by p xs ++ filter_by p ys
filter_by-append p [] ys = refl
filter_by-append p (x ∷ xs) ys = elim (Bool-cases (p x)) [
  | inl t ↦ rw (t, filter_by-append p xs ys)
  | inr f ↦ rw (f, filter_by-append p xs ys)
]

filter_by-map_stored :
    (n : ℕ) (rows : List TokenTransferRow)
    → filter_by (at n) (map stored rows) ≡ map stored (filter_by (row_at n) rows)
filter_by-map_stored n [] = refl
filter_by-map_stored n (r ∷ rows) = elim (Bool-cases (r.block_number == n)) [
  | inl t ↦ rw (t, filter_by-map_stored n rows)
  | inr f ↦ rw (f, filter_by-map_stored n rows)
]

filter_by-all :
    (n : ℕ) (rows : List TokenTransferRow) → OfHeight n rows → filter_by (row_at n) rows ≡ rows
filter_by-all n [] h = refl
filter_by-all n (r ∷ rows) (same, h) = rw ((==_iff r.block_number n).1 same, filter_by-all n rows h)

filter_by-none :
    (n k : ℕ) (rows : List TokenTransferRow)
    → (k == n) ≡ false
    → OfHeight k rows
    → filter_by (row_at n) rows ≡ []
filter_by-none n k [] other h = refl
filter_by-none n k (r ∷ rows) other (same, h) = rw (same, other, filter_by-none n k rows other h)

abbrev batch_rows : Option PendingBatch → List TokenTransferRow
batch_rows none = []
batch_rows (some batch) = batch.rows

-- The rows of a height among those of a drain are its batch's.
rows_of-at :
    (n : ℕ) (m : Queue) → WellKeyed m → filter_by (row_at n) (rows_of m) ≡ batch_rows (get n m)
unfolding WellKeyed rows_of get
rows_of-at n [] h = refl
rows_of-at n ((k, batch) ∷ m) (fresh, of_height, h) = elim (Bool-cases (k == n)) [
  | inl same ↦
      let is_n : k ≡ n = (==_iff k n).0 same in
      let all_here : filter_by (row_at n) batch.rows ≡ batch.rows =
        filter_by-all n batch.rows (subst (λ j. OfHeight j batch.rows) is_n of_height) in
      let none_later : get n m ≡ none = subst (λ j. get j m ≡ none) is_n fresh in
      rw
        (
          same,
          filter_by-append (row_at n) batch.rows (rows_of m),
          rows_of-at n m h,
          all_here,
          none_later,
        )
        (append-nil batch.rows)
  | inr other ↦ rw (
    other,
    filter_by-append (row_at n) batch.rows (rows_of m),
    filter_by-none n k batch.rows other of_height,
    rows_of-at n m h,
  )
]

-- The heights that a drain deletes are those of its decodes.
delete_nums-has : (n : ℕ) (m : Queue) → WellKeyed m → has n (delete_nums m) ≡ is_decode (get n m)
unfolding WellKeyed delete_nums get has
delete_nums-has n [] h = refl
delete_nums-has n ((k, batch) ∷ m) (fresh, of_height, h) = elim (Bool-cases (k == n)) [
  | inl same ↦
      let none_later : get n m ≡ none = subst (λ j. get j m ≡ none) ((==_iff k n).0 same) fresh in
      let later : has n (delete_nums m) ≡ false = delete_nums-has n m h ∙ ap is_decode none_later in
      elim (Bool-cases batch.quarantine) [
        | inl quarantined ↦ rw (same, quarantined) later
        | inr decode ↦ rw (same, decode) (rw same)
      ]
  | inr other ↦ elim (Bool-cases batch.quarantine) [
    | inl quarantined ↦ rw (other, quarantined) (delete_nums-has n m h)
    | inr decode ↦ rw (other, decode) (rw other (delete_nums-has n m h))
  ]
]

module _ (p : TokenTransferRow → Bool) where
  insert_row-perm :
      (r : TokenTransferRow) (rows : List TokenTransferRow)
      → Perm (filter_by p (insert_row r rows)) (filter_by p (r ∷ rows))
  unfolding insert_row
  insert_row-perm r [] = Perm.refl _
  insert_row-perm r (s ∷ rows) = elim (Bool-cases (comes_before r s)) [
    | inl before ↦ rw before (Perm.refl _)
    | inr behind ↦ rw behind (passed (insert_row-perm r rows))
  ]
    where
      kept_r :
          (b : Bool)
          → p r ≡ b
          → filter_by p (r ∷ rows) ≡ (if b then r ∷ filter_by p rows else filter_by p rows)
      kept_r b u = rw u

      passed :
          Perm (filter_by p (insert_row r rows)) (filter_by p (r ∷ rows))
          → Perm (filter_by p (s ∷ insert_row r rows)) (filter_by p (r ∷ s ∷ rows))
      passed ih =
          let later = filter_by p (insert_row r rows) in
          elim (Bool-cases (p s)) [
            | inl t ↦ elim (Bool-cases (p r)) [
              | inl u ↦
                  rw (t, u)
                    (Perm.trans (Perm.cons s (subst (Perm later) (kept_r true u) ih))
                      (Perm.swap _ _ _))
              | inr u ↦ rw (t, u) (Perm.cons s (subst (Perm later) (kept_r false u) ih))
            ]
            | inr f ↦ rw f ih
          ]

  sort_rows-perm :
      (rows : List TokenTransferRow) → Perm (filter_by p (sort_rows rows)) (filter_by p rows)
  unfolding sort_rows
  sort_rows-perm [] = Perm.refl []
  sort_rows-perm (r ∷ rows) =
      Perm.trans (insert_row-perm r (sort_rows rows)) (elim (Bool-cases (p r)) [
        | inl t ↦ rw t (Perm.cons r (sort_rows-perm rows))
        | inr f ↦ rw f (sort_rows-perm rows)
      ])

-- The rows of a height in the table, as those of a decode.
abbrev pub InTable : ℕ → List TokenTransferRow → List StoredTransfer → Type 0
InTable n rows table = Perm (filter_by (at n) table) (map stored rows)

-- The DELETE takes all rows of a height, or none.
filter_by-deleted :
    (n : ℕ) (nums : List ℕ) (table : List StoredTransfer)
    → filter_by (at n) (filter_by (λ r. not (has r.block_number nums)) table)
      ≡ (if has n nums then [] else filter_by (at n) table)
filter_by-deleted n nums [] = ground arith
filter_by-deleted n nums (r ∷ table) = elim (Bool-cases (r.block_number == n)) [
  | inl here ↦
      let is_n : r.block_number ≡ n = (==_iff r.block_number n).0 here in
      elim (Bool-cases (has n nums)) [
        | inl gone ↦
            let gone_r : has r.block_number nums ≡ true = ap (λ k. has k nums) is_n ∙ gone in
            rw (gone_r, gone) (filter_by-deleted n nums table ∙ rw gone)
        | inr stays ↦
            let stays_r : has r.block_number nums ≡ false = ap (λ k. has k nums) is_n ∙ stays in
            rw (stays_r, stays, here) (ap (λ l. r ∷ l) (filter_by-deleted n nums table ∙ rw stays))
      ]
  | inr away ↦ elim (Bool-cases (has r.block_number nums)) [
    | inl gone ↦ rw (gone, away) (filter_by-deleted n nums table)
    | inr stays ↦ rw (stays, away) (filter_by-deleted n nums table)
  ]
]

-- The rows of a height after the transaction of a pass.
write-at :
    (n : ℕ) (drained : Queue) (table : List StoredTransfer)
    → WellKeyed drained
    → Perm
        (filter_by
          (at n)
          (write_transfer_blocks (delete_nums drained) (sort_rows (rows_of drained)) table))
        ((if is_decode (get n drained) then [] else filter_by (at n) table)
          ++ map stored (batch_rows (get n drained)))
unfolding write_transfer_blocks
write-at n drained table keyed =
    rw
      (
        filter_by-append (at n) _ (map stored (sort_rows (rows_of drained))),
        filter_by-deleted n (delete_nums drained) table,
        delete_nums-has n drained keyed,
        filter_by-map_stored n (sort_rows (rows_of drained)),
        ← rows_of-at n drained keyed,
      )
      (Perm.append_left _ (Perm.map stored (sort_rows-perm (row_at n) (rows_of drained))))

abbrev pub decode_of : List TokenTransferRow → PendingBatch
decode_of rows = record { rows = rows; quarantine = false }

pub write-decoded :
    (n : ℕ) (rows : List TokenTransferRow) (drained : Queue) (table : List StoredTransfer)
    → WellKeyed drained
    → get n drained ≡ some (decode_of rows)
    → InTable n rows
        (write_transfer_blocks (delete_nums drained) (sort_rows (rows_of drained)) table)
write-decoded n rows drained table keyed there =
    subst
      (λ o.
        Perm
          (filter_by (at n)
            (write_transfer_blocks (delete_nums drained) (sort_rows (rows_of drained)) table))
          ((if is_decode o then [] else filter_by (at n) table) ++ map stored (batch_rows o)))
      there (write-at n drained table keyed)

pub write-other :
    (n : ℕ) (rows : List TokenTransferRow) (drained : Queue) (table : List StoredTransfer)
    → WellKeyed drained
    → get n drained ≡ none
    → InTable n rows table
    → InTable n rows
        (write_transfer_blocks (delete_nums drained) (sort_rows (rows_of drained)) table)
write-other n rows drained table keyed missing h =
    Perm.trans
      (subst
        (λ o.
          Perm
            (filter_by (at n)
              (write_transfer_blocks (delete_nums drained) (sort_rows (rows_of drained)) table))
            ((if is_decode o then [] else filter_by (at n) table) ++ map stored (batch_rows o)))
        missing (write-at n drained table keyed))
      (rw (append-nil (filter_by (at n) table)) h)
