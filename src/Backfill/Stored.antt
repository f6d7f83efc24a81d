-- ===== src/Backfill/Stored.antt =====
-- apps/indexer/src/backfill-worker.ts: the upserts store every mapped row and lose none.
use altscan.Prelude.{
  ℕ, ◌+◌, ◌≡◌, refl, ◌∙◌, inl, inr, Bool, true, List, [], ◌∷◌, ◌++◌, some, String, if◌then◌else◌,
  any_by, any_by-append, All, if-both, map, Option-cases, string_eq, ==_iff, arith,
}
use altscan.Backfill.Rows.{
  ProviderTokenTransfer, HistoryInsertRow, TransferInsertRow, Js, transfer_row, usable_index,
  same_tx, same_transfer, insert_new, map_transfers,
}

module _ {A : Type 0} (same : A → A → Bool) (same_refl : (a : A) → same a a ≡ true) where
  pub insert_new-keeps :
      (p : A → Bool) (rows table : List A)
      → any_by p table ≡ true
      → any_by p (insert_new same rows table) ≡ true
  unfolding insert_new
  insert_new-keeps p [] table h = h
  insert_new-keeps p (row ∷ rows) table h =
      insert_new-keeps p rows (if any_by (same row) table then table else table ++ row ∷ []) (
        if-both (λ t. any_by p t ≡ true) (any_by (same row) table) (λ _. h)
          (λ _. any_by-append p table (row ∷ []) ∙ ground (arith, h)))

  -- Every row that is inserted has one of its key.
  pub insert_new-All :
      (rows table : List A)
      → All (λ row. any_by (same row) (insert_new same rows table) ≡ true) rows
  unfolding insert_new
  insert_new-All [] table = tt
  insert_new-All (row ∷ rows) table = (
    insert_new-keeps (same row) rows (if any_by (same row) table then table else table ++ row ∷ [])
        (if-both (λ t. any_by (same row) t ≡ true) (any_by (same row) table) (λ there. there)
          (λ _. any_by-append (same row) table (row ∷ []) ∙ ground (arith, same_refl row))),
    insert_new-All rows (if any_by (same row) table then table else table ++ row ∷ []),
  )

pub same_tx_refl : (a : HistoryInsertRow) → same_tx a a ≡ true
same_tx_refl a = ground (
  arith,
  (string_eq.beq_iff a.address a.address).1 refl,
  (string_eq.beq_iff a.tx_hash a.tx_hash).1 refl,
)

pub same_transfer_refl : (a : TransferInsertRow) → same_transfer a a ≡ true
same_transfer_refl a = ground (
  arith,
  (string_eq.beq_iff a.scope_address a.scope_address).1 refl,
  (string_eq.beq_iff a.tx_hash a.tx_hash).1 refl,
  (==_iff a.log_index a.log_index).1 refl,
)

pub All-of_map :
    {A B : Type 0} (P : B → Type 0) (f : A → B) (xs : List A)
    → All P (map f xs)
    → All (λ x. P (f x)) xs
All-of_map P f [] h = tt
All-of_map P f (x ∷ xs) (own, rest) = (own, All-of_map P f xs rest)

suc≢zero : (n : ℕ) → n + 1 ≡ 0 → ⊥
suc≢zero n h = omega (arith, h)

module _ (js : Js) (scope : String) where
  -- Where none is skipped, every transfer has a row.
  pub map_transfers-All :
      (P : TransferInsertRow → Type 0) (transfers : List ProviderTokenTransfer)
      → (map_transfers js scope transfers).1 ≡ 0
      → All P (map_transfers js scope transfers).0
      → All
          (λ r.
            (index : ℕ) × (usable_index js r.log_index ≡ some index)
            × P (transfer_row js scope r index))
          transfers
  unfolding map_transfers
  map_transfers-All P [] none_skipped h = tt
  map_transfers-All P (r ∷ transfers) none_skipped h =
      elim (Option-cases (usable_index js r.log_index)) [
        | inl unusable ↦ elim (suc≢zero _ (rw unusable at none_skipped)) [ ]
        | inr (index, usable) ↦
            let (own, rest) = rw usable at h in
            ((index, usable, own), map_transfers-All P transfers (rw usable at none_skipped) rest)
      ]
