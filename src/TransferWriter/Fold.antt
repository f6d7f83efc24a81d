-- ===== src/TransferWriter/Fold.antt =====
-- apps/indexer/src/block-processor.ts: the fold of written heights into the watermark.
use altscan.Prelude.{
  ℕ, zero, suc, ◌+◌, ◌≤◌, ◌<◌, ◌≡◌, ◌⊎◌, refl, inl, inr, Bool, true, false, List, [], ◌∷◌, arith,
  ltb, Bool-cases, filter_by, has, add, has-add, nat_eq,
}
use altscan.TransferWriter.{note_written, largest, fold_through, new_durable}

pub has-note_written :
    (n durable : ℕ) (ns written : List ℕ)
    → has n (note_written durable ns written) ≡ true
    → (has n ns ≡ true) ⊎ (has n written ≡ true)
unfolding note_written has
has-note_written n durable [] written h = inr h
has-note_written n durable (k ∷ ns) written h = elim (Bool-cases (ltb durable k)) [
  | inl above ↦ grind (arith, has-note_written n durable ns (add k written), has-add n k written)
  | inr below ↦ grind (arith, has-note_written n durable ns written)
]

pub has-filter_by :
    (n : ℕ) (p : ℕ → Bool) (ns : List ℕ) → has n (filter_by p ns) ≡ true → has n ns ≡ true
unfolding has
has-filter_by n p [] h = h
has-filter_by n p (k ∷ ns) h = ground (arith, has-filter_by n p ns)

pub has-filter_by_self :
    (n : ℕ) (p : ℕ → Bool) (ns : List ℕ) → has n (filter_by p ns) ≡ true → p n ≡ true
unfolding has
has-filter_by_self n p [] h = ground arith
has-filter_by_self n p (k ∷ ns) h = ground (arith, has-filter_by_self n p ns)

has-beyond : (n : ℕ) (ns : List ℕ) → largest ns < n → has n ns ≡ false
unfolding has
has-beyond n [] h = refl
has-beyond n (k ∷ ns) h = ground (arith, has-beyond n ns)

-- The fold passes only over heights of the set, and enough fuel takes it to its end.
pub fold_through-has :
    (fuel : ℕ) (written : List ℕ) (durable n : ℕ)
    → durable < n
    → n ≤ fold_through fuel written durable
    → has n written ≡ true
unfolding fold_through
fold_through-has zero written durable n above h = ground arith
fold_through-has (suc fuel) written durable n above h =
    elim (Bool-cases (has (durable + 1) written)) [
      | inl next ↦ ground (arith, fold_through-has fuel written (durable + 1) n)
      | inr gap ↦ ground arith
    ]

fold_through-gap :
    (fuel : ℕ) (written : List ℕ) (durable : ℕ)
    → largest written ≤ durable + fuel
    → has (fold_through fuel written durable + 1) written ≡ false
unfolding fold_through
fold_through-gap zero written durable enough = has-beyond (durable + 1) written (omega arith)
fold_through-gap (suc fuel) written durable enough = elim (Bool-cases (has (durable + 1) written)) [
  | inl next ↦ rw next (fold_through-gap fuel written (durable + 1) (omega arith))
  | inr gap ↦ rw gap gap
]

fold_through-le :
    (fuel : ℕ) (written : List ℕ) (durable : ℕ) → durable ≤ fold_through fuel written durable
unfolding fold_through
fold_through-le zero written durable = omega arith
fold_through-le (suc fuel) written durable =
    ground (arith, fold_through-le fuel written (durable + 1))

-- The loop that folds written heights into the watermark ends at the last height of an unbroken run:
-- every height that it passes has been written, and the one after its result has not.
pub new_durable-gap :
    (written : List ℕ) (durable : ℕ)
    → (durable ≤ new_durable written durable)
      × ((n : ℕ) → durable < n → n ≤ new_durable written durable → has n written ≡ true)
      × (has (new_durable written durable + 1) written ≡ false)
unfolding new_durable
new_durable-gap written durable = (
  fold_through-le (largest written) written durable,
  fold_through-has (largest written) written durable,
  fold_through-gap (largest written) written durable (omega arith),
)
