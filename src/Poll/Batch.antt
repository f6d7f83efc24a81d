-- ===== src/Poll/Batch.antt =====
-- How far the cursor of apps/indexer/src/index.ts follows a batch of workers.
use native.Mathlib.Decide.{ℕ_discrete, dec_le}
use altscan.Prelude.{
  ℕ, zero, suc, ◌+◌, ◌-◌, ◌≤◌, ◌<◌, ◌≡◌, inl, inr, Bool, true, false, ◌||◌, List, [], ◌∷◌, arith,
  ◌==◌, Bool-cases,
}
use altscan.Poll.{
  Poller, Status, done, broken, is_done, set_status, advance, BatchState, Completion, indexed,
  threw, complete, run_batch, fresh_batch,
}

-- Some worker has ended with the block at an index.
abbrev pub completed : ℕ → List Completion → Bool
completed i [] = false
completed i (indexed j ∷ cs) = (j == i) || completed i cs
completed i (threw j err ∷ cs) = completed i cs

advance_lem :
    (status : ℕ → Status) (from rounds last n : ℕ)
    → last < n
    → n ≤ advance status from rounds last
    → is_done (status (n - from)) ≡ true
unfolding advance
advance_lem status from zero last n low high = absurd (omega arith)
advance_lem status from (suc rounds) last n low high =
    elim (Bool-cases (is_done (status (last + 1 - from)))) [
      | inr stuck ↦ absurd (let high' = (rw stuck at high) in omega arith)
      | inl next ↦ elim (ℕ_discrete n (last + 1)) [
        | yes same ↦ rw same next
        | no other ↦ advance_lem status from rounds (last + 1) n (omega arith) (rw next at high)
      ]
    ]

advance_bounds :
    (status : ℕ → Status) (from rounds last : ℕ)
    → (last ≤ advance status from rounds last) × (advance status from rounds last ≤ last + rounds)
unfolding advance
advance_bounds status from zero last = omega arith
advance_bounds status from (suc rounds) last =
    ground (arith, advance_bounds status from rounds (last + 1))

done_at :
    (j i : ℕ) (status : ℕ → Status) (ok : ℕ → Bool)
    → (is_done (status i) ≡ true → ok i ≡ true)
    → is_done (set_status j done status i) ≡ true
    → ((j == i) || ok i) ≡ true
done_at j i status ok before h = elim (Bool-cases (i == j)) [
  | inl same ↦ ground arith
  | inr other ↦ let h' = (rw other at h) in ground (arith, before h')
]

broken_at :
    (j i : ℕ) (status : ℕ → Status) (ok : ℕ → Bool)
    → (is_done (status i) ≡ true → ok i ≡ true)
    → is_done (set_status j broken status i) ≡ true
    → ok i ≡ true
broken_at j i status ok before h = elim (Bool-cases (i == j)) [
  | inl same ↦ absurd (let h' = (rw same at h) in cc)
  | inr other ↦ before (rw other at h)
]

module _ (base from total : ℕ) where
  run_batch_lem :
      (cs : List Completion) (b : BatchState) (ok : ℕ → Bool)
      → ((i : ℕ) → is_done (b.block_status i) ≡ true → ok i ≡ true)
      → ((n : ℕ) → base < n → n ≤ b.last_indexed → ok (n - from) ≡ true)
      → (n : ℕ) → base < n
      → n ≤ (run_batch from total cs b).last_indexed
      → (ok (n - from) || completed (n - from) cs) ≡ true
  unfolding run_batch complete
  run_batch_lem [] b ok marks upto n low high = ground (arith, upto n low high)
  run_batch_lem (threw j err ∷ cs) b ok marks upto n low high =
      run_batch_lem cs (complete from total (threw j err) b) ok
        (λ i. broken_at j i b.block_status ok (marks i)) upto n low high
  run_batch_lem (indexed j ∷ cs) b ok marks upto n low high =
      let status = set_status j done b.block_status in
      let rounds = from + total - (b.last_indexed + 1) in
      let marks' : (i : ℕ) → is_done (status i) ≡ true → ((j == i) || ok i) ≡ true =
        λ i. done_at j i b.block_status ok (marks i) in
      let later =
        run_batch_lem cs (complete from total (indexed j) b) (λ i. (j == i) || ok i) marks'
          (λ n low high. elim (dec_le n b.last_indexed) [
            | yes old ↦ ground (arith, upto n low old)
            | no new ↦
                marks' (n - from)
                  (advance_lem status from rounds b.last_indexed n (omega arith) high)
          ])
          n low high in
      ground (arith, later)

run_batch_bounds :
    (base total : ℕ) (cs : List Completion) (b : BatchState)
    → base ≤ b.last_indexed
    → b.last_indexed ≤ base + total
    → (base ≤ (run_batch (base + 1) total cs b).last_indexed)
      × ((run_batch (base + 1) total cs b).last_indexed ≤ base + total)
unfolding run_batch complete
run_batch_bounds base total [] b low high = (low, high)
run_batch_bounds base total (threw j err ∷ cs) b low high =
    run_batch_bounds base total cs (complete (base + 1) total (threw j err) b) low high
run_batch_bounds base total (indexed j ∷ cs) b low high =
    let moved =
      advance_bounds (set_status j done b.block_status) (base + 1)
        (base + 1 + total - (b.last_indexed + 1)) b.last_indexed in
    run_batch_bounds base total cs (complete (base + 1) total (indexed j) b) (omega (arith, moved))
      (omega (arith, moved))

-- Whatever the order in which the workers of a batch end, and whichever of them fail, the cursor never
-- moves back, never leaves the batch, and passes a block only after a worker has ended with it.
pub run_batch-completed :
    (s : Poller) (total : ℕ) (cs : List Completion)
    → let after = (run_batch (s.last_indexed + 1) total cs (fresh_batch s)).last_indexed in
      (s.last_indexed ≤ after)
      × (after ≤ s.last_indexed + total)
      × ((n : ℕ) → s.last_indexed < n → n ≤ after → completed (n - (s.last_indexed + 1)) cs ≡ true)
run_batch-completed s total cs =
    let bounds =
      run_batch_bounds s.last_indexed total cs (fresh_batch s) (omega arith) (omega arith) in
    (
      bounds.0,
      bounds.1,
      λ n low high.
          run_batch_lem s.last_indexed (s.last_indexed + 1) total cs (fresh_batch s) (λ i. false)
            (λ i e. e) (λ n low high. absurd (omega arith)) n low high,
    )
