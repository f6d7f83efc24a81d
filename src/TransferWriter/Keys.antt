-- ===== src/TransferWriter/Keys.antt =====
-- apps/indexer/src/block-processor.ts: the keys of the queue of transfer batches.
use altscan.Prelude.{
  ℕ, ◌≡◌, refl, sym, subst, ◌∙◌, inl, inr, Bool, true, false, List, [], ◌∷◌, Option, none, some,
  arith, ◌==◌, ==_iff, Bool-cases, All, get, put, keep, has, get-put_self, get-keep_key, nat_eq,
  get-put_other,
}
use altscan.TransferWriter.{TokenTransferRow, PendingBatch, Queue, heights, requeue}
use altscan.TransferWriter.Queue.{get-unqueued}

-- A map's keys are distinct, and the rows of a batch are of its height.
abbrev pub OfHeight : ℕ → List TokenTransferRow → Type 0
OfHeight n rows = All (λ r. r.block_number ≡ n) rows

unfoldable pub WellKeyed : Queue → Type 0
WellKeyed [] = Unit
WellKeyed ((n, batch) ∷ m) = (get n m ≡ none) × OfHeight n batch.rows × WellKeyed m

pub get-nothing : (n : ℕ) → get {V = PendingBatch} n [] ≡ none
unfolding get
get-nothing n = refl

other_way : (n k : ℕ) → (k == n) ≡ false → (n == k) ≡ false
other_way n k other = ground arith

pub WellKeyed-put :
    (n : ℕ) (batch : PendingBatch) (m : Queue)
    → OfHeight n batch.rows
    → WellKeyed m
    → WellKeyed (put n batch m)
unfolding WellKeyed put
WellKeyed-put n batch [] of_height h = (get-nothing n, of_height, tt)
WellKeyed-put n batch ((k, old) ∷ m) of_height (fresh, old_height, h) = elim (Bool-cases (k == n)) [
  | inl same ↦
      let is_n : k ≡ n = (==_iff k n).0 same in
      rw same (subst (λ j. get j m ≡ none) is_n fresh, of_height, h)
  | inr other ↦ rw other (
    get-put_other k n batch m (other_way n k other) ∙ fresh,
    old_height,
    WellKeyed-put n batch m of_height h,
  )
]

pub WellKeyed-keep : (p : ℕ → Bool) (m : Queue) → WellKeyed m → WellKeyed (keep (λ n _. p n) m)
unfolding WellKeyed keep
WellKeyed-keep p [] h = tt
WellKeyed-keep p ((k, old) ∷ m) (fresh, of_height, h) = elim (Bool-cases (p k)) [
  | inl stays ↦
      rw stays (rw (get-keep_key p k m, fresh) (ground arith), of_height, WellKeyed-keep p m h)
  | inr goes ↦ rw goes (WellKeyed-keep p m h)
]

pub WellKeyed-requeue :
    (drained pending : Queue)
    → WellKeyed drained
    → WellKeyed pending
    → WellKeyed (requeue drained pending)
unfolding WellKeyed requeue
WellKeyed-requeue [] pending h k = k
WellKeyed-requeue ((n, batch) ∷ drained) pending (fresh, of_height, h) k =
    elim (Bool-cases (has n (heights pending))) [
      | inl there ↦ rw there (WellKeyed-requeue drained pending h k)
      | inr missing ↦ rw missing (
          WellKeyed-requeue drained (put n batch pending) h
            (WellKeyed-put n batch pending of_height k))
    ]

pub true≢false : true ≡ false → ⊥
true≢false h = ground arith

pub none≢some {ℓ} : {A : Type ℓ} {o : Option A} {x : A} → o ≡ none → o ≡ some x → ⊥
none≢some is_none is_some = ground arith

queued-has : (n : ℕ) (m : Queue) → get n m ≡ none → has n (heights m) ≡ false
unfolding get has heights
queued-has n [] h = refl
queued-has n ((k, batch) ∷ m) h = ground (arith, queued-has n m)

-- What was queued since stays, and what was not comes back from the drain.
pub get-requeue_kept :
    (n : ℕ) (drained pending : Queue) {found : PendingBatch}
    → get n pending ≡ some found
    → get n (requeue drained pending) ≡ some found
unfolding requeue
get-requeue_kept n [] pending h = h
get-requeue_kept n ((k, batch) ∷ drained) pending h = elim (Bool-cases (has k (heights pending))) [
  | inl there ↦ rw there (get-requeue_kept n drained pending h)
  | inr missing ↦ elim (Bool-cases (k == n)) [
    | inl same ↦
        let nothing : get n pending ≡ none =
          subst (λ j. get j pending ≡ none) ((==_iff k n).0 same)
            (get-unqueued k pending missing) in
        elim (none≢some nothing h) [ ]
    | inr other ↦ rw missing (
        get-requeue_kept n drained (put k batch pending)
          (get-put_other n k batch pending other ∙ h))
  ]
]

pub get-requeue_back :
    (n : ℕ) (drained pending : Queue)
    → WellKeyed drained
    → get n pending ≡ none
    → get n (requeue drained pending) ≡ get n drained
unfolding requeue WellKeyed get
get-requeue_back n [] pending keyed h = h
get-requeue_back n ((k, batch) ∷ drained) pending (fresh, of_height, keyed) h =
    elim (Bool-cases (k == n)) [
      | inl same ↦
          let is_n : k ≡ n = (==_iff k n).0 same in
          let missing : has k (heights pending) ≡ false =
            subst (λ j. has j (heights pending) ≡ false) (sym is_n) (queued-has n pending h) in
          rw (missing, same)
            (get-requeue_kept n drained (put k batch pending) (
              subst (λ j. get n (put j batch pending) ≡ some batch) (sym is_n)
                (get-put_self n batch pending)))
      | inr other ↦ elim (Bool-cases (has k (heights pending))) [
        | inl there ↦ rw (there, other) (get-requeue_back n drained pending keyed h)
        | inr missing ↦
            rw (missing, other)
              (get-requeue_back n drained (put k batch pending) keyed
                (get-put_other n k batch pending other ∙ h))
      ]
    ]
