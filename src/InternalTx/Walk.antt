-- ===== src/InternalTx/Walk.antt =====
-- What `walk` of apps/indexer/src/internal-tx.ts returns for a list of frames.
use mathlib.Core.List.{Memᴰ}
use mathlib.Core.List.Memᴰ.{append_left, append_right, append_cases}
use altscan.Prelude.{
  ℕ, zero, suc, ◌+◌, ◌≡◌, sym, ap, subst, ◌∙◌, inl, inr, List, [], ◌∷◌, ◌++◌, Option, some, String,
  arith, Option-cases,
}
use altscan.InternalTx.{
  RawTraceFrame, RawTraceFrames, frame, frames, no_frames, InternalTxRow, BigInt, truthy, both,
  walk,
}
use altscan.InternalTx.Frames.{
  Unreverted, calls_of, Live, here, inside, next, Moves, rows_at, frame_rows-Moves,
  Moves-frame_rows, both-eq-some,
}

-- The address of a frame below the child with index `i`.
child_address :
    (path : List ℕ) (i j : ℕ) (q : List ℕ)
    → (path ++ i ∷ []) ++ (0 + j) ∷ q ≡ path ++ (i + 0) ∷ j ∷ q
child_address [] i j q = ground arith
child_address (k ∷ path) i j q = ap (λ p. k ∷ p) (child_address path i j q)

module _ (big_int : String → Option BigInt) (lower : String → String) (block timestamp : ℕ) where
  walk_live :
      (h : String) (path : List ℕ) (i : ℕ) (f : RawTraceFrame) (more : RawTraceFrames)
      {rows : List InternalTxRow}
      → Unreverted f
      → walk big_int lower block timestamp h path i (frames f more) ≡ some rows
      → (own inner later : List InternalTxRow) × (rows_at big_int lower block timestamp h
            (path ++ i ∷ [])
            f
          ≡ some own)
        × (walk big_int lower block timestamp h (path ++ i ∷ []) 0 (calls_of f) ≡ some inner)
        × (walk big_int lower block timestamp h path (suc i) more ≡ some later)
        × (rows ≡ own ++ (inner ++ later))
  unfolding walk
  walk_live h path i (frame kind from to value error calls) more {rows} live e =
      let opened : walk big_int lower block timestamp h path i
            (frames (frame kind from to value error calls) more)
          ≡ both
              (rows_at big_int lower block timestamp h (path ++ i ∷ [])
                (frame kind from to value error calls))
              (both (walk big_int lower block timestamp h (path ++ i ∷ []) 0 calls)
                (walk big_int lower block timestamp h path (suc i) more)) =
        rw (walk, live) in
      let all =
        both-eq-some
          (rows_at big_int lower block timestamp h (path ++ i ∷ [])
            (frame kind from to value error calls))
          (both (walk big_int lower block timestamp h (path ++ i ∷ []) 0 calls)
            (walk big_int lower block timestamp h path (suc i) more))
          (sym opened ∙ e) in
      let below =
        both-eq-some (walk big_int lower block timestamp h (path ++ i ∷ []) 0 calls)
          (walk big_int lower block timestamp h path (suc i) more) all.3 in
      (all.0, below.0, below.1, all.2, below.2, below.3, all.4 ∙ ap (λ ys. all.0 ++ ys) below.4)

  walk_reverted :
      (h : String) (path : List ℕ) (i : ℕ) (kind from to value error : Option String)
      (calls more : RawTraceFrames) (text : String)
      → truthy error ≡ some text
      → walk big_int lower block timestamp h path i
          (frames (frame kind from to value error calls) more)
        ≡ walk big_int lower block timestamp h path (suc i) more
  unfolding walk
  walk_reverted h path i kind from to value error calls more text reverted = rw (walk, reverted)

  below_child :
      (h : String) (path : List ℕ) (i j : ℕ) (q : List ℕ) (f : RawTraceFrame) (r : InternalTxRow)
      → Moves big_int lower block timestamp h ((path ++ i ∷ []) ++ (0 + j) ∷ q) f r
      → Moves big_int lower block timestamp h (path ++ (i + 0) ∷ j ∷ q) f r
  below_child h path i j q f r m =
      subst (λ address. Moves big_int lower block timestamp h address f r)
        (child_address path i j q) m

  next_child :
      (h : String) (path : List ℕ) (i j : ℕ) (q : List ℕ) (f : RawTraceFrame) (r : InternalTxRow)
      → Moves big_int lower block timestamp h (path ++ (suc i + j) ∷ q) f r
      → Moves big_int lower block timestamp h (path ++ (i + suc j) ∷ q) f r
  next_child h path i j q f r m =
      let same : suc i + j ≡ i + suc j = omega arith in
      subst (λ k. Moves big_int lower block timestamp h (path ++ k ∷ q) f r) same m

  pub walk_sound :
      (h : String) (path : List ℕ) (i : ℕ) (fs : RawTraceFrames) (r : InternalTxRow)
      {rows : List InternalTxRow}
      → walk big_int lower block timestamp h path i fs ≡ some rows
      → Memᴰ r rows
      → (j : ℕ) × (q : List ℕ) × (f : RawTraceFrame) × Live fs (j ∷ q) f
        × Moves big_int lower block timestamp h (path ++ (i + j) ∷ q) f r
  unfolding walk
  walk_sound h path i no_frames r {rows} e m =
      let none_kept : rows ≡ [] = cc in elim (subst (Memᴰ r) none_kept m) [ ]
  walk_sound h path i (frames (frame kind from to value error calls) more) r {rows} e m =
      elim (Option-cases (truthy error)) [
        | inr (text, reverted) ↦
            let later : walk big_int lower block timestamp h path (suc i) more ≡ some rows =
              sym (walk_reverted h path i kind from to value error calls more text reverted) ∙ e in
            after_this (walk_sound h path (suc i) more r later m)
        | inl ok ↦
            let f = frame kind from to value error calls in
            let parts = walk_live h path i f more ok e in
            elim (append_cases parts.0 (subst (Memᴰ r) parts.6 m)) [
              | inl own ↦ (
                0,
                [],
                f,
                here ok,
                at_this (
                    frame_rows-Moves big_int lower block timestamp h (path ++ i ∷ []) f r parts.3
                      own),
              )
              | inr others ↦ elim (append_cases parts.1 others) [
                | inl inner ↦
                    let found = walk_sound h (path ++ i ∷ []) 0 calls r parts.4 inner in
                    (
                      0,
                      found.0 ∷ found.1,
                      found.2,
                      inside ok found.3,
                      below_child h path i found.0 found.1 found.2 r found.4,
                    )
                | inr later ↦ after_this (walk_sound h path (suc i) more r parts.5 later)
              ]
            ]
      ]
    where
      after_this :
          ((j : ℕ) × (q : List ℕ) × (g : RawTraceFrame) × Live more (j ∷ q) g
            × Moves big_int lower block timestamp h (path ++ (suc i + j) ∷ q) g r)
          → (j : ℕ) × (q : List ℕ) × (g : RawTraceFrame) × Live
              (frames (frame kind from to value error calls) more)
              (j ∷ q)
              g
            × Moves big_int lower block timestamp h (path ++ (i + j) ∷ q) g r
      after_this (j, q, g, live, moves) =
          (suc j, q, g, next live, next_child h path i j q g r moves)

      at_this :
          Moves big_int lower block timestamp h
            (path ++ i ∷ [])
            (frame kind from to value error calls)
            r
          → Moves big_int lower block timestamp h
              (path ++ (i + 0) ∷ [])
              (frame kind from to value error calls)
              r
      at_this m =
          let same : i ≡ i + 0 = omega arith in
          subst
            (λ k.
              Moves big_int lower block timestamp h (path ++ k ∷ [])
                (frame kind from to value error calls) r)
            same m

  pub walk_complete :
      (h : String) (path : List ℕ) (i : ℕ) (fs : RawTraceFrames) (r : InternalTxRow)
      {rows : List InternalTxRow} (j : ℕ) (q : List ℕ) (f : RawTraceFrame)
      → walk big_int lower block timestamp h path i fs ≡ some rows
      → Live fs (j ∷ q) f
      → Moves big_int lower block timestamp h (path ++ (i + j) ∷ q) f r
      → Memᴰ r rows
  walk_complete h path i no_frames r j q f e live moves = elim live [ ]
  walk_complete h path i (frames f more) r {rows} zero [] g e (here ok) moves =
      let parts = walk_live h path i f more ok e in
      let same : i + 0 ≡ i = omega arith in
      let own =
        Moves-frame_rows big_int lower block timestamp h (path ++ i ∷ []) f r parts.3
          (subst (λ k. Moves big_int lower block timestamp h (path ++ k ∷ []) f r) same moves) in
      subst (Memᴰ r) (sym parts.6) (append_left (parts.1 ++ parts.2) own)
  walk_complete h path i (frames (frame kind from to value error calls) more) r {rows} zero (k ∷ q)
        g e (inside ok live) moves =
      let parts = walk_live h path i (frame kind from to value error calls) more ok e in
      let inner = walk_complete h (path ++ i ∷ []) 0 calls r k q g parts.4 live (
        subst (λ address. Moves big_int lower block timestamp h address g r)
          (sym (child_address path i k q)) moves) in
      subst (Memᴰ r) (sym parts.6) (append_right parts.0 (append_left parts.2 inner))
  walk_complete h path i (frames (frame kind from to value error calls) more) r {rows} (suc j) q g e
        (next live) moves =
      let same : i + suc j ≡ suc i + j = omega arith in
      let moves_later =
        subst (λ k. Moves big_int lower block timestamp h (path ++ k ∷ q) g r) same moves in
      elim (Option-cases (truthy error)) [
        | inr (text, reverted) ↦
            walk_complete h path (suc i) more r j q g
              (sym (walk_reverted h path i kind from to value error calls more text reverted) ∙ e)
              live moves_later
        | inl ok ↦
            let parts = walk_live h path i (frame kind from to value error calls) more ok e in
            subst (Memᴰ r) (sym parts.6) (
              append_right parts.0 (
                append_right parts.1
                  (walk_complete h path (suc i) more r j q g parts.5 live moves_later)))
      ]
