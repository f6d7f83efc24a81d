-- ===== src/InternalTx/Decoding.antt =====
-- The rows of a whole block: `decodeCallTracerBlock` and `prepareInternalTxRows` of
-- apps/indexer/src/internal-tx.ts.
use mathlib.Core.List.{Memᴰ}
use mathlib.Core.List.Memᴰ.{head, tail, append_left, append_right, append_cases}
use altscan.Prelude.{
  mem-filter_by, mem_of_filter_by, ℕ, ◌+◌, ◌≡◌, refl, sym, subst, ◌∙◌, inl, inr, ◌↔◌, true, false,
  List, [], ◌∷◌, Option, none, some, String, arith, Option-cases, filter_by, string_eq,
}
use altscan.InternalTx.{
  RawTraceFrame, frame, RawTraceTx, InternalTxRow, BigInt, truthy, decode_root, decode_tx,
  decode_call_tracer_block, is_own, own_hashes, prepare_internal_tx_rows, walk,
}
use altscan.InternalTx.Frames.{Unreverted, calls_of, Live, Moves, both-eq-some}
use altscan.InternalTx.Walk.{walk_sound, walk_complete}

module _ (big_int : String → Option BigInt) (lower : String → String) (block timestamp : ℕ) where
  -- A value-moving frame of a traced transaction: neither the outer call nor any frame from it down
  -- to this one has an error.
  abbrev pub Moved : RawTraceTx → InternalTxRow → Type 0
  Moved tx r =
      (h : String) × (root : RawTraceFrame) × (address : List ℕ) × (f : RawTraceFrame) × (tx.tx_hash
        ≡ some h)
      × (tx.result ≡ some root)
      × Unreverted root
      × Live (calls_of root) address f
      × Moves big_int lower block timestamp (lower h) address f r

  decode_root_sound :
      (hash : Option String) (root : RawTraceFrame) (r : InternalTxRow) {rows : List InternalTxRow}
      → decode_root big_int lower block timestamp hash root ≡ some rows
      → Memᴰ r rows
      → (h : String) × (address : List ℕ) × (f : RawTraceFrame) × (hash ≡ some h)
        × Unreverted root
        × Live (calls_of root) address f
        × Moves big_int lower block timestamp (lower h) address f r
  decode_root_sound hash (frame kind from to value error calls) r {rows} e m =
      elim (Option-cases (truthy error)) [
        | inr (text, reverted) ↦
            let none_kept : rows ≡ [] = no_rows (text) reverted e in
            elim (subst (Memᴰ r) none_kept m) [ ]
        | inl ok ↦ by_hash hash ok e
      ]
    where
      no_rows :
          (text : String)
          → truthy error ≡ some text
          → decode_root big_int lower block timestamp hash (frame kind from to value error calls)
            ≡ some rows
          → rows ≡ []
      no_rows text reverted e = ground (arith, reverted)

      by_hash :
          (hash : Option String)
          → truthy error ≡ none
          → decode_root big_int lower block timestamp hash (frame kind from to value error calls)
            ≡ some rows
          → (h : String) × (address : List ℕ) × (f : RawTraceFrame) × (hash ≡ some h)
            × (truthy error ≡ none)
            × Live calls address f
            × Moves big_int lower block timestamp (lower h) address f r
      by_hash none ok e = ground (arith, ok)
      by_hash (some h) ok e =
          let walked : walk big_int lower block timestamp (lower h) [] 0 calls ≡ some rows =
            ground (arith, ok) in
          let found = walk_sound big_int lower block timestamp (lower h) [] 0 calls r walked m in
          let at_zero : 0 + found.0 ≡ found.0 = omega arith in
          (
            h,
            found.0 ∷ found.1,
            found.2,
            refl,
            ok,
            found.3,
            subst (λ k. Moves big_int lower block timestamp (lower h) (k ∷ found.1) found.2 r)
                at_zero found.4,
          )

  decode_root_complete :
      (h : String) (root : RawTraceFrame) (r : InternalTxRow) {rows : List InternalTxRow}
      (address : List ℕ) (f : RawTraceFrame)
      → decode_root big_int lower block timestamp (some h) root ≡ some rows
      → Unreverted root
      → Live (calls_of root) address f
      → Moves big_int lower block timestamp (lower h) address f r
      → Memᴰ r rows
  decode_root_complete h (frame kind from to value error calls) r [] f e ok live moves =
      elim live [ ]
  decode_root_complete h (frame kind from to value error calls) r {rows} (j ∷ q) f e ok live moves =
      let walked : walk big_int lower block timestamp (lower h) [] 0 calls ≡ some rows =
        ground (arith, ok) in
      let at_zero : j ≡ 0 + j = omega arith in
      walk_complete big_int lower block timestamp (lower h) [] 0 calls r j q f walked live
        (subst (λ k. Moves big_int lower block timestamp (lower h) (k ∷ q) f r) at_zero moves)

  decode_tx_sound :
      (tx : RawTraceTx) (r : InternalTxRow) {rows : List InternalTxRow}
      → decode_tx big_int lower block timestamp tx ≡ some rows
      → Memᴰ r rows
      → Moved tx r
  decode_tx_sound tx r {rows} e m = elim (Option-cases tx.result) [
    | inl untraced ↦
        let no_rows : decode_tx big_int lower block timestamp tx ≡ some [] = rw untraced in
        let none_kept : rows ≡ [] = cc in elim (subst (Memᴰ r) none_kept m) [ ]
    | inr (root, traced) ↦
        let opened : decode_tx big_int lower block timestamp tx
            ≡ decode_root big_int lower block timestamp tx.tx_hash root =
          rw traced in
        let found = decode_root_sound tx.tx_hash root r (sym opened ∙ e) m in
        (found.0, root, found.1, found.2, found.3, traced, found.4, found.5, found.6)
  ]

  decode_tx_complete :
      (tx : RawTraceTx) (r : InternalTxRow) {rows : List InternalTxRow}
      → decode_tx big_int lower block timestamp tx ≡ some rows
      → Moved tx r
      → Memᴰ r rows
  decode_tx_complete tx r e (h, root, address, f, hashed, traced, ok, live, moves) =
      let opened : decode_tx big_int lower block timestamp tx
          ≡ decode_root big_int lower block timestamp (some h) root =
        rw (traced, hashed) in
      decode_root_complete h root r address f (sym opened ∙ e) ok live moves

  decode_block_sound :
      (raw : List RawTraceTx) (r : InternalTxRow) {rows : List InternalTxRow}
      → decode_call_tracer_block big_int lower block timestamp raw ≡ some rows
      → Memᴰ r rows
      → (tx : RawTraceTx) × Memᴰ tx raw × Moved tx r
  unfolding decode_call_tracer_block
  decode_block_sound [] r {rows} e m =
      let none_kept : rows ≡ [] = cc in elim (subst (Memᴰ r) none_kept m) [ ]
  decode_block_sound (tx ∷ raw) r {rows} e m =
      let parts =
        both-eq-some (decode_tx big_int lower block timestamp tx)
          (decode_call_tracer_block big_int lower block timestamp raw) e in
      elim (append_cases parts.0 (subst (Memᴰ r) parts.4 m)) [
        | inl own ↦ (tx, head refl, decode_tx_sound tx r parts.2 own)
        | inr later ↦
            let found = decode_block_sound raw r parts.3 later in (found.0, tail found.1, found.2)
      ]

  decode_block_complete :
      (raw : List RawTraceTx) (r : InternalTxRow) {rows : List InternalTxRow} (tx : RawTraceTx)
      → decode_call_tracer_block big_int lower block timestamp raw ≡ some rows
      → Memᴰ tx raw
      → Moved tx r
      → Memᴰ r rows
  unfolding decode_call_tracer_block
  decode_block_complete [] r tx e m moved = elim m [ ]
  decode_block_complete (first ∷ raw) r {rows} tx e m moved =
      let parts =
        both-eq-some (decode_tx big_int lower block timestamp first)
          (decode_call_tracer_block big_int lower block timestamp raw) e in
      elim m [
        | head same ↦ subst (Memᴰ r) (sym parts.4) (
            append_left parts.1
              (decode_tx_complete first r parts.2 (subst (λ t. Moved t r) same moved)))
        | tail later ↦
            subst (Memᴰ r) (sym parts.4)
              (append_right parts.0 (decode_block_complete raw r tx parts.3 later moved))
      ]

  -- No rows are stored when the decoder throws. Otherwise a row is stored exactly if it is a
  -- value-moving frame of one of the block's own transactions: the trace's hash is, up to case, among
  -- the block's hashes, no frame from the outer call down to the row's has an error, and the row
  -- carries the frame's type, value and addresses, its address in the tree, and the block's number.
  pub prepare_internal_tx_rows_iff :
      (raw : List RawTraceTx) (hashes : List String)
      → let result = prepare_internal_tx_rows big_int lower block timestamp raw hashes in
        (result.problem ≡ true → result.rows ≡ [])
        × (result.problem ≡ false
            → (r : InternalTxRow)
            → Memᴰ r result.rows ↔ (
                (tx : RawTraceTx) × Memᴰ tx raw
                × (is_own big_int lower block timestamp
                      (own_hashes big_int lower block timestamp hashes)
                      tx
                    ≡ true)
                × Moved tx r))
  unfolding prepare_internal_tx_rows
  prepare_internal_tx_rows_iff raw hashes =
      let own = own_hashes big_int lower block timestamp hashes in
      let kept = filter_by (is_own big_int lower block timestamp own) raw in
      elim (Option-cases (decode_call_tracer_block big_int lower block timestamp kept)) [
        | inl threw ↦ rw threw ((λ h. refl), (λ h. ground arith))
        | inr (rows, decoded) ↦ rw decoded (
          (λ h. ground arith),
          (λ h r. (
            λ m.
                let found = decode_block_sound kept r decoded m in
                let traced =
                  mem_of_filter_by (is_own big_int lower block timestamp own) found.0 raw found.1 in
                (found.0, traced.0, traced.1, found.2),
            λ (tx, among, own_tx, moved).
                decode_block_complete kept r tx decoded
                  (mem-filter_by (is_own big_int lower block timestamp own) tx raw among own_tx)
                  moved,
          )),
        )
      ]
