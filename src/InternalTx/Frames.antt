-- ===== src/InternalTx/Frames.antt =====
-- Which frames of a call tree the decoder of apps/indexer/src/internal-tx.ts turns into rows.
use mathlib.Core.List.{Memᴰ}
use mathlib.Core.List.Memᴰ.{head, tail}
use altscan.Prelude.{
  ℕ, zero, suc, ◌≡◌, refl, ap, subst, List, [], ◌∷◌, ◌++◌, Option, none, some, String, arith,
}
use altscan.InternalTx.{
  RawTraceFrame, RawTraceFrames, frame, frames, InternalTxCallType, InternalTxRow, BigInt, natural,
  minus, value_moving, truthy, or_empty, both, value_of, lower_some, row_if, frame_rows,
}

-- A frame without an error.
abbrev pub Unreverted : RawTraceFrame → Type 0
Unreverted (frame kind from to value error calls) = truthy error ≡ none

abbrev pub calls_of : RawTraceFrame → RawTraceFrames
calls_of (frame kind from to value error calls) = calls

-- The frame at an address below a list of frames, where neither it nor any frame above it has an
-- error.
pub data Live : RawTraceFrames → List ℕ → RawTraceFrame → Type 0 where
  here :
      {f : RawTraceFrame} {more : RawTraceFrames} → Unreverted f → Live (frames f more) (0 ∷ []) f
  inside :
      {f g : RawTraceFrame} {more : RawTraceFrames} {j : ℕ} {address : List ℕ}
      → Unreverted f
      → Live (calls_of f) (j ∷ address) g
      → Live (frames f more) (0 ∷ j ∷ address) g
  next :
      {f g : RawTraceFrame} {more : RawTraceFrames} {j : ℕ} {address : List ℕ}
      → Live more (j ∷ address) g
      → Live (frames f more) (suc j ∷ address) g

pub both-eq-some {ℓ} :
    {A : Type ℓ} (o p : Option (List A)) {zs : List A}
    → both o p ≡ some zs
    → (xs : List A) × (ys : List A) × (o ≡ some xs) × (p ≡ some ys) × (zs ≡ xs ++ ys)
both-eq-some none p h = ground arith
both-eq-some (some xs) none h = ground arith
both-eq-some (some xs) (some ys) h = (xs, ys, refl, refl, cc)

module _ (big_int : String → Option BigInt) (lower : String → String) (block timestamp : ℕ) where
  -- A frame moves value: its type is one of the five, its value is above 0, and it names a sender.
  -- The row says so, with the frame's address.
  abbrev pub Moves : (tx_hash : String) → List ℕ → RawTraceFrame → InternalTxRow → Type 0
  Moves tx_hash address (frame kind from to value error calls) r =
      (call_type : InternalTxCallType) × (n : ℕ) × (sender : String) × (value_moving (or_empty kind)
        ≡ some call_type)
      × (value_of big_int lower (truthy value) ≡ some (natural (suc n)))
      × (truthy from ≡ some sender)
      × (r ≡ record {
        tx_hash = tx_hash;
        trace_address = address;
        from_address = lower sender;
        to_address = lower_some big_int lower (truthy to);
        value = suc n;
        call_type = call_type;
        block_number = block;
        timestamp = timestamp;
      })

  row_if-Moves :
      (tx_hash : String) (address : List ℕ) (kind : Option InternalTxCallType) (v : BigInt)
      (from to : Option String) (r : InternalTxRow)
      → Memᴰ r (row_if big_int lower block timestamp tx_hash address kind v from to)
      → (call_type : InternalTxCallType) × (n : ℕ) × (sender : String) × (kind ≡ some call_type)
        × (v ≡ natural (suc n))
        × (from ≡ some sender)
        × (r ≡ record {
          tx_hash = tx_hash;
          trace_address = address;
          from_address = lower sender;
          to_address = lower_some big_int lower to;
          value = suc n;
          call_type = call_type;
          block_number = block;
          timestamp = timestamp;
        })
  row_if-Moves h address (some c) (natural (suc n)) (some s) to r (head e) =
      (c, n, s, refl, refl, refl, e)
  row_if-Moves h address (some c) (natural (suc n)) (some s) to r (tail m) = elim m [ ]
  row_if-Moves h address none v from to r m = elim m [ ]
  row_if-Moves h address (some c) (minus n) from to r m = elim m [ ]
  row_if-Moves h address (some c) (natural zero) from to r m = elim m [ ]
  row_if-Moves h address (some c) (natural (suc n)) none to r m = elim m [ ]

  abbrev pub rows_at : String → List ℕ → RawTraceFrame → Option (List InternalTxRow)
  rows_at h address (frame kind from to value error calls) =
      frame_rows big_int lower block timestamp h address kind from to
        (value_of big_int lower (truthy value))

  pub frame_rows-Moves :
      (h : String) (address : List ℕ) (f : RawTraceFrame) (r : InternalTxRow)
      {rows : List InternalTxRow}
      → rows_at h address f ≡ some rows
      → Memᴰ r rows
      → Moves h address f r
  frame_rows-Moves h address (frame kind from to value error calls) r {rows} e m =
      by_value (value_of big_int lower (truthy value)) e
    where
      by_value :
          (o : Option BigInt)
          → frame_rows big_int lower block timestamp h address kind from to o ≡ some rows
          → (call_type : InternalTxCallType) × (n : ℕ) × (sender : String) × (value_moving
                (or_empty kind)
              ≡ some call_type)
            × (o ≡ some (natural (suc n)))
            × (truthy from ≡ some sender)
            × (r ≡ record {
              tx_hash = h;
              trace_address = address;
              from_address = lower sender;
              to_address = lower_some big_int lower (truthy to);
              value = suc n;
              call_type = call_type;
              block_number = block;
              timestamp = timestamp;
            })
      by_value none e = ground arith
      by_value (some v) e =
          let same : rows
              ≡ row_if big_int lower block timestamp h address (value_moving (or_empty kind)) v
                  (truthy from) (truthy to) =
            cc in
          let found =
            row_if-Moves h address (value_moving (or_empty kind)) v (truthy from) (truthy to) r
              (subst (Memᴰ r) same m) in
          (found.0, found.1, found.2, found.3, ap some found.4, found.5, found.6)

  pub Moves-frame_rows :
      (h : String) (address : List ℕ) (f : RawTraceFrame) (r : InternalTxRow)
      {rows : List InternalTxRow}
      → rows_at h address f ≡ some rows
      → Moves h address f r
      → Memᴰ r rows
  Moves-frame_rows h address (frame kind from to value error calls) r {rows} e
        (c, n, s, is_c, is_n, is_s, is_r) =
      let only : rows_at h address (frame kind from to value error calls) ≡ some (r ∷ []) =
        rw (is_n, is_c, is_s, is_r) in
      let same : r ∷ [] ≡ rows = cc in subst (Memᴰ r) same (head refl)
