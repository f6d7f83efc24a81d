-- ===== src/InternalTx.antt =====
-- apps/indexer/src/internal-tx.ts: the decoder of a block's call traces. `BigInt(value)` and
-- `toLowerCase` are parameters; `BigInt` throws on text that is no integer, which is `none`, and so
-- the decoder's result is an Option. A trace address is kept as the list of child indices that
-- `join('.')` prints, and the timestamp, which is copied into each row, is a number. The frames of a
-- tree and the lists of them are two data types of a mutual block.
pub mod Frames
pub mod Walk
pub mod Decoding
mod Tests
use altscan.Prelude.{
  ℕ, zero, suc, ◌+◌, ◌-◌, Bool, true, false, not, ◌&&◌, List, [], ◌∷◌, ◌++◌, Option, none, some,
  String, ltb, ◌===◌, string_eq, if◌then◌else◌, length, filter_by, map, has, add,
}

mutual
  pub data RawTraceFrame : Type 0 where
    frame : (kind from to value error : Option String) (calls : RawTraceFrames) → RawTraceFrame

  pub data RawTraceFrames : Type 0 where
    no_frames : RawTraceFrames
    frames : RawTraceFrame → RawTraceFrames → RawTraceFrames

pub record RawTraceTx : Type 0 where
  pub tx_hash : Option String
  pub result : Option RawTraceFrame

pub data InternalTxCallType : Type 0 where
  call callcode create create2 selfdestruct : InternalTxCallType

pub record InternalTxRow : Type 0 where
  pub tx_hash : String
  pub trace_address : List ℕ
  pub from_address : String
  pub to_address : Option String
  pub value : ℕ
  pub call_type : InternalTxCallType
  pub block_number : ℕ
  pub timestamp : ℕ

-- What `BigInt` reads.
pub data BigInt : Type 0 where
  natural : ℕ → BigInt
  minus : ℕ → BigInt

-- `VALUE_MOVING[child.type ?? '']`. A type named like a member that every object inherits, such as
-- `constructor`, which is no opcode that a tracer names, counts as unknown here.
unfoldable pub value_moving : String → Option InternalTxCallType
value_moving kind =
    if kind === "CALL"
    then some call
    else if kind === "CALLCODE"
    then some callcode
    else if kind === "CREATE"
    then some create
    else if kind === "CREATE2"
    then some create2
    else if kind === "SELFDESTRUCT"
    then some selfdestruct
    else none

-- A field as JavaScript tests it: an empty text counts as missing.
unfoldable pub truthy : Option String → Option String
truthy none = none
truthy (some s) = if s === "" then none else some s

abbrev pub or_empty : Option String → String
or_empty none = ""
or_empty (some s) = s

-- The rows of two steps, unless one of them throws.
abbrev pub both {ℓ} : {A : Type ℓ} → Option (List A) → Option (List A) → Option (List A)
both (some xs) (some ys) = some (xs ++ ys)
both _ _ = none

module _ (big_int : String → Option BigInt) (lower : String → String) where
  -- `child.value ? BigInt(child.value) : 0n`
  abbrev pub value_of : Option String → Option BigInt
  value_of none = some (natural 0)
  value_of (some text) = big_int text

  abbrev pub lower_some : Option String → Option String
  lower_some none = none
  lower_some (some s) = some (lower s)

  module _ (block_number timestamp : ℕ) where
    -- The row of one frame, if the three tests of the source hold of it.
    abbrev pub row_if :
        (tx_hash : String)
        → List ℕ
        → Option InternalTxCallType
        → BigInt
        → Option String
        → Option String
        → List InternalTxRow
    row_if tx_hash path (some call_type) (natural (suc n)) (some from) to =
        record {
          tx_hash = tx_hash;
          trace_address = path;
          from_address = lower from;
          to_address = lower_some to;
          value = suc n;
          call_type = call_type;
          block_number = block_number;
          timestamp = timestamp;
        }
        ∷ []
    row_if tx_hash path _ _ _ _ = []

    abbrev pub frame_rows :
        (tx_hash : String)
        → List ℕ
        → (kind from to : Option String) → Option BigInt
        → Option (List InternalTxRow)
    frame_rows tx_hash path kind from to none = none
    frame_rows tx_hash path kind from to (some wei) =
        some (row_if tx_hash path (value_moving (or_empty kind)) wei (truthy from) (truthy to))

    -- `walk` over the children of a frame, from the child with index `i`.
    unfoldable pub walk :
        (tx_hash : String) → List ℕ → (i : ℕ) → RawTraceFrames → Option (List InternalTxRow)
    walk tx_hash path i no_frames = some []
    walk tx_hash path i (frames (frame kind from to value error calls) more) =
        let child_path = path ++ i ∷ [] in
        let inside = walk tx_hash child_path 0 calls in
        let rest = walk tx_hash path (suc i) more in
        elim (truthy error) [
          | some reverted ↦ rest
          | none ↦
              both (frame_rows tx_hash child_path kind from to (value_of (truthy value)))
                (both inside rest)
        ]

    abbrev pub decode_root : Option String → RawTraceFrame → Option (List InternalTxRow)
    decode_root tx_hash (frame kind from to value error calls) = elim (truthy error) [
      | some reverted ↦ some []
      | none ↦ elim tx_hash [ none ↦ none | some h ↦ walk (lower h) [] 0 calls ]
    ]

    abbrev pub decode_tx : RawTraceTx → Option (List InternalTxRow)
    decode_tx tx = elim tx.result [ none ↦ some [] | some root ↦ decode_root tx.tx_hash root ]

    unfoldable pub decode_call_tracer_block : List RawTraceTx → Option (List InternalTxRow)
    decode_call_tracer_block [] = some []
    decode_call_tracer_block (tx ∷ raw) = both (decode_tx tx) (decode_call_tracer_block raw)

    pub record Prepared : Type 0 where
      pub rows : List InternalTxRow
      pub dropped : ℕ
      pub problem : Bool

    abbrev pub is_own : List String → RawTraceTx → Bool
    is_own own tx = elim tx.tx_hash [ none ↦ false | some h ↦ has (lower h) own ]

    abbrev pub own_hashes : List String → List String
    own_hashes [] = []
    own_hashes (h ∷ hashes) = lower h ∷ own_hashes hashes

    -- The `catch` keeps no rows.
    abbrev pub prepared : ℕ → Option (List InternalTxRow) → Prepared
    prepared dropped none = record { rows = []; dropped = 0; problem = true }
    prepared dropped (some rows) = record { rows = rows; dropped = dropped; problem = false }

    unfoldable pub prepare_internal_tx_rows :
        List RawTraceTx → (block_tx_hashes : List String) → Prepared
    prepare_internal_tx_rows raw block_tx_hashes =
        let own = own_hashes block_tx_hashes in
        let kept = filter_by (is_own own) raw in
        prepared (length raw - length kept) (decode_call_tracer_block kept)
