-- ===== src/InternalTx/Tests.antt =====
-- The theorem of apps/indexer/src/internal-tx.ts on a block of one traced transaction.
use mathlib.Core.List.{Memᴰ}
use mathlib.Core.List.Memᴰ.{head}
use altscan.Prelude.{
  refl, [], ◌∷◌, Option, none, some, String, ◌===◌, string_eq, if◌then◌else◌, has,
}
use altscan.InternalTx.{
  RawTraceFrame, frame, frames, no_frames, RawTraceTx, InternalTxRow, BigInt, natural, call, truthy,
  value_moving, walk, decode_call_tracer_block, prepare_internal_tx_rows,
}
use altscan.InternalTx.Frames.{here, inside}
use altscan.InternalTx.Decoding.{prepare_internal_tx_rows_iff}

abbrev big_int : String → Option BigInt
big_int text = if text === "0x5" then some (natural 5) else none

-- A transfer inside a delegated call.
abbrev transfer : RawTraceFrame
transfer = frame (some "CALL") (some "0xb") (some "0xc") (some "0x5") none no_frames

abbrev delegated : RawTraceFrame
delegated =
    frame (some "DELEGATECALL") (some "0xa") (some "0xb") (some "0x5") none
      (frames transfer no_frames)

abbrev outer : RawTraceFrame
outer = frame (some "CALL") (some "0xa") (some "0xb") none none (frames delegated no_frames)

abbrev traced : RawTraceTx
traced = record { tx_hash = some "0x1"; result = some outer }

abbrev row : InternalTxRow
row = record {
  tx_hash = "0x1";
  trace_address = 0 ∷ 0 ∷ [];
  from_address = "0xb";
  to_address = some "0xc";
  value = 5;
  call_type = call;
  block_number = 7;
  timestamp = 0;
}

prepare_internal_tx_rows_iff_example :
    Memᴰ row (prepare_internal_tx_rows big_int (λ s. s) 7 0 (traced ∷ []) ("0x1" ∷ [])).rows
unfolding prepare_internal_tx_rows decode_call_tracer_block walk truthy value_moving has
prepare_internal_tx_rows_iff_example =
    ((prepare_internal_tx_rows_iff big_int (λ s. s) 7 0 (traced ∷ []) ("0x1" ∷ [])).1 refl row).1 (
      traced,
      head refl,
      refl,
      (
        "0x1",
        outer,
        0 ∷ 0 ∷ [],
        transfer,
        refl,
        refl,
        refl,
        inside refl (here refl),
        (call, 4, "0xb", refl, refl, refl, refl),
      ),
    )
