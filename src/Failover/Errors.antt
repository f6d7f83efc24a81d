-- ===== src/Failover/Errors.antt =====
-- apps/indexer/src/rpc-failover.ts: the two marks that a thrown value may carry. A value that is no
-- object, or a frozen one, takes no mark. `payload` tells the error classes apart that the code
-- tests with `instanceof`; `message` stands for the rest of the value.
use altscan.Prelude.{ℕ, Bool, true, false, not, ◌&&◌, Option, none, some, if◌then◌else◌}

-- The two marks that `markFailoverKind` may set.
pub data Mark : Type 0 where
  exhausted_clean aborted_dirty : Mark

pub data FailoverFailureKind : Type 0 where
  marked : Mark → FailoverFailureKind
  unknown : FailoverFailureKind

-- `UnresolvedForkError` of reorg-handler.ts is the one class with fields that are read again.
pub data Payload : Type 0 where
  plain : Payload
  unresolved_fork : (start_from floor max_depth : ℕ) → Payload

pub record Thrown : Type 0 where
  pub is_object : Bool
  pub is_frozen : Bool
  pub not_endpoint_fault : Bool
  pub failover_mark : Option Mark
  pub payload : Payload
  pub message : ℕ

-- `new Error(…)`
abbrev pub new_error : Thrown
new_error = record {
  is_object = true;
  is_frozen = false;
  not_endpoint_fault = false;
  failover_mark = none;
  payload = plain;
  message = 0;
}

-- `undefined`
abbrev pub undefined_value : Thrown
undefined_value = record new_error { is_object = false }

abbrev pub takes_marks : Thrown → Bool
takes_marks err = err.is_object && not err.is_frozen

unfoldable pub mark_not_endpoint_fault : Thrown → Thrown
mark_not_endpoint_fault err =
    if takes_marks err then record err { not_endpoint_fault = true } else err

unfoldable pub is_endpoint_fault : Thrown → Bool
is_endpoint_fault err = not (err.is_object && err.not_endpoint_fault)

abbrev pub kind_of_mark : Option Mark → FailoverFailureKind
kind_of_mark none = unknown
kind_of_mark (some m) = marked m

unfoldable pub failover_kind : Thrown → FailoverFailureKind
failover_kind err = if err.is_object then kind_of_mark err.failover_mark else unknown

unfoldable pub mark_failover_kind : Thrown → Mark → Thrown
mark_failover_kind err kind =
    if takes_marks err then record err { failover_mark = some kind } else err
