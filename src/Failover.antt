-- ===== src/Failover.antt =====
-- apps/indexer/src/rpc-failover.ts: failover over the endpoints of the pool, for the indexing of one
-- block (`processWithFailover`) and for reads (`readWithFailover`). What runs against an endpoint is
-- a parameter that passes a state on: the database for a block, whatever a read's callback keeps.
-- The health tracker may be absent. The clock is a sequence of readings: those of the ordering come
-- first, one for each endpoint, and the i-th attempt has the reading after them. A timeout is an
-- outcome of the attempt. Logging and the redaction of logged text are left out.
pub mod Errors
pub mod Attempts
pub mod Writes
pub mod Reads
mod Tests
use altscan.Prelude.{
  ℕ, suc, ◌+◌, Bool, true, false, not, List, [], ◌∷◌, ◌++◌, Option, none, some, if◌then◌else◌,
  length,
}
use altscan.Health.{
  Provider, EndpointHealth, HealthKind, block, Index, rotation, order, record_success,
  record_failure, nonneg, rotation_start,
}
use Errors.{
  Thrown, Mark, aborted_dirty, exhausted_clean, mark_failover_kind, is_endpoint_fault, new_error,
  undefined_value,
}

-- `health?.recordSuccess` and `health?.recordFailure`
unfoldable pub health_success :
    Option EndpointHealth → Provider → HealthKind → Option EndpointHealth
health_success none p kind = none
health_success (some h) p kind = some (record_success h p kind)

unfoldable pub health_failure :
    Option EndpointHealth → ℕ → Provider → HealthKind → Option EndpointHealth
health_failure none now p kind = none
health_failure (some h) now p kind = some (record_failure h now p kind)

-- `ordered`: by the tracker when there is one, else the plain rotation.
unfoldable pub ordered :
    Option EndpointHealth → (ℕ → ℕ) → List Provider → Index → HealthKind → List Provider
ordered none clock ps start_idx kind = rotation ps start_idx
ordered (some h) clock ps start_idx kind =
    order h clock ps (nonneg (rotation_start start_idx (length ps))) kind

pub data Ended {ℓ} (T : Type ℓ) : Type ℓ where
  returned : T → Ended T
  threw : Thrown → Ended T

-- What a run leaves behind: how it ended, the state, the tracker, and the calls of `onFailover`.
pub record Run {ℓ κ} (T : Type ℓ) (S : Type κ) : Type (ℓ ⊔ κ) where
  pub ended : Ended T
  pub state : S
  pub health : Option EndpointHealth
  pub reported : List (Provider × Thrown)

-- One call of the work on a block: the state after it, whether `onSideEffect` was called, and what
-- it threw, if it did.
pub record Attempt {ℓ} (S : Type ℓ) : Type ℓ where
  pub state : S
  pub wrote : Bool
  pub thrown : Option Thrown

module _ {ℓ} {S : Type ℓ} (work : ℕ → Provider → S → Attempt S) (number : ℕ) where
  -- The handler of one attempt, given the run over the endpoints that are left.
  abbrev pub settle :
      (now : ℕ)
      → Provider
      → Option EndpointHealth
      → List (Provider × Thrown)
      → Attempt S
      → (Option EndpointHealth → Thrown → List (Provider × Thrown) → S → Run (Unit {0}) S)
      → Run (Unit {0}) S
  settle now p health reported a next = elim a.thrown [
    | none ↦ record {
      ended = returned tt;
      state = a.state;
      health = health_success health p block;
      reported = reported;
    }
    | some err ↦
        if a.wrote
        then record {
          ended = threw (mark_failover_kind err aborted_dirty);
          state = a.state;
          health = health;
          reported = reported;
        }
        else next (if is_endpoint_fault err then health_failure health now p block else health) err
            (reported ++ (p, err) ∷ []) a.state
  ]

  pub process_each :
      (clock : ℕ → ℕ)
      → List Provider
      → Option EndpointHealth
      → Thrown
      → List (Provider × Thrown)
      → S
      → Run (Unit {0}) S
  process_each clock [] health last_err reported s = record {
    ended = threw (mark_failover_kind last_err exhausted_clean);
    state = s;
    health = health;
    reported = reported;
  }
  process_each clock (p ∷ ps) health last_err reported s =
      settle (clock 0) p health reported (work number p s) (process_each (λ i. clock (suc i)) ps)

  pub process_with_failover :
      (clock : ℕ → ℕ) → List Provider → Index → Option EndpointHealth → S → Run (Unit {0}) S
  unfolding process_each ordered health_success health_failure
  process_with_failover clock [] start_idx health s = record {
    ended = threw new_error;
    state = s;
    health = health;
    reported = [];
  }
  process_with_failover clock (p ∷ ps) start_idx health s =
      process_each (λ i. clock (length (p ∷ ps) + i))
        (ordered health clock (p ∷ ps) start_idx block) health undefined_value [] s

-- One read: it settles with a value or an error before the timeout, or it does not.
pub data Settled {ℓ} (T : Type ℓ) : Type ℓ where
  value : T → Settled T
  failed : Thrown → Settled T
  timed_out : Settled T

-- `Promise.race` against the timer.
abbrev pub race {ℓ} : {T : Type ℓ} → Settled T → Ended T
race (value v) = returned v
race (failed err) = threw err
race timed_out = threw new_error

module _ {ℓ κ} {T : Type ℓ} {S : Type κ} (work : Provider → S → Settled T × S)
    (kind : HealthKind) where
  abbrev pub settle_read :
      (now : ℕ)
      → Provider
      → Option EndpointHealth
      → List (Provider × Thrown)
      → S
      → Ended T
      → (Option EndpointHealth → Thrown → List (Provider × Thrown) → S → Run T S)
      → Run T S
  settle_read now p health reported s (returned v) next = record {
    ended = returned v;
    state = s;
    health = health_success health p kind;
    reported = reported;
  }
  settle_read now p health reported s (threw err) next =
      if not (is_endpoint_fault err)
      then record { ended = threw err; state = s; health = health; reported = reported }
      else next (health_failure health now p kind) err (reported ++ (p, err) ∷ []) s

  unfoldable pub read_each :
      (clock : ℕ → ℕ)
      → List Provider
      → Option EndpointHealth
      → Thrown
      → List (Provider × Thrown)
      → S
      → Run T S
  read_each clock [] health last_err reported s = record {
    ended = threw last_err;
    state = s;
    health = health;
    reported = reported;
  }
  read_each clock (p ∷ ps) health last_err reported s =
      settle_read (clock 0) p health reported (work p s).1 (race (work p s).0)
        (read_each (λ i. clock (suc i)) ps)

  unfoldable pub read_with_failover :
      (clock : ℕ → ℕ) → List Provider → Index → Option EndpointHealth → S → Run T S
  unfolding read_each ordered health_success health_failure
  read_with_failover clock [] start_idx health s = record {
    ended = threw new_error;
    state = s;
    health = health;
    reported = [];
  }
  read_with_failover clock (p ∷ ps) start_idx health s =
      read_each (λ i. clock (length (p ∷ ps) + i)) (ordered health clock (p ∷ ps) start_idx kind)
        health undefined_value [] s
