-- ===== src/Poll.antt =====
-- apps/indexer/src/index.ts: the poll loop, step by step: the bulk skip, the recovery from a reorg, the
-- cursor that follows a batch of workers, and the quarantine of the block above it. A batch is the
-- list of its completions, in the order in which they happen; the array `blockStatus` is a function of
-- the index. The transfer writer, the webhooks, the waiting and the logging are left out.
pub mod Steps
pub mod Batch
pub mod Resume
mod Tests
use altscan.Prelude.{
  ℕ, zero, suc, ◌+◌, ◌-◌, Bool, true, false, not, ◌&&◌, ◌||◌, List, [], ◌∷◌, Option, none, some,
  String, ltb, leb, ◌==◌, if◌then◌else◌,
}
use altscan.Poison.{
  Tracker, Knob, count, record_clean_failure, record_unclean, record_success, forget, clear_above,
  prune, should_quarantine,
}
use altscan.Failover.Errors.{
  Thrown, FailoverFailureKind, marked, exhausted_clean, aborted_dirty, unknown, failover_kind,
}
use altscan.Db.{Db}
use altscan.Gaps.{
  Reply, replied, rejected, DriverResult, record_poison_gap_if_absent, is_poison_block, MaxLagSkip,
  plan_max_lag_skip, record_index_gap,
}
use altscan.Reorg.{unwind_from}

-- The variables of the loop, with the database.
pub record Poller : Type 0 where
  pub db : Db
  pub last_indexed : ℕ
  pub poison_blocks : Tracker
  pub resume_gap_backfill_until : Option ℕ

-- The recovery whose rollback runs to its end.
pub recover_from_reorg : (fork_point : ℕ) → Poller → Poller
recover_from_reorg fork_point s = record s {
  db = unwind_from (fork_point + 1) s.db;
  last_indexed = fork_point;
  poison_blocks = (clear_above s.poison_blocks fork_point).0;
}

-- The backfill of the resume scan ends when the cursor has reached its last block.
abbrev pub resume_after : ℕ → Option ℕ → Option ℕ
resume_after last_indexed none = none
resume_after last_indexed (some until) = if leb until last_indexed then none else some until

abbrev pub lag_skip : ℕ → ℕ → ℕ → Option ℕ → Option MaxLagSkip
lag_skip latest last_indexed max_lag none = plan_max_lag_skip latest last_indexed max_lag
lag_skip latest last_indexed max_lag (some until) = none

-- A gap that could not be recorded is not skipped.
abbrev pub skip_recorded : MaxLagSkip → Poller → Db × Reply Bool → Poller
skip_recorded plan s (db, replied _) = record s { db = db; last_indexed = plan.abandoned_to }
skip_recorded plan s (db, rejected) = record s { db = db }

abbrev pub skip_planned : (reached : Bool) → (reason : String) → Option MaxLagSkip → Poller → Poller
skip_planned reached reason none s = s
skip_planned reached reason (some plan) s =
    skip_recorded plan s
      (record_index_gap reached s.db (some plan.abandoned_from) (some plan.abandoned_to) reason)

pub bulk_skip : (reached : Bool) → (latest max_lag : ℕ) → (reason : String) → Poller → Poller
bulk_skip reached latest max_lag reason s =
    let resume = resume_after s.last_indexed s.resume_gap_backfill_until in
    skip_planned reached reason (lag_skip latest s.last_indexed max_lag resume)
      (record s { resume_gap_backfill_until = resume })

-- `blockStatus`: 0 pending, 1 claimed, 2 done, 3 failed.
pub data Status : Type 0 where
  pending claimed done broken : Status

abbrev pub set_status : ℕ → Status → (ℕ → Status) → ℕ → Status
set_status i v status j = if j == i then v else status j

abbrev pub is_done : Status → Bool
is_done done = true
is_done _ = false

-- The loop of `advanceLastIndexed`, over the `rounds` blocks above the cursor.
unfoldable pub advance : (ℕ → Status) → (from rounds last_indexed : ℕ) → ℕ
advance status from zero last_indexed = last_indexed
advance status from (suc rounds) last_indexed =
    let rest = advance status from rounds (last_indexed + 1) in
    if is_done (status (last_indexed + 1 - from)) then rest else last_indexed

pub record BatchState : Type 0 where
  pub block_status : ℕ → Status
  pub last_indexed : ℕ
  pub poison_blocks : Tracker
  pub failure : Option ℕ

-- One worker ends with the block at an index, or fails on it.
pub data Completion : Type 0 where
  indexed : (idx : ℕ) → Completion
  threw : (idx : ℕ) → Thrown → Completion

abbrev pub note_failure : FailoverFailureKind → ℕ → Tracker → Tracker
note_failure (marked exhausted_clean) block t = (record_clean_failure t block).0
note_failure _ block t = record_unclean t block

abbrev pub first_failure : Option ℕ → ℕ → Option ℕ
first_failure none block = some block
first_failure (some earlier) block = some earlier

unfoldable pub complete : (from total : ℕ) → Completion → BatchState → BatchState
unfolding advance
complete from total (indexed idx) b =
    let status = set_status idx done b.block_status in
    record b {
      block_status = status;
      poison_blocks = record_success b.poison_blocks (from + idx);
      last_indexed = advance status from (from + total - (b.last_indexed + 1)) b.last_indexed;
    }
complete from total (threw idx err) b = record b {
  block_status = set_status idx broken b.block_status;
  poison_blocks = note_failure (failover_kind err) (from + idx) b.poison_blocks;
  failure = first_failure b.failure (from + idx);
}

unfoldable pub run_batch : (from total : ℕ) → List Completion → BatchState → BatchState
unfolding complete
run_batch from total [] b = b
run_batch from total (c ∷ cs) b = run_batch from total cs (complete from total c b)

-- A batch starts with every block pending.
abbrev pub fresh_batch : Poller → BatchState
fresh_batch s = record {
  block_status = λ i. pending;
  last_indexed = s.last_indexed;
  poison_blocks = s.poison_blocks;
  failure = none;
}

abbrev pub is_recorded : Reply Bool → Bool
is_recorded (replied b) = b
is_recorded rejected = false

pub is_recorded_poison_gap : (driver : ℕ → DriverResult) → Db → ℕ → Bool
is_recorded_poison_gap driver db blocker = is_recorded (is_poison_block driver db (some blocker))

-- `tryQuarantine`: a refusal, because the block's row exists, forgets the count; an error keeps it.
abbrev pub quarantine_answer : ℕ → Poller → Db × Reply Bool → Poller × Bool
quarantine_answer blocker s (db, replied true) = (record s { db = db }, true)
quarantine_answer blocker s (db, replied false) =
    (record s { db = db; poison_blocks = forget s.poison_blocks blocker }, false)
quarantine_answer blocker s (db, rejected) = (record s { db = db }, false)

pub try_quarantine :
    (driver : ℕ → DriverResult)
    → (now : ℕ) → (reason : String) → (blocker failures : ℕ) → Poller
    → Poller × Bool
try_quarantine driver now reason blocker failures s =
    quarantine_answer blocker s
      (record_poison_gap_if_absent driver s.db now (some blocker) reason (some failures))

abbrev pub step_over : ℕ → Poller × Bool → Poller
step_over blocker (s, true) = record s {
  last_indexed = blocker;
  poison_blocks = forget s.poison_blocks blocker;
}
step_over blocker (s, false) = s

-- What the loop does after a batch in which a block failed.
pub after_failure :
    (enabled : Bool)
    → (quarantine_after : Knob) → (driver : ℕ → DriverResult) → (now : ℕ) → (reason : String)
    → Poller
    → Poller
unfolding try_quarantine is_recorded_poison_gap
after_failure enabled quarantine_after driver now reason s =
    let blocker = s.last_indexed + 1 in
    let failures = count s.poison_blocks blocker in
    let resuming : Bool = elim s.resume_gap_backfill_until [
      | none ↦ true
      | some _ ↦ is_recorded_poison_gap driver s.db blocker
    ] in
    if enabled && should_quarantine blocker s.last_indexed failures quarantine_after && resuming
    then step_over blocker (try_quarantine driver now reason blocker failures s)
    else s

pub prune_counts : Poller → Poller
prune_counts s = record s { poison_blocks = prune s.poison_blocks s.last_indexed }
