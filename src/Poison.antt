-- ===== src/Poison.antt =====
-- apps/indexer/src/poison-block.ts: the tracker of consecutive clean failures and the test that
-- makes a block a candidate for quarantine. A height is a number, and the `Map` of counts is an
-- insertion-ordered association list. The threshold of `shouldQuarantine` is a configured value that
-- may be no positive integer: `Knob` keeps the cases that the code tells apart.
pub mod Streaks
pub mod Threshold
mod Tests
use altscan.Prelude.{
  ℕ, ◌+◌, Bool, true, false, not, ◌&&◌, List, [], ◌∷◌, Option, none, some, ltb, leb, ◌==◌,
  if◌then◌else◌, length, get, put, delete, keep, nat_eq, or_zero,
}

pub record Tracker : Type 0 where
  pub fails : List (ℕ × ℕ)

pub no_fails : Tracker
no_fails = record { fails = [] }

-- `count(block)`
pub count : Tracker → ℕ → ℕ
count t block = or_zero (get block t.fails)

-- `recordCleanFailure(block)`: the new count is returned with the new state.
pub record_clean_failure : Tracker → ℕ → Tracker × ℕ
unfolding count
record_clean_failure t block =
    let next = count t block + 1 in (record { fails = put block next t.fails }, next)

pub record_unclean : Tracker → ℕ → Tracker
record_unclean t block = record { fails = delete block t.fails }

pub record_success : Tracker → ℕ → Tracker
record_success t block = record { fails = delete block t.fails }

pub forget : Tracker → ℕ → Tracker
forget t block = record { fails = delete block t.fails }

-- `clearAbove(forkPoint)`: the number of cleared entries is returned with the new state.
pub clear_above : Tracker → ℕ → Tracker × ℕ
clear_above t fork_point = (
  record { fails = keep (λ block _. not (ltb fork_point block)) t.fails },
  length (keep (λ block _. ltb fork_point block) t.fails),
)

pub prune : Tracker → ℕ → Tracker
prune t through_block = record { fails = keep (λ block _. not (leb block through_block)) t.fails }

pub size : Tracker → ℕ
size t = length t.fails

-- `DEFAULT_QUARANTINE_AFTER` of config.ts.
abbrev pub default_quarantine_after : ℕ
default_quarantine_after = 5

-- A configured number: an integer of at least 0, or one that is negative, fractional or NaN.
pub data Knob : Type 0 where
  integer : ℕ → Knob
  unusable : Knob

abbrev pub positive_or : ℕ → Knob → ℕ
positive_or fallback (integer n) = if leb 1 n then n else fallback
positive_or fallback unusable = fallback

pub should_quarantine : ℕ → ℕ → ℕ → Knob → Bool
should_quarantine block_number last_indexed consecutive_clean_failures quarantine_after =
    let threshold = positive_or default_quarantine_after quarantine_after in
    if not (block_number == last_indexed + 1)
    then false
    else leb threshold consecutive_clean_failures
