-- ===== src/Failover/Tests.antt =====
-- The theorems of apps/indexer/src/rpc-failover.ts on pools of two endpoints.
use altscan.Prelude.{
  ℕ, ◌≡◌, refl, true, false, List, [], ◌∷◌, Option, none, some, arith, ◌==◌, if◌then◌else◌, Perm,
  All, get, put, has, add,
}
use altscan.Health.{
  Provider, EndpointHealth, create_endpoint_health, nonneg, block, order, rotation, rotate_from,
  rotation_start, demoted_now, is_demoted, record_failure, fail_state, cooldown_for,
}
use altscan.Failover.{
  Attempt, Settled, value, timed_out, process_with_failover, ordered, process_each, health_failure,
}
use altscan.Failover.Errors.{
  new_error, mark_failover_kind, exhausted_clean, failover_kind, is_endpoint_fault,
}
use altscan.Failover.Attempts.{
  IsHonest, FailsCleanly, Verdict, names, process_with_failover-Verdict,
}
use altscan.Failover.Writes.{IsFresh, exhausted_clean-untouched}

abbrev tracker : Option EndpointHealth
tracker = some (
    create_endpoint_health
      (record { demote_after = none; cooldown_ms = none; max_cooldown_ms = none }))

abbrev pool : List Provider
pool = 1 ∷ 2 ∷ []

-- Every endpoint fails before it writes.
abbrev dead : ℕ → Provider → List ℕ → Attempt (List ℕ)
dead number p s = record { state = s; wrote = false; thrown = some new_error }

dead-IsHonest : IsHonest dead
dead-IsHonest number p s unwritten = refl

dead-IsFresh : IsFresh dead
unfolding failover_kind
dead-IsFresh number p s err e = ground arith

exhausted_clean-untouched_example :
    let run = process_with_failover dead 7 (λ i. i) pool (nonneg 1) tracker [] in
    (run.state ≡ [])
    × Perm (names run.reported) pool
    × All (FailsCleanly dead 7 []) (names run.reported)
unfolding process_with_failover process_each ordered failover_kind mark_failover_kind
    is_endpoint_fault order rotation rotate_from rotation_start demoted_now is_demoted
    create_endpoint_health record_failure fail_state cooldown_for get put has health_failure add
exhausted_clean-untouched_example =
    exhausted_clean-untouched dead 7 [] (λ i. i) pool (nonneg 1) tracker
      (mark_failover_kind new_error exhausted_clean) dead-IsHonest dead-IsFresh refl refl

-- Endpoint 2 fails before it writes, and the others store the block's number.
abbrev second_dead : ℕ → Provider → List ℕ → Attempt (List ℕ)
second_dead number p s =
    if p == 2
    then record { state = s; wrote = false; thrown = some new_error }
    else record { state = number ∷ s; wrote = true; thrown = none }

second_dead-IsHonest : IsHonest second_dead
second_dead-IsHonest number p s unwritten = ground arith

process_with_failover-Verdict_example :
    Verdict second_dead 7 []
      (ordered tracker (λ i. i) pool (nonneg 1) block)
      (process_with_failover second_dead 7 (λ i. i) pool (nonneg 1) tracker [])
process_with_failover-Verdict_example =
    process_with_failover-Verdict second_dead 7 [] (λ i. i) pool (nonneg 1) tracker
      second_dead-IsHonest (omega arith)

-- Endpoint 1 does not answer in time. The state lists the endpoints that were asked.
abbrev first_slow : Provider → List Provider → Settled ℕ × List Provider
first_slow p asked = (if p == 1 then timed_out else value 5, p ∷ asked)
