-- ===== src/Health/Tests.antt =====
-- The theorems of apps/indexer/src/endpoint-health.ts at concrete pools and histories.
use altscan.Prelude.{◌+◌, ◌≡◌, true, List, [], ◌∷◌, none, arith, Perm, nat_eq}
use altscan.Health.{
  EndpointHealth, Provider, Options, create_endpoint_health, is_demoted, order, nonneg, read,
}
use altscan.Health.Reports.{Report, failed, succeeded, apply_reports}
use altscan.Health.Order.{order-perm}
use altscan.Health.Cooldown.{is_demoted-apply_reports}

abbrev no_options : Options
no_options = record { demote_after = none; cooldown_ms = none; max_cooldown_ms = none }

abbrev history : List Report
history =
    failed 10 2 read
    ∷ succeeded 2 read
    ∷ failed 20 2 read
    ∷ failed 30 2 read
    ∷ failed 40 2 read
    ∷ []

abbrev two_down : EndpointHealth
two_down = record {
  demote_after = 3;
  cooldown_ms = 60_000;
  max_cooldown_ms = 900_000;
  reads = (2, record { consecutive_failures = 3; last_failure_at = 40; failed_waves = 0 }) ∷ [];
  blocks = [];
  reorgs = [];
}

abbrev three : List Provider
three = 1 ∷ 2 ∷ 3 ∷ []

order-perm_example : Perm (order two_down (λ i. 100 + i) three (nonneg 1) read) three
order-perm_example = order-perm two_down (λ i. 100 + i) three (nonneg 1) read

is_demoted-apply_reports_example :
    is_demoted (apply_reports (create_endpoint_health no_options) history) 60_039 2 read ≡ true
unfolding create_endpoint_health
is_demoted-apply_reports_example =
    (is_demoted-apply_reports no_options history 60_039 2 read (omega arith)).1 (omega arith)
      (omega arith)
