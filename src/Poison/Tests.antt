-- ===== src/Poison/Tests.antt =====
-- The theorems of apps/indexer/src/poison-block.ts at concrete histories.
use altscan.Prelude.{◌≡◌, refl, true, List, [], ◌∷◌, arith}
use altscan.Poison.{integer, should_quarantine, count, no_fails}
use altscan.Poison.Streaks.{Event, clean_failure, success, apply_events}
use altscan.Poison.Threshold.{should_quarantine-streak_iff}

abbrev history : List Event
history = clean_failure 8 ∷ success 8 ∷ clean_failure 8 ∷ clean_failure 9 ∷ clean_failure 8 ∷ []

should_quarantine-streak_iff_example :
    should_quarantine 8 7 (count (apply_events no_fails history) 8) (integer 2) ≡ true
should_quarantine-streak_iff_example =
    (should_quarantine-streak_iff 8 7 (integer 2) history).1 (refl, omega arith)
