-- ===== src/Gaps/Skip.antt =====
-- The bulk skip moves the cursor forward only.
use altscan.Prelude.{ℕ, ◌+◌, ◌<◌, ◌≡◌, ◌↔◌, some, arith}
use altscan.Gaps.{MaxLagSkip, plan_max_lag_skip, max_lag_skip_keep}

-- The skip fires exactly when the lag exceeds the limit and more than the kept distance. It then
-- abandons the blocks from the one above the cursor to the one at the kept distance from the tip, so
-- the cursor moves forward, stays below the tip, and jumps over no block outside the range.
pub plan_max_lag_skip_iff :
    (latest last_indexed max_lag : ℕ) (plan : MaxLagSkip)
    → (plan_max_lag_skip latest last_indexed max_lag ≡ some plan) ↔ (
        (last_indexed + max_lag < latest)
        × (last_indexed + max_lag_skip_keep < latest)
        × (plan.abandoned_from ≡ last_indexed + 1)
        × (plan.abandoned_to + max_lag_skip_keep ≡ latest)
        × (last_indexed < plan.abandoned_to)
        × (plan.abandoned_to < latest))
unfolding plan_max_lag_skip
plan_max_lag_skip_iff latest last_indexed max_lag plan = (λ e. ground arith, λ c. ground arith)
