-- ===== src/Poison/Threshold.antt =====
-- Which block may be quarantined, and on what evidence.
use altscan.Prelude.{
  ℕ, ◌+◌, ◌≤◌, ◌≡◌, refl, ◌↔◌, true, not, List, arith, ltb, leb, if◌then◌else◌, get, get-keep_key,
  length-keep_split, length-keep-le, nat_eq,
}
use altscan.Poison.{
  Knob, integer, unusable, positive_or, default_quarantine_after, should_quarantine, no_fails,
  count, Tracker, size, clear_above, prune,
}
use altscan.Poison.Streaks.{Event, apply_events, streak, count-apply_events}

-- The threshold in force is at least 1, whatever was configured.
positive_or_pos : (k : Knob) → 1 ≤ positive_or default_quarantine_after k
positive_or_pos (integer n) = ground arith
positive_or_pos unusable = omega arith

-- A block is a candidate exactly when it is the one above the cursor and its clean failures reach
-- the threshold in force, which is at least 1 for every configured value.
pub should_quarantine_iff :
    (block last failures : ℕ) (k : Knob)
    → ((should_quarantine block last failures k ≡ true)
        ↔ ((block ≡ last + 1) × (positive_or default_quarantine_after k ≤ failures)))
      × (1 ≤ positive_or default_quarantine_after k)
unfolding should_quarantine
should_quarantine_iff block last failures k = (ground arith, positive_or_pos k)

count-no_fails : (b : ℕ) → count no_fails b ≡ 0
unfolding count no_fails get
count-no_fails b = refl

-- After any history of the process the block above the cursor, and no other, is a candidate exactly
-- when its unbroken run of clean failures reaches the threshold in force.
pub should_quarantine-streak_iff :
    (block last : ℕ) (k : Knob) (es : List Event)
    → (should_quarantine block last (count (apply_events no_fails es) block) k ≡ true)
      ↔ ((block ≡ last + 1) × (positive_or default_quarantine_after k ≤ streak block 0 es))
should_quarantine-streak_iff block last k es =
    rw (count-apply_events block no_fails es, count-no_fails block)
      (should_quarantine_iff block last (streak block 0 es) k).0

-- Reorg recovery drops every count above the fork point and reports how many it dropped, and
-- pruning drops every count that the cursor has passed; neither changes another height's count.
clear_above-prune :
    (t : Tracker) (height b : ℕ)
    → (size (clear_above t height).0 + (clear_above t height).1 ≡ size t)
      × (count (clear_above t height).0 b ≡ (if ltb height b then 0 else count t b))
      × (count (prune t height) b ≡ (if leb b height then 0 else count t b))
      × (size (prune t height) ≤ size t)
unfolding size clear_above count prune
clear_above-prune t height b = (
  length-keep_split (λ block. ltb height block) t.fails,
  ground (arith, get-keep_key (λ block. not (ltb height block)) b t.fails),
  ground (arith, get-keep_key (λ block. not (leb block height)) b t.fails),
  length-keep-le (λ block _. not (leb block height)) t.fails,
)
