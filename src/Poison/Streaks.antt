-- ===== src/Poison/Streaks.antt =====
-- What a count of the tracker means: the length of the run of clean failures that no success, no
-- unclean failure, no reorg and no pruning has broken.
use altscan.Prelude.{
  ℕ, ◌+◌, ◌≡◌, refl, not, List, [], ◌∷◌, arith, ltb, leb, ◌==◌, if◌then◌else◌, get, get-put,
  get-delete, get-keep_key, nat_eq, or_zero,
}
use altscan.Poison.{
  Tracker, count, record_clean_failure, record_unclean, record_success, forget, clear_above, prune,
}

-- What the poll loop reports to the tracker.
pub data Event : Type 0 where
  clean_failure unclean_failure success forgotten : ℕ → Event
  reorg pruned : ℕ → Event

pub apply_event : Tracker → Event → Tracker
apply_event t (clean_failure b) = (record_clean_failure t b).0
apply_event t (unclean_failure b) = record_unclean t b
apply_event t (success b) = record_success t b
apply_event t (forgotten b) = forget t b
apply_event t (reorg fork_point) = (clear_above t fork_point).0
apply_event t (pruned through_block) = prune t through_block

pub apply_events : Tracker → List Event → Tracker
apply_events t [] = t
apply_events t (e ∷ es) = apply_events (apply_event t e) es

-- The run of clean failures of one height that stands at the end of a history, by its own recursion.
abbrev pub streak_after : ℕ → ℕ → Event → ℕ
streak_after b n (clean_failure c) = if b == c then n + 1 else n
streak_after b n (unclean_failure c) = if b == c then 0 else n
streak_after b n (success c) = if b == c then 0 else n
streak_after b n (forgotten c) = if b == c then 0 else n
streak_after b n (reorg fork_point) = if ltb fork_point b then 0 else n
streak_after b n (pruned through_block) = if leb b through_block then 0 else n

abbrev pub streak : ℕ → ℕ → List Event → ℕ
streak b n [] = n
streak b n (e ∷ es) = streak b (streak_after b n e) es

count-apply_event :
    (b : ℕ) (t : Tracker) (e : Event) → count (apply_event t e) b ≡ streak_after b (count t b) e
unfolding count apply_event record_clean_failure record_unclean record_success forget clear_above
    prune
count-apply_event b t (clean_failure c) =
    ground (arith, get-put c b (or_zero (get c t.fails) + 1) t.fails)
count-apply_event b t (unclean_failure c) = ground (arith, get-delete c b t.fails)
count-apply_event b t (success c) = ground (arith, get-delete c b t.fails)
count-apply_event b t (forgotten c) = ground (arith, get-delete c b t.fails)
count-apply_event b t (reorg f) =
    ground (arith, get-keep_key (λ block. not (ltb f block)) b t.fails)
count-apply_event b t (pruned f) =
    ground (arith, get-keep_key (λ block. not (leb block f)) b t.fails)

-- After any history the count of a height is its run of clean failures since the last success,
-- unclean failure, forgetting, reorg below it or pruning at or above it.
pub count-apply_events :
    (b : ℕ) (t : Tracker) (es : List Event) → count (apply_events t es) b ≡ streak b (count t b) es
unfolding apply_events
count-apply_events b t [] = refl
count-apply_events b t (e ∷ es) =
    ground (arith, count-apply_events b (apply_event t e) es, count-apply_event b t e)
