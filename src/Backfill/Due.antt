-- ===== src/Backfill/Due.antt =====
-- apps/indexer/src/backfill-worker.ts: the WHERE and the ORDER BY of the claim, as conditions on rows.
use altscan.Prelude.{
  ◌⊎◌, ℕ, ◌≡◌, refl, sym, ap, ◌∙◌, inl, inr, Bool, true, false, ◌&&◌, none, some, ◌<◌, ◌≤◌, ◌+◌,
  ◌*◌, ◌^◌, min, Option-cases, Bool-cases, arith, false≢true, ltb, not, if◌then◌else◌,
}
use altscan.Backfill.{
  Status, pending, partial, running, complete, capped, error, Watermark, Config, claimable,
  comes_before, is_partial,
}

-- A row that waits to be worked on: new or half done; held by a worker whose lease has run out; or
-- failed, with attempts left, and not tried since its cooldown of 2^attempts seconds, at most half an
-- hour, began. Times are in microseconds.
pub data IsDue (cfg : Config) (now : ℕ) (w : Watermark) : Type 0 where
  never_begun : w.status ≡ pending → IsDue cfg now w
  half_done : w.status ≡ partial → IsDue cfg now w
  lease_over :
      (t : ℕ)
      → w.status ≡ running
      → w.last_attempt_at ≡ some t
      → t + cfg.lease_sec * 1_000_000 < now
      → IsDue cfg now w
  untried :
      w.status ≡ error → w.attempts < cfg.max_attempts → w.last_attempt_at ≡ none → IsDue cfg now w
  cooled_down :
      (t : ℕ)
      → w.status ≡ error
      → w.attempts < cfg.max_attempts
      → w.last_attempt_at ≡ some t
      → t + min (2 ^ min w.attempts 11) 1_800 * 1_000_000 < now
      → IsDue cfg now w

-- `w` was tried no later than `v`, and made no later where the times are the same.
pub data IsNoLater (w v : Watermark) : Type 0 where
  never_tried : (t : ℕ) → w.last_attempt_at ≡ none → v.last_attempt_at ≡ some t → IsNoLater w v
  tried_earlier :
      (s t : ℕ) → w.last_attempt_at ≡ some s → v.last_attempt_at ≡ some t → s < t → IsNoLater w v
  level : w.last_attempt_at ≡ v.last_attempt_at → w.created_at ≤ v.created_at → IsNoLater w v

-- `w` stands no later than `v` in the order of the claim: half done rows first.
pub data Precedes (w v : Watermark) : Type 0 where
  resumed : w.status ≡ partial → ¬ (v.status ≡ partial) → Precedes w v
  both_resumed : w.status ≡ partial → v.status ≡ partial → IsNoLater w v → Precedes w v
  neither : ¬ (w.status ≡ partial) → ¬ (v.status ≡ partial) → IsNoLater w v → Precedes w v

pub claimable-IsDue :
    (cfg : Config) (now : ℕ) (w : Watermark) → claimable cfg now w ≡ true → IsDue cfg now w
unfolding claimable
claimable-IsDue cfg now w h = by_status w.status refl
  where
    by_status : (s : Status) → w.status ≡ s → IsDue cfg now w
    by_status pending is = never_begun is
    by_status partial is = half_done is
    by_status running is = elim (Option-cases w.last_attempt_at) [
      | inl never ↦ elim (false≢true (rw (is, never) at h)) [ ]
      | inr (t, at) ↦ lease_over t is at (let k = (rw (is, at) at h) in ground (arith, k))
    ]
    by_status complete is = elim (false≢true (rw is at h)) [ ]
    by_status capped is = elim (false≢true (rw is at h)) [ ]
    by_status error is = elim (Option-cases w.last_attempt_at) [
      | inl never ↦ untried is (let k = (rw (is, never) at h) in ground (arith, k)) never
      | inr (t, at) ↦
          let k = (rw (is, at) at h) in cooled_down t is (ground (arith, k)) at (ground (arith, k))
    ]

pub claimable_of_IsDue :
    (cfg : Config) (now : ℕ) (w : Watermark) → IsDue cfg now w → claimable cfg now w ≡ true
unfolding claimable
claimable_of_IsDue cfg now w (never_begun is) = rw is
claimable_of_IsDue cfg now w (half_done is) = rw is
claimable_of_IsDue cfg now w (lease_over t is at over) = rw (is, at) (ground arith)
claimable_of_IsDue cfg now w (untried is left at) = rw (is, at) (ground arith)
claimable_of_IsDue cfg now w (cooled_down t is left at over) = rw (is, at) (ground arith)

partial-cases : (s : Status) → (s ≡ partial) ⊎ (is_partial s ≡ false)
partial-cases partial = inl refl
partial-cases pending = inr refl
partial-cases running = inr refl
partial-cases complete = inr refl
partial-cases capped = inr refl
partial-cases error = inr refl

other-status : (s : Status) → is_partial s ≡ false → ¬ (s ≡ partial)
other-status s differs same = false≢true (sym differs ∙ ap is_partial same)

-- Two rows of the same rank are told apart by what follows.
same_rank :
    (b rest : Bool)
    → (if b && not b then true else if b && not b then false else rest) ≡ false
    → rest ≡ false
same_rank true rest h = h
same_rank false rest h = h

no_later :
    (v w : Watermark)
    → is_partial v.status ≡ is_partial w.status
    → comes_before v w ≡ false
    → IsNoLater w v
unfolding comes_before
no_later v w same h =
    let later = same_rank (is_partial w.status) _ (rw same at h) in
    elim (Option-cases w.last_attempt_at) [
      | inl never ↦ elim (Option-cases v.last_attempt_at) [
        | inl also ↦
            level (never ∙ sym also) (let k = (rw (never, also) at later) in ground (arith, k))
        | inr (t, at) ↦ never_tried t never at
      ]
      | inr (s, tried) ↦ elim (Option-cases v.last_attempt_at) [
        | inl never ↦ elim (false≢true (sym (rw (tried, never) at later))) [ ]
        | inr (t, at) ↦ no_later_times s t tried at (rw (tried, at) at later)
      ]
    ]
  where
    no_later_times :
        (s t : ℕ)
        → w.last_attempt_at ≡ some s
        → v.last_attempt_at ≡ some t
        → (if ltb t s then true else if ltb s t then false else ltb v.created_at w.created_at)
          ≡ false
        → IsNoLater w v
    no_later_times s t tried at k = elim (Bool-cases (ltb s t)) [
      | inl before ↦ tried_earlier s t tried at (ground arith)
      | inr not_before ↦ level (tried ∙ ap some (ground arith) ∙ sym at) (ground arith)
    ]

pub comes_before-Precedes : (v w : Watermark) → comes_before v w ≡ false → Precedes w v
unfolding comes_before
comes_before-Precedes v w h = elim (partial-cases w.status) [
  | inl half ↦ elim (partial-cases v.status) [
    | inl also ↦ both_resumed half also (no_later v w (ap is_partial (also ∙ sym half)) h)
    | inr differs ↦ resumed half (other-status v.status differs)
  ]
  | inr differs ↦ elim (partial-cases v.status) [
    | inl half ↦ elim (false≢true (sym (rw (half, differs) at h))) [ ]
    | inr also ↦
        neither (other-status w.status differs) (other-status v.status also)
          (no_later v w (also ∙ sym differs) h)
  ]
]
