-- ===== src/Poll/Steps.antt =====
-- What the poll loop of apps/indexer/src/index.ts leaves recorded when it steps over a block.
use altscan.Prelude.{
  ℕ, ◌+◌, ◌≤◌, ◌<◌, ◌≡◌, refl, sym, subst, ◌⊎◌, inl, inr, Bool, true, false, none, some, String,
  arith, Bool-cases, if◌then◌else◌,
}
use altscan.Poison.{Knob, count, positive_or, default_quarantine_after, should_quarantine}
use altscan.Poison.Threshold.{should_quarantine_iff}
use altscan.Db.{Db, IndexGap, find_gap}
use altscan.Gaps.{Reply, replied, rejected, DriverResult, record_poison_gap_if_absent}
use altscan.Gaps.Records.{Counts, Quarantined, record_poison_gap-Quarantined}
use altscan.Poll.{Poller, quarantine_answer, try_quarantine, step_over, after_failure}

-- How the cursor may be when a step that may record and skip has ended: where it was; or the blocks
-- that it jumped over are in an unhealed gap that starts right above the old cursor.
pub data Skipped (before after : Poller) : Type 0 where
  stays : after.last_indexed ≡ before.last_indexed → Skipped before after
  recorded :
      (g : IndexGap)
      → find_gap (before.last_indexed + 1) after.db.index_gaps ≡ some g
      → after.last_indexed ≤ g.to_block
      → g.healed_at ≡ none
      → before.last_indexed < after.last_indexed
      → Skipped before after

-- How the cursor may be after the step that may quarantine the block above it.
pub data Stepped (quarantine_after : Knob) (before after : Poller) : Type 0 where
  stays : after.last_indexed ≡ before.last_indexed → Stepped quarantine_after before after
  quarantined :
      after.last_indexed ≡ before.last_indexed + 1
      → positive_or default_quarantine_after quarantine_after
        ≤ count before.poison_blocks (before.last_indexed + 1)
      → Quarantined before.db after.db (before.last_indexed + 1)
      → Stepped quarantine_after before after

step_over_cases :
    (blocker : ℕ) (s : Poller) (r : Db × Reply Bool)
    → ((step_over blocker (quarantine_answer blocker s r)).last_indexed ≡ s.last_indexed)
      ⊎ ((r.1 ≡ replied true)
          × ((step_over blocker (quarantine_answer blocker s r)).last_indexed ≡ blocker)
          × ((step_over blocker (quarantine_answer blocker s r)).db ≡ r.0))
step_over_cases blocker s (db, replied true) = inr (refl, refl, refl)
step_over_cases blocker s (db, replied false) = inl refl
step_over_cases blocker s (db, rejected) = inl refl

quarantine-Stepped :
    (k : Knob) (driver : ℕ → DriverResult) (now : ℕ) (reason : String) (s : Poller) (failures : ℕ)
    → Counts driver
    → failures ≡ count s.poison_blocks (s.last_indexed + 1)
    → positive_or default_quarantine_after k ≤ failures
    → Stepped k s (
        step_over
          (s.last_indexed + 1)
          (try_quarantine driver now reason (s.last_indexed + 1) failures s))
unfolding try_quarantine
quarantine-Stepped k driver now reason s failures counts same enough =
    let blocker = s.last_indexed + 1 in
    let r = record_poison_gap_if_absent driver s.db now (some blocker) reason (some failures) in
    let fact = record_poison_gap-Quarantined driver s.db now blocker failures reason counts in
    elim (step_over_cases blocker s r) [
      | inl still ↦ stays still
      | inr (answer, moved, stored) ↦
          quarantined moved (omega arith)
            (subst (λ db. Quarantined s.db db blocker) (sym stored) (fact.1 answer))
    ]

-- The loop gets past a block that cannot be indexed only by a recorded quarantine. Either the cursor
-- stays; or it moves by one block, whose clean failures reach the threshold in force, which is absent,
-- and which is recorded as quarantined and as an unhealed gap. The driver hands back the number of rows
-- or something that is refused.
pub after_failure-Stepped :
    (enabled : Bool) (k : Knob) (driver : ℕ → DriverResult) (now : ℕ) (reason : String) (s : Poller)
    → Counts driver
    → Stepped k s (after_failure enabled k driver now reason s)
unfolding after_failure
after_failure-Stepped false k driver now reason s counts = stays refl
after_failure-Stepped true k driver now reason s counts =
    let blocker = s.last_indexed + 1 in
    let failures = count s.poison_blocks blocker in
    elim (Bool-cases (should_quarantine blocker s.last_indexed failures k)) [
      | inr unfit ↦ rw unfit (stays refl)
      | inl fit ↦ rw fit (
          if_stepped _ (
            quarantine-Stepped k driver now reason s failures counts refl
              ((should_quarantine_iff blocker s.last_indexed failures k).0.0 fit).1))
    ]
  where
    if_stepped : (b : Bool) {t : Poller} → Stepped k s t → Stepped k s (if b then t else s)
    if_stepped false h = stays refl
    if_stepped true h = h
