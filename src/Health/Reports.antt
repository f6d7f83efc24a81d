-- ===== src/Health/Reports.antt =====
-- A history of the results that the failover helpers report, and what the tracker keeps of it.
use altscan.Prelude.{
  ℕ, ◌+◌, ◌≡◌, refl, List, [], ◌∷◌, Option, none, some, arith, ◌&&◌, Bool, true, false,
  if◌then◌else◌, get, put, delete, get-put, get-delete, nat_eq, ◌==◌, inl, inr, Bool-cases,
}
use altscan.Health.{
  Provider, EndpointHealth, EndpointState, HealthKind, read, block, reorg, state_for, with_state,
  record_success, record_failure, fail_state, state_or_fresh,
}

abbrev pub kind_eq : HealthKind → HealthKind → Bool
kind_eq read read = true
kind_eq block block = true
kind_eq reorg reorg = true
kind_eq _ _ = false

-- One result that a failover helper reports.
pub data Report : Type 0 where
  succeeded : Provider → HealthKind → Report
  failed : (at : ℕ) → Provider → HealthKind → Report

unfoldable pub apply_report : EndpointHealth → Report → EndpointHealth
apply_report h (succeeded p kind) = record_success h p kind
apply_report h (failed at p kind) = record_failure h at p kind

unfoldable pub apply_reports : EndpointHealth → List Report → EndpointHealth
apply_reports h [] = h
apply_reports h (r ∷ rs) = apply_reports (apply_report h r) rs

-- The failures of one endpoint in one kind of request since its last success there, and the time of
-- the last of them, by recursion on the history.
pub record Streak : Type 0 where
  pub failures : ℕ
  pub last_at : ℕ

abbrev pub streak_after : Provider → HealthKind → Streak → Report → Streak
streak_after p k n (succeeded q kind) =
    if kind_eq kind k && q == p then record { failures = 0; last_at = 0 } else n
streak_after p k n (failed at q kind) =
    if kind_eq kind k && q == p then record { failures = n.failures + 1; last_at = at } else n

abbrev pub streak : Provider → HealthKind → Streak → List Report → Streak
streak p k n [] = n
streak p k n (r ∷ rs) = streak p k (streak_after p k n r) rs

abbrev pub streak_of : Option EndpointState → Streak
streak_of none = record { failures = 0; last_at = 0 }
streak_of (some s) = record { failures = s.consecutive_failures; last_at = s.last_failure_at }

state_for-with_state :
    (kind k : HealthKind) (m : List (Provider × EndpointState)) (h : EndpointHealth)
    → state_for k (with_state kind m h) ≡ (if kind_eq kind k then m else state_for k h)
state_for-with_state read read m h = refl
state_for-with_state read block m h = refl
state_for-with_state read reorg m h = refl
state_for-with_state block read m h = refl
state_for-with_state block block m h = refl
state_for-with_state block reorg m h = refl
state_for-with_state reorg read m h = refl
state_for-with_state reorg block m h = refl
state_for-with_state reorg reorg m h = refl

streak_of-fail_state :
    (h : EndpointHealth) (at : ℕ) (o : Option EndpointState)
    → streak_of (some (fail_state h at (state_or_fresh o)))
      ≡ record { failures = (streak_of o).failures + 1; last_at = at }
unfolding fail_state
streak_of-fail_state h at none = ground arith
streak_of-fail_state h at (some s) = refl

module _ (p : Provider) (k : HealthKind) where
  pub get-state_for-with_state :
      (kind : HealthKind) (m : List (Provider × EndpointState)) (h : EndpointHealth)
      → get p (state_for k (with_state kind m h))
        ≡ (if kind_eq kind k then get p m else get p (state_for k h))
  get-state_for-with_state kind m h = rw (state_for-with_state kind k m h) (ground arith)

  kind_eq→eq : (kind : HealthKind) → kind_eq kind k ≡ true → kind ≡ k
  kind_eq→eq kind e = ground arith

  streak_of-apply_report :
      (h : EndpointHealth) (r : Report)
      → streak_of (get p (state_for k (apply_report h r)))
        ≡ streak_after p k (streak_of (get p (state_for k h))) r
  unfolding apply_report record_success record_failure
  streak_of-apply_report h (succeeded q kind) = elim (Bool-cases (kind_eq kind k)) [
    | inl same ↦ ground (
      arith,
      get-state_for-with_state kind (delete q (state_for kind h)) h,
      get-delete q p (state_for kind h),
      kind_eq→eq kind same,
    )
    | inr other ↦ ground (arith, get-state_for-with_state kind (delete q (state_for kind h)) h)
  ]
  streak_of-apply_report h (failed at q kind) =
      let s = fail_state h at (state_or_fresh (get q (state_for kind h))) in
      elim (Bool-cases (kind_eq kind k)) [
        | inl same ↦ ground (
          arith,
          get-state_for-with_state kind (put q s (state_for kind h)) h,
          get-put q p s (state_for kind h),
          kind_eq→eq kind same,
          streak_of-fail_state h at (get p (state_for k h)),
        )
        | inr other ↦ ground (arith, get-state_for-with_state kind (put q s (state_for kind h)) h)
      ]

  pub streak_of-apply_reports :
      (h : EndpointHealth) (rs : List Report)
      → streak_of (get p (state_for k (apply_reports h rs)))
        ≡ streak p k (streak_of (get p (state_for k h))) rs
  unfolding apply_reports
  streak_of-apply_reports h [] = refl
  streak_of-apply_reports h (r ∷ rs) =
      rw (← streak_of-apply_report h r) (streak_of-apply_reports (apply_report h r) rs)

-- No report changes the three settings.
abbrev pub SameSettings : EndpointHealth → EndpointHealth → Type 0
SameSettings h g =
    (g.demote_after ≡ h.demote_after)
    × (g.cooldown_ms ≡ h.cooldown_ms)
    × (g.max_cooldown_ms ≡ h.max_cooldown_ms)

SameSettings-with_state :
    (kind : HealthKind) (m : List (Provider × EndpointState)) (h : EndpointHealth)
    → SameSettings h (with_state kind m h)
SameSettings-with_state read m h = (refl, refl, refl)
SameSettings-with_state block m h = (refl, refl, refl)
SameSettings-with_state reorg m h = (refl, refl, refl)

pub SameSettings-apply_report :
    (h : EndpointHealth) (r : Report) → SameSettings h (apply_report h r)
unfolding apply_report record_success record_failure
SameSettings-apply_report h (succeeded q kind) = SameSettings-with_state kind _ h
SameSettings-apply_report h (failed at q kind) = SameSettings-with_state kind _ h

pub SameSettings-apply_reports :
    (h : EndpointHealth) (rs : List Report) → SameSettings h (apply_reports h rs)
unfolding apply_reports
SameSettings-apply_reports h [] = (refl, refl, refl)
SameSettings-apply_reports h (r ∷ rs) =
    omega (arith, SameSettings-apply_report h r, SameSettings-apply_reports (apply_report h r) rs)
