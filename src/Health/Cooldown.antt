-- ===== src/Health/Cooldown.antt =====
-- Demotion over a history of reports: what causes it, and that it always ends.
use native.Mathlib.Nat.{pow-suc}
use altscan.Prelude.{
  ℕ, zero, suc, ◌+◌, ◌*◌, ◌^◌, ◌≤◌, ◌<◌, ◌≡◌, refl, List, Option, none, some, arith, true, get,
  nat_eq,
}
use altscan.Health.{
  Provider, EndpointHealth, EndpointState, HealthKind, read, block, reorg, Options, cooldown_for,
  state_for, demoted_state, is_demoted, create_endpoint_health,
}
use altscan.Health.Reports.{
  Report, apply_reports, streak, streak_of, streak_of-apply_reports, SameSettings-apply_reports,
}

doubles : (c w : ℕ) → c * 2 ^ suc w ≡ 2 * (c * 2 ^ w)
doubles c w = rw (pow-suc 2 w) (omega arith)

grows : (c w : ℕ) → c ≤ c * 2 ^ w
grows c zero = omega arith
grows c (suc w) = omega (arith, grows c w, doubles c w)

-- The base cooldown is always charged, and the cap is never exceeded.
pub cooldown_for_bounds :
    (h : EndpointHealth) (w : ℕ)
    → h.cooldown_ms ≤ h.max_cooldown_ms
    → (h.cooldown_ms ≤ cooldown_for h w)
      × (cooldown_for h w ≤ cooldown_for h (suc w))
      × (cooldown_for h w ≤ h.max_cooldown_ms)
unfolding cooldown_for
cooldown_for_bounds h w c = omega (arith, grows h.cooldown_ms w, doubles h.cooldown_ms w)

demoted_state_bounds :
    (h : EndpointHealth) (now : ℕ) (o : Option EndpointState)
    → h.cooldown_ms ≤ h.max_cooldown_ms
    → 1 ≤ h.demote_after
    → (demoted_state h now o ≡ true
        → (h.demote_after ≤ (streak_of o).failures)
          × (now < (streak_of o).last_at + h.max_cooldown_ms))
      × (h.demote_after ≤ (streak_of o).failures
          → now < (streak_of o).last_at + h.cooldown_ms
          → demoted_state h now o ≡ true)
demoted_state_bounds h now none c d = ground arith
demoted_state_bounds h now (some s) c d = ground (arith, cooldown_for_bounds h s.failed_waves c)

is_demoted_bounds :
    (h : EndpointHealth) (rs : List Report) (now : ℕ) (p : Provider) (kind : HealthKind)
    → h.cooldown_ms ≤ h.max_cooldown_ms
    → 1 ≤ h.demote_after
    → let st = streak p kind (streak_of (get p (state_for kind h))) rs in
      (is_demoted (apply_reports h rs) now p kind ≡ true
        → (h.demote_after ≤ st.failures) × (now < st.last_at + h.max_cooldown_ms))
      × (h.demote_after ≤ st.failures
          → now < st.last_at + h.cooldown_ms
          → is_demoted (apply_reports h rs) now p kind ≡ true)
unfolding is_demoted
is_demoted_bounds h rs now p kind c d =
    let g = apply_reports h rs in
    let (same_after, same_cooldown, same_cap) = SameSettings-apply_reports h rs in
    let (only_if, whenever) =
      demoted_state_bounds g now (get p (state_for kind g)) (omega arith) (omega arith) in
    rw (← streak_of-apply_reports p kind h rs)
      (λ e. omega (arith, only_if e), λ enough recent. whenever (omega arith) (omega arith))

created_streak :
    (opts : Options) (p : Provider) (kind : HealthKind)
    → streak_of (get p (state_for kind (create_endpoint_health opts)))
      ≡ record { failures = 0; last_at = 0 }
unfolding create_endpoint_health get
created_streak opts p read = refl
created_streak opts p block = refl
created_streak opts p reorg = refl

created_cap :
    (opts : Options)
    → (create_endpoint_health opts).cooldown_ms ≤ (create_endpoint_health opts).max_cooldown_ms
unfolding create_endpoint_health
created_cap opts = omega arith

-- After any history of reports, an endpoint that is demoted has failed at least `demoteAfter` times
-- in that kind of request since its last success there, the last time less than the cap ago; and
-- one that has failed so often is demoted for at least the base cooldown. Other endpoints and
-- other kinds of request count for nothing. The configured threshold is at least 1.
pub is_demoted-apply_reports :
    (opts : Options) (rs : List Report) (now : ℕ) (p : Provider) (kind : HealthKind)
    → 1 ≤ (create_endpoint_health opts).demote_after
    → let h = create_endpoint_health opts in
      let st = streak p kind (record { failures = 0; last_at = 0 }) rs in
      (is_demoted (apply_reports h rs) now p kind ≡ true
        → (h.demote_after ≤ st.failures) × (now < st.last_at + h.max_cooldown_ms))
      × (h.demote_after ≤ st.failures
          → now < st.last_at + h.cooldown_ms
          → is_demoted (apply_reports h rs) now p kind ≡ true)
is_demoted-apply_reports opts rs now p kind d =
    rw (← created_streak opts p kind)
      (is_demoted_bounds (create_endpoint_health opts) rs now p kind (created_cap opts) d)
