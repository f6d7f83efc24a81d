-- ===== src/Health.antt =====
-- apps/indexer/src/endpoint-health.ts: which endpoints of the RPC pool are demoted, and the order in
-- which one call tries them. A provider is the identity of its object, a number; times are
-- milliseconds. `clock i` is what the i-th reading of the clock in one call of `order` gives, since
-- the code reads it anew for every endpoint. A difference of times is compared with the subtracted
-- time on the other side, so that a clock that runs backwards is treated as in the source. The
-- escalated cooldown is computed without the floating-point overflow, which the cap absorbs.
pub mod Rotation
pub mod Order
pub mod Reports
pub mod Cooldown
mod Tests
use altscan.Prelude.{
  ℕ, zero, suc, ◌+◌, ◌-◌, ◌*◌, ◌%◌, ◌^◌, min, max, Bool, true, false, not, ◌&&◌, List, [], ◌∷◌,
  ◌++◌, Option, none, some, ltb, leb, if◌then◌else◌, length, get_elem?, filter_by, get, put, delete,
  has, add, nat_eq,
}

abbrev pub Provider : Type 0
Provider = ℕ

pub data HealthKind : Type 0 where
  read block reorg : HealthKind

-- `State`: the failure streak of one endpoint for one kind of request.
pub record EndpointState : Type 0 where
  pub consecutive_failures : ℕ
  pub last_failure_at : ℕ
  pub failed_waves : ℕ

pub record Options : Type 0 where
  pub demote_after : Option ℕ
  pub cooldown_ms : Option ℕ
  pub max_cooldown_ms : Option ℕ

-- The closure's variables: three settings and `byKind`, a map for each kind.
pub record EndpointHealth : Type 0 where
  pub demote_after : ℕ
  pub cooldown_ms : ℕ
  pub max_cooldown_ms : ℕ
  pub reads : List (Provider × EndpointState)
  pub blocks : List (Provider × EndpointState)
  pub reorgs : List (Provider × EndpointState)

abbrev pub default_demote_after : ℕ
default_demote_after = 3

abbrev pub default_cooldown_ms : ℕ
default_cooldown_ms = 60_000

abbrev pub default_max_cooldown_ms : ℕ
default_max_cooldown_ms = 900_000

abbrev pub value_or : ℕ → Option ℕ → ℕ
value_or d none = d
value_or d (some n) = n

unfoldable pub create_endpoint_health : Options → EndpointHealth
create_endpoint_health opts =
    let cooldown = value_or default_cooldown_ms opts.cooldown_ms in
    record {
      demote_after = value_or default_demote_after opts.demote_after;
      cooldown_ms = cooldown;
      max_cooldown_ms = max (value_or default_max_cooldown_ms opts.max_cooldown_ms) cooldown;
      reads = [];
      blocks = [];
      reorgs = [];
    }

-- `cooldownFor(failedWaves)`
unfoldable pub cooldown_for : EndpointHealth → ℕ → ℕ
cooldown_for h failed_waves = min (h.cooldown_ms * 2 ^ failed_waves) h.max_cooldown_ms

-- `stateFor(kind)`, and the same map written back.
abbrev pub state_for : HealthKind → EndpointHealth → List (Provider × EndpointState)
state_for read h = h.reads
state_for block h = h.blocks
state_for reorg h = h.reorgs

abbrev pub with_state :
    HealthKind → List (Provider × EndpointState) → EndpointHealth → EndpointHealth
with_state read m h = record h { reads = m }
with_state block m h = record h { blocks = m }
with_state reorg m h = record h { reorgs = m }

abbrev pub demoted_state : EndpointHealth → ℕ → Option EndpointState → Bool
demoted_state h now none = false
demoted_state h now (some s) =
    if ltb s.consecutive_failures h.demote_after
    then false
    else ltb now (s.last_failure_at + cooldown_for h s.failed_waves)

-- `isDemoted(p, kind)`, the clock reading `now`.
unfoldable pub is_demoted : EndpointHealth → ℕ → Provider → HealthKind → Bool
is_demoted h now p kind = demoted_state h now (get p (state_for kind h))

unfoldable pub record_success : EndpointHealth → Provider → HealthKind → EndpointHealth
record_success h provider kind = with_state kind (delete provider (state_for kind h)) h

abbrev pub fresh_state : EndpointState
fresh_state = record { consecutive_failures = 0; last_failure_at = 0; failed_waves = 0 }

abbrev pub state_or_fresh : Option EndpointState → EndpointState
state_or_fresh none = fresh_state
state_or_fresh (some s) = s

-- One failure at the time `at`: it opens a new wave only when the last demotion had expired.
unfoldable pub fail_state : EndpointHealth → ℕ → EndpointState → EndpointState
fail_state h at s =
    let blown =
      not (ltb s.consecutive_failures h.demote_after)
      && leb (s.last_failure_at + cooldown_for h s.failed_waves) at in
    record {
      consecutive_failures = s.consecutive_failures + 1;
      last_failure_at = at;
      failed_waves = if blown then s.failed_waves + 1 else s.failed_waves;
    }

unfoldable pub record_failure : EndpointHealth → ℕ → Provider → HealthKind → EndpointHealth
unfolding fail_state
record_failure h now provider kind =
    let s = state_or_fresh (get provider (state_for kind h)) in
    with_state kind (put provider (fail_state h now s) (state_for kind h)) h

-- `demoted(providers, kind)`: the i-th endpoint is judged at the i-th reading of the clock.
pub demoted : EndpointHealth → (ℕ → ℕ) → HealthKind → List Provider → List Provider
unfolding is_demoted
demoted h clock kind [] = []
demoted h clock kind (p ∷ ps) =
    let rest = demoted h (λ i. clock (suc i)) kind ps in
    if is_demoted h (clock 0) p kind then p ∷ rest else rest

abbrev pub push_some {ℓ} : {A : Type ℓ} → Option A → List A → List A
push_some none xs = xs
push_some (some x) xs = x ∷ xs

-- The loop that builds `rotated`, `k` rounds from `i` on. A read out of range adds nothing.
unfoldable pub rotate_from {ℓ} : {A : Type ℓ} → ℕ → ℕ → ℕ → List A → List A
rotate_from zero i start ps = []
rotate_from (suc k) i start ps =
    push_some (get_elem? ps ((start + i) % length ps)) (rotate_from k (suc i) start ps)

-- `((startIdx % n) + n) % n` on an index that may be negative, where `%` takes the sign of its
-- left operand.
pub data Index : Type 0 where
  nonneg : ℕ → Index
  negative : (minus_one : ℕ) → Index

unfoldable pub rotation_start : Index → ℕ → ℕ
rotation_start (nonneg k) n = (k % n + n) % n
rotation_start (negative k) n = (n - suc k % n) % n

unfoldable pub rotation {ℓ} : {A : Type ℓ} → List A → Index → List A
unfolding rotate_from rotation_start
rotation ps start_idx = rotate_from (length ps) 0 (rotation_start start_idx (length ps)) ps

-- The loop that fills the set `demotedNow`.
unfoldable pub demoted_now :
    EndpointHealth → (ℕ → ℕ) → HealthKind → List Provider → List Provider → List Provider
unfolding is_demoted
demoted_now h clock kind seen [] = seen
demoted_now h clock kind seen (p ∷ ps) =
    demoted_now h (λ i. clock (suc i)) kind
      (if is_demoted h (clock 0) p kind then add p seen else seen) ps

-- `if (healthy.length === 0) return rotated`, and the concatenation otherwise.
abbrev pub unless_empty : List Provider → List Provider → List Provider → List Provider
unless_empty [] rotated sick_last = rotated
unless_empty (q ∷ qs) rotated sick_last = (q ∷ qs) ++ sick_last

abbrev pub healthy_first : List Provider → List Provider → List Provider
healthy_first rotated sick =
    unless_empty (filter_by (λ p. not (has p sick)) rotated) rotated
      (filter_by (λ p. has p sick) rotated)

unfoldable pub order : EndpointHealth → (ℕ → ℕ) → List Provider → Index → HealthKind → List Provider
unfolding rotation demoted_now
order h clock [] start_idx kind = []
order h clock (p ∷ ps) start_idx kind =
    let rotated = rotation (p ∷ ps) start_idx in
    healthy_first rotated (demoted_now h clock kind [] rotated)
