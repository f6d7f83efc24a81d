-- ===== src/Backfill/Fence.antt =====
-- apps/indexer/src/backfill-worker.ts: the lease as a fencing token. What every step keeps of the claims that
-- workers hold: a claim is the row's current one, or the row has been claimed again at a later time.
use mathlib.Core.List.{Memᴰ}
use altscan.Prelude.{
  ℕ, ◌≤◌, ◌<◌, ◌≡◌, refl, sym, ap, ◌∙◌, inl, inr, ◌⊎◌, true, List, Option, none, some, ◌==◌, ==_iff,
  some-injective, false≢true, all_three, arith,
}
use altscan.Backfill.{
  Watermark, running, Status, is_running, to_ms, stamp_of, holds_lease, same_time,
}
use altscan.Backfill.Worker.{Phase, idle, claimed, denied, reserved, paging, answered, failing}

-- The claim that a worker holds.
abbrev pub holder : Phase → Option Watermark
holder idle = none
holder (claimed e) = some e
holder (denied e) = some e
holder (reserved e) = some e
holder (paging e) = some e
holder (answered e reply) = some e
holder (failing e text) = some e

-- The row is as it was claimed.
pub record Current (e w : Watermark) : Type 0 where
  pub now_running : w.status ≡ running
  pub same_time : w.last_attempt_at ≡ e.last_attempt_at
  pub same_type : w.entity_type ≡ e.entity_type
  pub same_entity : w.entity_id ≡ e.entity_id
  pub same_cursor : w.oldest_cursor ≡ e.oldest_cursor

-- The row was touched in a later millisecond.
pub record Stale (e w : Watermark) : Type 0 where
  pub claimed_at : ℕ
  pub touched_at : ℕ
  pub claim_time : e.last_attempt_at ≡ some claimed_at
  pub row_time : w.last_attempt_at ≡ some touched_at
  pub later : claimed_at < to_ms touched_at

-- A claim is stamped with a whole millisecond.
pub record Stamped (e : Watermark) : Type 0 where
  pub at : ℕ
  pub stamp : e.last_attempt_at ≡ some at
  pub whole : to_ms at ≡ at

pub record Fenced (next : ℕ) (rows : List Watermark) (clock : ℕ) (held : ℕ → Option Watermark)
    : Type 0 where
  pub unique : (v w : Watermark) → Memᴰ v rows → Memᴰ w rows → v.id ≡ w.id → v ≡ w
  -- Every id comes from the sequence, whose next value is `next`.
  pub numbered : (w : Watermark) → Memᴰ w rows → w.id < next
  pub claims_numbered : (i : ℕ) (e : Watermark) → held i ≡ some e → e.id < next
  pub past : (w : Watermark) (t : ℕ) → Memᴰ w rows → w.last_attempt_at ≡ some t → t ≤ clock
  pub has_stamp : (i : ℕ) (e : Watermark) → held i ≡ some e → Stamped e
  pub stands :
      (i : ℕ) (e w : Watermark)
      → held i ≡ some e
      → Memᴰ w rows
      → w.id ≡ e.id
      → Current e w ⊎ Stale e w
  pub apart :
      (i j : ℕ) (e f : Watermark)
      → held i ≡ some e
      → held j ≡ some f
      → e.id ≡ f.id
      → e.last_attempt_at ≡ f.last_attempt_at
      → i ≡ j

-- Fewer rows, fewer claims and a later clock keep it.
pub Fenced-less :
    (next : ℕ) (rows rows' : List Watermark) (clock clock' : ℕ) (held held' : ℕ → Option Watermark)
    → Fenced next rows clock held
    → ((w : Watermark) → Memᴰ w rows' → Memᴰ w rows)
    → clock ≤ clock'
    → ((i : ℕ) (e : Watermark) → held' i ≡ some e → held i ≡ some e)
    → Fenced next rows' clock' held'
Fenced-less next rows rows' clock clock' held held' h fewer later less = record {
  unique = λ v w m n same. h.unique v w (fewer v m) (fewer w n) same;
  numbered = λ w m. h.numbered w (fewer w m);
  claims_numbered = λ i e holds. h.claims_numbered i e (less i e holds);
  past = λ w t m at. omega (arith, h.past w t (fewer w m) at);
  has_stamp = λ i e holds. h.has_stamp i e (less i e holds);
  stands = λ i e w holds m same. h.stands i e w (less i e holds) (fewer w m) same;
  apart = λ i j e f he hf same at. h.apart i j e f (less i e he) (less j f hf) same at;
}

pub to_ms_mono : (s t : ℕ) → s ≤ t → to_ms s ≤ to_ms t
to_ms_mono s t h = omega arith

pub to_ms-le : (t : ℕ) → to_ms t ≤ t
to_ms-le t = omega arith

is_running-running : (status : Status) → is_running status ≡ true → status ≡ running
is_running-running status h = ground arith

same_time-some : (o : Option ℕ) (t : ℕ) → same_time o t ≡ true → o ≡ some t
same_time-some none t h = elim (false≢true h) [ ]
same_time-some (some s) t h = ap (λ n. some n) ((==_iff s t).0 h)

pub holds_lease_iff :
    (id t : ℕ) (w : Watermark)
    → holds_lease id t w ≡ true
    → (w.id ≡ id) × (w.status ≡ running) × (w.last_attempt_at ≡ some t)
holds_lease_iff id t w h =
    let (same, going, timed) =
      all_three (w.id == id) (is_running w.status) (same_time w.last_attempt_at t) h in
    (
      (==_iff w.id id).0 same,
      is_running-running w.status going,
      same_time-some w.last_attempt_at t timed,
    )

pub stamp_of-whole :
    (e : Watermark) (t : ℕ) → Stamped e → stamp_of e ≡ some t → e.last_attempt_at ≡ some t
stamp_of-whole e t s h =
    let given : stamp_of e ≡ some (to_ms s.at) = rw s.stamp refl in
    s.stamp ∙ ap (λ n. some n) (sym s.whole ∙ some-injective (sym given ∙ h))

Stale-never :
    (e w : Watermark) (t : ℕ)
    → Stale e w
    → e.last_attempt_at ≡ some t
    → w.last_attempt_at ≡ some t
    → ⊥
Stale-never e w t s he hw =
    let one : s.claimed_at ≡ t = some-injective (sym s.claim_time ∙ he) in
    let two : s.touched_at ≡ t = some-injective (sym s.row_time ∙ hw) in
    omega (arith, one, two, s.later, to_ms-le t)

module _ (next : ℕ) (rows : List Watermark) (clock : ℕ) (held : ℕ → Option Watermark)
    (h : Fenced next rows clock held) (i : ℕ) (e : Watermark) (holds : held i ≡ some e) (t : ℕ)
    (at : stamp_of e ≡ some t) where
  -- A row that the fence lets through is the current one of the claim.
  pub holds-Current : (w : Watermark) → Memᴰ w rows → holds_lease e.id t w ≡ true → Current e w
  holds-Current w m passes =
      let (same, going, timed) = holds_lease_iff e.id t w passes in
      elim (h.stands i e w holds m same) [
        | inl current ↦ current
        | inr stale ↦
            elim (Stale-never e w t stale (stamp_of-whole e t (h.has_stamp i e holds) at) timed) [ ]
      ]
