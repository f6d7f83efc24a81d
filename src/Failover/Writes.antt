-- ===== src/Failover/Writes.antt =====
-- What the classification of a failure proves about the database, and whom a failure is charged to.
use altscan.Prelude.{
  ℕ, ◌≡◌, ◌<◌, sym, List, [], ◌∷◌, Option, none, some, arith, length, All, Perm, subst,
}
use altscan.Health.{Provider, EndpointHealth, block, HealthKind, Index, nonneg, rotation_start}
use altscan.Health.Order.{order-perm}
use altscan.Health.Rotation.{rotation-perm}
use altscan.Failover.{ordered, Ended, threw, Run, Attempt, process_with_failover}
use altscan.Failover.Attempts.{
  IsHonest, names, FailsCleanly, Verdict, indexed, half_written, exhausted,
  process_with_failover-Verdict,
}
use altscan.Failover.Errors.{
  Thrown, new_error, exhausted_clean, aborted_dirty, marked, unknown, failover_kind,
  mark_failover_kind,
}

-- The errors of the work itself carry no mark of a failover: each is thrown for the first time.
abbrev pub IsFresh {ℓ} : {S : Type ℓ} → (ℕ → Provider → S → Attempt S) → Type ℓ
IsFresh {S} work =
    (number : ℕ) (p : Provider) (s : S) (err : Thrown)
    → (work number p s).thrown ≡ some err
    → failover_kind err ≡ unknown

pub ordered-perm :
    (health : Option EndpointHealth) (clock : ℕ → ℕ) (ps : List Provider) (i : Index)
    (kind : HealthKind)
    → 0 < length ps
    → Perm (ordered health clock ps i kind) ps
unfolding ordered
ordered-perm none clock ps i kind pos = rotation-perm ps i pos
ordered-perm (some h) clock ps i kind pos =
    order-perm h clock ps (nonneg (rotation_start i (length ps))) kind

half_written_kind :
    (err : Thrown)
    → failover_kind err ≡ unknown
    → failover_kind (mark_failover_kind err aborted_dirty) ≡ marked exhausted_clean
    → ⊥
unfolding failover_kind mark_failover_kind
half_written_kind err fresh e = ground arith

module _ {ℓ} {S : Type ℓ} (work : ℕ → Provider → S → Attempt S) (number : ℕ) (s : S) where
  clean_of_Verdict :
      (order : List Provider) (run : Run (Unit {0}) S) (err : Thrown)
      → IsFresh work
      → Verdict work number s order run
      → run.ended ≡ threw err
      → failover_kind err ≡ marked exhausted_clean
      → (run.state ≡ s) × (names run.reported ≡ order) × All (FailsCleanly work number s) order
  clean_of_Verdict order run err fresh (indexed _ _ _ _ _ _ e _ _) t k = cc
  clean_of_Verdict order run err fresh (half_written _ _ p e _ _ f _ ended _ _) t k =
      absurd (half_written_kind e (fresh number p s e f) (cc))
  clean_of_Verdict order run err fresh (exhausted e fails is_last ended untouched named) t k =
      (untouched, named, fails)

no_pool :
    (err : Thrown)
    → ◌≡◌ {A = Ended (Unit {0})} (threw new_error) (threw err)
    → failover_kind err ≡ marked exhausted_clean
    → ⊥
unfolding failover_kind
no_pool err e k = ground arith

-- A failure classified `exhausted-clean` is proof that the state is as it was before the call: every
-- endpoint of the pool was tried once and failed without writing, and each was reported. The work
-- is honest about its first write, and does not itself throw an error with a mark.
pub exhausted_clean-untouched {ℓ} :
    {S : Type ℓ} (work : ℕ → Provider → S → Attempt S) (number : ℕ) (s : S) (clock : ℕ → ℕ)
    (ps : List Provider) (start_idx : Index) (health : Option EndpointHealth) (err : Thrown)
    → IsHonest work
    → IsFresh work
    → (process_with_failover work number clock ps start_idx health s).ended ≡ threw err
    → failover_kind err ≡ marked exhausted_clean
    → let run = process_with_failover work number clock ps start_idx health s in
      (run.state ≡ s)
      × Perm (names run.reported) ps
      × All (FailsCleanly work number s) (names run.reported)
unfolding process_with_failover
exhausted_clean-untouched work number s clock [] start_idx health err honest fresh e k =
    absurd (no_pool err e k)
exhausted_clean-untouched work number s clock (p ∷ ps) start_idx health err honest fresh e k =
    let (untouched, named, fails) =
      clean_of_Verdict work number s _ _ err fresh
        (process_with_failover-Verdict work number s clock (p ∷ ps) start_idx health honest
          (omega arith))
        e k in
    (
      untouched,
      subst (λ ns. Perm ns (p ∷ ps)) (sym named)
          (ordered-perm health clock (p ∷ ps) start_idx block (omega arith)),
      subst (All (FailsCleanly work number s)) (sym named) fails,
    )
