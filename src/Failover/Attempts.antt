-- ===== src/Failover/Attempts.antt =====
-- What one run of `processWithFailover` did, endpoint by endpoint.
use altscan.Prelude.{
  ℕ, suc, ◌≡◌, refl, sym, ap, ◌∙◌, true, false, List, [], ◌∷◌, ◌++◌, append_assoc, append-nil, map,
  Option, none, some, ◌<◌, length, All, All-append, Bool-cases, Option-cases, inl, inr,
}
use altscan.Health.{Provider, EndpointHealth, block, Index}
use altscan.Failover.{ordered, returned, threw, Run, Attempt, process_each, process_with_failover}
use altscan.Failover.Errors.{
  Thrown, aborted_dirty, exhausted_clean, mark_failover_kind, undefined_value,
}

-- The work's contract: it calls `onSideEffect` before its first durable write, so an attempt that
-- did not call it left the state as it was.
abbrev pub IsHonest {ℓ} : {S : Type ℓ} → (ℕ → Provider → S → Attempt S) → Type ℓ
IsHonest {S} work =
    (number : ℕ) (p : Provider) (s : S)
    → (work number p s).wrote ≡ false
    → (work number p s).state ≡ s

abbrev pub names : List (Provider × Thrown) → List Provider
names reported = map (λ r. r.0) reported

names-append :
    (rs : List (Provider × Thrown)) (p : Provider) (e : Thrown)
    → names (rs ++ (p, e) ∷ []) ≡ names rs ++ p ∷ []
names-append [] p e = refl
names-append (r ∷ rs) p e = rw (names-append rs p e)

module _ {ℓ} {S : Type ℓ} (work : ℕ → Provider → S → Attempt S) (number : ℕ) (s : S) where
  -- The endpoint failed before it wrote anything.
  pub record FailsCleanly (p : Provider) : Type ℓ where
    pub err : Thrown
    pub failed : (work number p s).thrown ≡ some err
    pub unwritten : (work number p s).wrote ≡ false

  -- The error that `lastErr` holds once each endpoint of the list has failed: the one that the last of
  -- them threw, and the initial undefined value where there is none.
  abbrev pub IsLast : List Provider → Thrown → Type 0
  IsLast [] err = err ≡ undefined_value
  IsLast (p ∷ []) err = (work number p s).thrown ≡ some err
  IsLast (p ∷ q ∷ ps) err = IsLast (q ∷ ps) err

  IsLast-append :
      (ps : List Provider) (p : Provider) (err : Thrown)
      → (work number p s).thrown ≡ some err
      → IsLast (ps ++ p ∷ []) err
  IsLast-append [] p err failed = failed
  IsLast-append (q ∷ []) p err failed = failed
  IsLast-append (q ∷ r ∷ ps) p err failed = IsLast-append (r ∷ ps) p err failed

  -- How a run over `order` ended. Every endpoint that was left behind had failed cleanly, and was
  -- reported; `p`, if there is one, ran on the untouched state, and what it left is the final state.
  pub data Verdict (order : List Provider) (run : Run (Unit {0}) S) : Type ℓ where
    indexed :
        (before after : List Provider) (p : Provider)
        → order ≡ before ++ p ∷ after
        → All FailsCleanly before
        → (work number p s).thrown ≡ none
        → run.ended ≡ returned tt
        → run.state ≡ (work number p s).state
        → names run.reported ≡ before
        → Verdict order run
    half_written :
        (before after : List Provider) (p : Provider) (err : Thrown)
        → order ≡ before ++ p ∷ after
        → All FailsCleanly before
        → (work number p s).thrown ≡ some err
        → (work number p s).wrote ≡ true
        → run.ended ≡ threw (mark_failover_kind err aborted_dirty)
        → run.state ≡ (work number p s).state
        → names run.reported ≡ before
        → Verdict order run
    exhausted :
        (err : Thrown)
        → All FailsCleanly order
        → IsLast order err
        → run.ended ≡ threw (mark_failover_kind err exhausted_clean)
        → run.state ≡ s
        → names run.reported ≡ order
        → Verdict order run

  module _ (honest : IsHonest work) (order : List Provider) where
    process_each-Verdict :
        (clock : ℕ → ℕ) (before ps : List Provider) (health : Option EndpointHealth) (last : Thrown)
        (reported : List (Provider × Thrown))
        → order ≡ before ++ ps
        → All FailsCleanly before
        → IsLast before last
        → names reported ≡ before
        → Verdict order (process_each work number clock ps health last reported s)
    unfolding process_each
    process_each-Verdict clock before [] health last reported o fails is_last named =
        let all : order ≡ before = o ∙ append-nil before in
        exhausted last (rw all fails) (rw all is_last) refl refl (named ∙ sym all)
    process_each-Verdict clock before (p ∷ ps) health last reported o fails is_last named =
        elim (Option-cases (work number p s).thrown) [
          | inl fine ↦ rw fine (indexed before ps p o fails fine refl refl named)
          | inr (err, failed) ↦ elim (Bool-cases (work number p s).wrote) [
            | inl wrote ↦
                rw (failed, wrote)
                  (half_written before ps p err o fails failed wrote refl refl named)
            | inr unwritten ↦
                let moved : order ≡ (before ++ p ∷ []) ++ ps =
                  o ∙ sym (append_assoc before (p ∷ []) ps) in
                let here : FailsCleanly p = record {
                  err = err;
                  failed = failed;
                  unwritten = unwritten;
                } in
                rw (failed, unwritten, honest number p s unwritten)
                  (process_each-Verdict (λ i. clock (suc i)) (before ++ p ∷ []) ps _ err
                    (reported ++ (p, err) ∷ []) moved
                    (All-append FailsCleanly before (p ∷ []) fails (here, tt))
                    (IsLast-append before p err failed)
                    (names-append reported p err ∙ ap (λ ns. ns ++ p ∷ []) named))
          ]
        ]

-- Every call over a pool that is not empty ends in one of three ways. Either one endpoint did the
-- work from the untouched state, after the ones before it in the order had failed without writing;
-- or one began to write and then failed, and the run stopped there with the mark `aborted-dirty`;
-- or every endpoint of the order failed without writing, the state is untouched, and the error of the
-- last endpoint in the order is thrown with the mark `exhausted-clean`. Each endpoint left behind was
-- reported once, in order. The work is honest about its first write.
pub process_with_failover-Verdict {ℓ} :
    {S : Type ℓ} (work : ℕ → Provider → S → Attempt S) (number : ℕ) (s : S) (clock : ℕ → ℕ)
    (ps : List Provider) (start_idx : Index) (health : Option EndpointHealth)
    → IsHonest work
    → 0 < length ps
    → Verdict work number s
        (ordered health clock ps start_idx block)
        (process_with_failover work number clock ps start_idx health s)
unfolding process_with_failover
process_with_failover-Verdict work number s clock [] start_idx health honest pos = elim pos [ ]
process_with_failover-Verdict work number s clock (p ∷ ps) start_idx health honest pos =
    process_each-Verdict work number s honest (ordered health clock (p ∷ ps) start_idx block) _ [] _
      health undefined_value [] refl tt refl refl
