-- ===== src/Failover/Reads.antt =====
-- What one run of `readWithFailover` asked, and of whom.
use altscan.Prelude.{
  ℕ, suc, ◌≡◌, ◌<◌, refl, sym, ◌∙◌, ◌⊎◌, true, false, List, [], ◌∷◌, ◌++◌, Option, length,
  Bool-cases, inl, inr, append-nil, append_assoc,
}
use altscan.Health.{Provider, EndpointHealth, HealthKind, Index}
use altscan.Failover.{
  ordered, Ended, returned, threw, Run, Settled, race, read_each, read_with_failover,
}
use altscan.Failover.Errors.{Thrown, is_endpoint_fault, undefined_value}

pub Ended-cases {ℓ} :
    {T : Type ℓ} (e : Ended T) → ((v : T) × (e ≡ returned v)) ⊎ ((x : Thrown) × (e ≡ threw x))
Ended-cases (returned v) = inl (v, refl)
Ended-cases (threw x) = inr (x, refl)

module _ {ℓ κ} {T : Type ℓ} {S : Type κ} (work : Provider → S → Settled T × S)
    (kind : HealthKind) where
  -- The endpoint's answer was an error, or no answer in time, that is charged to the endpoint.
  pub record Faulty (p : Provider) (s : S) : Type ℓ where
    pub err : Thrown
    pub answered : race (work p s).0 ≡ threw err
    pub charged : is_endpoint_fault err ≡ true

  -- The state after asking a list of endpoints, and that each of them was at fault.
  abbrev pub state_after : List Provider → S → S
  state_after [] s = s
  state_after (p ∷ ps) s = state_after ps (work p s).1

  abbrev pub AllFaulty : List Provider → S → Type ℓ
  AllFaulty [] s = Unit
  AllFaulty (p ∷ ps) s = Faulty p s × AllFaulty ps (work p s).1

  state_after-append :
      (ps : List Provider) (p : Provider) (s : S)
      → state_after (ps ++ p ∷ []) s ≡ (work p (state_after ps s)).1
  state_after-append [] p s = refl
  state_after-append (q ∷ ps) p s = state_after-append ps p (work q s).1

  AllFaulty-append :
      (ps : List Provider) (p : Provider) (s : S)
      → AllFaulty ps s
      → Faulty p (state_after ps s)
      → AllFaulty (ps ++ p ∷ []) s
  AllFaulty-append [] p s h f = (f, tt)
  AllFaulty-append (q ∷ ps) p s (g, h) f = (g, AllFaulty-append ps p (work q s).1 h f)

  -- How a read over `order` ended. The endpoints in `before` were asked first, and were at fault.
  pub data ReadVerdict (order : List Provider) (s : S) (run : Run T S) : Type (ℓ ⊔ κ) where
    answered :
        (before after : List Provider) (p : Provider) (v : T)
        → order ≡ before ++ p ∷ after
        → AllFaulty before s
        → race (work p (state_after before s)).0 ≡ returned v
        → run.ended ≡ returned v
        → run.state ≡ state_after (before ++ p ∷ []) s
        → ReadVerdict order s run
    stopped :
        (before after : List Provider) (p : Provider) (err : Thrown)
        → order ≡ before ++ p ∷ after
        → AllFaulty before s
        → race (work p (state_after before s)).0 ≡ threw err
        → is_endpoint_fault err ≡ false
        → run.ended ≡ threw err
        → run.state ≡ state_after (before ++ p ∷ []) s
        → ReadVerdict order s run
    exhausted :
        (err : Thrown)
        → AllFaulty order s
        → run.ended ≡ threw err
        → run.state ≡ state_after order s
        → ReadVerdict order s run

  read_each-ReadVerdict :
      (clock : ℕ → ℕ) (order before ps : List Provider) (health : Option EndpointHealth)
      (last : Thrown) (reported : List (Provider × Thrown)) (s : S)
      → order ≡ before ++ ps
      → AllFaulty before s
      → ReadVerdict order s
          (read_each work kind clock ps health last reported (state_after before s))
  unfolding read_each
  read_each-ReadVerdict clock order before [] health last reported s o faulty =
      let all : order ≡ before = o ∙ append-nil before in
      exhausted last (rw all faulty) refl (rw all refl)
  read_each-ReadVerdict clock order before (p ∷ ps) health last reported s o faulty =
      let now = state_after before s in
      let after_p = sym (state_after-append before p s) in
      elim (Ended-cases (race (work p now).0)) [
        | inl (v, e) ↦ rw e (answered before ps p v o faulty e refl after_p)
        | inr (err, e) ↦ elim (Bool-cases (is_endpoint_fault err)) [
          | inl fault ↦
              let moved : order ≡ (before ++ p ∷ []) ++ ps =
                o ∙ sym (append_assoc before (p ∷ []) ps) in
              let here : Faulty p now = record { err = err; answered = e; charged = fault } in
              rw (e, fault, after_p)
                (read_each-ReadVerdict (λ i. clock (suc i)) order (before ++ p ∷ []) ps _ err _ s
                  moved (AllFaulty-append before p s faulty here))
          | inr blameless ↦
              rw (e, blameless) (stopped before ps p err o faulty e blameless refl after_p)
        ]
      ]

pub read_with_failover-ReadVerdict {ℓ κ} :
    {T : Type ℓ} {S : Type κ} (work : Provider → S → Settled T × S) (kind : HealthKind)
    (clock : ℕ → ℕ) (ps : List Provider) (start_idx : Index) (health : Option EndpointHealth)
    (s : S)
    → 0 < length ps
    → ReadVerdict work kind
        (ordered health clock ps start_idx kind)
        s
        (read_with_failover work kind clock ps start_idx health s)
unfolding read_with_failover
read_with_failover-ReadVerdict work kind clock [] start_idx health s pos = elim pos [ ]
read_with_failover-ReadVerdict work kind clock (p ∷ ps) start_idx health s pos =
    read_each-ReadVerdict work kind _ (ordered health clock (p ∷ ps) start_idx kind) [] _ health
      undefined_value [] s refl tt
