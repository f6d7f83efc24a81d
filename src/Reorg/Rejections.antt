-- ===== src/Reorg/Rejections.antt =====
-- Why a check of one endpoint may reject.
use altscan.Prelude.{
  ℕ, ◌+◌, ◌-◌, ◌≤◌, ◌≡◌, ◌⊎◌, inl, inr, refl, true, false, Option, none, some, String, leb,
  Bool-cases,
}
use altscan.Failover.Errors.{Thrown, plain, unresolved_fork}
use altscan.Reorg.{
  Header, Promise, fulfilled, rejected, ◌>>=◌, ReorgDeps, present, boundary, check_tip, agrees_with,
  agrees_at, detect_reorg, find_fork_point, unresolved_error,
}
use altscan.Reorg.Walk.{ForkPoint, at, none_within, read_failed, find_fork_point-ForkPoint, Agrees}

-- No read of this view throws the error that the walk itself throws.
pub record PlainReads (deps : ReorgDeps) : Type 0 where
  pub stored : (n : ℕ) (e : Thrown) → deps.stored_hash n ≡ rejected e → e.payload ≡ plain
  pub on_chain : (n : ℕ) (e : Thrown) → deps.rpc_block n ≡ rejected e → e.payload ≡ plain

-- The index and the endpoint agree nowhere within the depth.
abbrev pub NoAgreement : ReorgDeps → ℕ → ℕ → Type 0
NoAgreement deps last depth = (k : ℕ) → k ≤ last → last ≤ k + depth → ¬ Agrees deps k

pub bind-rejected {ℓ κ} :
    {A : Type ℓ} {B : Type κ} (p : Promise A) (f : A → Promise B) (e : Thrown)
    → (p >>= f) ≡ rejected e
    → (p ≡ rejected e) ⊎ ((a : A) × (p ≡ fulfilled a) × (f a ≡ rejected e))
bind-rejected (rejected x) f e h = inl (cc)
bind-rejected (fulfilled a) f e h = inr (a, refl, h)

module _ (deps : ReorgDeps) (reads : PlainReads deps) where
  agrees_at-plain : (k : ℕ) (e : Thrown) → agrees_at deps k ≡ rejected e → e.payload ≡ plain
  unfolding agrees_at
  agrees_at-plain k e h = elim (bind-rejected (deps.stored_hash k) _ e h) [
    | inl st ↦ reads.stored k e st
    | inr (o, _, h') ↦ go (present o) h'
  ]
    where
      go : (q : Option String) → agrees_with deps k q ≡ rejected e → e.payload ≡ plain
      go none h' = cc
      go (some s) h' = elim (bind-rejected (deps.rpc_block k) _ e h') [
        | inl rp ↦ reads.on_chain k e rp
        | inr (b, _, h'') ↦ cc
      ]

  module _ (last depth : ℕ) (e : Thrown) where
    -- The error of a read, or the walk's own, which means that there is no agreement.
    abbrev Cause : Type 0
    Cause =
        (e.payload ≡ plain)
        ⊎ ((e ≡ unresolved_error last (last - depth) depth) × NoAgreement deps last depth)

    fork_cause :
        {result : Promise ℕ} → ForkPoint deps last depth result → result ≡ rejected e → Cause
    fork_cause (at m f le deep ag above) h = cc
    fork_cause (none_within f none_at) h = inr (cc, none_at)
    fork_cause (read_failed k x f r) h =
        inl (agrees_at-plain k e (let same : x ≡ e = cc in rw (← same) f))

    boundary_cause :
        (s : String) (next : Option Header)
        → boundary deps last s next ≡ rejected e
        → e.payload ≡ plain
    boundary_cause s (some b) h = cc
    boundary_cause s none h = elim (bind-rejected (deps.rpc_block last) _ e h) [
      | inl rp ↦ reads.on_chain last e rp
      | inr (b, _, h') ↦ cc
    ]

    tip_cause : (o : Option String) → check_tip deps last depth o ≡ rejected e → Cause
    tip_cause none h = cc
    tip_cause (some s) h = elim (bind-rejected (deps.rpc_block (last + 1)) _ e h) [
      | inl rp ↦ inl (reads.on_chain (last + 1) e rp)
      | inr (next, _, h') ↦ elim (bind-rejected (boundary deps last s next) _ e h') [
        | inl b ↦ inl (boundary_cause s next b)
        | inr (true, _, h'') ↦ cc
        | inr (false, _, h'') ↦ elim (bind-rejected (find_fork_point deps last depth) _ e h'') [
          | inl f ↦ fork_cause (find_fork_point-ForkPoint deps last depth) f
          | inr (m, _, h''') ↦ cc
        ]
      ]
    ]

    pub detect_cause : detect_reorg deps last depth ≡ rejected e → Cause
    unfolding detect_reorg
    detect_cause h = elim (Bool-cases (leb last 1)) [
      | inl low ↦ absurd (let h' = (rw low at h) in cc)
      | inr deep ↦ elim (bind-rejected (deps.stored_hash last) _ e (rw deep at h)) [
        | inl st ↦ inl (reads.stored last e st)
        | inr (o, _, h') ↦ tip_cause (present o) h'
      ]
    ]

    -- A check that rejects with the walk's own error found no agreement within the depth.
    pub detect_unresolved :
        (start_from floor max_depth : ℕ)
        → detect_reorg deps last depth ≡ rejected e
        → e.payload ≡ unresolved_fork start_from floor max_depth
        → (floor ≡ last - depth) × NoAgreement deps last depth
    detect_unresolved a f d h p = elim (detect_cause h) [
      | inl read ↦ absurd (cc)
      | inr (own, none_at) ↦ (cc, none_at)
    ]
