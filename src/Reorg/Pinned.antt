-- ===== src/Reorg/Pinned.antt =====
-- The pinned check: whose word a rollback rests on.
use altscan.Prelude.{
  ℕ, ◌-◌, ◌≤◌, ◌<◌, ◌≡◌, ◌⊎◌, inl, inr, refl, sym, subst, false, List, [], ◌∷◌, ◌++◌, Option, arith,
  leb, ◌==◌, nat_eq, Bool-cases, length, has, has-append, add, min, All, All-append, ap, ◌∙◌,
}
use altscan.Health.{Provider, EndpointHealth, Index, reorg}
use altscan.Failover.{Settled, Ended, returned, threw, race, Run}
use altscan.Failover.Errors.{Payload, plain, unresolved_fork}
use altscan.Failover.Reads.{
  ReadVerdict, answered, stopped, exhausted, state_after, read_with_failover-ReadVerdict,
}
use altscan.Reorg.{
  Promise, fulfilled, rejected, ReorgDeps, ReorgCheck, reorg_at, detect_reorg, Unresolved,
  note_unresolved, note_rejection, settled_check, noted, Timing, in_time, late, never, conclude,
  detect_reorg_pinned,
}
use altscan.Reorg.Rejections.{PlainReads, NoAgreement, detect_unresolved}

-- No endpoint twice.
abbrev pub Distinct : List Provider → Type 0
Distinct [] = Unit {0}
Distinct (p ∷ ps) = (has p ps ≡ false) × Distinct ps

Distinct-append :
    (ps : List Provider) (p : Provider) → Distinct ps → has p ps ≡ false → Distinct (ps ++ p ∷ [])
unfolding has
Distinct-append [] p d h = (refl, tt)
Distinct-append (q ∷ ps) p (new, d) h =
    (ground (arith, has-append q ps (p ∷ [])), Distinct-append ps p d (ground arith))

module _ (deps_for : Provider → ReorgDeps) (timing : Provider → Timing) (last depth : ℕ) where
  abbrev pub check : Provider → Promise ReorgCheck
  check p = detect_reorg (deps_for p) last depth

  abbrev pub callback : Provider → Unresolved → Settled ReorgCheck × Unresolved
  callback p u = (settled_check (timing p) (check p), noted (timing p) p (check p) u)

  abbrev pub FoundNothing : Provider → Type 0
  FoundNothing p = NoAgreement (deps_for p) last depth

  -- What the variables of the call say is true of the endpoints that they name.
  pub record IsBacked (u : Unresolved) : Type 0 where
    pub distinct : Distinct u.unresolved
    pub backed : All FoundNothing u.unresolved
    pub floor_eq : (u.unresolved ≡ []) ⊎ (u.floor ≡ last - depth)

  module _ (reads : (p : Provider) → PlainReads (deps_for p)) where
    IsBacked-add :
        (p : Provider) (u : Unresolved) (floor : ℕ)
        → floor ≡ last - depth
        → FoundNothing p
        → IsBacked u
        → IsBacked (record { unresolved = add p u.unresolved; floor = floor })
    unfolding add
    IsBacked-add p u floor f nothing b = elim (Bool-cases (has p u.unresolved)) [
      | inl old ↦ rw old (record { distinct = b.distinct; backed = b.backed; floor_eq = inr f })
      | inr new ↦ rw new (record {
        distinct = Distinct-append u.unresolved p b.distinct new;
        backed = All-append FoundNothing u.unresolved (p ∷ []) b.backed (nothing, tt);
        floor_eq = inr f;
      })
    ]

    IsBacked-note_rejection :
        (p : Provider) (c : Promise ReorgCheck) (u : Unresolved)
        → check p ≡ c
        → IsBacked u
        → IsBacked (note_rejection p c u)
    IsBacked-note_rejection p (fulfilled c) u e b = b
    IsBacked-note_rejection p (rejected x) u e b = go x.payload refl
      where
        go : (q : Payload) → x.payload ≡ q → IsBacked (note_unresolved p q u)
        go plain pl = b
        go (unresolved_fork s floor d) pl =
            let (f, nothing) =
              detect_unresolved (deps_for p) (reads p) last depth x s floor d e pl in
            IsBacked-add p u floor f nothing b

    IsBacked-noted :
        (p : Provider) (t : Timing) (u : Unresolved) → IsBacked u → IsBacked (noted t p (check p) u)
    IsBacked-noted p never u b = b
    IsBacked-noted p late u b = IsBacked-note_rejection p (check p) u refl b
    IsBacked-noted p in_time u b = IsBacked-note_rejection p (check p) u refl b

    IsBacked-state_after :
        (ps : List Provider) (u : Unresolved)
        → IsBacked u
        → IsBacked (state_after callback reorg ps u)
    IsBacked-state_after [] u b = b
    IsBacked-state_after (p ∷ ps) u b = IsBacked-state_after ps _ (IsBacked-noted p (timing p) u b)

  -- Why a pinned call rolls back to `m`: one endpoint's own check said so in time, or no fewer
  -- endpoints than two, or than there are, found no agreement, and `m` is the floor.
  pub data Grounds (providers : List Provider) (m : ℕ) : Type 0 where
    one_view :
        (p : Provider) → timing p ≡ in_time → check p ≡ fulfilled (reorg_at m) → Grounds providers m
    corroborated :
        (ps : List Provider)
        → Distinct ps
        → All FoundNothing ps
        → 1 ≤ length ps
        → min 2 (length providers) ≤ length ps
        → m ≡ last - depth
        → Grounds providers m

  settled_value :
      (t : Timing) (c : Promise ReorgCheck) (r : ReorgCheck)
      → race (settled_check t c) ≡ returned r
      → (t ≡ in_time) × (c ≡ fulfilled r)
  settled_value in_time (fulfilled c) r e = (refl, cc)
  settled_value in_time (rejected x) r e = cc
  settled_value late c r e = cc
  settled_value never c r e = cc

  conclude-Grounds :
      (providers : List Provider) (m : ℕ) (u : Unresolved) (ended : Ended ReorgCheck)
      → IsBacked u
      → ((c : ReorgCheck)
          → ended ≡ returned c
          → (p : Provider) × (timing p ≡ in_time) × (check p ≡ fulfilled c))
      → conclude providers u ended ≡ fulfilled (reorg_at m)
      → Grounds providers m
  conclude-Grounds providers m u (returned c) b by e =
      let (p, timely, found) = by c refl in one_view p timely (found ∙ e)
  conclude-Grounds providers m u (threw x) b by e = elim (Bool-cases (length u.unresolved == 0)) [
    | inl none_said ↦ absurd (let e' = (rw none_said at e) in cc)
    | inr some_said ↦ elim (Bool-cases (leb (min 2 (length providers)) (length u.unresolved))) [
      | inl enough ↦
          let floor : u.floor ≡ m = ground arith in
          elim b.floor_eq [
            | inl empty ↦ absurd (let z : length u.unresolved ≡ 0 = ap length empty in ground arith)
            | inr f ↦
                corroborated u.unresolved b.distinct b.backed (ground arith) (ground arith)
                  (sym floor ∙ f)
          ]
      | inr few ↦ absurd (let e' = (rw (some_said, few) at e) in cc)
    ]
  ]

  returned_check :
      (order : List Provider) (u : Unresolved) (run : Run ReorgCheck Unresolved)
      → ReadVerdict callback reorg order u run
      → (c : ReorgCheck) → run.ended ≡ returned c
      → (p : Provider) × (timing p ≡ in_time) × (check p ≡ fulfilled c)
  returned_check order u run (answered before after p v o faulty r ended st) c e =
      let (timely, found) = settled_value (timing p) (check p) v r in (p, timely, cc)
  returned_check order u run (stopped before after p x o faulty r blameless ended st) c e = cc
  returned_check order u run (exhausted x faulty ended st) c e = cc

  verdict_state :
      (order : List Provider) (u : Unresolved) (run : Run ReorgCheck Unresolved)
      → ReadVerdict callback reorg order u run
      → (asked : List Provider) × (run.state ≡ state_after callback reorg asked u)
  verdict_state order u run (answered before after p v o faulty r ended st) = (before ++ p ∷ [], st)
  verdict_state order u run (stopped before after p x o faulty r blameless ended st) =
      (before ++ p ∷ [], st)
  verdict_state order u run (exhausted x faulty ended st) = (order, st)

-- The index is rolled back on evidence only. If the pinned check reports a reorg, then one endpoint,
-- answering in time, found that fork point in its own view of the chain; or the fork point is the
-- floor, and at least two different endpoints, or the only one of a pool of one, hold no block within
-- the depth that agrees with the index. The reads themselves never throw the walk's own error.
pub detect_reorg_pinned-Grounds :
    (deps_for : Provider → ReorgDeps) (timing : Provider → Timing) (last depth m : ℕ)
    (clock : ℕ → ℕ) (providers : List Provider) (start_idx : Index) (health : Option EndpointHealth)
    → ((p : Provider) → PlainReads (deps_for p))
    → 0 < length providers
    → detect_reorg_pinned clock providers start_idx deps_for timing last depth health
      ≡ fulfilled (reorg_at m)
    → Grounds deps_for timing last depth providers m
unfolding detect_reorg_pinned
detect_reorg_pinned-Grounds deps_for timing last depth m clock providers start_idx health reads pos
      e =
    let start : Unresolved = record { unresolved = []; floor = 0 } in
    let verdict =
      read_with_failover-ReadVerdict (callback deps_for timing last depth) reorg clock providers
        start_idx health start pos in
    let (asked, st) = verdict_state deps_for timing last depth _ start _ verdict in
    let backed : IsBacked deps_for timing last depth start = record {
      distinct = tt;
      backed = tt;
      floor_eq = inl refl;
    } in
    conclude-Grounds deps_for timing last depth providers m _ _
      (subst (IsBacked deps_for timing last depth) (sym st)
        (IsBacked-state_after deps_for timing last depth reads asked start backed))
      (returned_check deps_for timing last depth _ start _ verdict) e
