-- ===== src/Reorg/Detect.antt =====
-- When a check reports a reorg, and when it does not.
use text.Mathlib.TextEquality.{eq_iff}
use altscan.Prelude.{
  ℕ, ◌+◌, ◌≤◌, ◌<◌, ◌≡◌, ◌≢◌, inl, inr, refl, subst, Bool, true, false, Option, none, some, String,
  arith, leb, ◌===◌, string_eq, if◌then◌else◌, ap, ◌∙◌, ◌↔◌, Bool-cases,
}
use altscan.Reorg.{
  Header, Promise, fulfilled, rejected, ◌>>=◌, ReorgDeps, ReorgCheck, no_reorg, reorg_at, present,
  tip_consistent, boundary, check_tip, detect_reorg, find_fork_point,
}
use altscan.Reorg.Walk.{
  ForkPoint, at, none_within, read_failed, find_fork_point-ForkPoint, Agrees, present-eq-some,
  present_of_ne,
}

-- The chain contradicts the stored hash of the last indexed block: the next block has another parent,
-- or there is no next block yet and the tip itself has another hash.
pub data Contradicted (deps : ReorgDeps) (last : ℕ) : Type 0 where
  by_parent :
      (stored : String) (next : Header)
      → deps.stored_hash last ≡ fulfilled (some stored)
      → stored ≢ ""
      → deps.rpc_block (last + 1) ≡ fulfilled (some next)
      → next.parent_hash ≢ stored
      → Contradicted deps last
  by_tip :
      (stored : String) (tip : Header)
      → deps.stored_hash last ≡ fulfilled (some stored)
      → stored ≢ ""
      → deps.rpc_block (last + 1) ≡ fulfilled none
      → deps.rpc_block last ≡ fulfilled (some tip)
      → tip.hash ≢ stored
      → Contradicted deps last

differs : (s t : String) → (s === t) ≡ false → s ≢ t
differs s t e = ground (arith, eq_iff s t)

differs_test : (s t : String) → s ≢ t → (s === t) ≡ false
differs_test s t ne = ground (arith, eq_iff s t)

fork_facts :
    {deps : ReorgDeps} {last depth m : ℕ} {result : Promise ℕ}
    → ForkPoint deps last depth result
    → result ≡ fulfilled m
    → (m ≤ last)
      × (last ≤ m + depth)
      × Agrees deps m
      × ((k : ℕ) → m < k → k ≤ last → ¬ Agrees deps k)
fork_facts {deps} {last} {depth} {m} (at n e le deep ag above) f =
    let same : n ≡ m = cc in
    subst
      (λ j.
        (j ≤ last)
        × (last ≤ j + depth)
        × Agrees deps j
        × ((k : ℕ) → j < k → k ≤ last → ¬ Agrees deps k))
      same (le, deep, ag, above)
fork_facts (none_within e none_at) f = cc
fork_facts (read_failed k x e r) f = cc

module _ (deps : ReorgDeps) (last depth : ℕ) where
  -- The fork point is where the walk from the last indexed block ended.
  abbrev pub forked : Promise ReorgCheck
  forked = find_fork_point deps last depth >>= λ fork_point. fulfilled (reorg_at fork_point)

  detect_enters :
      (s : String)
      → 2 ≤ last
      → deps.stored_hash last ≡ fulfilled (some s)
      → s ≢ ""
      → detect_reorg deps last depth ≡ check_tip deps last depth (some s)
  unfolding detect_reorg
  detect_enters s two st ne =
      let deep : leb last 1 ≡ false = ground arith in
      rw (deep, st) (ap (check_tip deps last depth) (present_of_ne s ne))

  -- A contradiction is never reported as "no reorg".
  detect_of_Contradicted : 2 ≤ last → Contradicted deps last → detect_reorg deps last depth ≡ forked
  detect_of_Contradicted two (by_parent s next st ne nx pa) =
      rw (detect_enters s two st ne, nx, differs_test next.parent_hash s pa) refl
  detect_of_Contradicted two (by_tip s tip st ne nx tp ha) =
      rw (detect_enters s two st ne, nx, tp, differs_test tip.hash s ha) refl

  module _ (s : String) (st : deps.stored_hash last ≡ fulfilled (some s)) (ne : s ≢ "") where
    Contradicted-by_tip :
        (tip : Promise (Option Header))
        → deps.rpc_block last ≡ tip
        → deps.rpc_block (last + 1) ≡ fulfilled none
        → (tip >>= λ t. fulfilled (tip_consistent s t)) ≡ fulfilled false
        → Contradicted deps last
    Contradicted-by_tip (rejected x) tp nx e = cc
    Contradicted-by_tip (fulfilled none) tp nx e = cc
    Contradicted-by_tip (fulfilled (some t)) tp nx e =
        by_tip s t st ne nx tp (differs t.hash s (cc))

    Contradicted-by :
        (next : Option Header)
        → deps.rpc_block (last + 1) ≡ fulfilled next
        → boundary deps last s next ≡ fulfilled false
        → Contradicted deps last
    Contradicted-by none nx e = Contradicted-by_tip (deps.rpc_block last) refl nx e
    Contradicted-by (some b) nx e = by_parent s b st ne nx (differs b.parent_hash s (cc))

    verdict_of :
        (c : Promise Bool) (m : ℕ)
        → (c >>= λ consistent. if consistent then fulfilled no_reorg else forked)
          ≡ fulfilled (reorg_at m)
        → (c ≡ fulfilled false) × (find_fork_point deps last depth ≡ fulfilled m)
    verdict_of (rejected x) m e = cc
    verdict_of (fulfilled true) m e = cc
    verdict_of (fulfilled false) m e = (refl, go (find_fork_point deps last depth) e)
      where
        go :
            (p : Promise ℕ)
            → (p >>= λ fork_point. fulfilled (reorg_at fork_point)) ≡ fulfilled (reorg_at m)
            → p ≡ fulfilled m
        go (rejected x) e' = cc
        go (fulfilled k) e' = cc

    Contradicted-of_next :
        (next : Promise (Option Header)) (m : ℕ)
        → deps.rpc_block (last + 1) ≡ next
        → (next >>= λ b. boundary deps last s b >>= λ consistent.
            if consistent then fulfilled no_reorg else forked)
          ≡ fulfilled (reorg_at m)
        → Contradicted deps last × (find_fork_point deps last depth ≡ fulfilled m)
    Contradicted-of_next (rejected x) m nx e = cc
    Contradicted-of_next (fulfilled next) m nx e =
        let (contrary, fork) = verdict_of (boundary deps last s next) m e in
        (Contradicted-by next nx contrary, fork)

  Contradicted-of_stored :
      (stored : Promise (Option String)) (m : ℕ)
      → deps.stored_hash last ≡ stored
      → (stored >>= λ o. check_tip deps last depth (present o)) ≡ fulfilled (reorg_at m)
      → Contradicted deps last × (find_fork_point deps last depth ≡ fulfilled m)
  Contradicted-of_stored (rejected x) m st e = cc
  Contradicted-of_stored (fulfilled o) m st e = go (present o) refl e
    where
      go :
          (q : Option String)
          → present o ≡ q
          → check_tip deps last depth q ≡ fulfilled (reorg_at m)
          → Contradicted deps last × (find_fork_point deps last depth ≡ fulfilled m)
      go none pr e' = cc
      go (some s) pr e' =
          let (held, ne) = present-eq-some o s pr in
          Contradicted-of_next s (rw (← held) st) ne (deps.rpc_block (last + 1)) m refl e'

  Contradicted-of_detect :
      (m : ℕ)
      → detect_reorg deps last depth ≡ fulfilled (reorg_at m)
      → (2 ≤ last) × Contradicted deps last × (find_fork_point deps last depth ≡ fulfilled m)
  unfolding detect_reorg
  Contradicted-of_detect m e = elim (Bool-cases (leb last 1)) [
    | inl low ↦ absurd (let e' = (rw low at e) in cc)
    | inr deep ↦
        let (contrary, fork) =
          Contradicted-of_stored (deps.stored_hash last) m refl (rw deep at e) in
        (ground arith, contrary, fork)
  ]

-- A check on one endpoint reports a reorg exactly when the walk finds a fork point and the chain
-- contradicts the stored hash of the last indexed block, which is above block 1. The fork point it
-- reports is the highest height within the depth at which the index and that endpoint agree.
pub detect_reorg_iff :
    (deps : ReorgDeps) (last depth m : ℕ)
    → ((detect_reorg deps last depth ≡ fulfilled (reorg_at m))
        ↔ ((2 ≤ last) × Contradicted deps last × (find_fork_point deps last depth ≡ fulfilled m)))
      × (detect_reorg deps last depth ≡ fulfilled (reorg_at m)
          → (m ≤ last)
            × (last ≤ m + depth)
            × Agrees deps m
            × ((k : ℕ) → m < k → k ≤ last → ¬ Agrees deps k))
detect_reorg_iff deps last depth m = (
  (
    Contradicted-of_detect deps last depth m,
    λ (two, contrary, fork). detect_of_Contradicted deps last depth two contrary ∙ (rw fork refl),
  ),
  λ e.
      fork_facts (find_fork_point-ForkPoint deps last depth)
        (Contradicted-of_detect deps last depth m e).2,
)
