-- ===== src/Healer/Density.antt =====
-- When the healer calls a range healed.
use altscan.Prelude.{
  ℕ, suc, ◌-◌, ◌≤◌, ◌≡◌, refl, subst, inl, inr, Bool, true, false, not, ◌&&◌, List, [], ◌∷◌, Option,
  some, arith, ltb, ◌==◌, Bool-cases, any_by, Option-cases, ap,
}
use altscan.Db.{Db, IndexGap, has_block}
use altscan.Poison.{Knob}
use altscan.Healer.{
  HealDeps, HealOutcome, healed, verify_from, mismatched, undense, finishes, stamp, confirm,
  after_repair, heal_window, heal_next_gap, flushed, Repair, finished, stopped, broken, heal_from,
  claimed, lapsed, fenced, incomplete, too_far_behind, lag_ceiling_of, candidate,
}
use altscan.Db.Heights.{generate_series, none_in_range}

any_by-implies {ℓ} :
    {A : Type ℓ} (p : A → Bool) (q : Bool) (xs : List A)
    → ((x : A) → p x ≡ true → q ≡ true)
    → any_by p xs ≡ true
    → q ≡ true
any_by-implies p q [] h e = ground arith
any_by-implies p q (x ∷ xs) h e = ground (arith, h x, any_by-implies p q xs h)

-- Every block of the part of a gap that retention keeps is there, with all its transactions.
pub IsDense : Option ℕ → IndexGap → Db → Type 0
IsDense floor g db =
    (n : ℕ)
    → verify_from floor g ≤ n
    → n ≤ g.to_block
    → (has_block n db.blocks ≡ true) × (mismatched db n ≡ false)

IsDense-of_series :
    (floor : Option ℕ) (g : IndexGap) (db : Db)
    → any_by (undense db) (generate_series (verify_from floor g) g.to_block) ≡ false
    → IsDense floor g db
unfolding IsDense
IsDense-of_series floor g db e n low high =
    let dense : undense db n ≡ false =
      none_in_range (undense db) (verify_from floor g) (suc g.to_block - verify_from floor g) n e
        low (omega arith) in
    ground (arith, dense)

-- What is known of the gap once the tick has called it healed.
abbrev Healed : HealDeps → IndexGap → Db × HealOutcome → Type 0
Healed deps g (after, healed from_block to_block repaired) =
    (from_block ≡ g.from_block) × (to_block ≡ g.to_block) × IsDense deps.floor g after
Healed deps g (after, _) = Unit {0}

stamped :
    (deps : HealDeps) (g : IndexGap) (db : Db)
    → any_by (finishes deps g db) db.index_gaps ≡ true
    → any_by (undense db) (generate_series (verify_from deps.floor g) g.to_block) ≡ false
stamped deps g db e =
    let bad = any_by (undense db) (generate_series (verify_from deps.floor g) g.to_block) in
    let dense : not bad ≡ true =
      any_by-implies (finishes deps g db) (not bad) db.index_gaps
        (λ row. last (fenced deps 2 g row) (row.to_block == g.to_block) (not bad)) e in
    ground (arith, dense)
  where
    last : (a b c : Bool) → (a && b && c) ≡ true → c ≡ true
    last a b c h = ground arith

stamp-Healed :
    (deps : HealDeps) (g : IndexGap) (repaired : ℕ) (db : Db)
    → Healed deps g (stamp deps g repaired db)
unfolding stamp IsDense mismatched
stamp-Healed deps g repaired db = elim (Bool-cases (any_by (finishes deps g db) db.index_gaps)) [
  | inr unfit ↦ rw unfit tt
  | inl fit ↦ rw fit (refl, refl, IsDense-of_series deps.floor g db (stamped deps g db fit))
]

confirm-Healed :
    (deps : HealDeps) (g : IndexGap) (window_end repaired : ℕ) (flush : Db × Bool)
    → Healed deps g (confirm deps g window_end repaired flush)
unfolding confirm
confirm-Healed deps g window_end repaired (db, false) = tt
confirm-Healed deps g window_end repaired (db, true) =
    elim (Bool-cases
      (any_by (incomplete db) (generate_series (heal_from deps.floor g) window_end))) [
        | inl bad ↦ rw bad tt
        | inr good ↦ elim (Bool-cases (any_by (fenced deps 1 g) db.index_gaps)) [
          | inr lost ↦ rw (good, lost) tt
          | inl held ↦ elim (Bool-cases (ltb window_end g.to_block)) [
            | inl more ↦ rw (good, held, more) tt
            | inr whole ↦ rw (good, held, whole) (stamp-Healed deps g repaired _)
          ]
        ]
      ]

after_repair-Healed :
    (deps : HealDeps) (g : IndexGap) (window_end : ℕ) (r : Repair)
    → Healed deps g (after_repair deps g window_end r)
after_repair-Healed deps g window_end (stopped db repaired) = tt
after_repair-Healed deps g window_end (broken db repaired error) = tt
after_repair-Healed deps g window_end (finished db repaired) =
    confirm-Healed deps g window_end repaired (flushed deps db)

heal_window-Healed :
    (deps : HealDeps) (batch ceiling lease_ms : ℕ) (g : IndexGap) (db : Db)
    → Healed deps g (heal_window deps batch ceiling lease_ms g db)
unfolding heal_window
heal_window-Healed deps batch ceiling lease_ms g db = after_repair-Healed deps g _ _

-- A range is called healed on proof only. Whatever the calls of `reindexBlock` and of the flush do to
-- the database, if a tick ends with `healed`, then the range is that of the gap that was selected and
-- whose lease was free, the lag was read and within the limit, and in the database that the tick
-- leaves, every height of the range that retention keeps has its block, with exactly the number of
-- transactions that the block was stored with.
pub heal_next_gap-IsDense :
    (deps : HealDeps) (batch_size max_lag lease_ms : Knob) (db after : Db)
    (from_block to_block repaired : ℕ)
    → heal_next_gap deps batch_size max_lag lease_ms db
      ≡ (after, healed from_block to_block repaired)
    → (too_far_behind (lag_ceiling_of max_lag) (deps.read_lag 0) ≡ false)
      × ((g : IndexGap) × (candidate deps db db.index_gaps ≡ some g)
          × (lapsed (deps.db_clock 0) g.heal_lease_until ≡ true)
          × (from_block ≡ g.from_block)
          × (to_block ≡ g.to_block)
          × IsDense deps.floor g after)
unfolding heal_next_gap
heal_next_gap-IsDense deps batch_size max_lag lease_ms db after from_block to_block repaired e =
    elim (Bool-cases (too_far_behind (lag_ceiling_of max_lag) (deps.read_lag 0))) [
      | inl behind ↦ absurd (let e' = (rw behind at e) in let o = ap (λ r. r.1) e' in cc)
      | inr near ↦ elim (Option-cases (candidate deps db db.index_gaps)) [
        | inl nothing ↦
            absurd (let e' = (rw (near, nothing) at e) in let o = ap (λ r. r.1) e' in cc)
        | inr (g, chosen) ↦ elim (Bool-cases (lapsed (deps.db_clock 0) g.heal_lease_until)) [
          | inr held ↦
              absurd (let e' = (rw (near, chosen, held) at e) in let o = ap (λ r. r.1) e' in cc)
          | inl free ↦
              let e' = (rw (near, chosen, free) at e) in
              let known =
                subst (Healed deps g) e' (heal_window-Healed deps _ _ _ g (claimed deps _ g db)) in
              (near, (g, chosen, free, known.0, known.1, known.2))
        ]
      ]
    ]
