-- ===== src/Backfill/Claim.antt =====
-- apps/indexer/src/backfill-worker.ts: which row `claimNextEntity` takes.
use mathlib.Core.List.{Memᴰ}
use mathlib.Core.List.Memᴰ.{head, tail}
use altscan.Prelude.{
  ℕ, ◌≡◌, refl, sym, ap, ◌∙◌, inl, inr, Bool, true, false, not, ◌&&◌, List, [], ◌∷◌, Option, none,
  some, ◌==◌, Bool-cases, filter_by, mem-filter_by, mem_of_filter_by, none≢some, some-injective,
  arith, map, if◌then◌else◌, ◌*◌, ◌/◌,
}
use altscan.Backfill.{
  EntityType, Watermark, Config, claimable, comes_before, sooner, first_of, claim_row,
  claim_next_entity, update_where, running,
}
use altscan.Backfill.Due.{
  IsDue, Precedes, claimable-IsDue, claimable_of_IsDue, comes_before-Precedes,
}
use altscan.Backfill.Members.{first_of-mem}

before_irreflexive : (w : Watermark) → comes_before w w ≡ false
unfolding comes_before
before_irreflexive w = ground arith

before_asymmetric : (v w : Watermark) → comes_before v w ≡ true → comes_before w v ≡ false
unfolding comes_before
before_asymmetric v w h = ground arith

-- Not coming before is transitive.
not_before_trans :
    (u v w : Watermark)
    → comes_before u v ≡ false
    → comes_before v w ≡ false
    → comes_before u w ≡ false
unfolding comes_before
not_before_trans u v w h k = ground arith

sooner-first :
    (v w : Watermark) (o : Option Watermark)
    → ((u : Watermark) → o ≡ some u → comes_before v u ≡ false)
    → (o ≡ none → v ≡ w)
    → comes_before v (sooner w o) ≡ false
sooner-first v w none h own = ap (λ u. comes_before u w) (own refl) ∙ before_irreflexive w
sooner-first v w (some u) h own = elim (Bool-cases (comes_before u w)) [
  | inl first ↦ rw first (h u refl)
  | inr later ↦ rw later (not_before_trans v u w (h u refl) later)
]

sooner-own : (w : Watermark) (o : Option Watermark) → comes_before w (sooner w o) ≡ false
sooner-own w none = before_irreflexive w
sooner-own w (some u) = elim (Bool-cases (comes_before u w)) [
  | inl first ↦ rw first (before_asymmetric u w first)
  | inr later ↦ rw later (before_irreflexive w)
]

first_of-first :
    (v : Watermark) (ws : List Watermark)
    → Memᴰ v ws
    → (w : Watermark) × (first_of ws ≡ some w) × (comes_before v w ≡ false)
unfolding first_of
first_of-first v [] m = elim m [ ]
first_of-first v (w ∷ ws) (head e) = (
  sooner w (first_of ws),
  refl,
  ap (λ u. comes_before u (sooner w (first_of ws))) e ∙ sooner-own w (first_of ws),
)
first_of-first v (w ∷ ws) (tail m) =
    let (u, found, first) = first_of-first v ws m in
    (
      sooner w (first_of ws),
      refl,
      sooner-first v w (first_of ws)
          (λ x is_x. ap (comes_before v) (some-injective (sym is_x ∙ found)) ∙ first)
          (λ nothing. elim (none≢some (sym nothing ∙ found)) [ ]),
    )

all_three : (a b c : Bool) → a ≡ true → b ≡ false → c ≡ false → a && not b && not c ≡ true
all_three a b c ha hb hc = ground arith

each_of_three : (a b c : Bool) → a && not b && not c ≡ true → (a ≡ true) × (b ≡ false) × (c ≡ false)
each_of_three a b c h = (ground arith, ground arith, ground arith)

-- Where a given row is due, and neither excluded nor locked, a claim answers such a row that stands no
-- later than the given one in the order: half done rows first, then those never tried, then by the time of
-- the last attempt and then of creation. It marks the rows of that id alone as running, from the current
-- millisecond on.
pub claim_next_entity-first :
    (cfg : Config) (now : ℕ) (excluded : EntityType → Bool) (locked : ℕ → Bool)
    (rows : List Watermark) (v : Watermark)
    → Memᴰ v rows
    → IsDue cfg now v
    → excluded v.entity_type ≡ false
    → locked v.id ≡ false
    → (w : Watermark) × Memᴰ w rows
      × IsDue cfg now w
      × (excluded w.entity_type ≡ false)
      × (locked w.id ≡ false)
      × Precedes w v
      × (claim_next_entity cfg now excluded locked rows ≡ (
        some (record w { status = running; last_attempt_at = some (now / 1_000 * 1_000) }),
        map
            (λ u.
              if u.id == w.id
              then record u { status = running; last_attempt_at = some (now / 1_000 * 1_000) }
              else u)
            rows,
      ))
unfolding claim_next_entity update_where
claim_next_entity-first cfg now excluded locked rows v m due free unlocked =
    let p : Watermark → Bool =
      (λ u. claimable cfg now u && not (excluded u.entity_type) && not (locked u.id)) in
    let can = all_three _ _ _ (claimable_of_IsDue cfg now v due) free unlocked in
    let (w, found, first) = first_of-first v (filter_by p rows) (mem-filter_by p v rows m can) in
    let (n, passes) = mem_of_filter_by p w rows (first_of-mem (filter_by p rows) w found) in
    let (can_too, free_too, unlocked_too) = each_of_three _ _ _ passes in
    (
      w,
      n,
      claimable-IsDue cfg now w can_too,
      free_too,
      unlocked_too,
      comes_before-Precedes v w first,
      ap (λ o. claim_row now o rows) found,
    )
