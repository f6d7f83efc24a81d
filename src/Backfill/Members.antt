-- ===== src/Backfill/Members.antt =====
-- apps/indexer/src/backfill-worker.ts: the rows after an UPDATE, and the row that a claim takes.
use mathlib.Core.List.{Memᴰ}
use mathlib.Core.List.Memᴰ.{head, tail}
use altscan.Prelude.{
  ◌≡◌, refl, sym, ap, ◌∙◌, inl, inr, ◌⊎◌, Bool, List, [], ◌∷◌, Option, none, some, if◌then◌else◌,
  Bool-cases, mem_of_map, none≢some, some-injective,
}
use altscan.Backfill.{Watermark, update_where, comes_before, sooner, first_of}

pub mem_of_update_where :
    (p : Watermark → Bool) (set : Watermark → Watermark) (b : Watermark) (rows : List Watermark)
    → Memᴰ b (update_where p set rows)
    → (a : Watermark) × Memᴰ a rows × (b ≡ (if p a then set a else a))
unfolding update_where
mem_of_update_where p set b rows m = mem_of_map (λ w. if p w then set w else w) b rows m

sooner-one : (w : Watermark) (o : Option Watermark) → (sooner w o ≡ w) ⊎ (o ≡ some (sooner w o))
sooner-one w none = inl refl
sooner-one w (some other) = elim (Bool-cases (comes_before other w)) [
  | inl nearer ↦ inr (rw nearer refl)
  | inr farther ↦ inl (rw farther refl)
]

pub first_of-mem : (ws : List Watermark) (w : Watermark) → first_of ws ≡ some w → Memᴰ w ws
unfolding first_of
first_of-mem [] w h = elim (none≢some h) [ ]
first_of-mem (v ∷ ws) w h =
    let is_w : sooner v (first_of ws) ≡ w = some-injective h in
    elim (sooner-one v (first_of ws)) [
      | inl own ↦ head (sym is_w ∙ own)
      | inr later ↦ tail (first_of-mem ws w (later ∙ ap (λ x. some x) is_w))
    ]
