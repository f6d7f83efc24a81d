-- ===== src/Health/Rotation.antt =====
-- The round-robin rotation of the pool: every endpoint once, in cyclic order.
use native.Mathlib.Decide.{dec_lt}
use native.Mathlib.Nat.{add-mod_right, mod-eq_of_lt}
use mathlib.Core.List.{perm_append_comm}
use altscan.Prelude.{
  ℕ, zero, suc, ◌+◌, ◌%◌, ◌≤◌, ◌<◌, ◌≡◌, refl, subst, ap, ◌∙◌, List, ◌∷◌, ◌++◌, Perm, arith, length,
  get_elem?, take, drop, take-append-drop, drop-get_elem?, drop_all, take-append_next, append-nil,
  some,
}
use altscan.Health.{rotate_from, Index, nonneg, negative, rotation_start, rotation}

-- The first endpoint tried is one of the pool, whatever the index was.
pub rotation_start-lt : (i : Index) (n : ℕ) → 0 < n → rotation_start i n < n
unfolding rotation_start
rotation_start-lt (nonneg k) n h = grind arith
rotation_start-lt (negative k) n h = grind arith

module _ {ℓ} {A : Type ℓ} (ps : List A) where
  -- One round that reads `a`, the entry at `j`.
  rotate_from-suc :
      (k i start j : ℕ) {a : A}
      → (start + i) % length ps ≡ j
      → get_elem? ps j ≡ some a
      → rotate_from (suc k) i start ps ≡ a ∷ rotate_from k (suc i) start ps
  unfolding rotate_from
  rotate_from-suc k i start j at here = rw (at, here)

  -- Past the end of the list the rounds go on from its beginning.
  rotate_from_wrapped :
      (k i start j : ℕ)
      → start < length ps
      → start + i ≡ j + length ps
      → k + i ≡ length ps
      → take j ps ++ rotate_from k i start ps ≡ take start ps
  rotate_from_wrapped zero i start j s w e =
      let same : j ≡ start = omega arith in
      unfold rotate_from in rw same (append-nil (take start ps))
  rotate_from_wrapped (suc k) i start j s w e =
      let (a, here, _) = drop-get_elem? ps j (omega arith) in
      rw
        (
          rotate_from-suc k i start j
              (rw w (add-mod_right j (length ps) ∙ mod-eq_of_lt (omega arith))) here,
          take-append_next ps j _ here,
        )
        (rotate_from_wrapped k (suc i) start (suc j) s (omega arith) (omega arith))

  rotate_from-drop :
      (k i start j : ℕ)
      → start < length ps
      → start + i ≡ j
      → j ≤ length ps
      → k + i ≡ length ps
      → rotate_from k i start ps ≡ drop j ps ++ take start ps
  unfolding rotate_from
  rotate_from-drop zero i start j s w h e =
      let at_zero : start ≡ 0 = omega arith in rw (drop_all ps j (omega arith), at_zero) refl
  rotate_from-drop (suc k) i start j s w h e = elim (dec_lt j (length ps)) [
    | yes inside ↦
        let (a, here, tail) = drop-get_elem? ps j inside in
        rw (rotate_from-suc k i start j (rw w (mod-eq_of_lt inside)) here, tail)
          (ap (◌∷◌ a)
            (rotate_from-drop k (suc i) start (suc j) s (omega arith) (omega arith) (omega arith)))
    | no outside ↦
        rw (drop_all ps j (omega arith)) (rotate_from_wrapped (suc k) i start 0 s (omega arith) e)
  ]

  -- The rotation is the list read from its starting point round to it again.
  pub rotation_lem :
      (start_idx : Index)
      → 0 < length ps
      → rotation ps start_idx
        ≡ drop (rotation_start start_idx (length ps)) ps
          ++ take (rotation_start start_idx (length ps)) ps
  unfolding rotation
  rotation_lem start_idx h =
      rotate_from-drop (length ps) 0 (rotation_start start_idx (length ps))
        (rotation_start start_idx (length ps)) (rotation_start-lt start_idx (length ps) h)
        (omega arith) (omega (arith, rotation_start-lt start_idx (length ps) h)) (omega arith)

  pub rotation-perm : (start_idx : Index) → 0 < length ps → Perm (rotation ps start_idx) ps
  rotation-perm start_idx h =
      let start = rotation_start start_idx (length ps) in
      rw (rotation_lem start_idx h) (
        subst (Perm (drop start ps ++ take start ps)) (take-append-drop start ps)
          (perm_append_comm (drop start ps) (take start ps)))
