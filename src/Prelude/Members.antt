-- ===== src/Prelude/Members.antt =====
-- Membership in a list that is filtered, mapped or searched.
use mathlib.Core.Path.{◌≡◌, refl, sym, ap, subst, ◌∙◌}
use mathlib.Core.Logic.{inl, inr, ◌⊎◌}
use mathlib.Core.Bool.{Bool, true, false, ◌||◌}
use mathlib.Core.List.{List, [], ◌∷◌, ◌++◌, Memᴰ, map}
use mathlib.Core.List.Memᴰ.{head, tail}
use native.Mathlib.Omega.{arith}
use altscan.Prelude.Tests.{Bool-cases, if◌then◌else◌}
use altscan.Prelude.Lists.{filter_by, any_by}

pub mem-filter_by {ℓ} :
    {A : Type ℓ} (p : A → Bool) (a : A) (xs : List A)
    → Memᴰ a xs
    → p a ≡ true
    → Memᴰ a (filter_by p xs)
mem-filter_by p a [] m passes = elim m [ ]
mem-filter_by p a (x ∷ xs) (head e) passes =
    let same : p x ≡ true = ap p (sym e) ∙ passes in rw same (head e)
mem-filter_by p a (x ∷ xs) (tail m) passes = elim (Bool-cases (p x)) [
  | inl kept ↦ rw kept (tail (mem-filter_by p a xs m passes))
  | inr dropped ↦ rw dropped (mem-filter_by p a xs m passes)
]

pub mem_of_filter_by {ℓ} :
    {A : Type ℓ} (p : A → Bool) (a : A) (xs : List A)
    → Memᴰ a (filter_by p xs)
    → Memᴰ a xs × (p a ≡ true)
mem_of_filter_by p a [] m = elim m [ ]
mem_of_filter_by p a (x ∷ xs) m = elim (Bool-cases (p x)) [
  | inl kept ↦
      by_kept kept (subst (λ b. Memᴰ a (if b then x ∷ filter_by p xs else filter_by p xs)) kept m)
        (λ n. mem_of_filter_by p a xs n)
  | inr dropped ↦
      let rest =
        mem_of_filter_by p a xs
          (subst (λ b. Memᴰ a (if b then x ∷ filter_by p xs else filter_by p xs)) dropped m) in
      (tail rest.0, rest.1)
]
  where
    by_kept :
        p x ≡ true
        → Memᴰ a (x ∷ filter_by p xs)
        → (Memᴰ a (filter_by p xs) → Memᴰ a xs × (p a ≡ true))
        → Memᴰ a (x ∷ xs) × (p a ≡ true)
    by_kept kept (head e) rest = (head e, ap p e ∙ kept)
    by_kept kept (tail n) rest = (tail (rest n).0, (rest n).1)

pub mem_of_map {ℓ κ} :
    {A : Type ℓ} {B : Type κ} (f : A → B) (b : B) (xs : List A)
    → Memᴰ b (map f xs)
    → (a : A) × Memᴰ a xs × (b ≡ f a)
mem_of_map f b [] m = elim m [ ]
mem_of_map f b (x ∷ xs) (head e) = (x, head refl, e)
mem_of_map f b (x ∷ xs) (tail m) = let (a, n, e) = mem_of_map f b xs m in (a, tail n, e)

pub mem_of_append {ℓ} :
    {A : Type ℓ} (a : A) (xs ys : List A) → Memᴰ a (xs ++ ys) → Memᴰ a xs ⊎ Memᴰ a ys
mem_of_append a [] ys m = inr m
mem_of_append a (x ∷ xs) ys (head e) = inl (head e)
mem_of_append a (x ∷ xs) ys (tail m) = elim (mem_of_append a xs ys m) [
  | inl n ↦ inl (tail n)
  | inr n ↦ inr n
]

pub any_by-append {ℓ} :
    {A : Type ℓ} (p : A → Bool) (xs ys : List A)
    → any_by p (xs ++ ys) ≡ (any_by p xs || any_by p ys)
any_by-append p [] ys = refl
any_by-append p (x ∷ xs) ys = ground (arith, any_by-append p xs ys)

pub any_by-none {ℓ} :
    {A : Type ℓ} (p : A → Bool) (a : A) (xs : List A)
    → Memᴰ a xs
    → any_by p xs ≡ false
    → p a ≡ false
any_by-none p a [] m h = elim m [ ]
any_by-none p a (x ∷ xs) (head e) h = ap p e ∙ ground arith
any_by-none p a (x ∷ xs) (tail m) h = any_by-none p a xs m (ground arith)
