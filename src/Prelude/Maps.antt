-- ===== src/Prelude/Maps.antt =====
-- JavaScript's `Map` and `Set`: insertion-ordered association lists over keys with an equality.
use Prim.Native.Nat.{ℕ, suc, ◌+◌, ◌≤◌}
use Prim.Native.String.{String}
use mathlib.Core.Path.{◌≡◌, refl}
use mathlib.Core.Logic.{◌↔◌, inl, inr}
use mathlib.Core.Bool.{Bool, true, false, not, ◌||◌}
use mathlib.Core.List.{List, [], ◌∷◌, ◌++◌}
use mathlib.Core.Option.{Option, none, some}
use native.Mathlib.Omega.{arith}
use text.Mathlib.Text.{◌==◌ as str_eq}
use text.Mathlib.TextEquality.{eq_iff}
use altscan.Prelude.Tests.{◌==◌ as nat_beq, ==_iff, if◌then◌else◌, Bool-cases}
use altscan.Prelude.Lists.{length}

pub record Eq {ℓ} (A : Type ℓ) : Type ℓ where
  pub beq : A → A → Bool
  pub beq_iff : (a b : A) → (beq a b ≡ true) ↔ (a ≡ b)

instance abbrev pub nat_eq : Eq ℕ
nat_eq = record { beq = nat_beq; beq_iff = ==_iff }

instance abbrev pub string_eq : Eq String
string_eq = record { beq = str_eq; beq_iff = eq_iff }

-- `===` on the keys.
infix 50 ◌===◌
abbrev pub ◌===◌ {ℓ} : {K : Type ℓ} ⦃e : Eq K⦄ → K → K → Bool
◌===◌ ⦃e⦄ = e.beq

module _ {κ ℓ} {K : Type κ} {V : Type ℓ} ⦃e : Eq K⦄ where
  -- `m.get(k)`
  unfoldable pub get : K → List (K × V) → Option V
  get k [] = none
  get k ((j, v) ∷ m) = if j === k then some v else get k m

  -- `m.set(k, v)`: in place when the key is there, at the end when it is not.
  unfoldable pub put : K → V → List (K × V) → List (K × V)
  put k v [] = (k, v) ∷ []
  put k v ((j, w) ∷ m) = if j === k then (k, v) ∷ m else (j, w) ∷ put k v m

  -- Deleting, while iterating over the keys, those that fail the test.
  unfoldable pub keep : (K → V → Bool) → List (K × V) → List (K × V)
  keep p [] = []
  keep p ((j, v) ∷ m) = if p j v then (j, v) ∷ keep p m else keep p m

  -- `m.delete(k)`
  unfoldable pub delete : K → List (K × V) → List (K × V)
  delete k m = keep (λ j _. not (j === k)) m

  pub get-put :
      (k j : K) (v : V) (m : List (K × V))
      → get j (put k v m) ≡ (if k === j then some v else get j m)
  unfolding get put
  get-put k j v [] = refl
  get-put k j v ((i, w) ∷ m) =
      ground (arith, e.beq_iff k j, e.beq_iff i k, e.beq_iff i j, get-put k j v m)

  pub get-put_self : (k : K) (v : V) (m : List (K × V)) → get k (put k v m) ≡ some v
  get-put_self k v m = rw (get-put k k v m, (e.beq_iff k k).1 refl)

  pub get-put_other :
      (k j : K) (v : V) (m : List (K × V)) → (j === k) ≡ false → get k (put j v m) ≡ get k m
  get-put_other k j v m other = rw (get-put j k v m, other)

  -- A test on the key alone keeps or drops all of a key's entries.
  pub get-keep_key :
      (p : K → Bool) (j : K) (m : List (K × V))
      → get j (keep (λ k _. p k) m) ≡ (if p j then get j m else none)
  unfolding get keep
  get-keep_key p j [] = ground arith
  get-keep_key p j ((i, w) ∷ m) = elim (Bool-cases (i === j)) [
    | inl same ↦ rw ((e.beq_iff i j).0 same) (ground (arith, get-keep_key p j m, e.beq_iff j j))
    | inr other ↦ ground (arith, get-keep_key p j m)
  ]

  pub get-delete :
      (k j : K) (m : List (K × V)) → get j (delete k m) ≡ (if j === k then none else get j m)
  unfolding delete
  get-delete k j m = rw (get-keep_key (λ i. not (i === k)) j m) (ground arith)

  pub length-put-le : (k : K) (v : V) (m : List (K × V)) → length (put k v m) ≤ suc (length m)
  unfolding put
  length-put-le k v [] = omega arith
  length-put-le k v ((i, w) ∷ m) = ground (arith, length-put-le k v m)

  pub length-keep-le : (p : K → V → Bool) (m : List (K × V)) → length (keep p m) ≤ length m
  unfolding keep
  length-keep-le p [] = omega arith
  length-keep-le p ((i, w) ∷ m) = ground (arith, length-keep-le p m)

  -- What is kept and what is dropped add up.
  pub length-keep_split :
      (p : K → Bool) (m : List (K × V))
      → length (keep (λ k _. not (p k)) m) + length (keep (λ k _. p k) m) ≡ length m
  unfolding keep
  length-keep_split p [] = omega arith
  length-keep_split p ((k, v) ∷ m) = ground (arith, length-keep_split p m)

  pub length-delete-le : (k : K) (m : List (K × V)) → length (delete k m) ≤ length m
  unfolding delete
  length-delete-le k m = length-keep-le (λ j _. not (j === k)) m

module _ {κ} {K : Type κ} ⦃e : Eq K⦄ where
  -- `s.has(k)`
  unfoldable pub has : K → List K → Bool
  has k [] = false
  has k (j ∷ s) = (j === k) || has k s

  -- `s.add(k)`
  unfoldable pub add : K → List K → List K
  unfolding has
  add k s = if has k s then s else s ++ k ∷ []

  pub has-append : (k : K) (s t : List K) → has k (s ++ t) ≡ (has k s || has k t)
  unfolding has
  has-append k [] t = ground arith
  has-append k (j ∷ s) t = ground (arith, has-append k s t)

  pub has-add : (k j : K) (s : List K) → has k (add j s) ≡ ((j === k) || has k s)
  unfolding add
  has-add k j s = elim (Bool-cases (has j s)) [
    | inl old ↦ rw old (ground (arith, e.beq_iff j k))
    | inr new ↦ rw (new, has-append k s (j ∷ [])) (ground arith)
  ]
