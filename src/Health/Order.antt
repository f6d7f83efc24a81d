-- ===== src/Health/Order.antt =====
-- The order in which one call tries the endpoints.
use mathlib.Core.List.Perm
use mathlib.Core.Path.{ap₂}
use altscan.Prelude.{
  ℕ, ◌<◌, ◌≡◌, refl, sym, ap, ◌∙◌, List, [], ◌∷◌, ◌++◌, Perm, arith, length, take, drop, has, add,
  has-add, not, ◌&&◌, ◌||◌, Bool, true, Bool-cases, inl, inr, filter_by, partition-perm, All,
  nat_eq, if◌then◌else◌,
}
use altscan.Health.{
  Provider, EndpointHealth, HealthKind, Index, is_demoted, rotation, rotation_start, demoted_now,
  unless_empty, healthy_first, order,
}
use altscan.Health.Rotation.{rotation-perm, rotation_lem}

module _ {ℓ} {A : Type ℓ} (p : A → Bool) where
  -- When nothing fails the test, what passes it is everything.
  filter_by_none_fail : (xs : List A) → filter_by (λ x. not (p x)) xs ≡ [] → filter_by p xs ≡ xs
  filter_by_none_fail [] h = refl
  filter_by_none_fail (x ∷ xs) h = elim (Bool-cases (p x)) [
    | inl t ↦ rw t (ap (◌∷◌ x) (filter_by_none_fail xs (rw t at h)))
    | inr f ↦ absurd (let h' : x ∷ filter_by (λ y. not (p y)) xs ≡ [] = rw f at h in cc)
  ]

  filter_by_congr :
      (q : A → Bool) (xs : List A) → All (λ x. p x ≡ q x) xs → filter_by p xs ≡ filter_by q xs
  filter_by_congr q [] h = refl
  filter_by_congr q (x ∷ xs) (e, h) = rw (e, filter_by_congr q xs h)

  filter_by-not_congr :
      (q : A → Bool) (xs : List A)
      → All (λ x. p x ≡ q x) xs
      → filter_by (λ x. not (p x)) xs ≡ filter_by (λ x. not (q x)) xs
  filter_by-not_congr q [] h = refl
  filter_by-not_congr q (x ∷ xs) (e, h) = rw (e, filter_by-not_congr q xs h)

unless_empty_lem :
    (healthy rotated sick_last : List Provider)
    → (healthy ≡ [] → sick_last ≡ rotated)
    → unless_empty healthy rotated sick_last ≡ healthy ++ sick_last
unless_empty_lem [] rotated sick_last h = sym (h refl)
unless_empty_lem (q ∷ qs) rotated sick_last h = refl

healthy_first_lem :
    (rotated sick : List Provider)
    → healthy_first rotated sick
      ≡ filter_by (λ p. not (has p sick)) rotated ++ filter_by (λ p. has p sick) rotated
healthy_first_lem rotated sick =
    unless_empty_lem _ rotated _ (filter_by_none_fail (λ p. has p sick) rotated)

order_lem :
    (h : EndpointHealth) (clock : ℕ → ℕ) (ps : List Provider) (i : Index) (kind : HealthKind)
    → 0 < length ps
    → let sick = demoted_now h clock kind [] (rotation ps i) in
      order h clock ps i kind
      ≡ filter_by (λ p. not (has p sick)) (rotation ps i)
        ++ filter_by (λ p. has p sick) (rotation ps i)
unfolding order
order_lem h clock [] i kind pos = elim pos [ ]
order_lem h clock (p ∷ ps) i kind pos =
    healthy_first_lem (rotation (p ∷ ps) i) (demoted_now h clock kind [] (rotation (p ∷ ps) i))

-- Whatever the clock reads between one endpoint and the next, the order holds every configured
-- endpoint exactly as often as the configuration does: none is dropped and none is repeated.
pub order-perm :
    (h : EndpointHealth) (clock : ℕ → ℕ) (ps : List Provider) (i : Index) (kind : HealthKind)
    → Perm (order h clock ps i kind) ps
unfolding order
order-perm h clock [] i kind = Perm.refl []
order-perm h clock (p ∷ ps) i kind = rw (order_lem h clock (p ∷ ps) i kind (omega arith)) (
    Perm.trans (Perm.symm (partition-perm _ (rotation (p ∷ ps) i)))
      (rotation-perm (p ∷ ps) i (omega arith)))

module _ (h : EndpointHealth) (now : ℕ) (kind : HealthKind) where
  has-demoted_now :
      (q : Provider) (seen ps : List Provider)
      → has q (demoted_now h (λ _. now) kind seen ps)
        ≡ (has q seen || (is_demoted h now q kind && has q ps))
  unfolding demoted_now has
  has-demoted_now q seen [] = ground arith
  has-demoted_now q seen (p ∷ ps) = ground (
    arith,
    has-demoted_now q (if is_demoted h now p kind then add p seen else seen) ps,
    has-add q p seen,
  )

  All-demoted :
      (ps seen : List Provider)
      → ((q : Provider) → has q ps ≡ true → has q seen ≡ true)
      → All (λ q. has q (demoted_now h (λ _. now) kind [] seen) ≡ is_demoted h now q kind) ps
  unfolding has
  All-demoted [] seen inside = tt
  All-demoted (p ∷ ps) seen inside = (
    ground (arith, has-demoted_now p [] seen, inside p),
    All-demoted ps seen (λ q e. inside q (ground arith)),
  )

  -- With one reading of the clock for the whole call, the order is the rotation, which starts at the
  -- worker's own endpoint, with the demoted endpoints moved behind the others.
  order_steady :
      (ps : List Provider) (i : Index)
      → 0 < length ps
      → let start = rotation_start i (length ps) in
        let rotated = drop start ps ++ take start ps in
        order h (λ _. now) ps i kind
        ≡ filter_by (λ p. not (is_demoted h now p kind)) rotated
          ++ filter_by (λ p. is_demoted h now p kind) rotated
  order_steady ps i pos =
      let same = All-demoted (rotation ps i) (rotation ps i) (λ _ e. e) in
      rw (← rotation_lem ps i pos) (
        order_lem h (λ _. now) ps i kind pos
        ∙ ap₂ ◌++◌ (filter_by-not_congr _ _ (rotation ps i) same)
            (filter_by_congr _ _ (rotation ps i) same))
