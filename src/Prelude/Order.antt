-- ===== src/Prelude/Order.antt =====
-- Texts are ordered by their characters' numbers, as Python orders `str`. The order is strict and
-- total. Python's `int` is ℤ here where a value may be negative.
use Prim.Native.Nat.{ℕ, suc, ◌+◌, Ordering}
use Prim.Native.String.compare
use Prim.Native.String.{String, compare, [], ◌∷◌}
use mathlib.Core.Path.{◌≡◌, refl, sym, subst}
use mathlib.Core.Logic.{◌⊎◌, inl, inr}
use mathlib.Core.Bool.{Bool, true, false, ◌&&◌, ◌||◌}
use native.Mathlib.Omega.{arith}
use text.Mathlib.Text.{is_lt}
use text.Mathlib.TextEquality.{path_by_compare}
use text.Mathlib.TextPositions.{compare_refl}
use mathlib.Core.List.{List, [], ◌∷◌}
use ai_agent_security_firewa.Prelude.Tests.{ltb, nat_eq, if◌then◌else◌, Bool-cases}
use ai_agent_security_firewa.Prelude.Lists.{In, All}

pub data ℤ : Type 0 where
  pos : ℕ → ℤ
  negsuc : ℕ → ℤ

abbrev pub pos_part : ℤ → ℕ
pos_part (pos n) = n
pos_part (negsuc n) = 0

abbrev pub neg_part : ℤ → ℕ
neg_part (pos n) = 0
neg_part (negsuc n) = suc n

abbrev pub ltb_ℤ : ℤ → ℤ → Bool
ltb_ℤ a b = ltb (pos_part a + neg_part b) (pos_part b + neg_part a)

abbrev pub eqb_ℤ : ℤ → ℤ → Bool
eqb_ℤ a b = nat_eq (pos_part a + neg_part b) (pos_part b + neg_part a)

-- s < t
abbrev pub str_lt : String → String → Bool
str_lt s t = is_lt (compare s t)

str_lt-cases :
    (s t : String)
    → (compare s t ≡ Ordering.lt) ⊎ ((compare s t ≡ Ordering.eq) ⊎ (compare s t ≡ Ordering.gt))
str_lt-cases s t = ground arith

compare-flip : (s t : String) → compare s t ≡ Ordering.gt → compare t s ≡ Ordering.lt
compare-flip [] [] h = cc
compare-flip [] (d ∷ t) h = cc (compare.nil-cons d t)
compare-flip (c ∷ s) [] h = compare.nil-cons c s
compare-flip (c ∷ s) (d ∷ t) h =
    ground (arith, compare-flip s t, compare.cons-cons c d s t, compare.cons-cons d c t s)

compare_trans :
    (s t u : String)
    → compare s t ≡ Ordering.lt
    → compare t u ≡ Ordering.lt
    → compare s u ≡ Ordering.lt
compare_trans [] [] u h k = cc
compare_trans [] (d ∷ t) [] h k = cc (compare.cons-nil d t)
compare_trans [] (d ∷ t) (e ∷ u) h k = compare.nil-cons e u
compare_trans (c ∷ s) [] u h k = cc (compare.cons-nil c s)
compare_trans (c ∷ s) (d ∷ t) [] h k = cc (compare.cons-nil d t)
compare_trans (c ∷ s) (d ∷ t) (e ∷ u) h k = ground (
  arith,
  compare_trans s t u,
  compare.cons-cons c d s t,
  compare.cons-cons d e t u,
  compare.cons-cons c e s u,
)

pub str_lt_trans : (s t u : String) → str_lt s t ≡ true → str_lt t u ≡ true → str_lt s u ≡ true
str_lt_trans s t u h k = ground (arith, compare_trans s t u)

pub str_lt_irrefl : (s : String) → str_lt s s ≡ false
str_lt_irrefl s = rw compare_refl

pub str_lt_total : (s t : String) → str_lt s t ≡ false → str_lt t s ≡ false → s ≡ t
str_lt_total s t h k = ground (arith, compare-flip s t, path_by_compare s t)

-- The order of pairs (-priority, id), by which Python's `min` picks.
abbrev pub key_lt : ℤ → String → ℤ → String → Bool
key_lt p i q j = ltb_ℤ q p || (eqb_ℤ p q && str_lt i j)

pub key_lt_irrefl : (p : ℤ) (i : String) → key_lt p i p i ≡ false
key_lt_irrefl p i = ground (arith, str_lt_irrefl i)

pub key_lt_trans :
    (p : ℤ) (i : String) (q : ℤ) (j : String) (r : ℤ) (k : String)
    → key_lt p i q j ≡ true
    → key_lt q j r k ≡ true
    → key_lt p i r k ≡ true
key_lt_trans p i q j r k h l = ground (arith, str_lt_trans i j k)

pub key_lt_total :
    (p : ℤ) (i : String) (q : ℤ) (j : String)
    → key_lt p i q j ≡ false
    → key_lt q j p i ≡ false
    → i ≡ j
key_lt_total p i q j h l = ground (arith, str_lt_total i j)

module _ {A : Type 0} (lt : A → A → Bool) where
  -- min(best, *rest): the first of the least elements.
  unfoldable pub min_by : A → List A → A
  min_by best [] = best
  min_by best (x ∷ xs) = min_by (if lt x best then x else best) xs

  min_by-new : (best x : A) (xs : List A) → lt x best ≡ true → min_by best (x ∷ xs) ≡ min_by x xs
  unfolding min_by
  min_by-new best x xs e = rw e

  min_by-old :
      (best x : A) (xs : List A) → lt x best ≡ false → min_by best (x ∷ xs) ≡ min_by best xs
  unfolding min_by
  min_by-old best x xs e = rw e

  min_by-nil : (best : A) → min_by best [] ≡ best
  unfolding min_by
  min_by-nil best = refl

  pub min_by-In : (best : A) (xs : List A) → In (min_by best xs) (best ∷ xs)
  min_by-In best [] = inl (min_by-nil best)
  min_by-In best (x ∷ xs) = elim (Bool-cases (lt x best)) [
    | inl e ↦
        subst (λ m. In m (best ∷ x ∷ xs)) (sym (min_by-new best x xs e)) (inr (min_by-In x xs))
    | inr e ↦
        subst (λ m. In m (best ∷ x ∷ xs)) (sym (min_by-old best x xs e))
          (elim (min_by-In best xs) [ inl q ↦ inl q | inr m ↦ inr (inr m) ])
  ]

  -- A strict order, as tests.
  pub record IsStrict : Type 0 where
    pub irrefl : (x : A) → lt x x ≡ false
    pub trans : (x y z : A) → lt x y ≡ true → lt y z ≡ true → lt x z ≡ true

  module _ (o : IsStrict) where
    min_by-below :
        (best : A) (xs : List A) → (min_by best xs ≡ best) ⊎ (lt (min_by best xs) best ≡ true)
    min_by-below best [] = inl (min_by-nil best)
    min_by-below best (x ∷ xs) = elim (Bool-cases (lt x best)) [
      | inl e ↦
          rw (min_by-new best x xs e)
            (ground (arith, min_by-below x xs, o.trans (min_by x xs) x best))
      | inr e ↦ rw (min_by-old best x xs e) (min_by-below best xs)
    ]

    min_by-first : (best : A) (xs : List A) → lt best (min_by best xs) ≡ false
    min_by-first best xs =
        ground (arith, min_by-below best xs, o.irrefl best, o.trans best (min_by best xs) best)

    -- Nothing in the list is below the element that is picked.
    pub min_by-least :
        (best : A) (xs : List A) → All (λ y. lt y (min_by best xs) ≡ false) (best ∷ xs)
    min_by-least best [] = (min_by-first best [], tt)
    min_by-least best (x ∷ xs) = elim (Bool-cases (lt x best)) [
      | inl e ↦
          subst (λ m. All (λ y. lt y m ≡ false) (best ∷ x ∷ xs)) (sym (min_by-new best x xs e))
            (ground (arith, min_by-first x xs, o.trans x best (min_by x xs)), min_by-least x xs)
      | inr e ↦
          subst (λ m. All (λ y. lt y m ≡ false) (best ∷ x ∷ xs)) (sym (min_by-old best x xs e))
            (
              min_by-first best xs,
              (
                ground (arith, min_by-below best xs, o.trans x (min_by best xs) best),
                (min_by-least best xs).1,
              ),
            )
    ]
