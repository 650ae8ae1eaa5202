-- ===== src/Prelude/Sorting.antt =====
-- Python's `sorted` on a dict's items, pairs of texts: the result is sorted, holds the same items, and
-- depends on nothing else.
use mathlib.Core.Path.{◌≡◌, refl, subst, sym, ap, ap₂, ◌∙◌}
use mathlib.Core.Logic.{◌↔◌, ◌⊎◌, inl, inr}
use mathlib.Core.Bool.{Bool, true, false, ◌||◌}
use mathlib.Core.List.{List, [], ◌∷◌}
use native.Mathlib.Omega.{arith}
use Prim.Native.String.{String}
use text.Mathlib.Text.{◌==◌}
use text.Mathlib.TextEquality.{eq_iff}
use ai_agent_security_firewa.Prelude.Tests.{if◌then◌else◌, Bool-cases}
use ai_agent_security_firewa.Prelude.Lists.{In, All, All-of_In, All-In}
use ai_agent_security_firewa.Prelude.Order.{str_lt, str_lt_trans, str_lt_irrefl, str_lt_total}
use ai_agent_security_firewa.Prelude.Dict.{get, has_key, HasUniqueKeys}

abbrev pub Item : Type 0
Item = String × String

-- (k, v) < (j, w) as Python compares pairs of texts
abbrev pub item_lt : Item → Item → Bool
item_lt (k, v) (j, w) = if k == j then str_lt v w else str_lt k j

unfoldable pub insert_item : Item → List (Item) → List (Item)
insert_item x [] = x ∷ []
insert_item x (y ∷ ys) = if item_lt y x then y ∷ insert_item x ys else x ∷ y ∷ ys

-- sorted(items)
unfoldable pub sorted : List (Item) → List (Item)
sorted [] = []
sorted (x ∷ xs) = insert_item x (sorted xs)

In-insert_item :
    (x : Item) (ys : List Item) (a : Item) → In a (insert_item x ys) ↔ ((a ≡ x) ⊎ In a ys)
unfolding insert_item
In-insert_item x [] a = ((λ h. h), (λ h. h))
In-insert_item x (y ∷ ys) a = ground (arith, In-insert_item x ys a)

pub In-sorted : (xs : List Item) (a : Item) → In a (sorted xs) ↔ In a xs
unfolding sorted
In-sorted [] a = ((λ h. h), (λ h. h))
In-sorted (x ∷ xs) a = ground (arith, In-sorted xs a, In-insert_item x (sorted xs) a)

-- No item is below one that stands before it.
abbrev pub IsSorted : List Item → Type 0
IsSorted [] = Unit
IsSorted (x ∷ xs) = All (λ y. item_lt y x ≡ false) xs × IsSorted xs

str_lt_asym : (s t : String) → str_lt s t ≡ true → str_lt t s ≡ false
str_lt_asym s t h = ground (arith, str_lt_trans s t s, str_lt_irrefl s)

str_lt_negtrans : (s t u : String) → str_lt t s ≡ false → str_lt u t ≡ false → str_lt u s ≡ false
str_lt_negtrans s t u h l = elim (Bool-cases (str_lt s t)) [
  | inl e ↦ ground (arith, str_lt_trans u s t)
  | inr e ↦ subst (λ x. str_lt u x ≡ false) (sym (str_lt_total s t e h)) l
]

item_lt-asym : (x y : Item) → item_lt y x ≡ true → item_lt x y ≡ false
item_lt-asym (k, v) (j, w) h =
    ground (arith, str_lt_asym j k, str_lt_asym w v, eq_iff k j, eq_iff j k)

item_lt-negtrans : (x y z : Item) → item_lt y x ≡ false → item_lt z y ≡ false → item_lt z x ≡ false
item_lt-negtrans (k, v) (j, w) (i, u) h l = ground (
  arith,
  str_lt_negtrans k j i,
  str_lt_negtrans v w u,
  str_lt_asym i k,
  str_lt_total j k,
  str_lt_total i j,
  eq_iff k j,
  eq_iff j i,
  eq_iff i k,
  eq_iff i j,
  eq_iff j k,
  eq_iff k i,
)

insert_item-IsSorted : (x : Item) (ys : List Item) → IsSorted ys → IsSorted (insert_item x ys)
unfolding insert_item
insert_item-IsSorted x [] h = (tt, tt)
insert_item-IsSorted x (y ∷ ys) (first, rest) = elim (Bool-cases (item_lt y x)) [
  | inl e ↦ rw e (
    All-of_In (λ z. item_lt z y ≡ false) (insert_item x ys)
        (λ a m. elim ((In-insert_item x ys a).0 m) [
          | inl q ↦ rw q (item_lt-asym x y e)
          | inr k ↦ All-In (λ z. item_lt z y ≡ false) ys a first k
        ]),
    insert_item-IsSorted x ys rest,
  )
  | inr e ↦ rw e (
    (
      e,
      All-of_In (λ z. item_lt z x ≡ false) ys
          (λ a m. item_lt-negtrans x y a e (All-In (λ z. item_lt z y ≡ false) ys a first m)),
    ),
    (first, rest),
  )
]

pub sorted-IsSorted : (xs : List Item) → IsSorted (sorted xs)
unfolding sorted
sorted-IsSorted [] = tt
sorted-IsSorted (x ∷ xs) = insert_item-IsSorted x (sorted xs) (sorted-IsSorted xs)

item_lt_total : (x y : Item) → item_lt x y ≡ false → item_lt y x ≡ false → x ≡ y
item_lt_total (k, v) (j, w) h l = ground (
  arith,
  str_lt_total k j,
  str_lt_total v w,
  eq_iff k j,
  eq_iff j k,
  ap₂ {C = Item} (λ (a b : String). (a, b)),
)

-- A list that is sorted already comes back.
pub sorted_stable : (xs : List Item) → IsSorted xs → sorted xs ≡ xs
unfolding sorted insert_item
sorted_stable [] h = refl
sorted_stable (x ∷ xs) (first, rest) =
    ap (insert_item x) (sorted_stable xs rest) ∙ insert_first x xs first
  where
    insert_first :
        (x : Item) (xs : List Item) → All (λ y. item_lt y x ≡ false) xs → insert_item x xs ≡ x ∷ xs
    insert_first x [] a = refl
    insert_first x (y ∷ ys) (a, more) = rw a refl

no_key : (xs : List Item) (x : Item) → has_key xs x.0 ≡ false → In x xs → ⊥
unfolding get
no_key [] x h m = m
no_key (y ∷ xs) x h (inl e) = ground (arith, eq_iff y.0 x.0, ap (λ (a : Item). a.0) e)
no_key (y ∷ xs) x h (inr m) = no_key xs x (ground arith) m

-- Two sorted lists with no key twice are equal if they hold the same items.
pub sorted_unique :
    (xs ys : List Item)
    → IsSorted xs
    → IsSorted ys
    → HasUniqueKeys xs
    → HasUniqueKeys ys
    → ((a : Item) → In a xs ↔ In a ys)
    → xs ≡ ys
sorted_unique [] [] s t u v h = refl
sorted_unique [] (y ∷ ys) s t u v h = absurd ((h y).1 (inl refl))
sorted_unique (x ∷ xs) [] s t u v h = absurd ((h x).0 (inl refl))
sorted_unique (x ∷ xs) (y ∷ ys) (s, ss) (t, ts) (u, us) (v, vs) h =
    let same : x ≡ y = heads ((h x).0 (inl refl)) ((h y).1 (inl refl)) in
    ap₂ (λ (a : Item) (l : List Item). a ∷ l) same
      (sorted_unique xs ys ss ts us vs (λ a. (tail same a (h a).0, tail_back same a (h a).1)))
  where
    tail : x ≡ y → (a : Item) → (In a (x ∷ xs) → In a (y ∷ ys)) → In a xs → In a ys
    tail e a f m = elim (f (inr m)) [
      | inl q ↦ absurd (no_key xs x u (subst (λ z. In z xs) (q ∙ sym e) m))
      | inr n ↦ n
    ]

    tail_back : x ≡ y → (a : Item) → (In a (y ∷ ys) → In a (x ∷ xs)) → In a ys → In a xs
    tail_back e a f m = elim (f (inr m)) [
      | inl q ↦ absurd (no_key ys y v (subst (λ z. In z ys) (q ∙ e) m))
      | inr n ↦ n
    ]

    heads : (x ≡ y) ⊎ In x ys → (y ≡ x) ⊎ In y xs → x ≡ y
    heads (inl e) m = e
    heads (inr m) (inl e) = sym e
    heads (inr m) (inr n) =
        item_lt_total x y (All-In (λ z. item_lt z y ≡ false) ys x t m)
          (All-In (λ z. item_lt z x ≡ false) xs y s n)

has_key-insert_item :
    (x : Item) (ys : List Item) (k : String)
    → has_key (insert_item x ys) k ≡ (x.0 == k || has_key ys k)
unfolding insert_item get
has_key-insert_item x [] k = ground arith
has_key-insert_item x (y ∷ ys) k = ground (arith, has_key-insert_item x ys k)

pub has_key-sorted : (xs : List Item) (k : String) → has_key (sorted xs) k ≡ has_key xs k
unfolding sorted get
has_key-sorted [] k = refl
has_key-sorted (x ∷ xs) k =
    has_key-insert_item x (sorted xs) k ∙ ground (arith, has_key-sorted xs k)

insert_item-HasUniqueKeys :
    (x : Item) (ys : List Item)
    → has_key ys x.0 ≡ false
    → HasUniqueKeys ys
    → HasUniqueKeys (insert_item x ys)
unfolding insert_item get
insert_item-HasUniqueKeys x [] n h = (refl, tt)
insert_item-HasUniqueKeys x (y ∷ ys) n (u, h) = ground (
  arith,
  has_key-insert_item x ys y.0,
  eq_iff x.0 y.0,
  eq_iff y.0 x.0,
  insert_item-HasUniqueKeys x ys,
)

pub sorted-HasUniqueKeys : (xs : List Item) → HasUniqueKeys xs → HasUniqueKeys (sorted xs)
unfolding sorted
sorted-HasUniqueKeys [] h = tt
sorted-HasUniqueKeys (x ∷ xs) (u, h) =
    insert_item-HasUniqueKeys x (sorted xs) (has_key-sorted xs x.0 ∙ u) (sorted-HasUniqueKeys xs h)
