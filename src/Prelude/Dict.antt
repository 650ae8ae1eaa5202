-- ===== src/Prelude/Dict.antt =====
-- Python's `dict` with text keys, as an association list in order of insertion, and its `set` of
-- texts. SQLite's tables with a text primary key are dicts too.
use mathlib.Core.Path.{◌≡◌, refl, ap}
use mathlib.Core.Logic.{◌↔◌, inl, inr}
use mathlib.Core.Bool.{Bool, true, false, ◌||◌}
use mathlib.Core.Option.{Option, none, some}
use mathlib.Core.List.{List, [], ◌∷◌}
use native.Mathlib.Omega.{arith}
use Prim.Native.String.{String}
use text.Mathlib.Text.{◌==◌}
use text.Mathlib.TextEquality.{eq_iff}
use text.Mathlib.TextPositions.{eq_refl}
use ai_agent_security_firewa.Prelude.Tests.{if◌then◌else◌, Bool-cases}
use ai_agent_security_firewa.Prelude.Lists.{In}

abbrev pub Dict {ℓ} : Type ℓ → Type ℓ
Dict V = List (String × V)

module _ {ℓ} {V : Type ℓ} where
  -- d.get(k)
  unfoldable pub get : Dict V → String → Option V
  get [] k = none
  get ((j, v) ∷ d) k = if j == k then some v else get d k

  -- d[k] = v: a key that is there keeps its place.
  unfoldable pub put : Dict V → String → V → Dict V
  put [] k v = (k, v) ∷ []
  put ((j, w) ∷ d) k v = if j == k then (j, v) ∷ d else (j, w) ∷ put d k v

  -- DELETE ... WHERE key = k
  unfoldable pub remove : Dict V → String → Dict V
  remove [] k = []
  remove ((j, w) ∷ d) k = if j == k then remove d k else (j, w) ∷ remove d k

  -- d.get(k, default)
  abbrev pub get_default : Dict V → String → V → V
  get_default d k v = elim (get d k) [ none ↦ v | some w ↦ w ]

  -- k in d
  abbrev pub has_key : Dict V → String → Bool
  has_key d k = elim (get d k) [ none ↦ false | some _ ↦ true ]

  -- INSERT OR IGNORE: a key that is there keeps its value.
  abbrev pub insert_or_ignore : Dict V → String → V → Dict V
  insert_or_ignore d k v = if has_key d k then d else put d k v

  pub get-put :
      (d : Dict V) (k j : String) (v : V) → get (put d k v) j ≡ (if k == j then some v else get d j)
  unfolding get put
  get-put [] k j v = refl
  get-put ((i, w) ∷ d) k j v = ground (arith, eq_iff k j, eq_iff i k, eq_iff i j, get-put d k j v)

  pub get-remove :
      (d : Dict V) (k j : String) → get (remove d k) j ≡ (if k == j then none else get d j)
  unfolding get remove
  get-remove [] k j = ground arith
  get-remove ((i, w) ∷ d) k j = ground (arith, eq_iff k j, eq_iff i k, eq_iff i j, get-remove d k j)

module _ {V : Type 0} where
  pub get_default-put :
      (d : Dict V) (k j : String) (v w : V)
      → get_default (put d k v) j w ≡ (if k == j then v else get_default d j w)
  get_default-put d k j v w = ground (arith, get-put d k j v)

  pub get_default-some :
      (d : Dict V) (k : String) (v w : V) → get d k ≡ some v → get_default d k w ≡ v
  get_default-some d k v w e = ground arith

  pub get_default-none : (d : Dict V) (k : String) (w : V) → get d k ≡ none → get_default d k w ≡ w
  get_default-none d k w e = ground arith

  pub has_key-put :
      (d : Dict V) (k j : String) (v : V) → has_key (put d k v) j ≡ (k == j || has_key d j)
  has_key-put d k j v = ground (arith, get-put d k j v)

  -- No key stands twice, as in any dict.
  abbrev pub HasUniqueKeys : Dict V → Type 0
  HasUniqueKeys [] = Unit
  HasUniqueKeys ((k, v) ∷ d) = (has_key d k ≡ false) × HasUniqueKeys d

  pub put-HasUniqueKeys :
      (d : Dict V) (k : String) (v : V) → HasUniqueKeys d → HasUniqueKeys (put d k v)
  unfolding put get
  put-HasUniqueKeys [] k v h = (refl, tt)
  put-HasUniqueKeys ((j, w) ∷ d) k v h =
      ground (arith, put-HasUniqueKeys d k v h.1, has_key-put d k j v, eq_iff j k, eq_iff k j)

  pub In-get : (d : Dict V) (k : String) (v : V) → HasUniqueKeys d → In (k, v) d → get d k ≡ some v
  unfolding get
  In-get [] k v h m = absurd m
  In-get ((j, w) ∷ d) k v h (inl e) =
      ground (
        arith,
        ap (λ (p : String × V). p.0) e,
        ap (λ (p : String × V). p.1) e,
        eq_refl j,
        eq_iff j k,
      )
  In-get ((j, w) ∷ d) k v h (inr m) =
      ground (arith, In-get d k v h.1 m, eq_iff j k, λ (e : j ≡ k). ap (get d) e)

  pub get-In : (d : Dict V) (k : String) (v : V) → get d k ≡ some v → In (k, v) d
  unfolding get
  get-In [] k v h = cc
  get-In ((j, w) ∷ d) k v h = elim (Bool-cases (j == k)) [
    | inl e ↦ inl (cc ((eq_iff j k).0 e, rw e at h))
    | inr e ↦ inr (get-In d k v (rw e at h))
  ]

-- k in s
abbrev pub contains : List String → String → Bool
contains [] k = false
contains (x ∷ s) k = x == k || contains s k

-- s.add(k)
abbrev pub add : List String → String → List String
add s k = if contains s k then s else k ∷ s

pub contains-add :
    (s : List String) (k j : String) → contains (add s k) j ≡ (k == j || contains s j)
contains-add s k j = ground (arith, eq_iff k j, λ (e : k ≡ j). ap (contains s) e)

pub contains-In : (s : List String) (k : String) → (contains s k ≡ true) ↔ In k s
contains-In [] k = ((λ h. cc), (λ m. absurd m))
contains-In (x ∷ s) k = ground (arith, contains-In s k, eq_iff x k)
