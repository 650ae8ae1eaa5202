-- ===== src/Pep/Normalize/Query/Canonical.antt =====
-- pep/normalize.py: the normal form of a query.
use mathlib.Core.List.{append_assoc, append-nil}
use ai_agent_security_firewa.Prelude.{
  ℕ, String, ◌≡◌, refl, ap, sym, ◌∙◌, Option, none, some, false, List, [], ◌∷◌, ◌++◌, All, In, ◌==◌,
  eq_iff, arith, if◌then◌else◌,
}
use ai_agent_security_firewa.Prelude.Dict.{
  Dict, get, put, has_key, has_key-put, get-put, HasUniqueKeys, put-HasUniqueKeys, In-get, get-In,
}
use ai_agent_security_firewa.Prelude.Text.{split_at}
use ai_agent_security_firewa.Prelude.Sorting.{
  Item, sorted, sorted-IsSorted, sorted_stable, sorted_unique, In-sorted, sorted-HasUniqueKeys,
}
use ai_agent_security_firewa.Pep.Normalize.Query.{
  put_all, parse_fields, parse_qsl, urlencode, normalize_query,
}
use ai_agent_security_firewa.Pep.Normalize.Query.RoundTrip.{parse_qsl-urlencode}

-- The value that stands last at a key.
unfoldable pub last_value : List Item → String → Option String
last_value [] k = none
last_value ((j, v) ∷ pairs) k = elim (last_value pairs k) [
  | none ↦ if j == k then some v else none
  | some w ↦ some w
]

get-put_all :
    (pairs : List Item) (d : Dict String) (k : String)
    → get (put_all d pairs) k ≡ elim (last_value pairs k) [ none ↦ get d k | some w ↦ some w ]
unfolding put_all last_value
get-put_all [] d k = refl
get-put_all ((j, v) ∷ pairs) d k = ground (arith, get-put_all pairs (put d j v) k, get-put d j k v)

put_all-HasUniqueKeys :
    (pairs : List Item) (d : Dict String) → HasUniqueKeys d → HasUniqueKeys (put_all d pairs)
unfolding put_all
put_all-HasUniqueKeys [] d h = h
put_all-HasUniqueKeys ((j, v) ∷ pairs) d h =
    put_all-HasUniqueKeys pairs (put d j v) (put-HasUniqueKeys d j v h)

deduped_same :
    (p q : List Item)
    → ((k : String) → last_value p k ≡ last_value q k)
    → (a : Item) → In a (put_all [] p)
    → In a (put_all [] q)
unfolding get
deduped_same p q h (k, v) m = get-In (put_all [] q) k v (
    get-put_all q [] k
    ∙ ap (λ (o : Option String). elim o [ none ↦ none | some w ↦ some w ]) (sym (h k))
    ∙ sym (get-put_all p [] k)
    ∙ In-get (put_all [] p) k v (put_all-HasUniqueKeys p [] tt) m)

-- The items of the normal form.
abbrev pub items_of : List Item → List Item
items_of pairs = sorted (put_all [] pairs)

items_of_same :
    (p q : List Item) → ((k : String) → last_value p k ≡ last_value q k) → items_of p ≡ items_of q
items_of_same p q h =
    sorted_unique (items_of p) (items_of q) (sorted-IsSorted (put_all [] p))
      (sorted-IsSorted (put_all [] q))
      (sorted-HasUniqueKeys (put_all [] p) (put_all-HasUniqueKeys p [] tt))
      (sorted-HasUniqueKeys (put_all [] q) (put_all-HasUniqueKeys q [] tt))
      (λ a. (
        (λ m.
            (In-sorted (put_all [] q) a).1
              (deduped_same p q h a ((In-sorted (put_all [] p) a).0 m))),
        (λ m.
            (In-sorted (put_all [] p) a).1
              (deduped_same q p (λ k. sym (h k)) a ((In-sorted (put_all [] q) a).0 m))),
      ))

normalize_query-items : (s : List ℕ) → normalize_query s ≡ urlencode (items_of (parse_qsl s))
unfolding normalize_query urlencode sorted put_all parse_qsl parse_fields split_at
normalize_query-items [] = refl
normalize_query-items (c ∷ s) = refl

-- The normal form depends only on the last value of each key: neither on the order of the fields nor
-- on the values that a later field replaces.
pub normalize_query_last_wins :
    (a b : List ℕ)
    → ((k : String) → last_value (parse_qsl a) k ≡ last_value (parse_qsl b) k)
    → normalize_query a ≡ normalize_query b
normalize_query_last_wins a b h =
    normalize_query-items a
    ∙ ap urlencode (items_of_same (parse_qsl a) (parse_qsl b) h)
    ∙ sym (normalize_query-items b)

-- What the normal form is parsed to.
pub parse_qsl-normalize_query :
    (s : List ℕ) → parse_qsl (normalize_query s) ≡ items_of (parse_qsl s)
parse_qsl-normalize_query s =
    ap parse_qsl (normalize_query-items s) ∙ parse_qsl-urlencode (items_of (parse_qsl s))

put_new : (d : Dict String) (k v : String) → has_key d k ≡ false → put d k v ≡ d ++ (k, v) ∷ []
unfolding put get
put_new [] k v n = refl
put_new ((j, w) ∷ d) k v n = ground (arith, put_new d k v)

fresh-put :
    (items : List Item) (d : Dict String) (k v : String)
    → All (λ a. has_key d a.0 ≡ false) items
    → has_key items k ≡ false
    → All (λ a. has_key (put d k v) a.0 ≡ false) items
unfolding get
fresh-put [] d k v h n = tt
fresh-put ((j, w) ∷ items) d k v (m, h) n =
    ground (arith, fresh-put items d k v h, has_key-put d k j v, eq_iff j k, eq_iff k j)

put_fresh_in_empty :
    (items : List Item) (d : Dict String)
    → All (λ a. has_key d a.0 ≡ false) items
    → HasUniqueKeys items
    → put_all d items ≡ d ++ items
unfolding put_all
put_fresh_in_empty [] d f h = sym (append-nil d)
put_fresh_in_empty ((k, v) ∷ items) d (n, f) (u, h) =
    put_fresh_in_empty items (put d k v) (fresh-put items d k v f u) h
    ∙ ap (λ (e : Dict String). e ++ items) (put_new d k v n)
    ∙ append_assoc d ((k, v) ∷ []) items

fresh_in_empty : (items : List Item) → All (λ a. has_key {V = String} [] a.0 ≡ false) items
unfolding get
fresh_in_empty [] = tt
fresh_in_empty (a ∷ items) = (refl, fresh_in_empty items)

put_all_unique : (items : List Item) → HasUniqueKeys items → put_all [] items ≡ items
put_all_unique items h = put_fresh_in_empty items [] (fresh_in_empty items) h

-- Normalizing a query again does not change it.
pub normalize_query_idempotent :
    (s : List ℕ) → normalize_query (normalize_query s) ≡ normalize_query s
normalize_query_idempotent s =
    normalize_query-items (normalize_query s)
    ∙ ap (λ (p : List Item). urlencode (items_of p)) (parse_qsl-normalize_query s)
    ∙ ap (λ (p : List Item). urlencode (sorted p))
        (put_all_unique (items_of (parse_qsl s)) (
          sorted-HasUniqueKeys (put_all [] (parse_qsl s))
            (put_all-HasUniqueKeys (parse_qsl s) [] tt)))
    ∙ ap urlencode
        (sorted_stable (items_of (parse_qsl s)) (sorted-IsSorted (put_all [] (parse_qsl s))))
    ∙ sym (normalize_query-items s)
