-- ===== src/Policy/Loader/Effects.antt =====
-- policy/engine.py: what is known of a bundle that was loaded.

use ai_agent_security_firewa.Prelude.{
  String, ◌≡◌, refl, ap, sym, subst, ◌∙◌, ◌⊎◌, Option, none, some, List, [], ◌∷◌, ◌==◌, eq_iff,
  Bool-cases, inl, inr,
}
use ai_agent_security_firewa.Prelude.Dict.{Dict, get}
use ai_agent_security_firewa.Prelude.Json.{
  Json, null, bool, num, str, arr, obj, Items, nil, item, Fields, end, field, fields,
}
use ai_agent_security_firewa.Policy.Decision.{Decision, allow, deny, name}
use ai_agent_security_firewa.Policy.Rules.{Rule, EastWestRule, Bundle}
use ai_agent_security_firewa.Policy.Loader.{
  Parsed, ok, raised, or_key_error, ◌>>=◌, item_at, effect_of, parse_rule, parse_east_west_rule,
  dict_of, parse_all, items_or_none, items_of, key_items, character_items, load_bundle,
}

module _ {A B : Type 0} where
  bind-ok :
      (m : Parsed A) (f : A → Parsed B) (b : B)
      → (m >>= f) ≡ ok b
      → (a : A) × (m ≡ ok a) × (f a ≡ ok b)
  unfolding ◌>>=◌
  bind-ok (ok a) f b h = (a, refl, h)
  bind-ok (raised e) f b h = absurd (cc h)

-- A raw rule names the effect, which is one of the two.
abbrev pub IsEffect : Dict Json → Decision → Type 0
IsEffect raw effect =
    (get raw "effect" ≡ some (str (name effect))) × ((effect ≡ allow) ⊎ (effect ≡ deny))

unfoldable pub IsRule : Json → Decision → Type 0
IsRule v effect = (fs : Fields) × (v ≡ obj fs) × IsEffect (fields fs) effect

effect_of-name :
    (v : Json) (d : Decision) → effect_of v ≡ ok d → (v ≡ str (name d)) × ((d ≡ allow) ⊎ (d ≡ deny))
unfolding effect_of name
effect_of-name (str effect) d h = elim (Bool-cases (effect == "ALLOW")) [
  | inl e ↦
      let p : allow ≡ d = cc (rw e at h) in
      (ap str ((eq_iff effect "ALLOW").0 e) ∙ ap (λ x. str (name x)) p, inl (sym p))
  | inr e ↦ elim (Bool-cases (effect == "DENY")) [
    | inl f ↦
        let p : deny ≡ d = cc (rw (e, f) at h) in
        (ap str ((eq_iff effect "DENY").0 f) ∙ ap (λ x. str (name x)) p, inr (sym p))
    | inr f ↦ absurd (cc (rw (e, f) at h))
  ]
]
effect_of-name null d h = absurd (cc h)
effect_of-name (bool b) d h = absurd (cc h)
effect_of-name (num n) d h = absurd (cc h)
effect_of-name (arr vs) d h = absurd (cc h)
effect_of-name (obj fs) d h = absurd (cc h)

or_key_error-ok : (o : Option Json) (v : Json) → or_key_error o ≡ ok v → o ≡ some v
unfolding or_key_error
or_key_error-ok none v e = absurd (cc e)
or_key_error-ok (some w) v e = cc e

effect_of-IsEffect :
    (raw : Dict Json) (d : Decision) → (item_at raw "effect" >>= effect_of) ≡ ok d → IsEffect raw d
unfolding item_at
effect_of-IsEffect raw d h =
    let (v, e, f) = bind-ok (item_at raw "effect") effect_of d h in
    let (g, k) = effect_of-name v d f in
    (or_key_error-ok (get raw "effect") v e ∙ ap (λ x. some x) g, k)

module _ {A B : Type 0} (P : B → Type 0) where
  -- What holds of every value that the rest of a chain gives.
  bind-keeps :
      (m : Parsed A) (f : A → Parsed B)
      → ((a : A) → m ≡ ok a → (b : B) → f a ≡ ok b → P b)
      → (b : B) → (m >>= f) ≡ ok b
      → P b
  unfolding ◌>>=◌
  bind-keeps (ok a) f k b h = k a refl b h
  bind-keeps (raised e) f k b h = absurd (cc h)

rule_injective : {a b : Rule} → ok a ≡ ok b → a ≡ b
rule_injective e = cc e

east_west_injective : {a b : EastWestRule} → ok a ≡ ok b → a ≡ b
east_west_injective e = cc e

parse_rule-IsEffect : (raw : Dict Json) (r : Rule) → parse_rule raw ≡ ok r → IsEffect raw r.effect
unfolding parse_rule
parse_rule-IsEffect raw =
    let P = λ (r : Rule). IsEffect raw r.effect in
    bind-keeps P _ _ (λ effect e. bind-keeps P _ _ (λ a _. bind-keeps P _ _ (λ a _.
      bind-keeps P _ _ (λ a _. bind-keeps P _ _ (λ a _. bind-keeps P _ _ (λ a _.
        bind-keeps P _ _ (λ a _. bind-keeps P _ _ (λ a _. bind-keeps P _ _ (λ a _.
          bind-keeps P _ _ (λ a _.
            bind-keeps P _ _
              (λ a _ r h. subst P (rule_injective h) (effect_of-IsEffect raw effect e))))))))))))

parse_east_west_rule-IsEffect :
    (raw : Dict Json) (r : EastWestRule) → parse_east_west_rule raw ≡ ok r → IsEffect raw r.effect
unfolding parse_east_west_rule
parse_east_west_rule-IsEffect raw =
    let P = λ (r : EastWestRule). IsEffect raw r.effect in
    bind-keeps P _ _ (λ effect e. bind-keeps P _ _ (λ a _. bind-keeps P _ _ (λ a _.
      bind-keeps P _ _ (λ a _. bind-keeps P _ _ (λ a _.
        bind-keeps P _ _
          (λ a _ r h. subst P (east_west_injective h) (effect_of-IsEffect raw effect e)))))))

-- The raw rules and the parsed ones, side by side.
unfoldable pub Agree : {R : Type 0} → (R → Decision) → Items → List R → Type 0
Agree effect nil [] = Unit
Agree effect nil (r ∷ rs) = ⊥
Agree effect (item v vs) [] = ⊥
Agree effect (item v vs) (r ∷ rs) = IsRule v (effect r) × Agree effect vs rs

dict_of-ok :
    (v : Json) (raw : Dict Json)
    → dict_of v ≡ ok raw
    → (fs : Fields) × (v ≡ obj fs) × (raw ≡ fields fs)
unfolding dict_of
dict_of-ok (obj fs) raw h = (fs, refl, sym (cc h))
dict_of-ok null raw h = absurd (cc h)
dict_of-ok (bool b) raw h = absurd (cc h)
dict_of-ok (num n) raw h = absurd (cc h)
dict_of-ok (str s) raw h = absurd (cc h)
dict_of-ok (arr vs) raw h = absurd (cc h)

module _ {R : Type 0} (parse : Dict Json → Parsed R) (effect : R → Decision)
    (sound : (raw : Dict Json) (r : R) → parse raw ≡ ok r → IsEffect raw (effect r)) where
  list_injective : {a b : List R} → ok a ≡ ok b → a ≡ b
  list_injective e = cc e

  is_rule : (v : Json) (r : R) → (dict_of v >>= parse) ≡ ok r → IsRule v (effect r)
  unfolding IsRule
  is_rule v r h =
      let (raw, e, f) = bind-ok (dict_of v) parse r h in
      let (fs, g, k) = dict_of-ok v raw e in
      (fs, g, subst (λ (d : Dict Json). IsEffect d (effect r)) k (sound raw r f))

  parse_all-Agree : (vs : Items) (rs : List R) → parse_all parse vs ≡ ok rs → Agree effect vs rs
  unfolding parse_all Agree
  parse_all-Agree nil rs h = subst (Agree effect nil) (list_injective h) tt
  parse_all-Agree (item v vs) rs k =
      let P = λ (rs : List R). Agree effect (item v vs) rs in
      bind-keeps P _ _
        (λ rule e. bind-keeps P _ _ (λ rules f rs h.
          subst P (list_injective h) (is_rule v rule e, parse_all-Agree vs rules f)))
        rs k

-- The east-west rules of a raw bundle, none where the key is missing or its value is falsy.
unfoldable pub EastWestItems : Dict Json → Items → Type 0
unfolding items_or_none
EastWestItems raw vs = items_or_none (get raw "east_west_rules") ≡ ok vs

-- The raw rules that a value holds: a list's, or none in an empty text or dict.
abbrev pub IsRules : Json → Items → Type 0
IsRules v vs = (v ≡ arr vs) ⊎ ((vs ≡ nil) × ((v ≡ str "") ⊎ (v ≡ obj end)))

abbrev AgreeRules : Items → List Rule → Type 0
AgreeRules vs rs = Agree (λ (r : Rule). r.effect) vs rs

text_is_no_rule : (k : String) (vs : Items) (rs : List Rule) → AgreeRules (item (str k) vs) rs → ⊥
unfolding Agree IsRule
text_is_no_rule k vs [] h = h
text_is_no_rule k vs (r ∷ rs) ((fs, e, _), _) = cc e

items_injective : {a b : Items} → ok a ≡ ok b → a ≡ b
items_injective e = cc e

items_of-IsRules :
    (v : Json) (vs : Items) (rs : List Rule) → items_of v ≡ ok vs → AgreeRules vs rs → IsRules v vs
unfolding items_of key_items character_items
items_of-IsRules (arr ws) vs rs h a = inl (ap arr (items_injective h))
items_of-IsRules (str String.[]) vs rs h a = inr (sym (items_injective h), inl refl)
items_of-IsRules (str (String.◌∷◌ c s)) vs rs h a =
    absurd (
      text_is_no_rule _ _ rs (subst (λ (ws : Items). AgreeRules ws rs) (sym (items_injective h)) a))
items_of-IsRules (obj end) vs rs h a = inr (sym (items_injective h), inr refl)
items_of-IsRules (obj (field k v fs)) vs rs h a =
    absurd (
      text_is_no_rule _ _ rs (subst (λ (ws : Items). AgreeRules ws rs) (sym (items_injective h)) a))
items_of-IsRules null vs rs h a = absurd (cc h)
items_of-IsRules (bool b) vs rs h a = absurd (cc h)
items_of-IsRules (num n) vs rs h a = absurd (cc h)

bundle_injective : {a b : Bundle} → ok a ≡ ok b → a ≡ b
bundle_injective e = cc e

raw_list :
    (raw : Dict Json) (vs : Items) (rs : List Rule)
    → (item_at raw "rules" >>= items_of) ≡ ok vs
    → AgreeRules vs rs
    → (v : Json) × (get raw "rules" ≡ some v) × IsRules v vs
unfolding item_at
raw_list raw vs rs h a =
    let (v, e, f) = bind-ok (item_at raw "rules") items_of vs h in
    (v, or_key_error-ok (get raw "rules") v e, items_of-IsRules v vs rs f a)

-- The rules of a loaded bundle stand in the order of the raw ones, and each raw rule names ALLOW or DENY.
abbrev pub IsLoaded : Dict Json → Bundle → Type 0
IsLoaded raw b =
    (vs : Items) × ((v : Json) × (get raw "rules" ≡ some v) × IsRules v vs)
    × Agree (λ (r : Rule). r.effect) vs b.rules
    × (ws : Items) × EastWestItems raw ws
    × Agree (λ (r : EastWestRule). r.effect) ws b.east_west_rules

-- A bundle is loaded only if its rules are a list, or an empty text or dict, and if each rule and each
-- east-west rule names ALLOW or DENY; the loaded rules are as many as the raw ones, in their order, with
-- the effects that those name.
pub load_bundle-IsLoaded : (raw : Dict Json) (b : Bundle) → load_bundle raw ≡ ok b → IsLoaded raw b
unfolding load_bundle EastWestItems
load_bundle-IsLoaded raw =
    let P = IsLoaded raw in
    bind-keeps P _ _ (λ vs e. bind-keeps P _ _ (λ rules f. bind-keeps P _ _ (λ ws g.
      bind-keeps P _ _ (λ ews k. bind-keeps P _ _ (λ a _. bind-keeps P _ _ (λ a _.
        bind-keeps P _ _ (λ a _. bind-keeps P _ _ (λ a _ b h. subst P (bundle_injective h) (
          vs,
          raw_list raw vs rules e
              (parse_all-Agree parse_rule (λ (r : Rule). r.effect) parse_rule-IsEffect vs rules f),
          parse_all-Agree parse_rule (λ (r : Rule). r.effect) parse_rule-IsEffect vs rules f,
          ws,
          g,
          parse_all-Agree parse_east_west_rule (λ (r : EastWestRule). r.effect)
              parse_east_west_rule-IsEffect ws ews k,
        )))))))))
