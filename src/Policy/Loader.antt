-- ===== src/Policy/Loader.antt =====
-- policy/engine.py: load_bundle on the value that yaml.safe_load gives. Its integers are natural here, and a
-- field of another type than its dataclass says counts as a TypeError, although the source would keep it.
pub mod Effects
mod Tests
use Prim.Native.String
use ai_agent_security_firewa.Prelude.{
  ℕ, zero, suc, String, Bool, true, false, not, ◌==◌, Option, none, some, List, [], ◌∷◌, nat_eq,
  if◌then◌else◌,
}
use ai_agent_security_firewa.Prelude.Dict.{Dict, get, has_key}
use ai_agent_security_firewa.Prelude.Json.{
  Json, null, bool, num, str, arr, obj, Items, nil, item, Fields, end, field, fields,
}
use ai_agent_security_firewa.Prelude.Order.{ℤ, pos, negsuc}
use ai_agent_security_firewa.Prelude.Text.{codes, strip}
use ai_agent_security_firewa.Prelude.Chars.{of_codes}
use ai_agent_security_firewa.Urllib.Split
use ai_agent_security_firewa.Policy.Decision.{Decision, allow, deny}
use ai_agent_security_firewa.Policy.Rules.{Rule, EastWestRule, Bundle}

pub data Raised : Type 0 where
  value_error key_error type_error : Raised

pub data Parsed (A : Type 0) : Type 0 where
  ok : A → Parsed A
  raised : Raised → Parsed A

infixl 5 ◌>>=◌
unfoldable pub ◌>>=◌ : {A B : Type 0} → Parsed A → (A → Parsed B) → Parsed B
ok a >>= f = f a
raised e >>= f = raised e

or_key_error : Option Json → Parsed Json
or_key_error none = raised key_error
or_key_error (some v) = ok v

-- raw[k]
unfoldable pub item_at : Dict Json → String → Parsed Json
unfolding or_key_error
item_at raw k = or_key_error (get raw k)

-- A text.
unfoldable pub text_of : Json → Parsed String
text_of (str s) = ok s
text_of _ = raised type_error

negated : ℕ → ℤ
negated zero = pos 0
negated (suc n) = negsuc n

from_digits : (ℕ → ℤ) → List ℕ → Parsed ℤ
from_digits sign [] = raised value_error
from_digits sign (c ∷ s) = elim (Split.int_of 0 (c ∷ s)) [
  | none ↦ raised value_error
  | some n ↦ ok (sign n)
]

signed : List ℕ → Parsed ℤ
unfolding negated from_digits
signed [] = raised value_error
signed (c ∷ s) =
    if nat_eq c 45
    then from_digits negated s
    else if nat_eq c 43
    then from_digits pos s
    else from_digits pos (c ∷ s)

-- int(v), of a text in ASCII digits without "_"
unfoldable pub int_of : Json → Parsed ℤ
unfolding signed
int_of (str s) = signed (strip (codes s))
int_of (num n) = ok (pos n)
int_of (bool b) = ok (pos (if b then 1 else 0))
int_of _ = raised type_error

-- str(v); that of a list or a dict is not modelled and counts as a TypeError.
unfoldable pub str_of : Json → Parsed String
str_of (str s) = ok s
str_of null = ok "None"
str_of (bool b) = ok (if b then "True" else "False")
str_of (num n) = ok (of_codes (Split.decimal (suc n) n))
str_of _ = raised type_error

-- bool(v), and whether v is taken in `v or default`
unfoldable pub truth : Json → Bool
truth null = false
truth (bool b) = b
truth (num n) = not (nat_eq n 0)
truth (str s) = not (s == "")
truth (arr nil) = false
truth (arr (item v vs)) = true
truth (obj end) = false
truth (obj (field k v fs)) = true

truth_at : Dict Json → String → Bool
truth_at raw k = elim (get raw k) [ none ↦ false | some v ↦ truth v ]

texts_of : Items → Parsed (List String)
unfolding ◌>>=◌
texts_of nil = ok []
texts_of (item v vs) = text_of v >>= λ s. texts_of vs >>= λ ss. ok (s ∷ ss)

characters : String → List String
characters String.[] = []
characters (String.◌∷◌ c s) = String.◌∷◌ c "" ∷ characters s

keys : Fields → List String
keys end = []
keys (field k v fs) = k ∷ keys fs

-- tuple(v): of a text, its characters
unfoldable pub tuple_of : Json → Parsed (List String)
unfolding texts_of characters keys
tuple_of (arr vs) = texts_of vs
tuple_of (str s) = ok (characters s)
tuple_of (obj fs) = ok (keys fs)
tuple_of _ = raised type_error

-- tuple(raw[k]) if k in raw else None
tuple_at : Dict Json → String → Parsed (Option (List String))
tuple_at raw k = elim (get raw k) [ none ↦ ok none | some v ↦ tuple_of v >>= λ ss. ok (some ss) ]

-- raw.get(k), a text or None
text_at : Dict Json → String → Parsed (Option String)
text_at raw k = elim (get raw k) [
  | none ↦ ok none
  | some v ↦ elim v [ null ↦ ok none | str s ↦ ok (some s) | _ ↦ raised type_error ]
]

-- str(raw.get(k, ""))
reason_at : Dict Json → String → Parsed String
reason_at raw k = elim (get raw k) [ none ↦ ok "" | some v ↦ str_of v ]

-- raw.get("conditions") or {}
conditions_of : Option Json → Parsed (Dict Json)
conditions_of none = ok []
conditions_of (some (obj fs)) = ok (fields fs)
conditions_of (some v) = if truth v then raised type_error else ok []

-- Decision[effect], of the two effects
unfoldable pub effect_of : Json → Parsed Decision
effect_of (str effect) =
    if effect == "ALLOW" then ok allow else if effect == "DENY" then ok deny else raised value_error
effect_of _ = raised value_error

-- _parse_rule
unfoldable pub parse_rule : Dict Json → Parsed Rule
unfolding truth_at tuple_at text_at reason_at conditions_of
parse_rule raw = (item_at raw "effect" >>= effect_of) >>= λ effect.
    conditions_of (get raw "conditions") >>= λ conditions. (item_at raw "id" >>= text_of) >>= λ id.
    (item_at raw "priority" >>= int_of) >>= λ priority. (item_at raw "role" >>= text_of) >>= λ role.
    (item_at raw "tool" >>= tuple_of) >>= λ tool. tuple_at raw "destination" >>= λ destination.
    tuple_at raw "resource" >>= λ resource.
    text_at conditions "max_data_class" >>= λ max_data_class.
    tuple_at conditions "session_taint" >>= λ session_taint. reason_at raw "reason" >>= λ reason.
    ok (record {
      id = id;
      priority = priority;
      role = role;
      tool = tool;
      effect = effect;
      critical_path = truth_at raw "critical_path";
      destination = destination;
      resource = resource;
      max_data_class = max_data_class;
      session_taint = session_taint;
      inspect = truth_at raw "inspect";
      reason = reason;
    })

-- _parse_east_west_rule
unfoldable pub parse_east_west_rule : Dict Json → Parsed EastWestRule
parse_east_west_rule raw = (item_at raw "effect" >>= effect_of) >>= λ effect.
    (item_at raw "id" >>= text_of) >>= λ id. (item_at raw "priority" >>= int_of) >>= λ priority.
    (item_at raw "source_workload" >>= text_of) >>= λ source.
    (item_at raw "dest_workload" >>= text_of) >>= λ dest.
    (item_at raw "action" >>= text_of) >>= λ action. ok (record {
      id = id;
      priority = priority;
      source_workload = source;
      dest_workload = dest;
      action = action;
      effect = effect;
    })

-- An entry of a list of rules, which has to be a dict.
dict_of : Json → Parsed (Dict Json)
dict_of (obj fs) = ok (fields fs)
dict_of _ = raised type_error

-- tuple(parse(r) for r in raw)
unfoldable pub parse_all : {A : Type 0} → (Dict Json → Parsed A) → Items → Parsed (List A)
unfolding dict_of
parse_all parse nil = ok []
parse_all parse (item r rs) =
    let rest = parse_all parse rs in
    (dict_of r >>= parse) >>= λ rule. rest >>= λ rules. ok (rule ∷ rules)

key_items : Fields → Items
key_items end = nil
key_items (field k v fs) = item (str k) (key_items fs)

character_items : String → Items
character_items String.[] = nil
character_items (String.◌∷◌ c s) = item (str (String.◌∷◌ c "")) (character_items s)

-- What `for r in v` takes: of a text its characters, of a dict its keys.
items_of : Json → Parsed Items
unfolding key_items character_items
items_of (arr vs) = ok vs
items_of (obj fs) = ok (key_items fs)
items_of (str s) = ok (character_items s)
items_of _ = raised type_error

-- v or []
items_or_none : Option Json → Parsed Items
unfolding items_of
items_or_none none = ok nil
items_or_none (some v) = if truth v then items_of v else ok nil

-- load_bundle
unfoldable pub load_bundle : Dict Json → Parsed Bundle
unfolding items_or_none items_of dict_of
load_bundle raw = (item_at raw "rules" >>= items_of) >>= λ raw_rules.
    parse_all parse_rule raw_rules >>= λ rules.
    items_or_none (get raw "east_west_rules") >>= λ raw_east_west.
    parse_all parse_east_west_rule raw_east_west >>= λ east_west_rules.
    (item_at raw "metadata" >>= dict_of) >>= λ meta.
    (item_at meta "version" >>= str_of) >>= λ version.
    (item_at meta "not_valid_after" >>= str_of) >>= λ not_valid_after.
    (item_at meta "fail_safe_after" >>= int_of) >>= λ fail_safe_after. ok (record {
      version = version;
      not_valid_after = not_valid_after;
      fail_safe_after = fail_safe_after;
      rules = rules;
      east_west_rules = east_west_rules;
    })
