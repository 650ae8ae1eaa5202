-- ===== src/Policy/Loader/Tests.antt =====
-- policy/engine.py: a bundle of one rule, a rule with another effect, and the theorem.
use ai_agent_security_firewa.Prelude.{String, ◌≡◌, refl, false, none, [], ◌∷◌}
use ai_agent_security_firewa.Prelude.Text.{strip}
use ai_agent_security_firewa.Prelude.Dict.{Dict, get, put}
use ai_agent_security_firewa.Prelude.Json.{
  Json, num, str, arr, obj, nil, item, Fields, end, field, fields,
}
use ai_agent_security_firewa.Prelude.Order.{pos, negsuc}
use ai_agent_security_firewa.Urllib.Split
use ai_agent_security_firewa.Policy.Decision.{allow}
use ai_agent_security_firewa.Policy.Rules.{Bundle}
use ai_agent_security_firewa.Policy.Loader.{
  Parsed, ok, raised, value_error, key_error, type_error, ◌>>=◌, item_at, text_of, str_of, int_of,
  truth, tuple_of, effect_of, parse_rule, parse_all, load_bundle,
}
use ai_agent_security_firewa.Policy.Loader.Effects.{IsLoaded, load_bundle-IsLoaded}

running : Unit {0}
unfolding get put ◌>>=◌ item_at text_of str_of int_of strip truth tuple_of effect_of parse_rule
    parse_all load_bundle
running = tt

abbrev rule : String → Json → Fields
rule effect tool = field "id" (str "R-1") (
    field "priority" (num 100)
      (field "role" (str "research_agent") (field "tool" tool (field "effect" (str effect) end))))

abbrev raw : Dict Json
raw =
    (
      "metadata",
      obj (
          field "version" (str "1")
            (field "not_valid_after" (str "2027") (field "fail_safe_after" (num 3600) end))),
    )
    ∷ ("rules", arr (item (obj (rule "ALLOW" (arr (item (str "http.get") nil)))) nil))
    ∷ []

abbrev with_rules : Json → Parsed Bundle
with_rules rules = load_bundle (put raw "rules" rules)

abbrev bundle : Bundle
bundle = record {
  version = "1";
  not_valid_after = "2027";
  fail_safe_after = pos 3600;
  rules =
      record {
        id = "R-1";
        priority = pos 100;
        role = "research_agent";
        tool = "http.get" ∷ [];
        effect = allow;
        critical_path = false;
        destination = none;
        resource = none;
        max_data_class = none;
        session_taint = none;
        inspect = false;
        reason = "";
      }
      ∷ [];
  east_west_rules = [];
}

other_effect : parse_rule (fields (rule "QUARANTINE" (arr nil))) ≡ raised value_error
unfolding running
other_effect = refl

no_rules : load_bundle [] ≡ raised key_error
unfolding running
no_rules = refl

-- A tool that is no list is taken apart into its characters, and such a rule matches no tool.
scalar_tool : tuple_of (str "db") ≡ ok ("d" ∷ "b" ∷ [])
unfolding running
scalar_tool = refl

load_bundle-IsLoaded_example : IsLoaded raw bundle
unfolding running
load_bundle-IsLoaded_example = load_bundle-IsLoaded raw bundle refl

-- Rules that are an empty dict are none, and those of a text are its characters, which are no rules.
empty_rules : with_rules (obj end) ≡ ok (record bundle { rules = [] })
unfolding running
empty_rules = refl

text_rules : with_rules (str "R") ≡ raised type_error
unfolding running
text_rules = refl

negative : int_of (str " -5 ") ≡ ok (negsuc 4)
unfolding running Split.int_of
negative = refl
