-- ===== src/Policy/Engine.antt =====
-- policy/engine.py: matching a request against a bundle, and the resolution of the rules that match.
pub mod Order
pub mod Resolution
pub mod EastWest
mod Tests
use ai_agent_security_firewa.Prelude.{
  String, Bool, true, false, ◌&&◌, ◌||◌, Option, none, some, List, [], ◌∷◌, any, select, ◌==◌,
  if◌then◌else◌,
}
use ai_agent_security_firewa.Prelude.Order.{key_lt, min_by}
use ai_agent_security_firewa.Prelude.Dict.{contains}
use ai_agent_security_firewa.Policy.Decision.{Decision, deny, allow, is_decision}
use ai_agent_security_firewa.Policy.Rules.{Rule, EastWestRule, Bundle, EvalResult}
use ai_agent_security_firewa.Policy.Glob.{fnmatch}

abbrev pub write_tools : List String
write_tools = "http.post" ∷ "email.send" ∷ []

abbrev pub high_data_classes : List String
high_data_classes = "confidential" ∷ "secret" ∷ []

-- x in _HIGH_DATA_CLASSES, where None is in no set of texts
abbrev pub is_high : Option String → Bool
is_high none = false
is_high (some c) = contains high_data_classes c

matches_any : Option String → List String → Bool
matches_any none pats = false
matches_any (some name) pats = any (fnmatch name) pats

matches_resource : Option (List String) → Option String → Bool
unfolding matches_any
matches_resource none resource = true
matches_resource (some pats) resource = matches_any resource pats

targets : Option (List String) → Option (List String) → Option String → Option String → Bool
unfolding matches_any matches_resource
targets (some pats) resources fqdn resource = matches_any fqdn pats
targets none resources fqdn resource = matches_resource resources resource

-- _matches_target
unfoldable pub matches_target : Rule → Option String → Option String → Bool
unfolding targets
matches_target r fqdn resource = targets r.destination r.resource fqdn resource

taints : Option (List String) → String → Bool
taints none session_taint = true
taints (some states) session_taint = contains states session_taint

-- _matches_taint
unfoldable pub matches_taint : Rule → String → Bool
unfolding taints
matches_taint r session_taint = taints r.session_taint session_taint

-- What `evaluate` is asked about.
pub record Request : Type 0 where
  pub role : String
  pub tool : String
  pub fqdn : Option String
  pub resource : Option String
  pub session_taint : String

unfoldable pub applies : Request → Rule → Bool
unfolding matches_target matches_taint
applies q r =
    r.role == q.role
    && contains r.tool q.tool
    && matches_target r q.fqdn q.resource
    && matches_taint r q.session_taint

-- (-r.priority, r.id) < (-s.priority, s.id)
abbrev pub outranks : Rule → Rule → Bool
outranks r s = key_lt r.priority r.id s.priority s.id

-- _pick_winner, of a list that is not empty
unfoldable pub pick_winner : Rule → List Rule → Rule
pick_winner = min_by outranks

-- An ALLOW's verdict after the taint ceiling.
ceiling : Request → Rule → EvalResult
ceiling q winner =
    if q.session_taint == "tainted"
      && (contains write_tools q.tool || is_high winner.max_data_class)
    then record {
      decision = deny;
      policy_id = winner.id;
      reason = "taint_ceiling";
      max_data_class = winner.max_data_class;
      inspect = winner.inspect;
    }
    else record {
      decision = allow;
      policy_id = winner.id;
      reason = "matched_explicit_allow";
      max_data_class = winner.max_data_class;
      inspect = winner.inspect;
    }

denied_by : Rule → EvalResult
denied_by winner = record {
  decision = deny;
  policy_id = winner.id;
  reason = "matched_explicit_deny";
  max_data_class = winner.max_data_class;
  inspect = winner.inspect;
}

-- The matching DENY rules, then the matching ALLOW rules.
resolve : Request → List Rule → List Rule → EvalResult
unfolding pick_winner ceiling denied_by
resolve q (r ∷ rs) allows = denied_by (pick_winner r rs)
resolve q [] [] = record {
  decision = deny;
  policy_id = "DEFAULT_DENY";
  reason = "no_matching_rule";
  max_data_class = none;
  inspect = false;
}
resolve q [] (r ∷ rs) = ceiling q (pick_winner r rs)

abbrev pub with_effect : Decision → Request → Bundle → List Rule
with_effect d q b = select (λ r. is_decision r.effect d) (select (applies q) b.rules)

unfoldable pub evaluate : Bundle → Request → EvalResult
unfolding resolve
evaluate b q = resolve q (with_effect deny q b) (with_effect allow q b)

-- What `evaluate_east_west` is asked about.
pub record EastWestCall : Type 0 where
  pub source_workload : String
  pub dest_workload : String
  pub action : String

unfoldable pub applies_east_west : EastWestCall → EastWestRule → Bool
applies_east_west c r =
    r.action == c.action
    && (r.source_workload == "*" || r.source_workload == c.source_workload)
    && (r.dest_workload == "*" || r.dest_workload == c.dest_workload)

abbrev pub outranks_east_west : EastWestRule → EastWestRule → Bool
outranks_east_west r s = key_lt r.priority r.id s.priority s.id

-- _pick_ew_winner, of a list that is not empty
unfoldable pub pick_ew_winner : EastWestRule → List EastWestRule → EastWestRule
pick_ew_winner = min_by outranks_east_west

east_west_result : Decision → String → String → EvalResult
east_west_result d id reason = record {
  decision = d;
  policy_id = id;
  reason = reason;
  max_data_class = none;
  inspect = false;
}

resolve_east_west : List EastWestRule → List EastWestRule → EvalResult
unfolding pick_ew_winner east_west_result
resolve_east_west (r ∷ rs) allows =
    east_west_result deny (pick_ew_winner r rs).id "matched_explicit_east_west_deny"
resolve_east_west [] [] =
    east_west_result deny "DEFAULT_DENY_EAST_WEST" "no_matching_east_west_rule"
resolve_east_west [] (r ∷ rs) =
    east_west_result allow (pick_ew_winner r rs).id "matched_explicit_east_west_allow"

abbrev pub ew_with_effect : Decision → EastWestCall → Bundle → List EastWestRule
ew_with_effect d c b =
    select (λ r. is_decision r.effect d) (select (applies_east_west c) b.east_west_rules)

unfoldable pub evaluate_east_west : Bundle → EastWestCall → EvalResult
unfolding resolve_east_west
evaluate_east_west b c = resolve_east_west (ew_with_effect deny c b) (ew_with_effect allow c b)
