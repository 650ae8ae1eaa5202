-- ===== src/Policy/Engine/Tests.antt =====
-- The evaluator on the shipped bundle, and its theorems at concrete requests.
use ai_agent_security_firewa.Prelude.{
  String, ◌≡◌, ◌↔◌, refl, sym, ap, ◌∙◌, inl, inr, none, some, List, [], ◌∷◌, arith, eq_iff,
}
use mathlib.Core.Bool.{false≢true}
use ai_agent_security_firewa.Prelude.Order.{pos, min_by}
use ai_agent_security_firewa.Policy.Decision.{deny, allow}
use ai_agent_security_firewa.Policy.Rules.{Rule, Bundle, EastWestRule}
use ai_agent_security_firewa.Policy.DefaultBundle.{default_bundle, r_research_001, r_research_002}
use ai_agent_security_firewa.Policy.Glob.{fnmatch}
use ai_agent_security_firewa.Policy.Engine.{
  Request, EastWestCall, applies, evaluate, evaluate_east_west, applies_east_west,
}
use ai_agent_security_firewa.Policy.Engine.Resolution.{
  Resolves, HasUniqueIds, HasSameRules, evaluate-Resolves, evaluate_order_independent,
  evaluate-tainted_write, verdict, default_deny,
}
use ai_agent_security_firewa.Policy.Engine.EastWest.{Grants, evaluate_east_west-allow_iff}

running : Unit {0}
unfolding evaluate applies fnmatch min_by evaluate_east_west applies_east_west
running = tt

abbrev news : String → Request
news taint = record {
  role = "research_agent";
  tool = "http.get";
  fqdn = some "export.arxiv.org";
  resource = some "/list";
  session_taint = taint;
}

abbrev erp : String → Request
erp taint = record {
  role = "finance_agent";
  tool = "http.post";
  fqdn = some "api.approved-erp.com";
  resource = none;
  session_taint = taint;
}

allowed_read :
    evaluate default_bundle (news "tainted") ≡ verdict allow r_research_001 "matched_explicit_allow"
unfolding running
allowed_read = refl

tainted_post : evaluate default_bundle (erp "tainted") ≡ default_deny
unfolding running
tainted_post = refl

evaluate-Resolves_example :
    Resolves default_bundle (news "clean") (evaluate default_bundle (news "clean"))
evaluate-Resolves_example = evaluate-Resolves default_bundle (news "clean")

evaluate-tainted_write_example : (evaluate default_bundle (erp "tainted")).decision ≡ deny
evaluate-tainted_write_example =
    evaluate-tainted_write default_bundle (erp "tainted") refl (inl refl)

abbrev listed : List Rule → Bundle
listed rules = record default_bundle { rules = rules }

abbrev pair : Bundle
pair = listed (r_research_001 ∷ r_research_002 ∷ [])

abbrev reversed : Bundle
reversed = listed (r_research_002 ∷ r_research_001 ∷ [])

HasUniqueIds-reversed : HasUniqueIds reversed
HasUniqueIds-reversed r s (inl p) (inl q) e = p ∙ sym q
HasUniqueIds-reversed r s (inl p) (inr (inl q)) e = absurd (
    false≢true (
      (eq_iff r_research_002.id r_research_001.id).1
        (sym (ap (λ (t : Rule). t.id) p) ∙ e ∙ ap (λ (t : Rule). t.id) q)))
HasUniqueIds-reversed r s (inl p) (inr (inr q)) e = absurd q
HasUniqueIds-reversed r s (inr (inl p)) (inl q) e = absurd (
    false≢true (
      (eq_iff r_research_001.id r_research_002.id).1
        (sym (ap (λ (t : Rule). t.id) p) ∙ e ∙ ap (λ (t : Rule). t.id) q)))
HasUniqueIds-reversed r s (inr (inl p)) (inr (inl q)) e = p ∙ sym q
HasUniqueIds-reversed r s (inr (inl p)) (inr (inr q)) e = absurd q
HasUniqueIds-reversed r s (inr (inr p)) m e = absurd p

HasSameRules-pair : HasSameRules pair reversed
HasSameRules-pair r = ground arith

evaluate_order_independent_example : evaluate pair (news "clean") ≡ evaluate reversed (news "clean")
evaluate_order_independent_example =
    evaluate_order_independent pair reversed (news "clean") HasUniqueIds-reversed HasSameRules-pair

abbrev delegating : Bundle
delegating = record default_bundle {
  east_west_rules =
      record {
        id = "EW-1";
        priority = pos 1;
        source_workload = "*";
        dest_workload = "agent";
        action = "invoke";
        effect = allow;
      }
      ∷ [];
}

abbrev call : EastWestCall
call = record { source_workload = "finance-agent"; dest_workload = "agent"; action = "invoke" }

delegated : (evaluate_east_west delegating call).decision ≡ allow
unfolding running
delegated = refl

not_delegated : (evaluate_east_west default_bundle call).policy_id ≡ "DEFAULT_DENY_EAST_WEST"
unfolding running
not_delegated = refl

evaluate_east_west-allow_iff_example : ((evaluate_east_west delegating call).decision ≡ allow) ↔ (
    ((r : EastWestRule) → ¬ (Grants call delegating deny r))
    × ((r : EastWestRule) × Grants call delegating allow r))
evaluate_east_west-allow_iff_example = evaluate_east_west-allow_iff call delegating
