-- ===== src/Attacks/Cascade/Tests.antt =====
-- attacks/a10.py: two replies that demonstrate the cascade, and a first reply that was quarantined itself.
use ai_agent_security_firewa.Prelude.{◌≡◌, refl, Option, none, some, [], ◌∷◌}
use ai_agent_security_firewa.Prelude.Dict.{get}
use ai_agent_security_firewa.Prelude.Json.{str}
use ai_agent_security_firewa.Attacks.Common.{
  Live, fetched, try_live_pep_call_verified, attest_and_verify_role, assess_mechanism, is_text,
  is_real, is_true,
}
use ai_agent_security_firewa.Attacks.Samples.{live, fresh}
use ai_agent_security_firewa.Attacks.Scenario.{grade, measured, value_or_null}
use ai_agent_security_firewa.Attacks.Cascade.{
  CascadeDemoResult, run_a10, run_one_call, demonstrates_cascade, cascade_exit_code,
}
use ai_agent_security_firewa.Attacks.Cascade.Demonstrated.{IsReply, run_a10-IsReply}

running : Unit {0}
unfolding get try_live_pep_call_verified attest_and_verify_role grade measured value_or_null
    assess_mechanism is_text is_real is_true run_a10 run_one_call demonstrates_cascade
    cascade_exit_code
running = tt

abbrev quarantined : Live
quarantined = record live {
  tool_call =
      λ token. fetched (("decision", str "DENY") ∷ ("reason", str "AGENT_QUARANTINED") ∷ []);
}

abbrev or_empty : Option CascadeDemoResult → CascadeDemoResult
or_empty none = record { call_1 = none; call_2 = none }
or_empty (some r) = r

contaminated : cascade_exit_code (or_empty (run_a10 quarantined quarantined fresh).1) ≡ 1
unfolding running
contaminated = refl

run_a10-IsReply_example :
    IsReply live "research_agent" "DENY" "no_matching_rule"
    × IsReply quarantined "research_agent" "DENY" "AGENT_QUARANTINED"
unfolding running
run_a10-IsReply_example =
    run_a10-IsReply live quarantined fresh (or_empty (run_a10 live quarantined fresh).1) refl refl
