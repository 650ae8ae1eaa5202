-- ===== src/Attacks/Scenario/Tests.antt =====
-- attacks/a1.py to a5.py, a7.py and a8.py: each call in the process, against the shipped bundle, and a deployment
-- that replies what A1 expects.
use ai_agent_security_firewa.Attacks.Scenario.Scripts.{run_script}
use ai_agent_security_firewa.Attacks.Scenario.{
  run_scenario, after_live, after_replay, report_call, grade, value_or_null, measured,
  not_attempted,
}
use ai_agent_security_firewa.Attacks.Common.{
  try_live_pep_call_verified, attest_and_verify_role, is_text,
}
use ai_agent_security_firewa.Prelude.{String, ◌≡◌, refl, true, Option, none, some, [], ◌∷◌}
use ai_agent_security_firewa.Policy.Decision.{Decision, deny, require_approval}
use ai_agent_security_firewa.Attacks.Scenario.{Scenario, Replayed, replay, local_call}
use ai_agent_security_firewa.Attacks.Scenario.Scripts.{
  a1, a3, a3_fetch, a4, a5, a7, a8, a8_raw, a8_mirror, script_1,
}
use ai_agent_security_firewa.Attacks.Scenario.Honest.{IsHonest, run_script-IsHonest}
use ai_agent_security_firewa.Attacks.Samples.{running, setup, process, fresh, live, reported}

reporting : Unit {0}
unfolding local_call run_script run_scenario after_live after_replay try_live_pep_call_verified
    attest_and_verify_role report_call grade value_or_null measured not_attempted is_text
reporting = tt

abbrev verdict : Replayed → Option (Decision × String × String)
verdict (pep, none) = none
verdict (pep, some (result, event)) = some (result.decision, result.reason, result.policy_id)

abbrev replayed : Scenario → Option (Decision × String × String)
replayed s = verdict (replay process 0 (local_call s) fresh)

unauthorized_destination : replayed a1 ≡ some (deny, "no_matching_rule", "DEFAULT_DENY")
unfolding running reporting
unauthorized_destination = refl

taint : (replay process 0 (local_call a3_fetch) fresh).0.taint ≡ ("a3-taint-ceiling", true) ∷ []
unfolding running reporting
taint = refl

tainted_session :
    verdict (replay process 1 (local_call a3) (replay process 0 (local_call a3_fetch) fresh).0)
    ≡ some (deny, "no_matching_rule", "DEFAULT_DENY")
unfolding running reporting
tainted_session = refl

-- In a clean session the rule matches the same call, and its risk asks for approval.
clean_session : replayed a3 ≡ some (require_approval, "risk_band_high", "R-ADMIN-002")
unfolding running reporting
clean_session = refl

lateral_movement : replayed a4 ≡ some (deny, "no_matching_east_west_rule", "DEFAULT_DENY_EAST_WEST")
unfolding running reporting
lateral_movement = refl

credentials : replayed a5 ≡ some (deny, "matched_explicit_deny", "R-SUPPORT-003")
unfolding running reporting
credentials = refl

listed_destination : replayed a7 ≡ some (deny, "no_matching_rule", "DEFAULT_DENY")
unfolding running reporting
listed_destination = refl

userinfo : replayed a8 ≡ some (deny, "matched_explicit_deny", "R-FINANCE-003")
unfolding running reporting
userinfo = refl

-- The host is what follows the @, in either order.
canonical_forms :
    (setup.canonical.normalize_url a8_raw ≡ some "http://api.trusted-news.com/")
    × (setup.canonical.normalize_url a8_mirror ≡ some "http://evil.com/")
unfolding running reporting
canonical_forms = (refl, refl)

run_script-IsHonest_example : IsHonest a1 live (reported (run_script script_1 process live fresh).1)
unfolding running reporting
run_script-IsHonest_example =
    run_script-IsHonest script_1 process live fresh
      (reported (run_script script_1 process live fresh).1) refl
