-- ===== src/Attacks/Injection/Tests.antt =====
-- attacks/a6.py: the script in the process, and a deployment whose loop was denied at its last call.
use ai_agent_security_firewa.Attacks.Common.{assess_mechanism}
use ai_agent_security_firewa.Attacks.Injection.{
  replay_script, scripted_call, turn_of_call, report_injection, grade_turns, last_turn,
}
use ai_agent_security_firewa.Agent.Providers.{scripts, next_calls, next_turn, nth}
use ai_agent_security_firewa.Attacks.Scenario.Scripts.{run_script}
use ai_agent_security_firewa.Attacks.Scenario.{
  run_scenario, after_live, after_replay, report_call, grade, value_or_null, measured,
  not_attempted,
}
use ai_agent_security_firewa.Attacks.Common.{
  try_live_pep_call_verified, attest_and_verify_role, is_text,
}
use ai_agent_security_firewa.Prelude.{◌≡◌, refl, none, List, [], ◌∷◌, map}
use ai_agent_security_firewa.Policy.Decision.{Decision, deny, rate_limit}
use ai_agent_security_firewa.Attacks.Common.{fetched}
use ai_agent_security_firewa.Attacks.Samples.{running, process, fresh, live, reported}
use ai_agent_security_firewa.Prelude.Json.{str}
use ai_agent_security_firewa.Attacks.Common.{Fetched, genuinely_verified}
use ai_agent_security_firewa.Agent.Loop.{TurnLog}
use ai_agent_security_firewa.Agent.Providers.{mock_provider}
use ai_agent_security_firewa.Attacks.Injection.{
  Turn, Turns, turns, exception, out_of_fuel, run_locally_full_script, replay_calls, run_a6,
}
use ai_agent_security_firewa.Attacks.Injection.Proven.{IsContained, run_a6-IsContained}

reporting : Unit {0}
unfolding run_locally_full_script replay_script replay_calls scripted_call turn_of_call
    mock_provider scripts next_calls next_turn nth run_a6 report_injection grade_turns last_turn
    genuinely_verified assess_mechanism run_script run_scenario after_live after_replay
    try_live_pep_call_verified attest_and_verify_role report_call grade value_or_null measured
    not_attempted is_text
reporting = tt

abbrev decisions : Turns → List Decision
decisions (turns made) = map (λ (t : Turn). t.result.decision) made
decisions exception = []
decisions out_of_fuel = []

-- The page is fetched, at the rate limit since the process has not seen it before, and the first of the two calls that it asked for is denied.
obeyed :
    decisions
      (replay_calls process 0
        (record {
          name = "http.get";
          arguments = ("url", str "https://api.trusted-news.com/articles/breaking-story") ∷ [];
        }
          ∷ record { name = "db.query"; arguments = ("table", str "customers") ∷ [] }
          ∷ [])
        fresh).1
    ≡ rate_limit ∷ deny ∷ []
unfolding running reporting
obeyed = refl

abbrev log : Fetched (List TurnLog)
log = fetched (
    record {
      tool = "http.post";
      arguments = [];
      decision = "DENY";
      reason = "matched_explicit_deny";
      detail = none;
    }
    ∷ [])

run_a6-IsContained_example : IsContained log live
unfolding running reporting
run_a6-IsContained_example =
    run_a6-IsContained log live process none fresh (reported (run_a6 log live process none fresh).1)
      refl refl
