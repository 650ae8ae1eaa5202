-- ===== src/Attacks/Common/Tests.antt =====
-- attacks/common.py: a deployment that answers, one that attests another role, and the theorems.
use ai_agent_security_firewa.Attacks.Samples.{process, setup, render, fresh, live}
use ai_agent_security_firewa.Prelude.{◌≡◌, refl, true, false, Option, none, some, [], ◌∷◌}
use ai_agent_security_firewa.Prelude.Dict.{get}
use ai_agent_security_firewa.Prelude.Json.{Json, str, obj, end}
use ai_agent_security_firewa.Risk.Behavior.{cold}
use ai_agent_security_firewa.Events.Store.{empty}
use ai_agent_security_firewa.Identity.Tokens.StackCodec.{codec}
use ai_agent_security_firewa.Pep.Pipeline.State.{Pep}
use ai_agent_security_firewa.Attacks.Common.{
  mechanism_exit_code, AttackResult, real_docker_verified, LiveCallOutcome,
  try_live_pep_call_verified, attest_and_verify_role,
}
use ai_agent_security_firewa.Attacks.Replay.{LocalCall, reset_process_state, run_locally}
use ai_agent_security_firewa.Attacks.Replay.Isolation.{run_locally-reset}

abbrev denied : AttackResult
denied = record {
  attack_id = "A1";
  description = "exfiltration";
  category = "exfiltration";
  attempted = "http.post";
  identity_desc = "research_agent";
  destination = "evil.example.com";
  stage = "policy";
  policy_id = "DEFAULT_DENY";
  reason = str "AGENT_QUARANTINED";
  risk_score = 0;
  risk_factors = [];
  decision = str "DENY";
  event = [];
  verification_status = real_docker_verified;
  expected_decision = some "DENY";
  expected_reason = some "no_matching_rule";
  mechanism_match = some false;
  notes = [];
}

-- A denial for another reason than the scenario's own is a failure.
other_reason : mechanism_exit_code denied ≡ 1
unfolding mechanism_exit_code
other_reason = refl

abbrev measured : LiveCallOutcome
measured = record {
  reachable = true;
  attested_role = some (str "research_agent");
  role_ok = true;
  decision = some (str "DENY");
  reason = some (str "no_matching_rule");
  result = none;
  latency_ms = obj end;
}

abbrev decision_of : Option LiveCallOutcome → Option Json
decision_of none = none
decision_of (some o) = o.decision

other_role : decision_of (try_live_pep_call_verified live "finance_agent") ≡ none
unfolding try_live_pep_call_verified attest_and_verify_role get
other_role = refl

abbrev call : LocalCall
call = record {
  role = "research_agent";
  service = "agent";
  tool = "file.read";
  arguments = ("path", str "/etc/passwd") ∷ [];
  session_id = "s";
}

abbrev used : Pep
used = record {
  taint = ("s", true) ∷ [];
  key_cached = true;
  behavior = cold;
  denials = ("agent", 1 ∷ 2 ∷ []) ∷ [];
  store = empty;
}

run_locally-reset_example :
    ((run_locally codec setup render
        (process.logs 0)
        (process.moments 0)
        call
        (reset_process_state used)).1
      ≡ (run_locally codec setup render
          (process.logs 0)
          (process.moments 0)
          call
          (reset_process_state fresh)).1)
    × ((run_locally codec setup render (process.logs 0) (process.moments 0) call used).0.store
        ≡ used.store)
run_locally-reset_example =
    run_locally-reset codec setup render (process.logs 0) (process.moments 0) call used fresh
