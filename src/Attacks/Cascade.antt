-- ===== src/Attacks/Cascade.antt =====
-- attacks/a10.py: two calls of one workload, between which the quarantine is not cleared.
pub mod Demonstrated
mod Tests
use ai_agent_security_firewa.Prelude.{
  ℕ, String, Bool, true, false, ◌&&◌, Option, none, some, List, [], ◌∷◌, if◌then◌else◌,
}
use ai_agent_security_firewa.Prelude.Dict.{Dict, get_default}
use ai_agent_security_firewa.Prelude.Json.{Json, null, bool, str, obj, Fields, end, field}
use ai_agent_security_firewa.Pep.Pipeline.State.{Pep}
use ai_agent_security_firewa.Pep.Pipeline.Targets.{Arguments}
use ai_agent_security_firewa.Attacks.Common.{
  Status, Live, LiveCallOutcome, try_live_pep_call_verified, is_real, is_true, status_name,
  truth_or_null,
}
use ai_agent_security_firewa.Attacks.Replay.{reset_process_state}
use ai_agent_security_firewa.Attacks.Scenario.{Graded, grade}

-- The arguments of _run_one_call.
pub record CascadeCall : Type 0 where
  pub label : String
  pub tool : String
  pub arguments : Arguments
  pub session_id : String
  pub expected_decision : String
  pub expected_reason : String

abbrev pub expected_role : String
expected_role = "research_agent"

abbrev pub call_1 : CascadeCall
call_1 = record {
  label =
      "call 1 (A7-style: threat-intel-listed destination; expected to trigger quarantine as a side effect, but to be denied on its OWN mechanism first)";
  tool = "http.get";
  arguments = ("url", str "https://known-c2.example/beacon") ∷ [];
  session_id = "a10-cascade-call-1";
  expected_decision = "DENY";
  expected_reason = "no_matching_rule";
}

abbrev pub call_2 : CascadeCall
call_2 = record {
  label =
      "call 2 (A1-style: unrelated unauthorized destination; run immediately after call 1 with quarantine deliberately NOT cleared - expected to be denied by AGENT_QUARANTINED, not by its own default-deny mechanism)";
  tool = "http.get";
  arguments = ("url", str "https://api.premium-market-data.example.com/v1/reports") ∷ [];
  session_id = "a10-cascade-call-2";
  expected_decision = "DENY";
  expected_reason = "AGENT_QUARANTINED";
}

-- Without the notes.
pub record CascadeCallResult : Type 0 where
  pub label : String
  pub tool : String
  pub url : Json
  pub verification_status : Status
  pub decision : Json
  pub reason : Json
  pub expected_decision : String
  pub expected_reason : String
  pub mechanism_match : Option Bool

pub record CascadeDemoResult : Type 0 where
  pub call_1 : Option CascadeCallResult
  pub call_2 : Option CascadeCallResult

call_result : CascadeCall → Graded → CascadeCallResult
call_result c g = record {
  label = c.label;
  tool = c.tool;
  url = get_default c.arguments "url" (str "");
  verification_status = g.status;
  decision = g.decision;
  reason = g.reason;
  expected_decision = c.expected_decision;
  expected_reason = c.expected_reason;
  mechanism_match = g.mechanism_match;
}

result_if_any : CascadeCall → Option LiveCallOutcome → Option CascadeCallResult
unfolding call_result
result_if_any c none = none
result_if_any c (some live) =
    some (call_result c (grade c.expected_decision c.expected_reason live))

-- _run_one_call, none where it raises
unfoldable pub run_one_call : CascadeCall → Live → Option CascadeCallResult
unfolding result_if_any
run_one_call c live = result_if_any c (try_live_pep_call_verified live expected_role)

both : Option CascadeCallResult → Option CascadeCallResult → Option CascadeDemoResult
both (some r) (some s) = some (record { call_1 = some r; call_2 = some s })
both _ _ = none

-- run: what the deployment answers to the first call and to the second
unfoldable pub run_a10 : Live → Live → Pep → Pep × Option CascadeDemoResult
unfolding both
run_a10 first second pep =
    (reset_process_state pep, both (run_one_call call_1 first) (run_one_call call_2 second))

is_proven : Option CascadeCallResult → Bool
unfolding is_real is_true
is_proven none = false
is_proven (some r) = is_real r.verification_status && is_true r.mechanism_match

-- CascadeDemoResult.demonstrates_cascade
unfoldable pub demonstrates_cascade : CascadeDemoResult → Bool
unfolding is_proven
demonstrates_cascade r = is_proven r.call_1 && is_proven r.call_2

call_payload : Option CascadeCallResult → Json
unfolding status_name truth_or_null
call_payload none = null
call_payload (some r) = obj (
    field "label" (str r.label) (
      field "verification_status" (str (status_name r.verification_status)) (
        field "decision" r.decision (
          field "reason" r.reason (
            field "expected_decision" (str r.expected_decision) (
              field "expected_reason" (str r.expected_reason)
                (field "mechanism_match" (truth_or_null r.mechanism_match) end)))))))

-- emit_cascade_result_json: the payload of the line that it prints
unfoldable pub emit_cascade_result_json : CascadeDemoResult → Dict Json
unfolding call_payload
emit_cascade_result_json r =
    ("attack_id", str "A10")
    ∷ ("is_cascade_demo", bool true)
    ∷ ("demonstrates_cascade", bool (demonstrates_cascade r))
    ∷ ("call_1", call_payload r.call_1)
    ∷ ("call_2", call_payload r.call_2)
    ∷ []

-- The script's exit code.
unfoldable pub cascade_exit_code : CascadeDemoResult → ℕ
cascade_exit_code r = if demonstrates_cascade r then 0 else 1
