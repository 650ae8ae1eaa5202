-- ===== src/Pep/Pipeline.antt =====
-- pep/pipeline.py: run_pipeline, with the triggers of the quarantine. A result is missing where the source
-- raises, or where an argument has another JSON type than the tool's schema says.
pub mod Targets
pub mod Identify
pub mod Stages
pub mod State
pub mod Assess
pub mod Mediation
pub mod Clearance
pub mod Taint
pub mod Triggers
mod Tests
use ai_agent_security_firewa.Prelude.{
  ℕ, String, Bool, true, false, ◌&&◌, ◌||◌, Option, none, some, List, [], ◌∷◌, ◌==◌, if◌then◌else◌,
}
use ai_agent_security_firewa.Prelude.Dict.{Dict, get, put, get_default}
use ai_agent_security_firewa.Prelude.Json.{Json}
use ai_agent_security_firewa.Policy.Decision.{Decision, deny, executable, blocked}
use ai_agent_security_firewa.Policy.Rules.{Bundle, EvalResult}
use ai_agent_security_firewa.Events.Store.{Db}
use ai_agent_security_firewa.Identity.Tokens.{Verified}
use ai_agent_security_firewa.Risk.Scorer.{Factor, ScoreResult, score}
use ai_agent_security_firewa.Risk.Outcomes.{record_outcome}
use ai_agent_security_firewa.Risk.Behavior.{Behavior}
use ai_agent_security_firewa.ThreatIntel.Feed.{is_known_bad}
use ai_agent_security_firewa.Pep.Quarantine.{is_quarantined, enter, record_denial}
use ai_agent_security_firewa.Pep.Pipeline.Stages.{
  policy_stage, dlp_stage, risk_reason, least, action_of,
}
use ai_agent_security_firewa.Pep.Pipeline.Targets.{
  Canonical, Arguments, normalize_arguments, Target, extract_target, destination_key,
}
use ai_agent_security_firewa.Pep.Pipeline.Identify.{
  Identified, accepted, rejected, raised, verify_identity,
}
use ai_agent_security_firewa.Pep.Pipeline.State.{
  Entry, Moment, Pep, PipelineResult, Setup, ToolCall, deny_early, taint_of,
}
use ai_agent_security_firewa.Pep.Pipeline.Assess.{Assessment, assess}

-- quarantine.enter, on the pipeline's state
enter_if : Bool → String → String → Entry → Pep → Pep
enter_if false workload_key reason entry pep = pep
enter_if true workload_key reason entry pep = record pep {
  store = (enter workload_key reason entry.up entry.at entry.fault pep.store).0;
}

enter_on_denials : String → Entry → Dict (List ℕ) × Bool → Pep → Pep
unfolding enter_if
enter_on_denials workload_key entry (denials, reached) pep =
    enter_if reached workload_key "5+ denials within 60 seconds" entry
      (record pep { denials = denials })

-- The trigger of repeated denials.
on_blocked : Bool → String → Moment → Pep → Pep
unfolding enter_on_denials
on_blocked false workload_key moment pep = pep
on_blocked true workload_key moment pep =
    enter_on_denials workload_key moment.denial_entry
      (record_denial pep.denials moment.denial_time workload_key) pep

-- An executable http.get taints the session.
unfoldable pub taint_after : Dict Bool → ToolCall → Decision → Dict Bool
taint_after taint call final =
    if call.tool == "http.get" && executable final then put taint call.session_id true else taint

-- The call's taint and its outcome for later risk scores.
abbrev pub record_call : Pep → Moment → String → String → ToolCall → Target → Decision → Pep
record_call pep moment role workload_key call target final = record pep {
  taint = taint_after pep.taint call final;
  behavior = record_outcome pep.behavior moment.outcome_time (record {
    agent_id = workload_key;
    role = role;
    tool = call.tool;
    destination_key = destination_key target;
    decision = final;
  });
}

-- The state after the verdict: taint, outcome and the quarantine triggers.
unfoldable pub conclude : Pep → Moment → String → String → ToolCall → Target → Assessment → Pep
unfolding on_blocked enter_if
conclude pep moment role workload_key call target a =
    let recorded = record_call pep moment role workload_key call target a.final.0 in
    enter_if a.ti_hit workload_key "threat-intelligence hit on destination" moment.hit_entry (
      enter_if (a.risk.band == "CRITICAL") workload_key "risk score reached CRITICAL band"
        moment.critical_entry (on_blocked (blocked a.final.0) workload_key moment recorded))

unfoldable pub result_of : String → String → Arguments → Assessment → PipelineResult
result_of role agent_key args a = record {
  decision = a.final.0;
  reason = a.final.1;
  policy_id = a.policy.policy_id;
  role = some role;
  agent_key = agent_key;
  session_taint = a.session_taint;
  data_classification = a.data_class;
  risk_score = a.risk.score;
  risk_factors = a.risk.factors;
  normalized_arguments = args;
}

pub with_target :
    Setup
    → Pep
    → Moment
    → String
    → String
    → String
    → ToolCall
    → Arguments
    → Option Target
    → Pep × Option PipelineResult
with_target setup pep moment role agent_key workload_key call args none = (pep, none)
with_target setup pep moment role agent_key workload_key call args (some target) =
    let a = assess setup pep moment role workload_key call args target in
    (conclude pep moment role workload_key call target a, some (result_of role agent_key args a))

pub with_arguments :
    Setup
    → Pep
    → Moment
    → String
    → String
    → String
    → ToolCall
    → Option Arguments
    → Pep × Option PipelineResult
unfolding with_target
with_arguments setup pep moment role agent_key workload_key call none = (pep, none)
with_arguments setup pep moment role agent_key workload_key call (some args) =
    with_target setup pep moment role agent_key workload_key call args
      (extract_target setup.canonical call.tool args)

-- The quarantine gate, on what `is_quarantined` answered.
pub at_gate :
    Setup
    → Pep
    → Moment
    → String
    → String
    → String
    → ToolCall
    → Option Bool
    → Pep × Option PipelineResult
unfolding with_arguments
at_gate setup pep moment role agent_key workload_key call none =
    (pep, some (deny_early "quarantine_check_unavailable" "QUARANTINE_CHECK_FAILED" agent_key))
at_gate setup pep moment role agent_key workload_key call (some true) =
    (pep, some (deny_early "AGENT_QUARANTINED" "QUARANTINE_DENY" agent_key))
at_gate setup pep moment role agent_key workload_key call (some false) =
    with_arguments setup pep moment role agent_key workload_key call
      (normalize_arguments setup.canonical call.tool call.arguments)

pub at_identity : Setup → Pep → Moment → ToolCall → Identified → Pep × Option PipelineResult
unfolding at_gate
at_identity setup pep moment call raised = (pep, none)
at_identity setup pep moment call (rejected fallback_key reason) =
    (pep, some (deny_early reason "IDENTITY_DENY" fallback_key))
at_identity setup pep moment call (accepted role agent_key workload_key) =
    at_gate setup pep moment role agent_key workload_key call
      (is_quarantined workload_key moment.check_up pep.store)

-- The issuer's key is fetched, and then kept, when a token is presented.
pub presents : Option (List ℕ) → Bool
presents none = false
presents (some []) = false
presents (some (c ∷ token)) = true

unfoldable pub identify : Setup → Pep → Moment → ToolCall → Identified
identify setup pep moment call =
    verify_identity setup.verify call.token call.peer_ip (pep.key_cached || moment.issuer_up)
      moment.token_time

abbrev pub fetch_key : Pep → Moment → ToolCall → Pep
fetch_key pep moment call = record pep {
  key_cached = pep.key_cached || (presents call.token && moment.issuer_up);
}

unfoldable pub run_pipeline : Setup → Pep → Moment → ToolCall → Pep × Option PipelineResult
unfolding at_identity presents
run_pipeline setup pep moment call =
    at_identity setup (fetch_key pep moment call) moment call (identify setup pep moment call)
