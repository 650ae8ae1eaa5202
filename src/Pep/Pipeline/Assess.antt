-- ===== src/Pep/Pipeline/Assess.antt =====
-- pep/pipeline.py, run_pipeline from stage 3 to stage 7: the verdict.
use ai_agent_security_firewa.Prelude.{String, Bool, Option, none, some, ◌==◌, if◌then◌else◌}
use ai_agent_security_firewa.Policy.Decision.{Decision}
use ai_agent_security_firewa.Policy.Rules.{EvalResult}
use ai_agent_security_firewa.Risk.Scorer.{ScoreResult, score}
use ai_agent_security_firewa.ThreatIntel.Feed.{is_known_bad}
use ai_agent_security_firewa.Pep.Pipeline.Stages.{
  policy_stage, dlp_stage, risk_reason, least, action_of,
}
use ai_agent_security_firewa.Pep.Pipeline.Targets.{Arguments, Target, destination_key}
use ai_agent_security_firewa.Pep.Pipeline.State.{Moment, Pep, Setup, ToolCall, taint_of}

-- policy_result.max_data_class or "public"
unfoldable pub class_or_public : Option String → String
class_or_public none = "public"
class_or_public (some c) = if c == "" then "public" else c

-- What stages 3 to 7 find.
pub record Assessment : Type 0 where
  pub session_taint : String
  pub policy : EvalResult
  pub ti_hit : Bool
  pub data_class : String
  pub dlp : Decision × String
  pub risk : ScoreResult
  pub final : Decision × String

unfoldable pub assess :
    Setup → Pep → Moment → String → String → ToolCall → Arguments → Target → Assessment
unfolding class_or_public
assess setup pep moment role workload_key call args target =
    let session_taint = taint_of pep call.session_id in
    let policy = policy_stage setup.bundle role workload_key call.tool args target session_taint in
    let ti_hit = is_known_bad setup.listed target.fqdn in
    let data_class = class_or_public policy.max_data_class in
    let dlp = dlp_stage setup.show setup.finditer policy call.tool args target in
    let risk = score pep.behavior moment.score_time (record {
      agent_id = workload_key;
      role = role;
      tool = call.tool;
      destination_key = destination_key target;
      action = action_of call.tool;
      data_class = data_class;
      session_taint = session_taint;
      threat_intel_hit = ti_hit;
    }) in
    record {
      session_taint = session_taint;
      policy = policy;
      ti_hit = ti_hit;
      data_class = data_class;
      dlp = dlp;
      risk = risk;
      final =
          least (policy.decision, policy.reason) dlp (risk.decision_ceiling, risk_reason risk.band);
    }
