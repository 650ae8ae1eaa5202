-- ===== src/Pep/Pipeline/Stages.antt =====
-- pep/pipeline.py: stages 3, 5 and 7 of a decision, each a function: policy, inspection, and the least of the
-- verdicts.
pub mod Binding
use Prim.Native.String
use text.Mathlib.Text.{starts_with}
use ai_agent_security_firewa.Prelude.{
  ℕ, String, Bool, true, false, not, ◌&&◌, ◌||◌, Option, none, some, List, [], ◌∷◌, ltb, ◌==◌,
  if◌then◌else◌,
}
use ai_agent_security_firewa.Prelude.Dict.{Dict, get, put}
use ai_agent_security_firewa.Prelude.Json.{Json, null, str}
use ai_agent_security_firewa.Prelude.Text.{first_chars, or_text, codes, codes_eq}
use ai_agent_security_firewa.Prelude.Order.{min_by}
use ai_agent_security_firewa.Policy.Decision.{
  Decision, rank, deny, allow_redacted, allow, is_decision,
}
use ai_agent_security_firewa.Policy.Rules.{Bundle, EvalResult}
use ai_agent_security_firewa.Policy.Engine.{evaluate, evaluate_east_west}
use ai_agent_security_firewa.Identity.Tokens.{
  Claims, Verified, valid, malformed, bad_signature, expired, crashed,
}
use ai_agent_security_firewa.Dlp.Detectors.{Verdict, pass, redacted, blocked, scan, outcome}
use ai_agent_security_firewa.Pep.Pipeline.Targets.{Arguments, Target, resource_target}

-- str(arguments.get("target_service", "")), of the values that `resource_target` lets through
service_text : Option Json → String
service_text (some (str name)) = name
service_text (some _) = "None"
service_text none = ""

-- Stage 3.
unfoldable pub policy_stage :
    Bundle → String → String → String → Arguments → Target → String → EvalResult
unfolding service_text
policy_stage bundle role workload_key tool args target session_taint =
    if tool == "agent.invoke"
    then evaluate_east_west bundle (record {
      source_workload = workload_key;
      dest_workload = service_text (get args "target_service");
      action = "invoke";
    })
    else evaluate bundle (record {
      role = role;
      tool = tool;
      fqdn = target.fqdn;
      resource = target.resource;
      session_taint = session_taint;
    })

ends_in : List ℕ → List ℕ → Bool
ends_in suffix [] = codes_eq [] suffix
ends_in suffix (c ∷ s) = codes_eq (c ∷ s) suffix || ends_in suffix s

-- _is_external
unfoldable pub is_external : Option String → Bool
unfolding ends_in
is_external none = false
is_external (some fqdn) = not (ends_in (codes ".internal") (codes fqdn))

-- [str(v) for k, v in arguments.items() if k != "url"]
shown : (Json → String) → Arguments → List String
shown show [] = []
shown show ((k, v) ∷ args) = if k == "url" then shown show args else show v ∷ shown show args

-- " ".join(texts)
join_words : List String → String
join_words [] = ""
join_words (t ∷ []) = t
join_words (t ∷ u ∷ texts) = String.◌++◌ t (String.◌++◌ " " (join_words (u ∷ texts)))

abbrev pub of_verdict : Verdict → Decision × String
of_verdict pass = (allow, "dlp_pass")
of_verdict redacted = (allow_redacted, "dlp_redact")
of_verdict blocked = (deny, "dlp_block")

-- Whether stage 5 scans the arguments.
unfoldable pub inspects : EvalResult → String → Target → Bool
inspects policy tool target =
    is_decision policy.decision allow
    && (policy.inspect || is_external target.fqdn || tool == "agent.invoke")

-- Stage 5.
unfoldable pub dlp_stage :
    (Json → String)
    → (String → String → List String)
    → EvalResult
    → String
    → Arguments
    → Target
    → Decision × String
unfolding shown join_words
dlp_stage show finditer policy tool args target =
    if inspects policy tool target
    then of_verdict (outcome (scan finditer (join_words (shown show args))))
    else (allow, "dlp_pass")

-- f"risk_band_{band.lower()}"
abbrev pub risk_reason : String → String
risk_reason band =
    if band == "CRITICAL"
    then "risk_band_critical"
    else if band == "HIGH"
    then "risk_band_high"
    else if band == "MODERATE"
    then "risk_band_moderate"
    else "risk_band_low"

-- min(candidates, key=lambda c: c[0])
abbrev pub lower_decision : Decision × String → Decision × String → Bool
lower_decision (d, r) (e, q) = ltb (rank d) (rank e)

unfoldable pub least : Decision × String → Decision × String → Decision × String → Decision × String
least policy dlp risk = min_by lower_decision policy (dlp ∷ risk ∷ [])

-- ACTION_MAP.get(tool, "unknown")
unfoldable pub action_of : String → String
action_of tool =
    if tool == "http.get" || tool == "db.query" || tool == "file.read"
    then "read"
    else if tool == "http.post" || tool == "email.send"
    then "write"
    else if tool == "agent.invoke"
    then "invoke"
    else "unknown"
