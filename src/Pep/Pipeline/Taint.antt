-- ===== src/Pep/Pipeline/Taint.antt =====
-- pep/pipeline.py: the taint of a session. A page that is fetched taints it for good, and a tainted
-- session never writes.
use ai_agent_security_firewa.Prelude.{
  String, ◌≡◌, ◌⊎◌, inl, inr, refl, ap, sym, ◌∙◌, Bool, true, false, ◌&&◌, ◌||◌, Option, none, some,
  List, [], ◌∷◌, arith, Option-cases, ◌==◌, eq_iff,
}
use ai_agent_security_firewa.Prelude.Dict.{Dict, get_default, get_default-put}
use ai_agent_security_firewa.Policy.Decision.{Decision, deny, executable, ◌⊑◌}
use ai_agent_security_firewa.Policy.Rules.{Bundle}
use ai_agent_security_firewa.Policy.Engine.Resolution.{evaluate-tainted_write}
use ai_agent_security_firewa.Pep.Quarantine.{record_denial}
use ai_agent_security_firewa.Pep.Pipeline.Stages.{policy_stage}
use ai_agent_security_firewa.Pep.Pipeline.Targets.{
  Arguments, normalize_arguments, Target, extract_target,
}
use ai_agent_security_firewa.Pep.Pipeline.Identify.{Identified, accepted, rejected, raised}
use ai_agent_security_firewa.Pep.Pipeline.{
  conclude, result_of, with_target, with_arguments, at_gate, at_identity, identify, fetch_key,
  run_pipeline, taint_after, enter_if, enter_on_denials, on_blocked,
}
use ai_agent_security_firewa.Pep.Pipeline.Assess.{Assessment, assess}
use ai_agent_security_firewa.Pep.Pipeline.State.{
  Setup, Pep, Moment, Entry, ToolCall, PipelineResult, taint_of,
}
use ai_agent_security_firewa.Pep.Pipeline.Mediation.{run_pipeline-cases}
use ai_agent_security_firewa.Pep.Pipeline.Clearance.{assessment, IsAssessed-IsNarrowest}

enter_if-taint :
    (b : Bool) (key reason : String) (entry : Entry) (pep : Pep)
    → (enter_if b key reason entry pep).taint ≡ pep.taint
unfolding enter_if
enter_if-taint true key reason entry pep = refl
enter_if-taint false key reason entry pep = refl

on_blocked-taint :
    (b : Bool) (key : String) (moment : Moment) (pep : Pep)
    → (on_blocked b key moment pep).taint ≡ pep.taint
unfolding on_blocked enter_on_denials
on_blocked-taint false key moment pep = refl
on_blocked-taint true key moment pep =
    enter_if-taint (record_denial pep.denials moment.denial_time key).1 key
      "5+ denials within 60 seconds" moment.denial_entry
      (record pep { denials = (record_denial pep.denials moment.denial_time key).0 })

conclude-taint :
    (pep : Pep) (moment : Moment) (role key : String) (call : ToolCall) (target : Target)
    (a : Assessment)
    → (conclude pep moment role key call target a).taint ≡ taint_after pep.taint call a.final.0
unfolding conclude
conclude-taint pep moment role key call target a =
    enter_if-taint a.ti_hit key "threat-intelligence hit on destination" moment.hit_entry _
    ∙ enter_if-taint (a.risk.band == "CRITICAL") key "risk score reached CRITICAL band"
        moment.critical_entry _
    ∙ on_blocked-taint _ key moment _

module _ (setup : Setup) (pep : Pep) (moment : Moment) (call : ToolCall) where
  none-at_target :
      (role agent_key key : String) (args : Arguments) (t : Option Target)
      → (with_target setup pep moment role agent_key key call args t).1 ≡ none
      → (with_target setup pep moment role agent_key key call args t).0 ≡ pep
  unfolding with_target
  none-at_target role agent_key key args none e = refl
  none-at_target role agent_key key args (some t) e = cc

  none-at_arguments :
      (role agent_key key : String) (o : Option Arguments)
      → (with_arguments setup pep moment role agent_key key call o).1 ≡ none
      → (with_arguments setup pep moment role agent_key key call o).0 ≡ pep
  unfolding with_arguments
  none-at_arguments role agent_key key none e = refl
  none-at_arguments role agent_key key (some args) e =
      none-at_target role agent_key key args (extract_target setup.canonical call.tool args) e

  none-at_gate :
      (role agent_key key : String) (o : Option Bool)
      → (at_gate setup pep moment role agent_key key call o).1 ≡ none
      → (at_gate setup pep moment role agent_key key call o).0 ≡ pep
  unfolding at_gate
  none-at_gate role agent_key key none e = cc
  none-at_gate role agent_key key (some true) e = cc
  none-at_gate role agent_key key (some false) e =
      none-at_arguments role agent_key key
        (normalize_arguments setup.canonical call.tool call.arguments) e

  none-at_identity :
      (i : Identified)
      → (at_identity setup pep moment call i).1 ≡ none
      → (at_identity setup pep moment call i).0 ≡ pep
  unfolding at_identity
  none-at_identity raised e = refl
  none-at_identity (rejected key reason) e = cc
  none-at_identity (accepted role agent_key key) e = none-at_gate role agent_key key _ e

-- A call that yields no result leaves everything but the issuer's key as it was.
pub run_pipeline-none :
    (setup : Setup) (pep : Pep) (moment : Moment) (call : ToolCall)
    → (run_pipeline setup pep moment call).1 ≡ none
    → (run_pipeline setup pep moment call).0 ≡ fetch_key pep moment call
unfolding run_pipeline
run_pipeline-none setup pep moment call e =
    none-at_identity setup (fetch_key pep moment call) moment call (identify setup pep moment call)
      e

abbrev pub is_tainted : Pep → String → Bool
is_tainted pep session = get_default pep.taint session false

taint_after-get :
    (taint : Dict Bool) (call : ToolCall) (d : Decision) (session : String)
    → get_default (taint_after taint call d) session false ≡ (
        ((call.tool == "http.get" && executable d) && call.session_id == session)
        || get_default taint session false)
unfolding taint_after
taint_after-get taint call d session =
    ground (arith, get_default-put taint call.session_id session true false)

-- After a call with a result a session is tainted exactly if it was before, or the call is an
-- http.get in it with an executable decision.
pub run_pipeline-taint :
    (setup : Setup) (pep : Pep) (moment : Moment) (call : ToolCall) (r : PipelineResult)
    (session : String)
    → (run_pipeline setup pep moment call).1 ≡ some r
    → is_tainted (run_pipeline setup pep moment call).0 session ≡ (
        ((call.tool == "http.get" && executable r.decision) && call.session_id == session)
        || is_tainted pep session)
unfolding result_of
run_pipeline-taint setup pep moment call r session e =
    elim (run_pipeline-cases setup pep moment call r e) [
      | inl (d, q) ↦ ap (λ (p : Pep). is_tainted p session) q ∙ ground (arith, ap executable d)
      | inr s ↦
          let a = assessment setup pep moment call (run_pipeline setup pep moment call).0 r s in
          let final : a.final.0 ≡ r.decision =
            sym (ap (λ (q : PipelineResult). q.decision) s.result) in
          ap (λ (p : Pep). is_tainted p session) s.state
          ∙ ap (λ (t : Dict Bool). get_default t session false)
              (conclude-taint (fetch_key pep moment call) moment s.role s.workload_key call s.target
                a)
          ∙ taint_after-get pep.taint call a.final.0 session
          ∙ ap
              (λ (d : Decision).
                ((call.tool == "http.get" && executable d) && call.session_id == session)
                || is_tainted pep session)
              final
    ]

stays_tainted :
    (setup : Setup) (pep : Pep) (moment : Moment) (call : ToolCall) (session : String)
    → is_tainted pep session ≡ true
    → is_tainted (run_pipeline setup pep moment call).0 session ≡ true
stays_tainted setup pep moment call session h =
    elim (Option-cases (run_pipeline setup pep moment call).1) [
      | inl e ↦
          ap (λ (p : Pep). is_tainted p session) (run_pipeline-none setup pep moment call e) ∙ h
      | inr (r, e) ↦ ground (arith, run_pipeline-taint setup pep moment call r session e)
    ]

-- A run of calls, in the order in which they are decided.
unfoldable pub run_all : Setup → Pep → List (Moment × ToolCall) → Pep
run_all setup pep [] = pep
run_all setup pep ((moment, call) ∷ calls) =
    run_all setup (run_pipeline setup pep moment call).0 calls

run_all-tainted :
    (setup : Setup) (pep : Pep) (calls : List (Moment × ToolCall)) (session : String)
    → is_tainted pep session ≡ true
    → is_tainted (run_all setup pep calls) session ≡ true
unfolding run_all
run_all-tainted setup pep [] session h = h
run_all-tainted setup pep ((moment, call) ∷ calls) session h =
    run_all-tainted setup (run_pipeline setup pep moment call).0 calls session
      (stays_tainted setup pep moment call session h)

-- The tools that write.
abbrev pub IsWrite : String → Type 0
IsWrite tool = (tool ≡ "http.post") ⊎ (tool ≡ "email.send")

not_invoke : (tool : String) → IsWrite tool → (tool == "agent.invoke") ≡ false
not_invoke tool (inl e) = rw e refl
not_invoke tool (inr e) = rw e refl

write-denied :
    (bundle : Bundle) (role key tool : String) (args : Arguments) (target : Target)
    → IsWrite tool
    → (policy_stage bundle role key tool args target "tainted").decision ≡ deny
unfolding policy_stage
write-denied bundle role key tool args target w =
    rw (not_invoke tool w) (evaluate-tainted_write bundle _ refl w)

deny-least : (d e : Decision) → e ≡ deny → d ⊑ e → d ≡ deny
deny-least d e q h = ground arith

taint_of-tainted :
    (pep : Pep) (session : String)
    → is_tainted pep session ≡ true
    → taint_of pep session ≡ "tainted"
unfolding taint_of
taint_of-tainted pep session h = rw h refl

tainted_write :
    (setup : Setup) (pep : Pep) (moment : Moment) (call : ToolCall) (r : PipelineResult)
    → is_tainted pep call.session_id ≡ true
    → IsWrite call.tool
    → (run_pipeline setup pep moment call).1 ≡ some r
    → r.decision ≡ deny
unfolding assess
tainted_write setup pep moment call r h w e = elim (run_pipeline-cases setup pep moment call r e) [
  | inl (d, _) ↦ d
  | inr s ↦
      let n =
        IsAssessed-IsNarrowest setup pep moment call (run_pipeline setup pep moment call).0 r s in
      deny-least r.decision
        (assessment setup pep moment call (run_pipeline setup pep moment call).0 r
          s).policy.decision
        (ap
            (λ (t : String).
              (policy_stage setup.bundle s.role s.workload_key call.tool s.arguments s.target
                t).decision)
            (taint_of-tainted (fetch_key pep moment call) call.session_id h)
          ∙ write-denied setup.bundle s.role s.workload_key call.tool s.arguments s.target w)
        n.policy
]

-- After an http.get that got an executable decision, and after any further calls of any callers,
-- every http.post and email.send in the same session is denied.
pub run_all-tainted_write :
    (setup : Setup) (pep : Pep) (first : Moment) (fetch : ToolCall) (fetched : PipelineResult)
    (calls : List (Moment × ToolCall)) (moment : Moment) (call : ToolCall) (r : PipelineResult)
    → (run_pipeline setup pep first fetch).1 ≡ some fetched
    → fetch.tool ≡ "http.get"
    → executable fetched.decision ≡ true
    → fetch.session_id ≡ call.session_id
    → IsWrite call.tool
    → (run_pipeline setup
        (run_all setup (run_pipeline setup pep first fetch).0 calls)
        moment
        call).1
      ≡ some r
    → r.decision ≡ deny
run_all-tainted_write setup pep first fetch fetched calls moment call r got tool x same w e =
    tainted_write setup (run_all setup (run_pipeline setup pep first fetch).0 calls) moment call r
      (run_all-tainted setup (run_pipeline setup pep first fetch).0 calls call.session_id (
        run_pipeline-taint setup pep first fetch fetched call.session_id got
        ∙ ground (
          arith,
          (eq_iff fetch.tool "http.get").1 tool,
          (eq_iff fetch.session_id call.session_id).1 same,
        )))
      w e
