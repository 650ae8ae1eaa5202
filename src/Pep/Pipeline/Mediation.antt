-- ===== src/Pep/Pipeline/Mediation.antt =====
-- pep/pipeline.py: what stands behind a result. A call is either denied early or assessed by every
-- stage, and only the second kind can execute.
use mathlib.Core.Option.{some-injective}
use ai_agent_security_firewa.Prelude.{
  String, ◌≡◌, ◌⊎◌, inl, inr, refl, ap, sym, Bool, true, false, Option, none, some,
}
use ai_agent_security_firewa.Policy.Decision.{deny}
use ai_agent_security_firewa.Pep.Quarantine.{is_quarantined}
use ai_agent_security_firewa.Pep.Pipeline.Targets.{
  Arguments, normalize_arguments, Target, extract_target,
}
use ai_agent_security_firewa.Pep.Pipeline.Identify.{Identified, accepted, rejected, raised}
use ai_agent_security_firewa.Pep.Pipeline.{
  conclude, result_of, with_target, with_arguments, at_gate, at_identity, identify, fetch_key,
  run_pipeline,
}
use ai_agent_security_firewa.Pep.Pipeline.Assess.{assess}
use ai_agent_security_firewa.Pep.Pipeline.State.{
  Setup, Pep, Moment, ToolCall, PipelineResult, deny_early,
}

-- The result is a denial before the stages, for the identity or for the quarantine gate.
abbrev pub IsDeniedEarly : Setup → Pep → Moment → ToolCall → Pep → PipelineResult → Type 0
IsDeniedEarly setup pep moment call after r =
    (r.decision ≡ deny) × (after ≡ fetch_key pep moment call)

-- The result comes from the assessment of a caller that is identified and not in quarantine.
pub record IsAssessed (setup : Setup) (pep : Pep) (moment : Moment) (call : ToolCall) (after : Pep)
    (r : PipelineResult) : Type 0 where
  pub role : String
  pub agent_key : String
  pub workload_key : String
  pub arguments : Arguments
  pub target : Target
  pub identified : identify setup pep moment call ≡ accepted role agent_key workload_key
  pub gate : is_quarantined workload_key moment.check_up pep.store ≡ some false
  pub normalized : normalize_arguments setup.canonical call.tool call.arguments ≡ some arguments
  pub targeted : extract_target setup.canonical call.tool arguments ≡ some target
  pub result :
      r
      ≡ result_of role agent_key arguments
          (assess setup (fetch_key pep moment call) moment role workload_key call arguments target)
  pub state :
      after
      ≡ conclude
          (fetch_key pep moment call)
          moment
          role
          workload_key
          call
          target
          (assess setup (fetch_key pep moment call) moment role workload_key call arguments target)

module _ (setup : Setup) (pep : Pep) (moment : Moment) (call : ToolCall) (r : PipelineResult) where
  fetched : Pep
  fetched = fetch_key pep moment call

  abbrev Outcome : Pep × Option PipelineResult → Type 0
  Outcome (after, result) =
      IsDeniedEarly setup pep moment call after r ⊎ IsAssessed setup pep moment call after r

  at_target :
      (role agent_key workload_key : String) (args : Arguments)
      → identify setup pep moment call ≡ accepted role agent_key workload_key
      → is_quarantined workload_key moment.check_up pep.store ≡ some false
      → normalize_arguments setup.canonical call.tool call.arguments ≡ some args
      → (t : Option Target) → extract_target setup.canonical call.tool args ≡ t
      → (with_target setup
          (fetch_key pep moment call)
          moment
          role
          agent_key
          workload_key
          call
          args
          t).1
        ≡ some r
      → Outcome (
          with_target setup
            (fetch_key pep moment call)
            moment
            role
            agent_key
            workload_key
            call
            args
            t)
  unfolding with_target
  at_target role agent_key workload_key args i g n none t e = cc
  at_target role agent_key workload_key args i g n (some target) t e = inr (record {
    role = role;
    agent_key = agent_key;
    workload_key = workload_key;
    arguments = args;
    target = target;
    identified = i;
    gate = g;
    normalized = n;
    targeted = t;
    result = sym (some-injective _ _ e);
    state = refl;
  })

  at_arguments :
      (role agent_key workload_key : String)
      → identify setup pep moment call ≡ accepted role agent_key workload_key
      → is_quarantined workload_key moment.check_up pep.store ≡ some false
      → (o : Option Arguments) → normalize_arguments setup.canonical call.tool call.arguments ≡ o
      → (with_arguments setup
          (fetch_key pep moment call)
          moment
          role
          agent_key
          workload_key
          call
          o).1
        ≡ some r
      → Outcome (
          with_arguments setup
            (fetch_key pep moment call)
            moment
            role
            agent_key
            workload_key
            call
            o)
  unfolding with_arguments
  at_arguments role agent_key workload_key i g none n e = cc
  at_arguments role agent_key workload_key i g (some args) n e =
      at_target role agent_key workload_key args i g n
        (extract_target setup.canonical call.tool args) refl e

  gated :
      (role agent_key workload_key : String)
      → identify setup pep moment call ≡ accepted role agent_key workload_key
      → (o : Option Bool) → is_quarantined workload_key moment.check_up pep.store ≡ o
      → (at_gate setup (fetch_key pep moment call) moment role agent_key workload_key call o).1
        ≡ some r
      → Outcome
          (at_gate setup (fetch_key pep moment call) moment role agent_key workload_key call o)
  unfolding at_gate deny_early
  gated role agent_key workload_key i none g e =
      inl (sym (ap (λ (q : PipelineResult). q.decision) (some-injective _ _ e)), refl)
  gated role agent_key workload_key i (some true) g e =
      inl (sym (ap (λ (q : PipelineResult). q.decision) (some-injective _ _ e)), refl)
  gated role agent_key workload_key i (some false) g e =
      at_arguments role agent_key workload_key i g
        (normalize_arguments setup.canonical call.tool call.arguments) refl e

  identified :
      (i : Identified)
      → identify setup pep moment call ≡ i
      → (at_identity setup (fetch_key pep moment call) moment call i).1 ≡ some r
      → Outcome (at_identity setup (fetch_key pep moment call) moment call i)
  unfolding at_identity deny_early
  identified raised q e = cc
  identified (rejected key reason) q e =
      inl (sym (ap (λ (s : PipelineResult). s.decision) (some-injective _ _ e)), refl)
  identified (accepted role agent_key workload_key) q e =
      gated role agent_key workload_key q (is_quarantined workload_key moment.check_up pep.store)
        refl e

  pub run_pipeline-cases :
      (run_pipeline setup pep moment call).1 ≡ some r
      → IsDeniedEarly setup pep moment call (run_pipeline setup pep moment call).0 r
        ⊎ IsAssessed setup pep moment call (run_pipeline setup pep moment call).0 r
  unfolding run_pipeline
  run_pipeline-cases e = identified (identify setup pep moment call) refl e
