-- ===== src/Attacks/Scenario.antt =====
-- attacks/a1.py to a5.py, a7.py and a8.py: a demonstration that makes one call of the deployment. The
-- constants of each script are in Attacks/Scenario/Scripts. That the quarantine calls of a7 are shown is not
-- modelled.
pub mod Scripts
pub mod Grades
pub mod Honest
mod Tests
use ai_agent_security_firewa.Prelude.{
  ℕ, String, Bool, true, false, ◌&&◌, Option, none, some, List, [], ◌∷◌, if◌then◌else◌,
}
use ai_agent_security_firewa.Prelude.Json.{Json, null, str}
use ai_agent_security_firewa.Events.Store.{Event}
use ai_agent_security_firewa.Risk.Scorer.{Piece, Factor}
use ai_agent_security_firewa.Identity.Tokens.{Codec}
use ai_agent_security_firewa.Pep.Pipeline.State.{Setup, Pep, Moment, PipelineResult}
use ai_agent_security_firewa.Pep.Pipeline.Targets.{Arguments}
use ai_agent_security_firewa.Pep.Proxy.{Logging}
use ai_agent_security_firewa.Attacks.Common.{
  Status, real_docker_verified, test_only, unverified, AttackResult, Note, from_live, unreached,
  replayed, assess_mechanism, Live, LiveCallOutcome, try_live_pep_call_verified,
}
use ai_agent_security_firewa.Attacks.Replay.{LocalCall, reset_process_state, run_locally}

-- The constants of a script: its call, with the role and the service that make it, what the call is expected
-- to give, and the texts of the report.
pub record Scenario : Type 0 where
  pub tool : String
  pub arguments : Arguments
  pub session_id : String
  pub expected_role : String
  pub service : String
  pub expected_decision : String
  pub expected_reason : String
  pub attack_id : String
  pub description : String
  pub category : String
  pub attempted : String
  pub identity_desc : String
  pub destination : String
  pub stage : String

-- The process that a script runs in: what `run_locally` takes, for each of its calls.
pub record Process : Type 0 where
  pub codec : Codec
  pub setup : Setup
  pub render : List Piece → String
  pub logs : ℕ → Logging
  pub moments : ℕ → Moment

abbrev pub Replayed : Type 0
Replayed = Pep × Option (PipelineResult × Event)

-- run_locally, as the script's i-th call
unfoldable pub replay : Process → ℕ → LocalCall → Pep → Replayed
replay p i call pep = run_locally p.codec p.setup p.render (p.logs i) (p.moments i) call pep

unfoldable pub local_call : Scenario → LocalCall
local_call s = record {
  role = s.expected_role;
  service = s.service;
  tool = s.tool;
  arguments = s.arguments;
  session_id = s.session_id;
}

-- What the result takes from the deployment.
pub record Graded : Type 0 where
  pub status : Status
  pub decision : Json
  pub reason : Json
  pub mechanism_match : Option Bool

unfoldable pub value_or_null : Option Json → Json
value_or_null none = null
value_or_null (some v) = v

unfoldable pub not_attempted : Graded
not_attempted = record {
  status = unverified;
  decision = str "NOT_ATTEMPTED";
  reason = str "real_docker_path_unreachable";
  mechanism_match = none;
}

unfoldable pub measured :
    (decision reason : Json) (expected_decision expected_reason : String) → Graded
measured decision reason expected_decision expected_reason = record {
  status = real_docker_verified;
  decision = decision;
  reason = reason;
  mechanism_match = some (assess_mechanism decision reason expected_decision expected_reason);
}

-- if live.reachable and live.role_ok
unfoldable pub grade : String → String → LiveCallOutcome → Graded
unfolding value_or_null measured not_attempted
grade expected_decision expected_reason live =
    if live.reachable && live.role_ok
    then measured (value_or_null live.decision) (value_or_null live.reason) expected_decision
        expected_reason
    else not_attempted

notes_of : Status → LiveCallOutcome → PipelineResult → List Note
unfolding value_or_null
notes_of real_docker_verified live result = from_live (value_or_null live.attested_role) ∷ []
notes_of _ live result = unreached ∷ replayed result.decision result.reason result.policy_id ∷ []

-- The AttackResult: the verdict of the deployment, and what the replay tells besides.
unfoldable pub result_from : Scenario → Graded → List Note → PipelineResult → Event → AttackResult
result_from s g notes result event = record {
  attack_id = s.attack_id;
  description = s.description;
  category = s.category;
  attempted = s.attempted;
  identity_desc = s.identity_desc;
  destination = s.destination;
  stage = s.stage;
  policy_id = result.policy_id;
  reason = g.reason;
  risk_score = result.risk_score;
  risk_factors = result.risk_factors;
  decision = g.decision;
  event = event;
  notes = notes;
  verification_status = g.status;
  expected_decision = some s.expected_decision;
  expected_reason = some s.expected_reason;
  mechanism_match = g.mechanism_match;
}

unfoldable pub report_call : Scenario → LiveCallOutcome → PipelineResult → Event → AttackResult
unfolding notes_of
report_call s live result event =
    let g = grade s.expected_decision s.expected_reason live in
    result_from s g (notes_of g.status live result) result event

unfoldable pub after_replay :
    (PipelineResult → Event → AttackResult) → Replayed → Pep × Option AttackResult
after_replay reported (pep, none) = (pep, none)
after_replay reported (pep, some (result, event)) = (pep, some (reported result event))

-- The replay comes after the call of the deployment.
unfoldable pub after_live :
    (LiveCallOutcome → PipelineResult → Event → AttackResult)
    → (Pep → Replayed)
    → Pep
    → Option LiveCallOutcome
    → Pep × Option AttackResult
unfolding after_replay
after_live reported replaying pep none = (pep, none)
after_live reported replaying pep (some live) = after_replay (reported live) (replaying pep)

-- run of a script with one call; none where it raises
unfoldable pub run_scenario : Process → Scenario → Live → Pep → Pep × Option AttackResult
unfolding after_live
run_scenario p s live pep =
    after_live (report_call s) (replay p 0 (local_call s)) (reset_process_state pep)
      (try_live_pep_call_verified live s.expected_role)

-- a3.py: the call that taints the session, and then the one under test.
unfoldable pub replay_both : Process → Scenario → Scenario → Pep → Replayed
replay_both p first s pep =
    let (pep', fetched) = replay p 0 (local_call first) pep in
    elim fetched [ none ↦ (pep', none) | some _ ↦ replay p 1 (local_call s) pep' ]

unfoldable pub run_a3 : Process → Scenario → Scenario → Live → Pep → Pep × Option AttackResult
unfolding after_live
run_a3 p first s live pep =
    after_live (report_call s) (replay_both p first s) (reset_process_state pep)
      (try_live_pep_call_verified live s.expected_role)

-- a4.py: what the replay gives is left out of a result that is not the deployment's.
only_measured {ℓ} : {A : Type ℓ} → Status → A → A → A
only_measured real_docker_verified shown hidden = shown
only_measured _ shown hidden = hidden

unfoldable pub without_replay : AttackResult → AttackResult
unfolding only_measured
without_replay r = record r {
  policy_id = only_measured r.verification_status r.policy_id "N/A";
  risk_score = only_measured r.verification_status r.risk_score 0;
  risk_factors = only_measured r.verification_status r.risk_factors [];
}

unfoldable pub run_a4 : Process → Scenario → Live → Pep → Pep × Option AttackResult
unfolding after_live
run_a4 p s live pep =
    after_live (λ o result event. without_replay (report_call s o result event))
      (replay p 0 (local_call s)) (reset_process_state pep)
      (try_live_pep_call_verified live s.expected_role)

-- a8.py: the report names the canonical form of its URL, and that of the mirrored one is computed too.
with_forms :
    Process → Scenario → Live → Pep → Option String → Option String → Pep × Option AttackResult
unfolding run_scenario
with_forms p s live pep (some canonical) (some mirror) =
    run_scenario p (record s { destination = canonical }) live pep
with_forms p s live pep _ _ = (reset_process_state pep, none)

unfoldable pub run_a8 :
    Process → Scenario → (raw mirror : String) → Live → Pep → Pep × Option AttackResult
unfolding with_forms
run_a8 p s raw mirror live pep =
    with_forms p s live pep (p.setup.canonical.normalize_url raw)
      (p.setup.canonical.normalize_url mirror)
