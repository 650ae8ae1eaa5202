-- ===== src/Attacks/Scenario/Honest.antt =====
-- attacks/a1.py to a5.py, a7.py and a8.py: what the result of a script says of the deployment.
use ai_agent_security_firewa.Prelude.{
  ℕ, String, ◌≡◌, refl, sym, subst, ◌∙◌, ◌↔◌, ◌⊎◌, true, false, ◌&&◌, Option, none, some, List,
  if◌then◌else◌, Bool-cases, inl, inr,
}
use ai_agent_security_firewa.Prelude.Dict.{Dict, get}
use ai_agent_security_firewa.Prelude.Json.{Json, str}
use ai_agent_security_firewa.Events.Store.{Event}
use ai_agent_security_firewa.Policy.Decision.{name}
use ai_agent_security_firewa.Pep.Pipeline.State.{Pep, PipelineResult}
use ai_agent_security_firewa.Attacks.Common.{
  AttackResult, unverified, genuinely_verified, mechanism_exit_code, is_blocked, Live, fetched,
  LiveCallOutcome, try_live_pep_call_verified,
}
use ai_agent_security_firewa.Attacks.Common.Genuine.{
  IsAttested, genuinely_verified_iff, try_live-IsMeasured, try_live-IsComplete,
}
use ai_agent_security_firewa.Attacks.Replay.{reset_process_state}
use ai_agent_security_firewa.Attacks.Scenario.{
  Scenario, Process, Replayed, Graded, report_call, after_replay, after_live, run_scenario, run_a3,
  run_a4, run_a8, without_replay, with_forms, grade, notes_of, result_from, measured, value_or_null,
  not_attempted, replay, replay_both, local_call,
}
use ai_agent_security_firewa.Attacks.Scenario.Scripts.{
  Script, script_1, script_2, script_3, script_4, script_5, script_7, script_8, scenario_of, a1, a2,
  a3, a3_fetch, a4, a5, a7, a8, a8_raw, a8_mirror, run_script,
}

-- The verdict is the deployment's reply to a token of the scenario's role, and is genuinely verified exactly
-- if it is the expected one; another verdict makes the exit code 1.
unfoldable pub IsReplied : Scenario → Live → AttackResult → Type 0
IsReplied s live r =
    (token : List ℕ) × IsAttested live (str s.expected_role) token
    × (body : Dict Json) × (live.tool_call token ≡ fetched body)
    × (get body "decision" ≡ some r.decision)
    × (get body "reason" ≡ some r.reason)
    × ((genuinely_verified r ≡ true)
        ↔ ((r.decision ≡ str s.expected_decision) × (r.reason ≡ str s.expected_reason)))
    × (mechanism_exit_code r ≡ (if genuinely_verified r then 0 else 1))

-- Nothing is claimed.
unfoldable pub IsUnreached : AttackResult → Type 0
IsUnreached r =
    (r.verification_status ≡ unverified)
    × (r.decision ≡ str "NOT_ATTEMPTED")
    × (is_blocked r ≡ false)
    × (genuinely_verified r ≡ false)
    × (mechanism_exit_code r ≡ 0)

-- Either of the two.
unfoldable pub IsHonest : Scenario → Live → AttackResult → Type 0
IsHonest s live r = IsReplied s live r ⊎ IsUnreached r

-- The result from what was graded, so that the grade can be computed first.
module _ (s : Scenario) (live : Live) (o : LiveCallOutcome) (result : PipelineResult)
    (event : Event) (e : try_live_pep_call_verified live s.expected_role ≡ some o) where
  graded : Graded → AttackResult
  graded g = result_from s g (notes_of g.status o result) result event

  measured-IsReplied :
      (d q : Json)
      → o.decision ≡ some d
      → o.reason ≡ some q
      → IsReplied s live (graded (measured d q s.expected_decision s.expected_reason))
  unfolding graded result_from measured IsReplied
  measured-IsReplied d q p r =
      let (token, a, body, b, f, g) = try_live-IsMeasured live s.expected_role o d e p in
      let (h, k) =
        genuinely_verified_iff (graded (measured d q s.expected_decision s.expected_reason))
          s.expected_decision s.expected_reason refl refl in
      (token, a, body, b, f, g ∙ r, h, k)

  not_attempted-IsUnreached : IsUnreached (graded not_attempted)
  unfolding graded result_from not_attempted IsUnreached is_blocked genuinely_verified
      mechanism_exit_code name
  not_attempted-IsUnreached = (refl, refl, refl, refl, refl)

  grade-measured :
      (d q : Json)
      → o.reachable && o.role_ok ≡ true
      → o.decision ≡ some d
      → o.reason ≡ some q
      → grade s.expected_decision s.expected_reason o
        ≡ measured d q s.expected_decision s.expected_reason
  unfolding grade value_or_null
  grade-measured d q m p r = rw (m, p, r) refl

  grade-not_attempted :
      o.reachable && o.role_ok ≡ false
      → grade s.expected_decision s.expected_reason o ≡ not_attempted
  unfolding grade
  grade-not_attempted m = rw m refl

  report-IsHonest : IsHonest s live (report_call s o result event)
  unfolding report_call graded IsHonest
  report-IsHonest = elim (try_live-IsComplete live s.expected_role o e) [
    | inl m ↦ inr (
        subst (λ g. IsUnreached (graded g)) (sym (grade-not_attempted m)) not_attempted-IsUnreached)
    | inr (d, q, p, r) ↦ elim (Bool-cases (o.reachable && o.role_ok)) [
      | inl m ↦ inl (
          subst (λ g. IsReplied s live (graded g)) (sym (grade-measured d q m p r))
            (measured-IsReplied d q p r))
      | inr m ↦ inr (
          subst (λ g. IsUnreached (graded g)) (sym (grade-not_attempted m))
            not_attempted-IsUnreached)
    ]
  ]

  -- A4's result has the same verdict.
  without_replay-IsHonest : IsHonest s live (without_replay (report_call s o result event))
  unfolding IsHonest IsReplied IsUnreached without_replay genuinely_verified mechanism_exit_code
      is_blocked
  without_replay-IsHonest = report-IsHonest

IsHonestIfAny : Scenario → Live → Option AttackResult → Type 0
IsHonestIfAny s live none = Unit
IsHonestIfAny s live (some r) = IsHonest s live r

replay-IsHonest :
    (s : Scenario) (live : Live) (reported : PipelineResult → Event → AttackResult)
    → ((result : PipelineResult) (event : Event) → IsHonest s live (reported result event))
    → (replayed : Replayed) → IsHonestIfAny s live (after_replay reported replayed).1
unfolding after_replay IsHonestIfAny
replay-IsHonest s live reported h (pep, none) = tt
replay-IsHonest s live reported h (pep, some (result, event)) = h result event

live-IsHonest :
    (s : Scenario) (live : Live)
    (reported : LiveCallOutcome → PipelineResult → Event → AttackResult)
    (replaying : Pep → Replayed) (pep : Pep) (o : Option LiveCallOutcome)
    → ((out : LiveCallOutcome)
        → o ≡ some out
        → (result : PipelineResult) (event : Event) → IsHonest s live (reported out result event))
    → IsHonestIfAny s live (after_live reported replaying pep o).1
unfolding after_live IsHonestIfAny
live-IsHonest s live reported replaying pep none h = tt
live-IsHonest s live reported replaying pep (some out) h =
    replay-IsHonest s live (reported out) (h out refl) (replaying pep)

scenario-IsHonest :
    (p : Process) (s : Scenario) (live : Live) (pep : Pep)
    → IsHonestIfAny s live (run_scenario p s live pep).1
unfolding run_scenario
scenario-IsHonest p s live pep =
    live-IsHonest s live (report_call s) (replay p 0 (local_call s)) (reset_process_state pep)
      (try_live_pep_call_verified live s.expected_role)
      (λ o e result event. report-IsHonest s live o result event e)

a3-IsHonest :
    (p : Process) (first s : Scenario) (live : Live) (pep : Pep)
    → IsHonestIfAny s live (run_a3 p first s live pep).1
unfolding run_a3
a3-IsHonest p first s live pep =
    live-IsHonest s live (report_call s) (replay_both p first s) (reset_process_state pep)
      (try_live_pep_call_verified live s.expected_role)
      (λ o e result event. report-IsHonest s live o result event e)

a4-IsHonest :
    (p : Process) (s : Scenario) (live : Live) (pep : Pep)
    → IsHonestIfAny s live (run_a4 p s live pep).1
unfolding run_a4
a4-IsHonest p s live pep =
    live-IsHonest s live (λ o result event. without_replay (report_call s o result event))
      (replay p 0 (local_call s)) (reset_process_state pep)
      (try_live_pep_call_verified live s.expected_role)
      (λ o e result event. without_replay-IsHonest s live o result event e)

-- The destination has no part in it.
destination-IsHonest :
    (s : Scenario) (live : Live) (url : String) (r : Option AttackResult)
    → IsHonestIfAny (record s { destination = url }) live r
    → IsHonestIfAny s live r
unfolding IsHonestIfAny IsHonest IsReplied
destination-IsHonest s live url none h = tt
destination-IsHonest s live url (some r) h = h

forms-IsHonest :
    (p : Process) (s : Scenario) (live : Live) (pep : Pep) (raw mirror : Option String)
    → IsHonestIfAny s live (with_forms p s live pep raw mirror).1
unfolding with_forms IsHonestIfAny
forms-IsHonest p s live pep (some url) (some mirror) =
    destination-IsHonest s live url (run_scenario p (record s { destination = url }) live pep).1
      (scenario-IsHonest p (record s { destination = url }) live pep)
forms-IsHonest p s live pep (some url) none = tt
forms-IsHonest p s live pep none mirror = tt

script-IsHonest :
    (script : Script) (p : Process) (live : Live) (pep : Pep)
    → IsHonestIfAny (scenario_of script) live (run_script script p live pep).1
unfolding run_script run_a8
script-IsHonest script_1 p live pep = scenario-IsHonest p a1 live pep
script-IsHonest script_2 p live pep = scenario-IsHonest p a2 live pep
script-IsHonest script_3 p live pep = a3-IsHonest p a3_fetch a3 live pep
script-IsHonest script_4 p live pep = a4-IsHonest p a4 live pep
script-IsHonest script_5 p live pep = scenario-IsHonest p a5 live pep
script-IsHonest script_7 p live pep = scenario-IsHonest p a7 live pep
script-IsHonest script_8 p live pep =
    forms-IsHonest p a8 live pep (p.setup.canonical.normalize_url a8_raw)
      (p.setup.canonical.normalize_url a8_mirror)

-- The result of each script, A1 to A5, A7 and A8, is one of two. Either the proxy replied with its decision and
-- reason to a token with the scenario's role, that verified with the issuer's key: then it is genuinely
-- verified exactly if both are the expected ones, and the exit code is 1 if not. Or it is UNVERIFIED: then
-- it says NOT_ATTEMPTED, neither blocked nor genuinely verified, and the exit code is 0.
pub run_script-IsHonest :
    (script : Script) (p : Process) (live : Live) (pep : Pep) (r : AttackResult)
    → (run_script script p live pep).1 ≡ some r
    → IsHonest (scenario_of script) live r
unfolding IsHonestIfAny
run_script-IsHonest script p live pep r e =
    subst (IsHonestIfAny (scenario_of script) live) e (script-IsHonest script p live pep)
