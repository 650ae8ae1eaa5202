-- ===== src/Attacks/Cascade/Demonstrated.antt =====
-- attacks/a10.py: what a demonstrated cascade shows of the deployment.
use ai_agent_security_firewa.Prelude.{
  ℕ, String, ◌≡◌, refl, ap, sym, ◌∙◌, Bool, true, false, ◌&&◌, Option, none, some, List, Bool-cases,
  inl, inr, arith,
}
use ai_agent_security_firewa.Prelude.Dict.{Dict, get}
use ai_agent_security_firewa.Prelude.Json.{Json, str}
use ai_agent_security_firewa.Pep.Pipeline.State.{Pep}
use ai_agent_security_firewa.Attacks.Common.{
  Live, fetched, LiveCallOutcome, try_live_pep_call_verified,
}
use ai_agent_security_firewa.Attacks.Common.Genuine.{
  IsAttested, try_live-IsMeasured, try_live-IsComplete,
}
use ai_agent_security_firewa.Attacks.Scenario.{grade, measured, value_or_null}
use ai_agent_security_firewa.Attacks.Scenario.Grades.{
  is_proven_grade, proven-measured, proven-not_attempted,
}
use ai_agent_security_firewa.Attacks.Cascade.{
  CascadeCall, CascadeCallResult, CascadeDemoResult, expected_role, call_1, call_2, call_result,
  result_if_any, run_one_call, both, run_a10, is_proven, demonstrates_cascade,
}

-- The deployment replied with a decision and a reason, to a token of a role that its issuer's key verifies.
unfoldable pub IsReply : Live → (role decision reason : String) → Type 0
IsReply live role decision reason =
    (token : List ℕ) × IsAttested live (str role) token
    × (body : Dict Json) × (live.tool_call token ≡ fetched body)
    × (get body "decision" ≡ some (str decision))
    × (get body "reason" ≡ some (str reason))

module _ (live : Live) (role decision reason : String) (o : LiveCallOutcome)
    (e : try_live_pep_call_verified live role ≡ some o) where
  grade-false : o.reachable && o.role_ok ≡ false → is_proven_grade (grade decision reason o) ≡ false
  unfolding grade
  grade-false m = rw m proven-not_attempted

  grade-true :
      (d q : Json)
      → o.reachable && o.role_ok ≡ true
      → o.decision ≡ some d
      → o.reason ≡ some q
      → grade decision reason o ≡ measured d q decision reason
  unfolding grade value_or_null
  grade-true d q m p r = rw (m, p, r) refl

  grade-IsReply :
      is_proven_grade (grade decision reason o) ≡ true → IsReply live role decision reason
  unfolding IsReply
  grade-IsReply h = elim (try_live-IsComplete live role o e) [
    | inl m ↦ absurd (cc (grade-false m))
    | inr (d, q, p, r) ↦ elim (Bool-cases (o.reachable && o.role_ok)) [
      | inl m ↦
          let (is_d, is_q) =
            proven-measured d q decision reason
              (ap is_proven_grade (sym (grade-true d q m p r)) ∙ h) in
          let (token, a, body, b, f, g) = try_live-IsMeasured live role o d e p in
          (
            token,
            a,
            body,
            b,
            f ∙ ap (λ (v : Json). some v) is_d,
            g ∙ r ∙ ap (λ (v : Json). some v) is_q,
          )
      | inr m ↦ absurd (cc (grade-false m))
    ]
  ]

outcome-IsReply :
    (c : CascadeCall) (live : Live) (o : Option LiveCallOutcome)
    → try_live_pep_call_verified live expected_role ≡ o
    → is_proven (result_if_any c o) ≡ true
    → IsReply live expected_role c.expected_decision c.expected_reason
unfolding result_if_any is_proven call_result
outcome-IsReply c live none e h = absurd (cc h)
outcome-IsReply c live (some o) e h =
    grade-IsReply live expected_role c.expected_decision c.expected_reason o e
      (unfold is_proven_grade in h)

call-IsReply :
    (c : CascadeCall) (live : Live)
    → is_proven (run_one_call c live) ≡ true
    → IsReply live expected_role c.expected_decision c.expected_reason
unfolding run_one_call
call-IsReply c live h =
    outcome-IsReply c live (try_live_pep_call_verified live expected_role) refl h

shows : Option CascadeDemoResult → Bool
unfolding demonstrates_cascade
shows none = false
shows (some r) = demonstrates_cascade r

both-proven :
    (s t : Option CascadeCallResult)
    → shows (both s t) ≡ true
    → (is_proven s ≡ true) × (is_proven t ≡ true)
unfolding both shows demonstrates_cascade
both-proven none t h = absurd (cc h)
both-proven (some a) none h = absurd (cc h)
both-proven (some a) (some b) h = ground arith

-- A run that demonstrates the cascade has had both replies from the deployment, each to a token of
-- research_agent: DENY for no_matching_rule to the first call, and DENY for AGENT_QUARANTINED to the second.
pub run_a10-IsReply :
    (first second : Live) (pep : Pep) (r : CascadeDemoResult)
    → (run_a10 first second pep).1 ≡ some r
    → demonstrates_cascade r ≡ true
    → IsReply first "research_agent" "DENY" "no_matching_rule"
      × IsReply second "research_agent" "DENY" "AGENT_QUARANTINED"
unfolding run_a10 shows
run_a10-IsReply first second pep r e h =
    let (p, q) =
      both-proven (run_one_call call_1 first) (run_one_call call_2 second) (ap shows e ∙ h) in
    (call-IsReply call_1 first p, call-IsReply call_2 second q)
