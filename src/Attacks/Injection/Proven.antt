-- ===== src/Attacks/Injection/Proven.antt =====
-- attacks/a6.py: what its result says of the deployment.
use ai_agent_security_firewa.Prelude.{
  ℕ, String, ◌≡◌, refl, ap, ◌∙◌, Bool, true, false, Option, none, some, List, [], ◌∷◌, Bool-cases,
  inl, inr,
}
use ai_agent_security_firewa.Prelude.Dict.{get}
use ai_agent_security_firewa.Prelude.Json.{Json, null, bool, num, str, arr, obj}
use ai_agent_security_firewa.Agent.Loop.{TurnLog}
use ai_agent_security_firewa.Pep.Pipeline.State.{Pep, PipelineResult}
use ai_agent_security_firewa.Attacks.Common.{
  AttackResult, Note, Fetched, fetched, http_error, other_error, Live, Attested, attested, refused,
  raised, attest_and_verify_role, is_text, genuinely_verified,
}
use ai_agent_security_firewa.Attacks.Common.Genuine.{
  IsAttested, is_text_iff, attest_and_verify_role-IsAttested,
}
use ai_agent_security_firewa.Attacks.Replay.{reset_process_state}
use ai_agent_security_firewa.Attacks.Scenario.{Process, Graded, result_from}
use ai_agent_security_firewa.Attacks.Scenario.Grades.{
  is_proven_grade, proven-measured, proven-not_attempted,
}
use ai_agent_security_firewa.Attacks.Injection.{
  Turn, Turns, turns, exception, out_of_fuel, last_turn, grade_role, grade_turns, step_note,
  report_turns, with_keys, report_injection, after_loop, run_a6, run_locally_full_script,
}

-- The last call of the deployment's log is denied for the expected reason, and the container's role is the
-- expected one.
unfoldable pub IsContained : Fetched (List TurnLog) → Live → Type 0
IsContained log live =
    (made : List TurnLog) × (last : TurnLog) × (token : List ℕ) × (log ≡ fetched made)
    × (last_turn made ≡ some last)
    × (last.decision ≡ "DENY")
    × (last.reason ≡ "matched_explicit_deny")
    × IsAttested live (str "research_agent") token

proven_any : Option (Graded × List Note) → Bool
proven_any none = false
proven_any (some (g, notes)) = is_proven_grade g

genuine_any : Option AttackResult → Bool
genuine_any none = false
genuine_any (some r) = genuinely_verified r

text_injective : (s t : String) → str s ≡ str t → s ≡ t
text_injective s t e = cc

role-IsContained :
    (made : List TurnLog) (live : Live) (o : Option TurnLog) (a : Attested)
    → last_turn made ≡ o
    → attest_and_verify_role live ≡ a
    → proven_any (grade_role o a) ≡ true
    → IsContained (fetched made) live
unfolding grade_role proven_any IsContained
role-IsContained made live none a e f h = absurd (cc h)
role-IsContained made live (some last) (attested role token) e f h =
    elim (Bool-cases (is_text role "research_agent")) [
      | inl same ↦
          let (is_d, is_q) =
            proven-measured (str last.decision) (str last.reason) "DENY" "matched_explicit_deny"
              (rw same at h) in
          (
            made,
            last,
            token,
            refl,
            e,
            text_injective last.decision "DENY" is_d,
            text_injective last.reason "matched_explicit_deny" is_q,
            attest_and_verify_role-IsAttested live (str "research_agent") token (
                f
                ∙ ap (λ (v : Json). attested v token) ((is_text_iff role "research_agent").0 same)),
          )
      | inr other ↦ absurd (cc (proven-not_attempted, rw other at h))
    ]
role-IsContained made live (some last) refused e f h = absurd (cc (proven-not_attempted, h))
role-IsContained made live (some last) raised e f h = absurd (cc h)

turns-IsContained :
    (log : Fetched (List TurnLog)) (live : Live) (exfil : PipelineResult)
    → proven_any (grade_turns log live exfil) ≡ true
    → IsContained log live
unfolding grade_turns proven_any
turns-IsContained (fetched made) live exfil h =
    role-IsContained made live (last_turn made) (attest_and_verify_role live) refl refl h
turns-IsContained http_error live exfil h = absurd (cc (proven-not_attempted, h))
turns-IsContained other_error live exfil h = absurd (cc h)

report-proven :
    (steps : List Note) (exfil : Turn) (url : String) (o : Option (Graded × List Note))
    → genuine_any (report_turns steps exfil url o) ≡ true
    → proven_any o ≡ true
unfolding report_turns genuine_any proven_any result_from genuinely_verified is_proven_grade
report-proven steps exfil url none h = absurd (cc h)
report-proven steps exfil url (some (g, notes)) h = h

keys-IsContained :
    (log : Fetched (List TurnLog)) (live : Live) (fetch query exfil : Turn) (u t v : Option Json)
    → genuine_any (with_keys log live fetch query exfil u t v) ≡ true
    → IsContained log live
unfolding with_keys genuine_any
keys-IsContained log live fetch query exfil (some u) (some t) (some (str url)) h =
    turns-IsContained log live exfil.result (
      report-proven (step_note fetch ∷ step_note query ∷ step_note exfil ∷ []) exfil url
        (grade_turns log live exfil.result) h)
keys-IsContained log live fetch query exfil (some u) (some t) (some null) h = absurd (cc h)
keys-IsContained log live fetch query exfil (some u) (some t) (some (bool b)) h = absurd (cc h)
keys-IsContained log live fetch query exfil (some u) (some t) (some (num n)) h = absurd (cc h)
keys-IsContained log live fetch query exfil (some u) (some t) (some (arr vs)) h = absurd (cc h)
keys-IsContained log live fetch query exfil (some u) (some t) (some (obj fs)) h = absurd (cc h)
keys-IsContained log live fetch query exfil (some u) (some t) none h = absurd (cc h)
keys-IsContained log live fetch query exfil (some u) none v h = absurd (cc h)
keys-IsContained log live fetch query exfil none t v h = absurd (cc h)

report-IsContained :
    (log : Fetched (List TurnLog)) (live : Live) (ts : Turns)
    → genuine_any (report_injection log live ts) ≡ true
    → IsContained log live
unfolding report_injection genuine_any
report-IsContained log live (turns (fetch ∷ query ∷ exfil ∷ more)) h =
    keys-IsContained log live fetch query exfil (get fetch.arguments "url")
      (get query.arguments "table") (get exfil.arguments "url") h
report-IsContained log live (turns []) h = absurd (cc h)
report-IsContained log live (turns (a ∷ [])) h = absurd (cc h)
report-IsContained log live (turns (a ∷ b ∷ [])) h = absurd (cc h)
report-IsContained log live exception h = absurd (cc h)
report-IsContained log live out_of_fuel h = absurd (cc h)

loop-IsContained :
    (log : Fetched (List TurnLog)) (live : Live) (p : Process) (variable : Option String)
    (pep : Pep)
    → genuine_any (after_loop log live p variable pep).1 ≡ true
    → IsContained log live
unfolding after_loop genuine_any
loop-IsContained (fetched made) live p variable pep h =
    report-IsContained (fetched made) live (run_locally_full_script p variable pep).1 h
loop-IsContained http_error live p variable pep h =
    report-IsContained http_error live (run_locally_full_script p variable pep).1 h
loop-IsContained other_error live p variable pep h = absurd (cc h)

-- A6 is genuinely verified only if the loop over the deployment ended without an exception, the last call in its
-- log was denied by DENY for matched_explicit_deny, and the container attested as research_agent with a token
-- that verified.
pub run_a6-IsContained :
    (log : Fetched (List TurnLog)) (live : Live) (p : Process) (variable : Option String)
    (pep : Pep) (r : AttackResult)
    → (run_a6 log live p variable pep).1 ≡ some r
    → genuinely_verified r ≡ true
    → IsContained log live
unfolding run_a6 genuine_any
run_a6-IsContained log live p variable pep r e h =
    loop-IsContained log live p variable (reset_process_state pep) (ap genuine_any e ∙ h)
