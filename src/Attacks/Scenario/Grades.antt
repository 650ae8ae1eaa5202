-- ===== src/Attacks/Scenario/Grades.antt =====
-- attacks/a1.py to a10.py: when a grade is one of a genuinely verified result.
use ai_agent_security_firewa.Prelude.{String, ◌≡◌, refl, Bool, true, false, ◌&&◌, arith}
use ai_agent_security_firewa.Prelude.Json.{Json, str}
use ai_agent_security_firewa.Attacks.Common.{is_real, is_true, assess_mechanism}
use ai_agent_security_firewa.Attacks.Common.Genuine.{is_text_iff}
use ai_agent_security_firewa.Attacks.Scenario.{Graded, measured, not_attempted}

unfoldable pub is_proven_grade : Graded → Bool
is_proven_grade g = is_real g.status && is_true g.mechanism_match

pub proven-measured :
    (d q : Json) (decision reason : String)
    → is_proven_grade (measured d q decision reason) ≡ true
    → (d ≡ str decision) × (q ≡ str reason)
unfolding is_proven_grade measured is_real is_true assess_mechanism
proven-measured d q decision reason h = ground (arith, is_text_iff d decision, is_text_iff q reason)

pub proven-not_attempted : is_proven_grade not_attempted ≡ false
unfolding is_proven_grade not_attempted is_real
proven-not_attempted = refl
