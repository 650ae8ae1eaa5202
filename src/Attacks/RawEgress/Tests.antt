-- ===== src/Attacks/RawEgress/Tests.antt =====
-- attacks/a9.py: a refused tunnel, another answer, and no answer.
use ai_agent_security_firewa.Prelude.{◌≡◌, refl, false, some, ◌∷◌, ◌++◌}
use ai_agent_security_firewa.Prelude.Text.{codes}
use ai_agent_security_firewa.Events.Store.{empty}
use ai_agent_security_firewa.Attacks.Common.{assess_mechanism, is_text}
use ai_agent_security_firewa.Attacks.RawEgress.{
  Local, run_a9, try_live_raw_connect, first_line, ends_line, has_part,
}

abbrev local : Local
local = record {
  stamp = record { timestamp = "t"; trace_id = "i" };
  up = false;
  fault = false;
  store = empty;
}

first :
    first_line (codes "HTTP/1.1 403 Forbidden" ++ 13 ∷ 10 ∷ codes "x")
    ≡ codes "HTTP/1.1 403 Forbidden"
unfolding first_line ends_line
first = refl

other_answer : (run_a9 (some (codes "HTTP/1.1 200 OK")) local).mechanism_match ≡ some false
unfolding run_a9 try_live_raw_connect first_line ends_line has_part assess_mechanism is_text
other_answer = refl
