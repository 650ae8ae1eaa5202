-- ===== src/Pep/Quarantine/Tests.antt =====
-- pep/quarantine.py: five denials within a minute, and later.
use ai_agent_security_firewa.Prelude.{◌≡◌, refl, true, false, [], ◌∷◌}
use ai_agent_security_firewa.Prelude.Dict.{get, put}
use ai_agent_security_firewa.Pep.Quarantine.{record_denial}

running : Unit {0}
unfolding get put record_denial
running = tt

fifth : (record_denial (("agent", 1 ∷ 2 ∷ 3 ∷ 60000001 ∷ []) ∷ []) 60000001 "agent").1 ≡ true
unfolding running
fifth = refl

late : (record_denial (("agent", 1 ∷ 2 ∷ 3 ∷ 60000001 ∷ []) ∷ []) 60000002 "agent").1 ≡ false
unfolding running
late = refl
