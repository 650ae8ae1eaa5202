-- ===== src/Identity/AdminCli/Tests.antt =====
-- The commands on two pins, and the theorem on the listing at them.
use ai_agent_security_firewa.Prelude.{◌≡◌, refl, [], ◌∷◌}
use ai_agent_security_firewa.Prelude.Dict.{get, remove}
use ai_agent_security_firewa.Prelude.Sorting.{insert_item, sorted}
use ai_agent_security_firewa.Identity.Store.{Pins, clear, list_all}
use ai_agent_security_firewa.Identity.AdminCli.{pin_line, cleared, run_main}

running : Unit {0}
unfolding get remove clear list_all insert_item sorted run_main
running = tt

abbrev pins : Pins
pins = ("support-agent", ("sha256:b", "t1")) ∷ ("agent", ("sha256:a", "t0")) ∷ []

listing :
    (run_main ("list-pins" ∷ []) pins).output
    ≡ pin_line "agent" "sha256:a" ∷ pin_line "support-agent" "sha256:b" ∷ []
unfolding running
listing = refl

clearing : (run_main ("clear-pin" ∷ "agent" ∷ []) pins).output ≡ cleared "agent" ∷ []
unfolding running
clearing = refl

absent : (run_main ("clear-pin" ∷ "finance-agent" ∷ []) pins).exit_code ≡ 1
unfolding running
absent = refl
