-- ===== src/Attacks/RunAll/Tests.antt =====
-- attacks/run_all.py: a table of two that is cleared, the nine dispatches, and the theorem.
use ai_agent_security_firewa.Prelude.{
  ℕ, ◌≡◌, refl, true, Option, none, some, List, [], ◌∷◌, if◌then◌else◌,
}
use ai_agent_security_firewa.Prelude.Dict.{get, put, remove}
use ai_agent_security_firewa.Events.Store.{
  Db, quarantine_enter, quarantine_list, quarantine_release,
}
use ai_agent_security_firewa.Events.App.{release_quarantine}
use ai_agent_security_firewa.Attacks.RunAll.{
  Result, Dispatch, Routed, delete_all, clear_and_verify_quarantine, run_one, run_specs,
  run_docker_mode, exit_code,
}
use ai_agent_security_firewa.Attacks.RunAll.Clearing.{
  KeepsPlain, is_plain, clear_and_verify-empties,
}

abbrev two : Db
two = record {
  events = [];
  quarantine = ("agent", ("r", "t")) ∷ ("finance-agent", ("r", "t")) ∷ [];
}

abbrev routed : Routed
routed a = if is_plain a then some a else none

-- Every attack gets its workload quarantined.
abbrev dispatch : Dispatch
dispatch path service db = (
  quarantine_enter service "attack" "t" db,
  some (record { genuinely_verified = true; demonstrates_cascade = true }),
)

abbrev code_of : Option (Db × List Result × Result) → ℕ
code_of none = 2
code_of (some (db, results, cascade)) = exit_code true results cascade

all_verified : code_of (run_docker_mode routed dispatch two) ≡ 0
unfolding run_docker_mode run_specs run_one clear_and_verify_quarantine delete_all
    release_quarantine quarantine_release quarantine_list quarantine_enter remove get put exit_code
all_verified = refl

keeps_plain : KeepsPlain routed
keeps_plain a e = rw e refl

clear_and_verify-empties_example :
    clear_and_verify_quarantine routed two ≡ some (record { events = []; quarantine = [] })
unfolding get
clear_and_verify-empties_example =
    clear_and_verify-empties routed keeps_plain two (refl, (refl, tt)) (refl, (refl, tt))
