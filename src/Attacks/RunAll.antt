-- ===== src/Attacks/RunAll.antt =====
-- attacks/run_all.py: the dispatch of the attacks over an event store whose quarantine table is cleared before
-- each. What a container does is an argument, as is whether the stack is up. A step that raises has no result.
pub mod Clearing
mod Tests
use ai_agent_security_firewa.Prelude.{
  ℕ, String, Bool, true, false, not, all, ◌&&◌, ◌||◌, Option, none, some, List, [], ◌∷◌, map,
  nat_eq, if◌then◌else◌,
}
use ai_agent_security_firewa.Prelude.Dict.{Dict}
use ai_agent_security_firewa.Events.Store.{Db, quarantine_list}
use ai_agent_security_firewa.Events.App.{release_quarantine}

-- An attack, its module, and the service that attests the role it needs.
abbrev pub Spec : Type 0
Spec = String × String × String

abbrev pub attack_specs : List Spec
attack_specs =
    ("A1", "attacks.a1", "agent")
    ∷ ("A2", "attacks.a2", "finance-agent")
    ∷ ("A3", "attacks.a3", "agent")
    ∷ ("A4", "attacks.a4", "agent")
    ∷ ("A5", "attacks.a5", "support-agent")
    ∷ ("A6", "attacks.a6", "agent")
    ∷ ("A7", "attacks.a7", "agent")
    ∷ ("A8", "attacks.a8", "finance-agent")
    ∷ ("A9", "attacks.a9", "agent")
    ∷ []

-- What a RESULT_JSON line says that is looked at.
pub record Result : Type 0 where
  pub genuinely_verified : Bool
  pub demonstrates_cascade : Bool

-- The name that the event store gets where a name is put unquoted in the URL's path, none where the client
-- raises or another route answers.
abbrev pub Routed : Type 0
Routed = String → Option String

-- One DELETE: the name as it arrives, and what follows; a 404 raises.
after_delete : (Db → Option Db) → Option String → Db → Option Db
after_delete rest none db = none
after_delete rest (some agent) db =
    let (db', response) = release_quarantine agent db in
    let deleted = rest db' in if nat_eq response.status 200 then deleted else none

-- DELETE /quarantine/{a} for each name
unfoldable pub delete_all : Routed → List String → Db → Option Db
unfolding after_delete
delete_all routed [] db = some db
delete_all routed (agent ∷ agents) db = after_delete (delete_all routed agents) (routed agent) db

is_empty : Dict String → Bool
is_empty [] = true
is_empty (a ∷ listed) = false

verified_empty : Option Db → Option Db
unfolding is_empty
verified_empty none = none
verified_empty (some db) = if is_empty (quarantine_list db) then some db else none

-- clear_and_verify_quarantine
unfoldable pub clear_and_verify_quarantine : Routed → Db → Option Db
unfolding is_empty verified_empty
clear_and_verify_quarantine routed db =
    let agents = map (λ entry. entry.0) (quarantine_list db) in
    verified_empty (if is_empty (quarantine_list db) then some db else delete_all routed agents db)

-- _dispatch: the event store afterwards, and the result, if the container printed one.
abbrev pub Dispatch : Type 0
Dispatch = (module_path service : String) → Db → Db × Option Result

cleared_run : Dispatch → String → String → Option Db → Option (Db × Result)
cleared_run dispatch path service none = none
cleared_run dispatch path service (some db) =
    let (db', result) = dispatch path service db in
    elim result [ none ↦ none | some r ↦ some (db', r) ]

unfoldable pub run_one : Routed → Dispatch → String → String → Db → Option (Db × Result)
unfolding cleared_run
run_one routed dispatch path service db =
    cleared_run dispatch path service (clear_and_verify_quarantine routed db)

add_run : Result → Option (Db × List Result) → Option (Db × List Result)
add_run result none = none
add_run result (some (db, results)) = some (db, result ∷ results)

then_run : (Db → Option (Db × List Result)) → Option (Db × Result) → Option (Db × List Result)
unfolding add_run
then_run rest none = none
then_run rest (some (db, result)) = add_run result (rest db)

-- The loop over the attacks.
unfoldable pub run_specs : Routed → Dispatch → List Spec → Db → Option (Db × List Result)
unfolding then_run
run_specs routed dispatch [] db = some (db, [])
run_specs routed dispatch ((attack_id, path, service) ∷ specs) db =
    then_run (run_specs routed dispatch specs) (run_one routed dispatch path service db)

after_cascade : Routed → List Result → Option (Db × Result) → Option (Db × List Result × Result)
after_cascade routed results none = none
after_cascade routed results (some (db, cascade)) = elim (clear_and_verify_quarantine routed db) [
  | none ↦ none
  | some db' ↦ some (db', results, cascade)
]

with_cascade : Routed → Dispatch → Option (Db × List Result) → Option (Db × List Result × Result)
unfolding after_cascade
with_cascade routed dispatch none = none
with_cascade routed dispatch (some (db, results)) =
    after_cascade routed results (run_one routed dispatch "attacks.a10" "agent" db)

-- _run_docker_mode
unfoldable pub run_docker_mode : Routed → Dispatch → Db → Option (Db × List Result × Result)
unfolding with_cascade
run_docker_mode routed dispatch db =
    with_cascade routed dispatch (run_specs routed dispatch attack_specs db)

-- main's exit code
unfoldable pub exit_code : Bool → List Result → Result → ℕ
exit_code docker_mode results cascade =
    if all (λ r. r.genuinely_verified) results && (cascade.demonstrates_cascade || not docker_mode)
    then 0
    else 1
