-- ===== src/Pep/Quarantine.antt =====
-- pep/quarantine.py: the quarantine of workloads, kept by the event store, and the window of denials,
-- kept in the process. Each network call has an argument that tells whether the event store answers;
-- its answer is that of events/app.py's route. A time is a number of microseconds.
pub mod Gate
mod Tests
use ai_agent_security_firewa.Prelude.{
  ℕ, ◌+◌, ◌-◌, String, Bool, true, false, Option, none, some, List, [], ◌∷◌, ◌++◌, length, select,
  leb, nat_eq, if◌then◌else◌,
}
use ai_agent_security_firewa.Prelude.Dict.{Dict, get, put, get_default, has_key}
use ai_agent_security_firewa.Events.Store.{Db}
use ai_agent_security_firewa.Events.App.{
  Response, list_quarantined, enter_quarantine, release_quarantine,
}

-- DENIAL_WINDOW_SECONDS, in microseconds
abbrev pub denial_window : ℕ
denial_window = 60000000

abbrev pub denial_threshold : ℕ
denial_threshold = 5

lists : String → Option (Dict String) → Option Bool
lists workload_key none = none
lists workload_key (some agents) = some (has_key agents workload_key)

-- is_quarantined: none stands for QuarantineCheckUnavailable.
unfoldable pub is_quarantined : String → Bool → Db → Option Bool
unfolding lists
is_quarantined workload_key false db = none
is_quarantined workload_key true db = lists workload_key (list_quarantined db).content

-- enter: the store's table after the call, and whether the failure is logged, which one that
-- the event store answers with 500 is not. `now` is the time that the event store writes, and `fault` one of
-- its database.
unfoldable pub enter : String → String → Bool → String → Bool → Db → Db × Bool
enter workload_key reason false now fault db = (db, true)
enter workload_key reason true now fault db =
    ((enter_quarantine workload_key (("reason", reason) ∷ []) now fault db).0, false)

-- release
unfoldable pub release : String → Bool → Db → Db × Bool
release workload_key false db = (db, false)
release workload_key true db =
    let (db', response) = release_quarantine workload_key db in (db', nat_eq response.status 200)

-- list_all: none where the event store does not answer.
unfoldable pub list_all : Bool → Db → Option (Dict String)
list_all false db = none
list_all true db = (list_quarantined db).content

-- [t for t in times if now - t <= DENIAL_WINDOW_SECONDS]
unfoldable pub recent_denials : ℕ → List ℕ → List ℕ
recent_denials now times = select (λ t. leb (now - t) denial_window) times

-- record_denial: the times that are kept, and whether the threshold is reached.
unfoldable pub record_denial : Dict (List ℕ) → ℕ → String → Dict (List ℕ) × Bool
unfolding recent_denials
record_denial denials now workload_key =
    let recent = recent_denials now (get_default denials workload_key [] ++ now ∷ []) in
    (put denials workload_key recent, leb denial_threshold (length recent))
