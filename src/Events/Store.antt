-- ===== src/Events/Store.antt =====
-- events/store.py: the durable event log and the quarantine table of one SQLite file. A fault of the
-- file or of the database while the log is written is an argument, and comes before what the columns of an
-- event do. A row's payload is the event that `json.dumps` wrote.
pub mod Log
pub mod Membership
mod Tests
use ai_agent_security_firewa.Prelude.{
  ℕ, String, Bool, true, false, not, ◌&&◌, ◌||◌, ltb, leb, Option, none, some, List, [], ◌∷◌, ◌++◌,
  map, select, all, if◌then◌else◌,
}
use ai_agent_security_firewa.Prelude.Dict.{Dict, get, put, remove, has_key, insert_or_ignore}
use ai_agent_security_firewa.Prelude.Json.{Json, null, bool, num, str, arr, obj}

abbrev pub required_fields : List String
required_fields =
    "schema_version" ∷ "timestamp" ∷ "trace_id" ∷ "session_id" ∷ "agent_id" ∷ "role" ∷ "tool"
    ∷ "action" ∷ "destination" ∷ "resource" ∷ "data_classification" ∷ "session_taint" ∷ "risk_score"
    ∷ "risk_factors" ∷ "policy_id" ∷ "policy_bundle_version" ∷ "decision" ∷ "reason" ∷ "latency_ms"
    ∷ []

abbrev pub Event : Type 0
Event = Dict Json

-- The file: the payloads by ascending id, and each quarantined agent's reason and time of entry.
pub record Db : Type 0 where
  pub events : List Event
  pub quarantine : Dict (String × String)

abbrev pub empty : Db
empty = record { events = []; quarantine = [] }

pub data EventWriteError : Type 0 where
  missing_fields : List String → EventWriteError
  -- sqlite3.Error or OSError
  storage : EventWriteError

pub data Written : Type 0 where
  written : Db → Written
  failed : EventWriteError → Written
  -- the OverflowError of a number above 64 bits, which write_event does not catch
  overflow : Written

-- 2^63, above the numbers that SQLite stores
abbrev pub int64_bound : ℕ
int64_bound = 9223372036854775808

-- A value that SQLite can bind to a column that is NOT NULL.
pub storable : Option Json → Bool
storable none = false
storable (some null) = false
storable (some (bool _)) = true
storable (some (num n)) = ltb n int64_bound
storable (some (str _)) = true
storable (some (arr _)) = false
storable (some (obj _)) = false

-- The columns beside the payload.
abbrev pub columns : List String
columns = "trace_id" ∷ "session_id" ∷ "decision" ∷ "timestamp" ∷ []

pub missing_from : Event → List String
missing_from event = select (λ f. not (has_key event f)) required_fields

is_too_large : Option Json → Bool
is_too_large (some (num n)) = leb int64_bound n
is_too_large _ = false

is_nested : Option Json → Bool
is_nested (some (arr _)) = true
is_nested (some (obj _)) = true
is_nested _ = false

-- Whether the values, which are bound in order, meet a number that is too large before a nested one.
pub overflows : Event → List String → Bool
unfolding is_too_large is_nested
overflows event [] = false
overflows event (c ∷ cs) =
    let rest = overflows event cs in
    is_too_large (get event c) || (not (is_nested (get event c)) && rest)

pub insert_event : Event → Db → Bool → Written
unfolding storable overflows
insert_event event db fault =
    if not fault && all (λ c. storable (get event c)) columns
    then written (record db { events = db.events ++ event ∷ [] })
    else if not fault && overflows event columns
    then overflow
    else failed storage

pub check_then_insert : List String → Event → Db → Bool → Written
unfolding insert_event
check_then_insert [] event db fault = insert_event event db fault
check_then_insert (f ∷ fs) event db fault = failed (missing_fields (f ∷ fs))

unfoldable pub write_event : Event → Db → Bool → Written
unfolding check_then_insert missing_from
write_event event db fault = check_then_insert (missing_from event) event db fault

unfoldable pub read_all_events : Db → List Event
read_all_events db = db.events

unfoldable pub quarantine_enter : String → String → String → Db → Db
quarantine_enter agent_id reason entered_at db = record db {
  quarantine = insert_or_ignore db.quarantine agent_id (reason, entered_at);
}

unfoldable pub quarantine_is_active : String → Db → Bool
quarantine_is_active agent_id db = has_key db.quarantine agent_id

-- The new table, and whether a row was deleted.
unfoldable pub quarantine_release : String → Db → Db × Bool
quarantine_release agent_id db =
    (record db { quarantine = remove db.quarantine agent_id }, has_key db.quarantine agent_id)

unfoldable pub quarantine_list : Db → Dict String
quarantine_list db = map (λ (agent, entry). (agent, entry.0)) db.quarantine
