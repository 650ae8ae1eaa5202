-- ===== src/Events/App.antt =====
-- events/app.py: the routes over the store.
use ai_agent_security_firewa.Prelude.{
  ◌≡◌, refl, nat_eq, true, false, ℕ, String, Bool, Option, none, some, List, if◌then◌else◌,
}
use ai_agent_security_firewa.Prelude.Dict.{Dict, get}
use ai_agent_security_firewa.Events.Store.{
  Event, Db, Written, written, failed, overflow, write_event, read_all_events, quarantine_enter,
  quarantine_release, quarantine_list,
}

-- A reply: its status code and what the route returns.
pub record Response (A : Type 0) : Type 0 where
  pub status : ℕ
  pub content : Option A

post_reply : Db → Written → Db × Response String
post_reply db (written db') = (db', record { status = 201; content = some "written" })
post_reply db (failed e) = (db, record { status = 422; content = none })
post_reply db overflow = (db, record { status = 500; content = none })

unfoldable pub post_event : Event → Db → Bool → Db × Response String
unfolding post_reply
post_event event db fault = post_reply db (write_event event db fault)

unfoldable pub get_events : Db → Response (List Event)
get_events db = record { status = 200; content = some (read_all_events db) }

unfoldable pub list_quarantined : Db → Response (Dict String)
list_quarantined db = record { status = 200; content = some (quarantine_list db) }

entered : String → String → Bool → Db → Option String → Db × Response String
entered agent_id now fault db none = (db, record { status = 500; content = none })
entered agent_id now true db (some reason) = (db, record { status = 500; content = none })
entered agent_id now false db (some reason) =
    (quarantine_enter agent_id reason now db, record { status = 200; content = some agent_id })

-- A body with no "reason" is a KeyError, which the framework answers with 500, as it does a fault of the
-- database.
unfoldable pub enter_quarantine : String → Dict String → String → Bool → Db → Db × Response String
unfolding entered
enter_quarantine agent_id body now fault db = entered agent_id now fault db (get body "reason")

unfoldable pub release_quarantine : String → Db → Db × Response String
release_quarantine agent_id db =
    let (db', released) = quarantine_release agent_id db in
    (
      db',
      if released
          then record { status = 200; content = some agent_id }
          else record { status = 404; content = none },
    )

posted :
    (db : Db) (w : Written)
    → nat_eq (post_reply db w).1.status 201 ≡ true
    → w ≡ written (post_reply db w).0
unfolding post_reply
posted db (written db') e = refl
posted db (failed q) e = cc
posted db overflow e = cc

-- A reply of 201 means that the event was written.
pub post_event-written :
    (event : Event) (db : Db) (fault : Bool)
    → nat_eq (post_event event db fault).1.status 201 ≡ true
    → write_event event db fault ≡ written (post_event event db fault).0
unfolding post_event
post_event-written event db fault e = posted db (write_event event db fault) e
