-- ===== src/Events/Store/Tests.antt =====
-- The event store on one event, and its theorems at concrete tables.
use ai_agent_security_firewa.Prelude.{
  String, ◌≡◌, ◌≢◌, ◌↔◌, refl, false, some, List, [], ◌∷◌, ◌++◌, ap, eq_iff,
}
use mathlib.Core.Bool.{false≢true}
use ai_agent_security_firewa.Prelude.Dict.{get, put, remove}
use ai_agent_security_firewa.Prelude.Json.{null, num, str, arr, obj, nil, end}
use ai_agent_security_firewa.Events.Store.{
  Event, Db, empty, written, failed, overflow, int64_bound, missing_fields, write_event,
  quarantine_enter, quarantine_release, quarantine_is_active,
}
use ai_agent_security_firewa.Events.Store.Log.{IsWellFormed, write_event-written_iff}
use ai_agent_security_firewa.Events.Store.Membership.{
  Op, enter, release, apply_all, quarantine_persists,
}

running : Unit {0}
unfolding write_event get put remove quarantine_enter quarantine_release quarantine_is_active
running = tt

abbrev event : Event
event =
    ("schema_version", str "1.0")
    ∷ ("timestamp", str "2026-01-01T00:00:00+00:00")
    ∷ ("trace_id", str "t1")
    ∷ ("session_id", str "s1")
    ∷ ("agent_id", str "agent")
    ∷ ("role", str "research_agent")
    ∷ ("tool", str "http.get")
    ∷ ("action", str "read")
    ∷ ("destination", obj end)
    ∷ ("resource", null)
    ∷ ("data_classification", str "public")
    ∷ ("session_taint", str "clean")
    ∷ ("risk_score", num 0)
    ∷ ("risk_factors", arr nil)
    ∷ ("policy_id", str "R-1")
    ∷ ("policy_bundle_version", str "1")
    ∷ ("decision", str "ALLOW")
    ∷ ("reason", str "matched_explicit_allow")
    ∷ ("latency_ms", obj end)
    ∷ []

abbrev after : Db
after = record empty { events = event ∷ [] }

stored : write_event event empty false ≡ written after
unfolding running
stored = refl

-- A trace id of 2^63 raises out of write_event.
too_large : write_event (put event "trace_id" (num int64_bound)) empty false ≡ overflow
unfolding running
too_large = refl

incomplete :
    write_event (remove event "reason") empty false ≡ failed (missing_fields ("reason" ∷ []))
unfolding running
incomplete = refl

write_event-written_iff_example :
    (write_event event empty false ≡ written after)
    ↔ (IsWellFormed event × (false ≡ false) × (after ≡ record empty { events = [] ++ event ∷ [] }))
write_event-written_iff_example = write_event-written_iff event empty after false

abbrev held : Db
held = record empty { quarantine = ("agent", ("hit", "t0")) ∷ [] }

abbrev later : List Op
later = enter "agent" "again" "t1" ∷ release "finance-agent" ∷ []

abbrev released : Op → String
released (enter a r t) = ""
released (release a) = a

not_agent : release "finance-agent" ≢ release "agent"
not_agent e = false≢true ((eq_iff "finance-agent" "agent").1 (ap released e))

found : get held.quarantine "agent" ≡ some ("hit", "t0")
unfolding get
found = refl

quarantine_persists_example : get (apply_all held later).quarantine "agent" ≡ some ("hit", "t0")
quarantine_persists_example =
    quarantine_persists held later "agent" ("hit", "t0") ((λ e. cc e), (not_agent, tt)) found
