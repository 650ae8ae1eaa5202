-- ===== src/Pep/BypassProxy/Denial.antt =====
-- pep/bypass_proxy.py: a call is denied and logged whatever the event store does.
use ai_agent_security_firewa.Prelude.{
  String, ◌≡◌, ◌≢◌, ◌∙◌, All, ap, subst, refl, Bool, true, false, not, ◌&&◌, some, List, [], ◌∷◌,
  ◌++◌, ℕ, if◌then◌else◌,
}
use ai_agent_security_firewa.Prelude.Dict.{get}
use ai_agent_security_firewa.Prelude.Json.{null, str, obj, end, field}
use ai_agent_security_firewa.Prelude.Text.{strip, split_at-append}
use ai_agent_security_firewa.Prelude.Chars.{of_codes}
use ai_agent_security_firewa.Events.Store.{Event, Db, write_event}
use ai_agent_security_firewa.Events.App.{post_event}
use ai_agent_security_firewa.Pep.BypassProxy.{
  Handled, line, Stamp, bypass_event, post_or_pass, destination, destination_of, forbidden,
  deny_line, handle,
}

-- The event store takes the event, unless it has a fault.
post_event-bypass :
    (dest request_line : String) (stamp : Stamp) (db : Db) (fault : Bool)
    → (post_event (bypass_event dest request_line stamp) db fault).0 ≡ (
        if fault
        then db
        else record db { events = db.events ++ bypass_event dest request_line stamp ∷ [] })
unfolding post_event write_event bypass_event get
post_event-bypass dest request_line stamp db false = refl
post_event-bypass dest request_line stamp db true = refl

if_not :
    {A : Type 0} (fault : Bool) (x y : A) → (if fault then x else y) ≡ (if not fault then y else x)
if_not true x y = refl
if_not false x y = refl

-- What is left behind by a call whose request line names dest.
abbrev pub IsDenied : String → Bool → Bool → Db → Handled → Type 0
IsDenied dest up fault db h =
    (event : Event) × (h.logged ≡ some event)
    × (h.response ≡ some forbidden)
    × (get event "decision" ≡ some (str "DENY"))
    × (get event "reason" ≡ some (str "BYPASS_ATTEMPTED"))
    × (get event "destination"
        ≡ some (
            obj (
              field "fqdn" (str dest)
                (field "ip" null (field "port" null (field "protocol" null end))))))
    × (h.store ≡ (if up && not fault then record db { events = db.events ++ event ∷ [] } else db))

denied :
    (bytes : List ℕ) (stamp : Stamp) (up fault : Bool) (db : Db)
    → IsDenied (destination (strip bytes)) up fault db (handle (line bytes) stamp up fault db)
unfolding handle deny_line post_or_pass bypass_event get
denied bytes stamp false fault db = (_, refl, refl, refl, refl, refl, refl)
denied bytes stamp true fault db = (
  _,
  refl,
  refl,
  refl,
  refl,
  refl,
  post_event-bypass (destination (strip bytes)) (of_codes (strip bytes)) stamp db fault
      ∙ if_not fault _ _,
)

-- The second of the parts that spaces divide.
destination-target :
    (method target rest : List ℕ)
    → All (λ c. c ≢ 32) method
    → All (λ c. c ≢ 32) target
    → destination (method ++ 32 ∷ (target ++ 32 ∷ rest)) ≡ of_codes target
unfolding destination destination_of
destination-target method target rest h k =
    ap (λ (parts : List ℕ × List (List ℕ)). destination_of parts.1)
      (split_at-append 32 method (target ++ 32 ∷ rest) h)
    ∙ ap (λ (parts : List ℕ × List (List ℕ)). of_codes parts.0) (split_at-append 32 target rest k)

-- A request line of a method, a target and more, which one space each divides, is answered with 403 and
-- logged as a DENY with the target as its destination, whether or not the event store answers; the event is
-- in the event store exactly if that is up and has no fault.
pub handle-IsDenied :
    (bytes method target rest : List ℕ) (stamp : Stamp) (up fault : Bool) (db : Db)
    → strip bytes ≡ method ++ 32 ∷ (target ++ 32 ∷ rest)
    → All (λ c. c ≢ 32) method
    → All (λ c. c ≢ 32) target
    → IsDenied (of_codes target) up fault db (handle (line bytes) stamp up fault db)
handle-IsDenied bytes method target rest stamp up fault db e h k =
    subst (λ (dest : String). IsDenied dest up fault db (handle (line bytes) stamp up fault db))
      (ap destination e ∙ destination-target method target rest h k)
      (denied bytes stamp up fault db)
