-- ===== src/Pep/Quarantine/Gate.antt =====
-- pep/quarantine.py: what the gate answers, and that only a release takes a workload out.
use ai_agent_security_firewa.Prelude.{
  String, ◌≡◌, true, false, some, ◌==◌, eq_iff, arith, if◌then◌else◌, ◌||◌, ap,
}
use ai_agent_security_firewa.Prelude.Dict.{get, get-put}
use ai_agent_security_firewa.Events.Store.{Db, quarantine_enter, quarantine_is_active}
use ai_agent_security_firewa.Events.Store.Membership.{quarantine_list-get}
use ai_agent_security_firewa.Events.App.{list_quarantined, enter_quarantine}
use ai_agent_security_firewa.Pep.Quarantine.{is_quarantined, enter}

-- Where the event store answers, the gate answers whether the workload is in its table.
pub is_quarantined-active :
    (workload : String) (db : Db)
    → is_quarantined workload true db ≡ some (quarantine_is_active workload db)
unfolding is_quarantined list_quarantined quarantine_is_active
is_quarantined-active workload db = ground (arith, quarantine_list-get db workload)

pub entered-active :
    (workload reason now other : String) (db : Db)
    → quarantine_is_active other (quarantine_enter workload reason now db)
      ≡ (workload == other || quarantine_is_active other db)
unfolding quarantine_is_active quarantine_enter
entered-active workload reason now other db = ground (
  arith,
  get-put db.quarantine workload other (reason, now),
  eq_iff workload other,
  λ (e : workload ≡ other). ap (get db.quarantine) e,
)

-- Entering a workload while the event store answers without a fault makes the gate answer yes for it, and
-- leaves its answer for every other workload as it was.
pub is_quarantined-enter :
    (workload reason now other : String) (db : Db)
    → is_quarantined other true (enter workload reason true now false db).0
      ≡ (if workload == other then some true else is_quarantined other true db)
unfolding enter enter_quarantine get
is_quarantined-enter workload reason now other db =
    rw
      (
        is_quarantined-active other (quarantine_enter workload reason now db),
        is_quarantined-active other db,
      )
      (ground (arith, entered-active workload reason now other db))
