-- ===== src/Events/Store/Membership.antt =====
-- events/store.py: quarantine. Entry keeps the first reason, and release is the only way out.
use ai_agent_security_firewa.Prelude.{
  String, ◌≡◌, ◌≢◌, refl, ap, true, false, Option, none, some, List, [], ◌∷◌, map, ◌==◌, eq_iff,
  eq_refl, All, inl, inr, Bool-cases, arith, if◌then◌else◌,
}
use ai_agent_security_firewa.Prelude.Dict.{Dict, get, get-put, get-remove}
use ai_agent_security_firewa.Events.Store.{
  Db, quarantine_enter, quarantine_release, quarantine_is_active, quarantine_list,
}

abbrev pub reason_of : Option (String × String) → Option String
reason_of none = none
reason_of (some entry) = some entry.0

get-reasons :
    (d : Dict (String × String)) (agent : String)
    → get (map (λ (a, entry). (a, entry.0)) d) agent ≡ reason_of (get d agent)
unfolding get
get-reasons [] agent = refl
get-reasons ((a, entry) ∷ d) agent = elim (Bool-cases (a == agent)) [
  | inl e ↦ rw e
  | inr e ↦ rw e (get-reasons d agent)
]

pub quarantine_list-get :
    (db : Db) (agent : String)
    → get (quarantine_list db) agent ≡ reason_of (get db.quarantine agent)
unfolding quarantine_list
quarantine_list-get db agent = get-reasons db.quarantine agent

-- The operations that change the table.
pub data Op : Type 0 where
  enter : (agent_id reason entered_at : String) → Op
  release : (agent_id : String) → Op

pub apply : Db → Op → Db
apply db (enter a r t) = quarantine_enter a r t db
apply db (release a) = (quarantine_release a db).0

pub apply_all : Db → List Op → Db
apply_all db [] = db
apply_all db (op ∷ ops) = apply_all (apply db op) ops

apply-keeps :
    (db : Db) (op : Op) (agent : String) (entry : String × String)
    → op ≢ release agent
    → get db.quarantine agent ≡ some entry
    → get (apply db op).quarantine agent ≡ some entry
unfolding apply quarantine_enter quarantine_release
apply-keeps db (enter a r t) agent entry h e = ground (
  arith,
  get-put db.quarantine a agent (r, t),
  eq_iff a agent,
  λ (q : a ≡ agent). ap (get db.quarantine) q,
)
apply-keeps db (release a) agent entry h e =
    ground
      (arith, get-remove db.quarantine a agent, eq_iff a agent, λ (q : a ≡ agent). ap release q)

-- An agent in quarantine stays there, with its first reason and time of entry, through any entries
-- and releases other than its own release.
pub quarantine_persists :
    (db : Db) (ops : List Op) (agent : String) (entry : String × String)
    → All (λ op. op ≢ release agent) ops
    → get db.quarantine agent ≡ some entry
    → get (apply_all db ops).quarantine agent ≡ some entry
unfolding apply_all
quarantine_persists db [] agent entry h e = e
quarantine_persists db (op ∷ ops) agent entry (first, rest) e =
    quarantine_persists (apply db op) ops agent entry rest (apply-keeps db op agent entry first e)

-- Entering puts the agent in quarantine.
pub enter-active :
    (agent reason entered_at : String) (db : Db)
    → quarantine_is_active agent (quarantine_enter agent reason entered_at db) ≡ true
unfolding quarantine_is_active quarantine_enter
enter-active agent reason entered_at db =
    ground (arith, get-put db.quarantine agent agent (reason, entered_at), eq_refl agent)

-- Release answers whether the agent was in quarantine, takes it out, and leaves every other agent as
-- it was.
pub release-active :
    (agent other : String) (db : Db)
    → ((quarantine_release agent db).1 ≡ quarantine_is_active agent db)
      × (quarantine_is_active other (quarantine_release agent db).0
          ≡ (if agent == other then false else quarantine_is_active other db))
unfolding quarantine_release quarantine_is_active
release-active agent other db = (refl, ground (arith, get-remove db.quarantine agent other))
