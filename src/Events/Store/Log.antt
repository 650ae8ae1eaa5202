-- ===== src/Events/Store/Log.antt =====
-- events/store.py: an event that is written is the last that is read back; one that is refused leaves
-- the log alone.
use ai_agent_security_firewa.Prelude.{
  String, ◌<◌, ◌≡◌, ◌↔◌, inl, inr, refl, Bool, true, false, not, Option, none, some, List, [], ◌∷◌,
  ◌++◌, In, select-In, select-nil, all, all-In, In-all, arith, Bool-cases, subst,
}
use ai_agent_security_firewa.Prelude.Dict.{has_key, get}
use ai_agent_security_firewa.Prelude.Json.{Json, null, bool, num, str, arr, obj}
use ai_agent_security_firewa.Events.Store.{
  Event, Db, written, storable, int64_bound, overflows, columns, required_fields, missing_from,
  insert_event, check_then_insert, write_event,
}

-- A text, a number below 2^63 or a Boolean, which SQLite stores in a column that is NOT NULL.
abbrev pub IsStored : Option Json → Type 0
IsStored none = ⊥
IsStored (some null) = ⊥
IsStored (some (arr _)) = ⊥
IsStored (some (obj _)) = ⊥
IsStored (some (num n)) = n < int64_bound
IsStored (some _) = Unit

storable_iff : (v : Option Json) → (storable v ≡ true) ↔ IsStored v
unfolding storable
storable_iff none = ground arith
storable_iff (some null) = ground arith
storable_iff (some (bool b)) = ground arith
storable_iff (some (num n)) = ground arith
storable_iff (some (str s)) = ground arith
storable_iff (some (arr xs)) = ground arith
storable_iff (some (obj fs)) = ground arith

-- An event that has every required field, with scalars in the columns.
pub record IsWellFormed (event : Event) : Type 0 where
  pub present : (f : String) → In f required_fields → has_key event f ≡ true
  pub scalars : (c : String) → In c columns → IsStored (get event c)

missing-nil :
    (event : Event)
    → (missing_from event ≡ []) ↔ ((f : String) → In f required_fields → has_key event f ≡ true)
unfolding missing_from
missing-nil event = (
  (λ e f m. elim (Bool-cases (has_key event f)) [
    | inl k ↦ k
    | inr k ↦
        absurd (subst (In f) e (select-In (λ g. not (has_key event g)) required_fields f m (rw k)))
  ]),
  λ h. select-nil (λ g. not (has_key event g)) required_fields (λ f m. rw (h f m)),
)

all-columns :
    (event : Event)
    → (all (λ c. storable (get event c)) columns ≡ true)
      ↔ ((c : String) → In c columns → IsStored (get event c))
all-columns event = (
  (λ h c m. (storable_iff (get event c)).0 (all-In (λ d. storable (get event d)) columns c h m)),
  λ h. In-all (λ d. storable (get event d)) columns (λ c m. (storable_iff (get event c)).1 (h c m)),
)

check-written :
    (missing : List String) (event : Event) (db db' : Db) (fault : Bool)
    → (check_then_insert missing event db fault ≡ written db') ↔ (
        (missing ≡ [])
        × (fault ≡ false)
        × (all (λ c. storable (get event c)) columns ≡ true)
        × (db' ≡ record db { events = db.events ++ event ∷ [] }))
unfolding check_then_insert insert_event
check-written (f ∷ fs) event db db' fault = ((λ h. cc), λ (e, _, _, _). cc)
check-written [] event db db' true = ((λ h. cc), λ (_, e, _, _). cc)
check-written [] event db db' false =
    elim (Bool-cases (all (λ c. storable (get event c)) columns)) [
      | inl e ↦ rw e ((λ h. (refl, refl, refl, cc)), λ (_, _, _, q). cc)
      | inr e ↦ elim (Bool-cases (overflows event columns)) [
        | inl o ↦ rw (e, o) ((λ h. cc), λ (_, _, q, _). cc)
        | inr o ↦ rw (e, o) ((λ h. cc), λ (_, _, q, _). cc)
      ]
    ]

-- A write succeeds exactly if the event has every required field, the values of the indexed columns are
-- scalars, numbers among them below 2^63, and the database has no fault; it then appends the event to the
-- log and changes nothing else. In every other case it fails, and there is no new state.
pub write_event-written_iff :
    (event : Event) (db db' : Db) (fault : Bool)
    → (write_event event db fault ≡ written db') ↔ (
        IsWellFormed event
        × (fault ≡ false)
        × (db' ≡ record db { events = db.events ++ event ∷ [] }))
unfolding write_event
write_event-written_iff event db db' fault =
    let (to, from) = check-written (missing_from event) event db db' fault in
    let (m_to, m_from) = missing-nil event in
    let (c_to, c_from) = all-columns event in
    (
      (λ h. let (m, f, c, e) = to h in (record { present = m_to m; scalars = c_to c }, f, e)),
      λ (w, f, e). from (m_from w.present, f, c_from w.scalars, e),
    )
