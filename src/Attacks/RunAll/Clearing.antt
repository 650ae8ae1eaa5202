-- ===== src/Attacks/RunAll/Clearing.antt =====
-- attacks/run_all.py: the quarantine table is empty when an attack starts.
use ai_agent_security_firewa.Prelude.{
  String, ◌≡◌, refl, ap, ap₂, Bool, true, false, not, ◌&&◌, ◌||◌, none, some, List, [], ◌∷◌, map,
  All, all, any, leb, nat_eq, ◌==◌, eq_refl, arith, ℕ,
}
use ai_agent_security_firewa.Prelude.Dict.{Dict, get, remove, has_key, HasUniqueKeys}
use ai_agent_security_firewa.Prelude.Text.{codes}
use ai_agent_security_firewa.Events.Store.{Db, quarantine_list, quarantine_release}
use ai_agent_security_firewa.Events.App.{release_quarantine}
use ai_agent_security_firewa.Attacks.RunAll.{
  Routed, after_delete, is_empty, verified_empty, delete_all, clear_and_verify_quarantine,
}

module _ {V : Type 0} where
  remove-absent : (d : Dict V) (k : String) → has_key d k ≡ false → remove d k ≡ d
  unfolding remove get
  remove-absent [] k h = refl
  remove-absent ((j, w) ∷ d) k h = ground (arith, remove-absent d k)

  remove-first : (d : Dict V) (k : String) (v : V) → has_key d k ≡ false → remove ((k, v) ∷ d) k ≡ d
  unfolding remove
  remove-first d k v h = rw (eq_refl k, remove-absent d k h) refl

  has_key-first : (d : Dict V) (k : String) (v : V) → has_key ((k, v) ∷ d) k ≡ true
  unfolding get
  has_key-first d k v = ground (arith, eq_refl k)

quarantine_release-first :
    (k : String) (entry : String × String) (d : Dict (String × String)) (db : Db)
    → has_key d k ≡ false
    → quarantine_release k (record db { quarantine = (k, entry) ∷ d })
      ≡ (record db { quarantine = d }, true)
unfolding quarantine_release
quarantine_release-first k entry d db h =
    ap₂ {C = Db × Bool}
      (λ (e : Dict (String × String)) (b : Bool). (record db { quarantine = e }, b))
      (remove-first d k entry h) (has_key-first d k entry)

release-first :
    (k : String) (entry : String × String) (d : Dict (String × String)) (db : Db)
    → has_key d k ≡ false
    → release_quarantine k (record db { quarantine = (k, entry) ∷ d })
      ≡ (record db { quarantine = d }, record { status = 200; content = some k })
unfolding release_quarantine
release-first k entry d db h = rw (quarantine_release-first k entry d db h) refl

names : Dict (String × String) → List String
names d = map (λ (entry : String × String). entry.0) (map (λ (agent, entry). (agent, entry.0)) d)

-- The unreserved characters of a URL: letters, digits, "-", ".", "_" and "~".
abbrev pub is_unreserved : ℕ → Bool
is_unreserved c =
    (leb 97 c && leb c 122)
    || (leb 65 c && leb c 90)
    || (leb 48 c && leb c 57)
    || any (nat_eq c) (45 ∷ 46 ∷ 95 ∷ 126 ∷ [])

-- A name with no other characters, and at least one.
abbrev pub is_plain : String → Bool
is_plain a = not (a == "") && all is_unreserved (codes a)

-- A path of unreserved characters is sent and routed as it stands.
abbrev pub KeepsPlain : Routed → Type 0
KeepsPlain routed = (a : String) → is_plain a ≡ true → routed a ≡ some a

abbrev pub HasPlainNames : Dict (String × String) → Type 0
HasPlainNames d = All (λ (entry : String × (String × String)). is_plain entry.0 ≡ true) d

module _ (routed : Routed) (keeps : KeepsPlain routed) where
  delete_all-names :
      (d : Dict (String × String)) (db : Db)
      → HasUniqueKeys d
      → HasPlainNames d
      → delete_all routed (names d) (record db { quarantine = d })
        ≡ some (record db { quarantine = [] })
  unfolding delete_all after_delete names
  delete_all-names [] db h p = refl
  delete_all-names ((k, entry) ∷ d) db (u, h) (p, ps) =
      rw (keeps k p, release-first k entry d db u) (delete_all-names d db h ps)

  clear_listed :
      (d : Dict (String × String)) (db : Db)
      → HasUniqueKeys d
      → HasPlainNames d
      → clear_and_verify_quarantine routed (record db { quarantine = d })
        ≡ some (record db { quarantine = [] })
  unfolding clear_and_verify_quarantine verified_empty is_empty quarantine_list names
  clear_listed [] db h p = refl
  clear_listed ((k, entry) ∷ d) db h p =
      ap verified_empty (delete_all-names ((k, entry) ∷ d) db h p)

  -- The reset succeeds whoever is quarantined, in a table with no name twice and with names of unreserved
  -- characters only, which a URL keeps: it leaves the table empty, and the log of events as it was.
  pub clear_and_verify-empties :
      (db : Db)
      → HasUniqueKeys db.quarantine
      → HasPlainNames db.quarantine
      → clear_and_verify_quarantine routed db ≡ some (record db { quarantine = [] })
  clear_and_verify-empties db h p = clear_listed db.quarantine db h p

  -- A name that does not reach its route stops the reset, whatever else is quarantined.
  pub clear_and_verify-stops :
      (k : String) (entry : String × String) (d : Dict (String × String)) (db : Db)
      → routed k ≡ none
      → clear_and_verify_quarantine routed (record db { quarantine = (k, entry) ∷ d }) ≡ none
  unfolding clear_and_verify_quarantine verified_empty is_empty quarantine_list delete_all
      after_delete
  clear_and_verify-stops k entry d db e = rw e refl
