-- ===== src/ThreatIntel/Feed.antt =====
-- threat_intel/feed.py: the list of known bad names, and the match of a name or a parent domain of it.
-- Names are code points. The lines are those of the file, none where it does not exist.
pub mod Parents
mod Tests
use ai_agent_security_firewa.Prelude.{
  ℕ, String, Bool, true, false, not, ◌&&◌, ◌||◌, Option, none, some, List, [], ◌∷◌, map, any,
  select, nat_eq, if◌then◌else◌,
}
use ai_agent_security_firewa.Prelude.Text.{codes, split_at, join_with, codes_eq, lower_code, strip}

-- Whether a stripped line names a destination.
is_entry : List ℕ → Bool
is_entry [] = false
is_entry (c ∷ s) = not (nat_eq c b'#')

-- _load_set
unfoldable pub load_set : Option (List (List ℕ)) → List (List ℕ)
unfolding strip is_entry
load_set none = []
load_set (some lines) = map (map lower_code) (select is_entry (map strip lines))

-- name in _MALICIOUS_FQDNS
abbrev pub listed_in : List (List ℕ) → List ℕ → Bool
listed_in listed name = any (λ e. codes_eq e name) listed

-- any(".".join(labels[i:]) in _MALICIOUS_FQDNS for i in range(1, len(labels))), on labels[1:]
unfoldable pub any_parent : List (List ℕ) → List (List ℕ) → Bool
any_parent listed [] = false
any_parent listed (l ∷ labels) =
    listed_in listed (join_with b'.' l labels) || any_parent listed labels

match_lower : List (List ℕ) → List ℕ → Bool
match_lower listed name = listed_in listed name || any_parent listed (split_at b'.' name).1

match_codes : List (List ℕ) → List ℕ → Bool
unfolding match_lower
match_codes listed [] = false
match_codes listed (c ∷ name) = match_lower listed (map lower_code (c ∷ name))

unfoldable pub is_known_bad : List (List ℕ) → Option String → Bool
unfolding match_codes
is_known_bad listed none = false
is_known_bad listed (some fqdn) = match_codes listed (codes fqdn)
