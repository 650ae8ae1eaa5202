-- ===== src/ThreatIntel/Feed/Tests.antt =====
-- The shipped list, and the theorem on it at a subdomain of an entry.
use ai_agent_security_firewa.Prelude.{
  ℕ, ◌≡◌, ◌≢◌, ◌↔◌, refl, true, false, some, List, [], ◌∷◌, map, In,
}
use ai_agent_security_firewa.Prelude.Text.{codes, split_at, join_with, codes_eq, lower_code}
use ai_agent_security_firewa.Prelude.Text.{strip}
use ai_agent_security_firewa.ThreatIntel.Feed.{load_set, any_parent, is_known_bad}
use ai_agent_security_firewa.ThreatIntel.Feed.Parents.{Covers, is_known_bad_iff}

running : Unit {0}
unfolding split_at join_with codes_eq strip load_set any_parent is_known_bad
running = tt

abbrev shipped : List (List ℕ)
shipped = codes "evil.example.com" ∷ codes "known-c2.example" ∷ []

loading :
    load_set
      (some (codes "# names" ∷ [] ∷ codes " Evil.example.com " ∷ codes "known-c2.example" ∷ []))
    ≡ shipped
unfolding running
loading = refl

subdomain : is_known_bad shipped (some "a.Evil.example.com") ≡ true
unfolding running
subdomain = refl

lookalike : is_known_bad shipped (some "notevil.example.com") ≡ false
unfolding running
lookalike = refl

is_known_bad_iff_example : (is_known_bad shipped (some "a.evil.example.com") ≡ true) ↔ (
    (codes "a.evil.example.com" ≢ [])
    × ((e : List ℕ) × In e shipped × Covers (map lower_code (codes "a.evil.example.com")) e))
is_known_bad_iff_example = is_known_bad_iff shipped "a.evil.example.com"
