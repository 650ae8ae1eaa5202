-- ===== src/Risk/Scorer/Bounds.antt =====
-- risk/scorer.py, `score`: the bounds of a score, its explanation by the factors, and the ceiling.
use text.Mathlib.Text.{starts_with}
use ai_agent_security_firewa.Prelude.{
  ℕ, ◌+◌, ◌≤◌, min, String, ◌≡◌, refl, ap, Bool, true, false, not, ◌&&◌, ◌*◌, ◌==◌, if◌then◌else◌,
  Option, none, some, List, [], ◌∷◌, ◌++◌, map, All, arith,
}
use ai_agent_security_firewa.Prelude.Dict.{contains, get_default}
use ai_agent_security_firewa.Policy.Decision.{Decision, ◌⊑◌, require_approval, executable}
use ai_agent_security_firewa.Risk.Scorer.{
  Factor, Call, cap_factor, points_of, raw_factors, band_and_ceiling, score, when,
  destination_factors, nonzero, action_points, data_class_points,
}
use ai_agent_security_firewa.Risk.Behavior.{Behavior, is_rate_anomalous, is_unseen_bigram}

-- What a score's fields have to do with one another.
pub record IsExplained (b : Behavior) (now : ℕ) (c : Call) : Type 0 where
  -- the score is the factors' points together, up to 100
  pub explained : (score b now c).score ≡ min (points_of (score b now c).factors) 100
  pub bounded : (score b now c).score ≤ 100
  pub capped : All (λ (f : Factor). f.points ≤ 60) (score b now c).factors

map-capped : (fs : List Factor) → All (λ (f : Factor). f.points ≤ 60) (map cap_factor fs)
map-capped [] = tt
map-capped (f ∷ fs) = (omega arith, map-capped fs)

-- Every score is at most 100, no factor of it has more than 60 points, and the score is exactly the
-- sum of its factors' points, or 100 where they come to more.
pub score-IsExplained : (b : Behavior) (now : ℕ) (c : Call) → IsExplained b now c
unfolding score
score-IsExplained b now c = record {
  explained = refl;
  bounded = omega arith;
  capped = map-capped (raw_factors b now c);
}

-- A higher total never has a wider ceiling.
pub band_and_ceiling_antitone : (s t : ℕ) → s ≤ t → (band_and_ceiling t).1 ⊑ (band_and_ceiling s).1
unfolding band_and_ceiling
band_and_ceiling_antitone s t h = ground arith

points-append :
    (fs gs : List Factor)
    → points_of (map cap_factor (fs ++ gs))
      ≡ points_of (map cap_factor fs) + points_of (map cap_factor gs)
points-append [] gs = omega arith
points-append (f ∷ fs) gs = omega (arith, points-append fs gs)

-- What a factor of `when` adds.
abbrev worth : Bool → ℕ → ℕ
worth b n = if b then n else 0

points-when :
    (b : Bool) (f : Factor) → points_of (map cap_factor (when b f)) ≡ worth b (min f.points 60)
unfolding when
points-when true f = omega arith
points-when false f = refl

-- The points of a destination: new to every agent, or new to this one.
unfoldable pub destination_points : Behavior → String → Option String → ℕ
destination_points b agent_id none = 0
destination_points b agent_id (some dest) =
    if contains b.seen_by_org dest
    then worth (not (contains (get_default b.seen_by_agent agent_id []) dest)) 10
    else 15

points-destination :
    (b : Behavior) (agent_id : String) (dest : Option String)
    → points_of (map cap_factor (destination_factors b agent_id dest))
      ≡ destination_points b agent_id dest
unfolding destination_factors destination_points
points-destination b agent_id none = refl
points-destination b agent_id (some dest) = ground arith

action_points-le : (action : String) → action_points action ≤ 60
unfolding action_points
action_points-le action = ground arith

data_class_points-le : (data_class : String) → data_class_points data_class ≤ 60
unfolding data_class_points
data_class_points-le data_class = ground arith

worth-nonzero : (n : ℕ) → n ≤ 60 → worth (nonzero n) (min n 60) ≡ n
unfolding nonzero
worth-nonzero n h = ground arith

worth-streak : (n : ℕ) → worth (nonzero n) (min (min (n * 5) 25) 60) ≡ min (n * 5) 25
unfolding nonzero
worth-streak n = ground arith

-- The points of a call, category by category.
abbrev pub total_points : Behavior → ℕ → Call → ℕ
total_points b now c =
    worth c.threat_intel_hit 60
    + destination_points b c.agent_id c.destination_key
    + action_points c.action
    + data_class_points c.data_class
    + worth (c.session_taint == "tainted" && starts_with c.tool "http.") 30
    + worth (is_rate_anomalous b now c.agent_id) 20
    + worth (is_unseen_bigram b c.role c.tool) 15
    + min (get_default b.denial_streak c.agent_id 0 * 5) 25

points-raw_factors :
    (b : Behavior) (now : ℕ) (c : Call)
    → points_of (map cap_factor (raw_factors b now c)) ≡ total_points b now c
unfolding raw_factors
points-raw_factors b now c =
    simp (points-append, points-when, points-destination)
      (omega (
        arith,
        worth-nonzero (action_points c.action) (action_points-le c.action),
        worth-nonzero (data_class_points c.data_class) (data_class_points-le c.data_class),
        worth-streak (get_default b.denial_streak c.agent_id 0),
      ))

-- The score is the sum of the categories' points, or 100: 60 for a threat-intelligence hit; 15 for a
-- destination that no agent has called, else 10 for one that this agent has not; the points of the
-- action and of the data class; 30 for an http tool in a tainted session; 20 for an anomalous rate;
-- 15 for an unseen pair of tools; and 5 for each consecutive denial, up to 25. The band and the
-- ceiling are those of that total.
pub score-total_points :
    (b : Behavior) (now : ℕ) (c : Call)
    → ((score b now c).score ≡ min (total_points b now c) 100)
      × ((score b now c).band ≡ (band_and_ceiling (min (total_points b now c) 100)).0)
      × ((score b now c).decision_ceiling ≡ (band_and_ceiling (min (total_points b now c) 100)).1)
unfolding score
score-total_points b now c =
    let e = points-raw_factors b now c in
    let total = points_of (map cap_factor (raw_factors b now c)) in
    (
      ap (λ (n : ℕ). min n 100) e,
      ap (λ (n : ℕ). (band_and_ceiling (min n 100)).0) e,
      ap (λ (n : ℕ). (band_and_ceiling (min n 100)).1) e,
    )

ceiling_at_60 : (n : ℕ) → 60 ≤ n → (band_and_ceiling (min n 100)).1 ⊑ require_approval
unfolding band_and_ceiling
ceiling_at_60 n h = ground arith

-- A threat-intelligence hit alone puts the ceiling at REQUIRE_APPROVAL or below, so that no decision
-- under the ceiling executes.
pub score-threat_intel_hit :
    (b : Behavior) (now : ℕ) (c : Call) (d : Decision)
    → c.threat_intel_hit ≡ true
    → d ⊑ (score b now c).decision_ceiling
    → executable d ≡ false
score-threat_intel_hit b now c d hit under =
    let (_, _, e) = score-total_points b now c in
    let low : (score b now c).decision_ceiling ⊑ require_approval =
      rw e (ceiling_at_60 (total_points b now c) (ground arith)) in
    ground arith
