-- ===== src/Risk/Scorer.antt =====
-- risk/scorer.py, score: the additive score of a call, in the behavioral state. A time is a number of
-- microseconds; the injectable clock is the argument `now`. In Python `now - t` may be negative and then passes
-- the window's test, as the difference that stops at 0 does.
pub mod Bounds
pub mod Window
pub mod Novelty
pub mod Streak
mod Tests
use text.Mathlib.Text.{starts_with}
use ai_agent_security_firewa.Prelude.{
  ℕ, zero, suc, ◌+◌, ◌-◌, ◌*◌, min, String, Bool, true, false, not, ◌&&◌, ◌||◌, Option, none, some,
  List, [], ◌∷◌, ◌++◌, map, length, sum, select, leb, nat_eq, ◌==◌, if◌then◌else◌,
}
use ai_agent_security_firewa.Prelude.Dict.{Dict, get, put, get_default, contains, add}
use ai_agent_security_firewa.Policy.Decision.{
  Decision, deny, quarantine, require_approval, rate_limit, allow, is_decision,
}
use ai_agent_security_firewa.Risk.Behavior.{
  Behavior, add_bigram, is_rate_anomalous, is_unseen_bigram, rate_threshold, recent,
}

abbrev pub threat_intel_hit_points : ℕ
threat_intel_hit_points = 60

abbrev pub category_cap : ℕ
category_cap = 60

abbrev pub total_cap : ℕ
total_cap = 100

abbrev pub denial_streak_per_hit : ℕ
denial_streak_per_hit = 5

abbrev pub denial_streak_cap : ℕ
denial_streak_cap = 25

-- ACTION_POINTS.get(action, 0)
unfoldable pub action_points : String → ℕ
action_points action =
    if action == "write"
    then 10
    else if action == "delete"
    then 25
    else if action == "cred_access"
    then 30
    else 0

-- DATA_CLASS_POINTS.get(data_class, 0)
unfoldable pub data_class_points : String → ℕ
data_class_points data_class =
    if data_class == "internal"
    then 10
    else if data_class == "confidential"
    then 25
    else if data_class == "secret"
    then 40
    else 0

-- What the f-strings of the reasons are made of.
pub data Piece : Type 0 where
  plain : String → Piece
  repr : String → Piece
  num : ℕ → Piece

pub record Factor : Type 0 where
  pub code : String
  pub points : ℕ
  pub human_reason : List Piece

pub record ScoreResult : Type 0 where
  pub score : ℕ
  pub band : String
  pub factors : List Factor
  pub decision_ceiling : Decision

-- The arguments of `score`.
pub record Call : Type 0 where
  pub agent_id : String
  pub role : String
  pub tool : String
  pub destination_key : Option String
  pub action : String
  pub data_class : String
  pub session_taint : String
  pub threat_intel_hit : Bool

pub destination_factors : Behavior → String → Option String → List Factor
destination_factors b agent_id none = []
destination_factors b agent_id (some dest) =
    if not (contains b.seen_by_org dest)
    then record {
      code = "DEST_UNKNOWN_TO_ORG";
      points = 15;
      human_reason = plain "no agent has ever called this destination" ∷ [];
    }
      ∷ []
    else if not (contains (get_default b.seen_by_agent agent_id []) dest)
    then record {
      code = "DEST_NEVER_SEEN_BY_AGENT";
      points = 10;
      human_reason = plain "new destination for this agent" ∷ [];
    }
      ∷ []
    else []

when : Bool → Factor → List Factor
when true f = f ∷ []
when false f = []

nonzero : ℕ → Bool
nonzero n = not (nat_eq n 0)

pub raw_factors : Behavior → ℕ → Call → List Factor
raw_factors b now c =
    let action_pts = action_points c.action in
    let data_pts = data_class_points c.data_class in
    let streak = get_default b.denial_streak c.agent_id 0 in
    when c.threat_intel_hit (record {
      code = "THREAT_INTEL_HIT";
      points = threat_intel_hit_points;
      human_reason = plain "destination is on the local threat-intel list" ∷ [];
    })
    ++ destination_factors b c.agent_id c.destination_key
    ++ when (nonzero action_pts) (record {
      code = "ACTION_CLASS";
      points = action_pts;
      human_reason =
          plain "action class " ∷ repr c.action ∷ plain " carries blast-radius risk" ∷ [];
    })
    ++ when (nonzero data_pts) (record {
      code = "DATA_CLASS";
      points = data_pts;
      human_reason = plain "data classification " ∷ repr c.data_class ∷ [];
    })
    ++ when (c.session_taint == "tainted" && starts_with c.tool "http.") (record {
      code = "TAINTED_EXTERNAL";
      points = 30;
      human_reason = plain "tainted session attempting an external call" ∷ [];
    })
    ++ when (is_rate_anomalous b now c.agent_id) (record {
      code = "RATE_ANOMALY";
      points = 20;
      human_reason =
          plain ">"
          ∷ num rate_threshold
          ∷ plain " calls in "
          ∷ num 60
          ∷ plain "s (in-process proxy for a 7-day baseline)"
          ∷ [];
    })
    ++ when (is_unseen_bigram b c.role c.tool) (record {
      code = "UNSEEN_BIGRAM";
      points = 15;
      human_reason =
          plain "role "
          ∷ repr c.role
          ∷ plain " has never called "
          ∷ repr c.tool
          ∷ plain " right after its previous tool"
          ∷ [];
    })
    ++ record {
      code = "OUTSIDE_ACTIVE_WINDOW";
      points = 0;
      human_reason = plain "not evaluated — no historical activity store in this deployment" ∷ [];
    }
      ∷ when (nonzero streak) (record {
        code = "DENIAL_STREAK";
        points = min (streak * denial_streak_per_hit) denial_streak_cap;
        human_reason = num streak ∷ plain " consecutive prior denial(s) for this agent" ∷ [];
      })

-- Factor(f.code, min(f.points, CATEGORY_CAP), f.human_reason)
abbrev pub cap_factor : Factor → Factor
cap_factor f = record f { points = min f.points category_cap }

unfoldable pub band_and_ceiling : ℕ → String × Decision
band_and_ceiling total =
    if leb 75 total
    then ("CRITICAL", quarantine)
    else if leb 50 total
    then ("HIGH", require_approval)
    else if leb 25 total
    then ("MODERATE", rate_limit)
    else ("LOW", allow)

abbrev pub points_of : List Factor → ℕ
points_of fs = sum (map (λ f. f.points) fs)

unfoldable pub score : Behavior → ℕ → Call → ScoreResult
unfolding raw_factors destination_factors when nonzero is_rate_anomalous is_unseen_bigram
score b now c =
    let capped = map cap_factor (raw_factors b now c) in
    let total = min (points_of capped) total_cap in
    record {
      score = total;
      band = (band_and_ceiling total).0;
      factors = capped;
      decision_ceiling = (band_and_ceiling total).1;
    }
