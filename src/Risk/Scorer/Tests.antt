-- ===== src/Risk/Scorer/Tests.antt =====
-- The scorer on short runs of calls, and its theorems at concrete states.
use ai_agent_security_firewa.Prelude.{
  ℕ, ◌≤◌, ◌≡◌, ◌↔◌, refl, inl, inr, true, false, none, some, List, [], ◌∷◌, length, min, arith,
}
use ai_agent_security_firewa.Prelude.Dict.{get, put, get_default}
use ai_agent_security_firewa.Policy.Decision.{Decision, ◌⊑◌, deny, allow, executable}
use ai_agent_security_firewa.Risk.Scorer.{
  Call, score, action_points, data_class_points, band_and_ceiling, destination_factors,
}
use ai_agent_security_firewa.Risk.Outcomes.{
  Outcome, BaselineEvent, record_outcome, record_all, seed_event, warm_up,
}
use ai_agent_security_firewa.Risk.Behavior.{cold, recent, is_rate_anomalous, is_unseen_bigram}
use ai_agent_security_firewa.Risk.Scorer.Bounds.{
  total_points, score-total_points, score-threat_intel_hit,
}
use ai_agent_security_firewa.Risk.Scorer.Window.{history, times_of, is_rate_anomalous-history}
use ai_agent_security_firewa.Risk.Scorer.Novelty.{
  IsSeeded, destination_factors-record_all, warm_up-IsSeeded,
}
use ai_agent_security_firewa.Risk.Scorer.Streak.{
  latest_first, leading_denials, denial_streak-record_all,
}

running : Unit {0}
unfolding score band_and_ceiling record_all record_outcome seed_event warm_up get put recent
    action_points data_class_points is_rate_anomalous is_unseen_bigram
running = tt

abbrev fetch : Call
fetch = record {
  agent_id = "agent";
  role = "research_agent";
  tool = "http.get";
  destination_key = some "arxiv.org";
  action = "read";
  data_class = "public";
  session_taint = "tainted";
  threat_intel_hit = true;
}

-- 60 for the hit, 15 for the destination and 30 for the taint
fetch_score : (score cold 0 fetch).score ≡ 100
unfolding running
fetch_score = refl

abbrev outcome : Decision → Outcome
outcome d = record {
  agent_id = "agent";
  role = "research_agent";
  tool = "http.get";
  destination_key = some "arxiv.org";
  decision = d;
}

abbrev busy : List (ℕ × Outcome)
busy =
    (1, outcome allow)
    ∷ (2, outcome deny)
    ∷ (3, outcome deny)
    ∷ (60000003, outcome deny)
    ∷ (60000003, outcome deny)
    ∷ []

busy_streak : get_default (record_all cold busy).denial_streak "agent" 0 ≡ 4
unfolding running
busy_streak = refl

busy_rate : is_rate_anomalous (record_all cold busy) 60000003 "agent" ≡ false
unfolding running
busy_rate = refl

score-total_points_example :
    ((score cold 0 fetch).score ≡ min (total_points cold 0 fetch) 100)
    × ((score cold 0 fetch).band ≡ (band_and_ceiling (min (total_points cold 0 fetch) 100)).0)
    × ((score cold 0 fetch).decision_ceiling
        ≡ (band_and_ceiling (min (total_points cold 0 fetch) 100)).1)
score-total_points_example = score-total_points cold 0 fetch

under_ceiling : deny ⊑ (score cold 0 fetch).decision_ceiling
under_ceiling = omega arith

score-threat_intel_hit_example : executable deny ≡ false
score-threat_intel_hit_example = score-threat_intel_hit cold 0 fetch deny refl under_ceiling

is_rate_anomalous-history_example :
    (is_rate_anomalous (record_all cold busy) 60000003 "agent" ≡ true)
    ↔ (5 ≤ length (recent 60000003 (times_of "agent" (history busy))))
is_rate_anomalous-history_example =
    is_rate_anomalous-history busy 60000003 "agent"
      (omega arith, (omega arith, (omega arith, (omega arith, (omega arith, omega arith)))))

destination_factors-record_all_example :
    destination_factors (record_all cold busy) "agent" (some "arxiv.org") ≡ []
destination_factors-record_all_example =
    destination_factors-record_all cold busy 2 (outcome deny) "arxiv.org" (inr (inl refl)) refl

abbrev baseline : List BaselineEvent
baseline =
    record {
      role = "research_agent";
      tool = "http.get";
      destination_key = some "arxiv.org";
      agent_id = some "agent";
    }
    ∷ record {
      role = "research_agent";
      tool = "file.read";
      destination_key = none;
      agent_id = none;
    }
    ∷ []

warm_up-IsSeeded_example : IsSeeded cold baseline
warm_up-IsSeeded_example = warm_up-IsSeeded cold baseline

denial_streak-record_all_example :
    get_default (record_all cold busy).denial_streak "agent" 0
    ≡ leading_denials (latest_first "agent" busy [])
denial_streak-record_all_example = denial_streak-record_all busy "agent"
