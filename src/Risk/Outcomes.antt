-- ===== src/Risk/Outcomes.antt =====
-- risk/scorer.py, record_outcome and RiskScorer.warm_up: how the behavioral state changes.
use ai_agent_security_firewa.Prelude.{
  ℕ, suc, String, Option, none, some, List, [], ◌∷◌, ◌++◌, if◌then◌else◌,
}
use ai_agent_security_firewa.Prelude.Dict.{Dict, get, put, get_default, add}
use ai_agent_security_firewa.Policy.Decision.{Decision, deny, is_decision}
use ai_agent_security_firewa.Risk.Behavior.{Behavior, add_bigram, recent}

-- The arguments of `record_outcome`.
pub record Outcome : Type 0 where
  pub agent_id : String
  pub role : String
  pub tool : String
  pub destination_key : Option String
  pub decision : Decision

-- Adds a call to the agent's times, and drops those outside the window.
unfoldable pub note_time : Dict (List ℕ) → ℕ → String → Dict (List ℕ)
unfolding recent
note_time times now agent_id =
    let appended = put times agent_id (get_default times agent_id [] ++ now ∷ []) in
    put appended agent_id (recent now (get_default appended agent_id []))

unfoldable pub note_org : List String → Option String → List String
note_org seen none = seen
note_org seen (some dest) = add seen dest

unfoldable pub note_agent : Dict (List String) → String → Option String → Dict (List String)
note_agent seen agent_id none = seen
note_agent seen agent_id (some dest) = put seen agent_id (add (get_default seen agent_id []) dest)

unfoldable pub note_bigram :
    Dict (List (String × String)) → String → Option String → String → Dict (List (String × String))
note_bigram seen role none tool = seen
note_bigram seen role (some last) tool =
    put seen role (add_bigram (get_default seen role []) last tool)

unfoldable pub note_streak : Dict ℕ → String → Decision → Dict ℕ
note_streak streaks agent_id d =
    if is_decision d deny
    then put streaks agent_id (suc (get_default streaks agent_id 0))
    else put streaks agent_id 0

unfoldable pub record_outcome : Behavior → ℕ → Outcome → Behavior
unfolding note_time note_org note_agent note_bigram note_streak
record_outcome b now o = record {
  seen_by_agent = note_agent b.seen_by_agent o.agent_id o.destination_key;
  seen_by_org = note_org b.seen_by_org o.destination_key;
  call_times = note_time b.call_times now o.agent_id;
  last_tool = put b.last_tool o.role o.tool;
  seen_bigrams = note_bigram b.seen_bigrams o.role (get b.last_tool o.role) o.tool;
  denial_streak = note_streak b.denial_streak o.agent_id o.decision;
}

-- The outcomes of a run of calls, each with the time at which it is recorded.
unfoldable pub record_all : Behavior → List (ℕ × Outcome) → Behavior
record_all b [] = b
record_all b ((t, o) ∷ os) = record_all (record_outcome b t o) os

-- A line of risk/baseline.jsonl that is not blank, as `json.loads` reads it.
pub record BaselineEvent : Type 0 where
  pub role : String
  pub tool : String
  pub destination_key : Option String
  pub agent_id : Option String

unfoldable pub seed_agent : Dict (List String) → Option String → Option String → Dict (List String)
unfolding note_agent
seed_agent seen none dest = seen
seed_agent seen (some agent_id) dest = note_agent seen agent_id dest

unfoldable pub seed_event : Behavior → BaselineEvent → Behavior
unfolding seed_agent note_org note_bigram
seed_event b e = record b {
  seen_by_agent = seed_agent b.seen_by_agent e.agent_id e.destination_key;
  seen_by_org = note_org b.seen_by_org e.destination_key;
  last_tool = put b.last_tool e.role e.tool;
  seen_bigrams = note_bigram b.seen_bigrams e.role (get b.last_tool e.role) e.tool;
}

-- RiskScorer.warm_up: the state after the replay, and the number of events.
unfoldable pub warm_up : Behavior → List BaselineEvent → Behavior × ℕ
unfolding seed_event
warm_up b [] = (b, 0)
warm_up b (e ∷ es) = let (b', n) = warm_up (seed_event b e) es in (b', suc n)
