-- ===== src/Pep/Pipeline/State.antt =====
-- pep/pipeline.py: the process's state with the event store that it asks, what a call brings, what happens
-- outside during it (clocks, answers of the network), what a process is set up with, and a call's result.
-- Latencies are not modelled.
use ai_agent_security_firewa.Prelude.{ℕ, String, Bool, false, Option, none, List, [], if◌then◌else◌}
use ai_agent_security_firewa.Prelude.Dict.{Dict, get_default}
use ai_agent_security_firewa.Prelude.Json.{Json}
use ai_agent_security_firewa.Policy.Decision.{Decision, deny}
use ai_agent_security_firewa.Policy.Rules.{Bundle}
use ai_agent_security_firewa.Events.Store.{Db}
use ai_agent_security_firewa.Identity.Tokens.{Verified}
use ai_agent_security_firewa.Risk.Scorer.{Factor}
use ai_agent_security_firewa.Risk.Behavior.{Behavior}
use ai_agent_security_firewa.Pep.Pipeline.Targets.{Canonical, Arguments}

-- What the process is set up with: the compiled bundle, the list of bad names, and the code that it
-- calls outside the model.
pub record Setup : Type 0 where
  pub bundle : Bundle
  pub listed : List (List ℕ)
  -- identity/tokens.py's verify_token, with the issuer's key
  pub verify : List ℕ → ℕ → Verified
  pub canonical : Canonical
  -- str(v)
  pub show : Json → String
  pub finditer : String → String → List String

pub record Pep : Type 0 where
  -- _SESSION_TAINT
  pub taint : Dict Bool
  -- whether _ISSUER_PUBLIC_KEY is set
  pub key_cached : Bool
  pub behavior : Behavior
  pub denials : Dict (List ℕ)
  -- the event store's file
  pub store : Db

-- Whether the event store answers an entry, whether its database then has a fault, and the time that it
-- writes.
pub record Entry : Type 0 where
  pub up : Bool
  pub fault : Bool
  pub at : String

-- What happens outside during a call.
pub record Moment : Type 0 where
  pub issuer_up : Bool
  pub check_up : Bool
  pub token_time : ℕ
  pub score_time : ℕ
  pub outcome_time : ℕ
  pub denial_time : ℕ
  pub denial_entry : Entry
  pub critical_entry : Entry
  pub hit_entry : Entry

pub record ToolCall : Type 0 where
  pub token : Option (List ℕ)
  pub peer_ip : Option String
  pub session_id : String
  pub tool : String
  pub arguments : Arguments

pub record PipelineResult : Type 0 where
  pub decision : Decision
  pub reason : String
  pub policy_id : String
  pub role : Option String
  pub agent_key : String
  pub session_taint : String
  pub data_classification : String
  pub risk_score : ℕ
  pub risk_factors : List Factor
  pub normalized_arguments : Arguments

-- _deny_early
unfoldable pub deny_early : String → String → String → PipelineResult
deny_early reason policy_id agent_key = record {
  decision = deny;
  reason = reason;
  policy_id = policy_id;
  role = none;
  agent_key = agent_key;
  session_taint = "clean";
  data_classification = "internal";
  risk_score = 0;
  risk_factors = [];
  normalized_arguments = [];
}

-- "tainted" if _SESSION_TAINT.get(session_id, False) else "clean"
unfoldable pub taint_of : Pep → String → String
taint_of pep session_id = if get_default pep.taint session_id false then "tainted" else "clean"
