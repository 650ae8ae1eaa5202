-- ===== src/Policy/Rules.antt =====
-- policy/engine.py: the frozen dataclasses of a bundle and of a verdict.
use ai_agent_security_firewa.Prelude.{String, Bool, Option, List}
use ai_agent_security_firewa.Prelude.Order.{ℤ}
use ai_agent_security_firewa.Policy.Decision.{Decision}

pub record Rule : Type 0 where
  pub id : String
  pub priority : ℤ
  pub role : String
  pub tool : List String
  pub effect : Decision
  pub critical_path : Bool
  pub destination : Option (List String)
  pub resource : Option (List String)
  pub max_data_class : Option String
  pub session_taint : Option (List String)
  pub inspect : Bool
  pub reason : String

pub record EastWestRule : Type 0 where
  pub id : String
  pub priority : ℤ
  pub source_workload : String
  pub dest_workload : String
  pub action : String
  pub effect : Decision

pub record Bundle : Type 0 where
  pub version : String
  pub not_valid_after : String
  pub fail_safe_after : ℤ
  pub rules : List Rule
  pub east_west_rules : List EastWestRule

pub record EvalResult : Type 0 where
  pub decision : Decision
  pub policy_id : String
  pub reason : String
  pub max_data_class : Option String
  pub inspect : Bool
