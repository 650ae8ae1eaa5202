-- ===== src/Agent/Main.antt =====
-- agent/main.py: the entry point, up to what it prints.
use ai_agent_security_firewa.Prelude.{
  ℕ, ◌-◌, not, ◌||◌, Option, none, some, List, select, length, ◌==◌,
}
use ai_agent_security_firewa.Agent.Tools.{Services, RequestedCall}
use ai_agent_security_firewa.Agent.Loop.{TurnLog, Run, finished, aborted, run}

-- The last line, and the entries printed above it.
pub record Report : Type 0 where
  pub entries : List TurnLog
  pub calls : ℕ
  pub allowed : ℕ
  pub denied : ℕ

unfoldable pub summary : List TurnLog → Report
summary log =
    let denied =
      length (select (λ e. not (e.decision == "ALLOW" || e.decision == "ALLOW_REDACTED")) log) in
    record { entries = log; calls = length log; allowed = length log - denied; denied = denied }

report_of : {S : Type 0} → Run S → Option Report
report_of (finished s log) = some (summary log)
report_of (aborted s) = none

-- main, none where it ends with an exception
unfoldable pub main :
    {W S : Type 0} → Services W → (S → S × List RequestedCall) → S → W → Option Report
unfolding report_of
main services next_turn s w = report_of (run services next_turn s w none)
