-- ===== src/Agent/Providers/Tests.antt =====
-- agent/providers.py: the scripts, the provider's turns, and the theorem at the script of three calls.
use ai_agent_security_firewa.Prelude.{
  ℕ, suc, String, ◌≡◌, refl, Option, none, some, List, [], ◌∷◌, map,
}
use ai_agent_security_firewa.Prelude.Dict.{Dict, get}
use ai_agent_security_firewa.Prelude.Json.{Json, null}
use ai_agent_security_firewa.Agent.Tools.{Services, of_reply, attest_once, dispatch}
use ai_agent_security_firewa.Agent.Loop.{TurnLog, finished, max_iterations, loop, run_calls, run}
use ai_agent_security_firewa.Agent.Loop.Progress.{IsReliable}
use ai_agent_security_firewa.Agent.Main.{Report, summary, main}
use ai_agent_security_firewa.Agent.Providers.{
  MockProvider, scripts, mock_provider, nth, next_turn, next_calls,
}
use ai_agent_security_firewa.Agent.Providers.Script.{take, requested, attempted, run-script}

-- The world counts the calls.
abbrev services : Services ℕ
services = record {
  attest = λ w. (w, some "token");
  tool_call = λ w token call. (
    suc w,
    some (record { decision = "ALLOW"; reason = "matched_explicit_allow"; result = null }),
  );
}

reliable : IsReliable services
unfolding dispatch attest_once of_reply
reliable (w, none) call e = cc e
reliable (w, some token) call e = cc e

abbrev injected : MockProvider
injected = mock_provider (some "m3_indirect_prompt_injection") none

run-script_example :
    (last : ℕ × Option String) × (log : List TurnLog) × (run services next_calls injected 0 none
      ≡ finished last log)
    × (attempted log ≡ requested (take max_iterations injected.script))
unfolding mock_provider
run-script_example = run-script services reliable injected 0 none refl

three_calls :
    map
      (λ (request : String × Dict Json). request.0)
      (requested (take max_iterations injected.script))
    ≡ "http.get" ∷ "db.query" ∷ "http.post" ∷ []
unfolding mock_provider scripts get
three_calls = refl

abbrev calls_of : Option Report → ℕ
calls_of none = 0
calls_of (some report) = report.allowed

all_allowed : calls_of (main services next_calls injected 0) ≡ 3
unfolding main summary run loop run_calls dispatch attest_once of_reply next_calls next_turn nth
    mock_provider scripts get
all_allowed = refl
