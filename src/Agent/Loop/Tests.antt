-- ===== src/Agent/Loop/Tests.antt =====
-- A run against a proxy that counts its calls, and the theorem at it.
use mathlib.Core.Bool.{false≢true}
use ai_agent_security_firewa.Prelude.{
  ℕ, suc, length, Bool-cases, inl, inr, subst, ◌==◌, eq_iff, String, ◌≡◌, refl, true, Option, none,
  some, List, [], ◌∷◌,
}
use ai_agent_security_firewa.Prelude.Json.{null}
use ai_agent_security_firewa.Prelude.Dict.{contains}
use ai_agent_security_firewa.Agent.Tools.{
  RequestedCall, Services, tool_names, of_reply, attest_once, dispatch,
}
use ai_agent_security_firewa.Agent.Loop.{run_calls, loop, run}
use ai_agent_security_firewa.Agent.Loop.Bounds.{state_of, run-keeps}

running : Unit {0}
unfolding of_reply attest_once dispatch run_calls loop run
running = tt

-- The world is the list of the tools that reach the proxy.
abbrev services : Services (List String)
services = record {
  attest = λ w. (w, some "token");
  tool_call = λ w token call. (
    call.name ∷ w,
    some (record { decision = "ALLOW"; reason = "matched_explicit_allow"; result = null }),
  );
}

abbrev asks : String → RequestedCall
asks name = record { name = name; arguments = [] }

-- A provider that never stops asking.
abbrev eager : ℕ → ℕ × List RequestedCall
eager n = (suc n, asks "file.read" ∷ asks "shell.exec" ∷ [])

ten_turns : length (state_of (run services eager 0 [] none)).0 ≡ 10
unfolding running
ten_turns = refl

abbrev IsKnown : List String × Option String → Type 0
IsKnown (tools, cache) =
    (tool : String) → contains tools tool ≡ true → contains tool_names tool ≡ true

known :
    (tools : List String) (name : String) (cache : Option String)
    → contains tool_names name ≡ true
    → IsKnown (tools, cache)
    → IsKnown (name ∷ tools, cache)
known tools name cache k h tool m = elim (Bool-cases (name == tool)) [
  | inl e ↦ subst (λ t. contains tool_names t ≡ true) ((eq_iff name tool).0 e) k
  | inr e ↦ h tool (rw e at m)
]

dispatch-IsKnown :
    (state : List String × Option String) (call : RequestedCall)
    → contains tool_names call.name ≡ true
    → IsKnown state
    → IsKnown (dispatch services state call).0
unfolding running
dispatch-IsKnown (tools, none) call k h = known tools call.name (some "token") k h
dispatch-IsKnown (tools, some token) call k h = known tools call.name (some token) k h

run-keeps_example : IsKnown (state_of (run services eager 0 [] none))
run-keeps_example =
    run-keeps services IsKnown dispatch-IsKnown eager 0 [] none (λ tool m. absurd (false≢true m))
