-- ===== src/Agent/Loop/Bounds.antt =====
-- agent/loop.py: only known tools reach the proxy, and nothing else does.
use ai_agent_security_firewa.Prelude.{
  ℕ, zero, suc, String, ◌≡◌, refl, Bool, true, false, Option, none, some, List, [], ◌∷◌,
}
use ai_agent_security_firewa.Prelude.Dict.{contains}
use ai_agent_security_firewa.Agent.Tools.{RequestedCall, Services, tool_names, dispatch}
use ai_agent_security_firewa.Agent.Loop.{
  TurnLog, Run, finished, aborted, step, prepend, run_calls, join, after_turn, turn, loop, run,
  max_iterations,
}

module _ {S : Type 0} where
  abbrev pub state_of : Run S → S
  state_of (finished s log) = s
  state_of (aborted s) = s

module _ {W : Type 0} (services : Services W) (I : W × Option String → Type 0)
    (keeps : (state : W × Option String) (call : RequestedCall)
      → contains tool_names call.name ≡ true
      → I state
      → I (dispatch services state call).0) where
  step-keeps :
      (state : W × Option String) (call : RequestedCall) (known : Bool)
      → contains tool_names call.name ≡ known
      → I state
      → I (step services state call known).0
  unfolding step
  step-keeps state call false e h = h
  step-keeps state call true e h = keeps state call e h

  prepend-keeps :
      (e : Option TurnLog) (state : W × Option String) (rest : Run (W × Option String))
      → I state
      → I (state_of rest)
      → I (state_of (prepend services e state rest))
  unfolding prepend
  prepend-keeps none state rest h k = h
  prepend-keeps (some e) state (finished s log) h k = k
  prepend-keeps (some e) state (aborted s) h k = k

  run_calls-keeps :
      (state : W × Option String) (calls : List RequestedCall)
      → I state
      → I (state_of (run_calls services state calls))
  unfolding run_calls
  run_calls-keeps state [] h = h
  run_calls-keeps state (call ∷ calls) h =
      let after = step services state call (contains tool_names call.name) in
      let k = step-keeps state call (contains tool_names call.name) refl h in
      prepend-keeps after.1 after.0 (run_calls services after.0 calls) k
        (run_calls-keeps after.0 calls k)

  module _ {S : Type 0} (next_turn : S → S × List RequestedCall) where
    join-keeps :
        (log : List TurnLog) (r : Run (W × Option String))
        → I (state_of r)
        → I (state_of (join services next_turn log r))
    unfolding join
    join-keeps log (finished s more) k = k
    join-keeps log (aborted s) k = k

    after_turn-keeps :
        (again : W × Option String → Run (W × Option String)) (r : Run (W × Option String))
        → ((s : W × Option String) → I s → I (state_of (again s)))
        → I (state_of r)
        → I (state_of (after_turn services next_turn again r))
    unfolding after_turn
    after_turn-keeps again (finished s log) f k = join-keeps log (again s) (f s k)
    after_turn-keeps again (aborted s) f k = k

    turn-keeps :
        (again : W × Option String → Run (W × Option String)) (state : W × Option String)
        (calls : List RequestedCall)
        → ((s : W × Option String) → I s → I (state_of (again s)))
        → I state
        → I (state_of (turn services next_turn again state calls))
    unfolding turn
    turn-keeps again state [] f h = h
    turn-keeps again state (call ∷ calls) f h =
        after_turn-keeps again (run_calls services state (call ∷ calls)) f
          (run_calls-keeps state (call ∷ calls) h)

    loop-keeps :
        (n : ℕ) (s : S) (state : W × Option String)
        → I state
        → I (state_of (loop services next_turn n s state))
    unfolding loop
    loop-keeps zero s state h = h
    loop-keeps (suc n) s state h =
        turn-keeps (loop services next_turn n (next_turn s).0) state (next_turn s).1
          (λ t k. loop-keeps n (next_turn s).0 t k) h

    -- Whatever the provider asks for, the services are called by dispatches of the six known tools
    -- alone: each property of the world and the token cache that every such dispatch keeps holds at
    -- the end of a run, and at its abort, if it holds at the start.
    pub run-keeps :
        (s : S) (w : W) (cache : Option String)
        → I (w, cache)
        → I (state_of (run services next_turn s w cache))
    unfolding run
    run-keeps s w cache h = loop-keeps max_iterations s (w, cache) h
