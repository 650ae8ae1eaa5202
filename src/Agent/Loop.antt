-- ===== src/Agent/Loop.antt =====
-- agent/loop.py: the loop of at most ten turns. The provider is a state with its next turn; the loop
-- hands it no messages, since it never adds any. A dispatch that fails ends the loop with an error.
pub mod Bounds
pub mod Progress
mod Tests
use ai_agent_security_firewa.Prelude.{
  ℕ, zero, suc, ◌+◌, String, Bool, true, false, Option, none, some, List, [], ◌∷◌, ◌++◌,
}
use ai_agent_security_firewa.Prelude.Dict.{Dict, contains}
use ai_agent_security_firewa.Prelude.Json.{Json}
use ai_agent_security_firewa.Agent.Tools.{
  RequestedCall, Dispatched, returned, denied, failed, Services, tool_names, dispatch,
}

-- MAX_ITERATIONS
abbrev pub max_iterations : ℕ
max_iterations = 10

-- `detail` is none where the source writes the empty text, else the result that it shows.
pub record TurnLog : Type 0 where
  pub tool : String
  pub arguments : Dict Json
  pub decision : String
  pub reason : String
  pub detail : Option Json

pub data Run (S : Type 0) : Type 0 where
  finished : S → List TurnLog → Run S
  -- an exception, after which there is a state but no log
  aborted : S → Run S

module _ {W : Type 0} (services : Services W) where
  entry_of : RequestedCall → Dispatched → Option TurnLog
  entry_of call (returned decision result) = some (record {
    tool = call.name;
    arguments = call.arguments;
    decision = decision;
    reason = "matched_explicit_allow";
    detail = some result;
  })
  entry_of call (denied decision reason) = some (record {
    tool = call.name;
    arguments = call.arguments;
    decision = decision;
    reason = reason;
    detail = none;
  })
  entry_of call failed = none

  unknown_tool : RequestedCall → TurnLog
  unknown_tool call = record {
    tool = call.name;
    arguments = call.arguments;
    decision = "AGENT_ERROR";
    reason = "unknown_tool";
    detail = none;
  }

  -- One call of a turn, by whether its tool is known: the state after it, and its entry in the log.
  pub step : W × Option String → RequestedCall → Bool → (W × Option String) × Option TurnLog
  unfolding unknown_tool entry_of
  step state call false = (state, some (unknown_tool call))
  step state call true = let (state', d) = dispatch services state call in (state', entry_of call d)

  prepend : Option TurnLog → W × Option String → Run (W × Option String) → Run (W × Option String)
  prepend none state rest = aborted state
  prepend (some e) state (finished s log) = finished s (e ∷ log)
  prepend (some e) state (aborted s) = aborted s

  -- The calls of one turn.
  unfoldable pub run_calls : W × Option String → List RequestedCall → Run (W × Option String)
  unfolding step prepend
  run_calls state [] = finished state []
  run_calls state (call ∷ calls) =
      let (state', e) = step state call (contains tool_names call.name) in
      let rest = run_calls state' calls in prepend e state' rest

  module _ {S : Type 0} (next_turn : S → S × List RequestedCall) where
    join : List TurnLog → Run (W × Option String) → Run (W × Option String)
    join log (finished s more) = finished s (log ++ more)
    join log (aborted s) = aborted s

    after_turn :
        (W × Option String → Run (W × Option String))
        → Run (W × Option String)
        → Run (W × Option String)
    unfolding join
    after_turn again (finished s log) = join log (again s)
    after_turn again (aborted s) = aborted s

    turn :
        (W × Option String → Run (W × Option String))
        → W × Option String
        → List RequestedCall
        → Run (W × Option String)
    unfolding after_turn
    turn again state [] = finished state []
    turn again state (call ∷ calls) = after_turn again (run_calls state (call ∷ calls))

    -- The loop's iterations that are left.
    unfoldable pub loop : ℕ → S → W × Option String → Run (W × Option String)
    unfolding turn
    loop zero s state = finished state []
    loop (suc n) s state =
        let (s', calls) = next_turn s in let again = loop n s' in turn again state calls

    -- run
    unfoldable pub run : S → W → Option String → Run (W × Option String)
    run s w cache = loop max_iterations s (w, cache)
