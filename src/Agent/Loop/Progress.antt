-- ===== src/Agent/Loop/Progress.antt =====
-- agent/loop.py: one iteration of the loop, where no dispatch fails.
use ai_agent_security_firewa.Prelude.{
  ℕ, suc, String, ◌≡◌, ◌≢◌, refl, ap, Bool, true, false, Option, some, List, [], ◌∷◌,
}
use ai_agent_security_firewa.Prelude.Dict.{Dict, contains}
use ai_agent_security_firewa.Prelude.Json.{Json}
use ai_agent_security_firewa.Agent.Tools.{
  RequestedCall, Services, Dispatched, returned, denied, failed, tool_names, dispatch,
}
use ai_agent_security_firewa.Agent.Loop.{
  TurnLog, finished, entry_of, unknown_tool, step, prepend, run_calls, join, after_turn, turn, loop,
}

module _ {W : Type 0} where
  -- The two services answer every call.
  abbrev pub IsReliable : Services W → Type 0
  IsReliable services =
      (state : W × Option String) (call : RequestedCall) → (dispatch services state call).1 ≢ failed

module _ {W : Type 0} (services : Services W) (reliable : IsReliable services) where
  entry_of-request :
      (call : RequestedCall) (d : Dispatched)
      → d ≢ failed
      → (e : TurnLog) × (entry_of services call d ≡ some e)
        × ◌≡◌ {A = String × Dict Json} (e.tool, e.arguments) (call.name, call.arguments)
  unfolding entry_of
  entry_of-request call (returned decision result) ne = (_, refl, refl)
  entry_of-request call (denied decision reason) ne = (_, refl, refl)
  entry_of-request call failed ne = absurd (ne refl)

  step-request :
      (state : W × Option String) (call : RequestedCall) (known : Bool)
      → (e : TurnLog) × ((step services state call known).1 ≡ some e)
        × ◌≡◌ {A = String × Dict Json} (e.tool, e.arguments) (call.name, call.arguments)
  unfolding step unknown_tool
  step-request state call false = (_, refl, refl)
  step-request state call true =
      entry_of-request call (dispatch services state call).1 (reliable state call)

  run_calls-one :
      (state : W × Option String) (call : RequestedCall)
      → (state' : W × Option String) × (e : TurnLog) × (run_calls services state (call ∷ [])
          ≡ finished state' (e ∷ []))
        × ◌≡◌ {A = String × Dict Json} (e.tool, e.arguments) (call.name, call.arguments)
  unfolding run_calls prepend
  run_calls-one state call =
      let (e, is_some, named) = step-request state call (contains tool_names call.name) in
      let state' = (step services state call (contains tool_names call.name)).0 in
      (
        state',
        e,
        ap (λ (o : Option TurnLog). prepend services o state' (finished state' [])) is_some,
        named,
      )

  module _ {S : Type 0} (next_turn : S → S × List RequestedCall) where
    pub loop-none :
        (n : ℕ) (s s' : S) (state : W × Option String)
        → next_turn s ≡ (s', [])
        → loop services next_turn (suc n) s state ≡ finished state []
    unfolding loop turn
    loop-none n s s' state e = rw e refl

    pub loop-one :
        (n : ℕ) (s s' : S) (state : W × Option String) (call : RequestedCall)
        → next_turn s ≡ (s', call ∷ [])
        → (state' : W × Option String) × (e : TurnLog) × ◌≡◌ {A = String × Dict Json}
            (e.tool, e.arguments)
            (call.name, call.arguments)
          × ((last : W × Option String) (log : List TurnLog)
              → loop services next_turn n s' state' ≡ finished last log
              → loop services next_turn (suc n) s state ≡ finished last (e ∷ log))
    unfolding loop turn after_turn join
    loop-one n s s' state call e =
        let (state', entry, one, named) = run_calls-one state call in
        (state', entry, named, (λ last log h. rw (e, one, h) refl))
