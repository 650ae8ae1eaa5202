-- ===== src/Pep/Proxy/LogOrDeny.antt =====
-- pep/proxy.py: nothing is executed unless it was cleared and its event is in the log.
use mathlib.Core.Option.{some-injective}
use ai_agent_security_firewa.Prelude.{
  String, ◌≡◌, inl, inr, refl, ap, sym, ◌∙◌, Bool, true, false, Option, none, some, List, [], ◌∷◌,
  Bool-cases, subst, In, append-In, if◌then◌else◌,
}
use ai_agent_security_firewa.Policy.Decision.{Decision, executable}
use ai_agent_security_firewa.Events.Store.{Event, Db}
use ai_agent_security_firewa.Events.Store.Log.{write_event-written_iff}
use ai_agent_security_firewa.Events.App.{post_event-written}
use ai_agent_security_firewa.Risk.Scorer.{Piece}
use ai_agent_security_firewa.Pep.Pipeline.Targets.{Arguments}
use ai_agent_security_firewa.Pep.Pipeline.{run_pipeline}
use ai_agent_security_firewa.Pep.Pipeline.State.{Setup, Pep, Moment, PipelineResult}
use ai_agent_security_firewa.Pep.Pipeline.Clearance.{IsCleared, run_pipeline-IsCleared}
use ai_agent_security_firewa.Pep.Proxy.{
  ToolCallRequest, Logging, Answer, build_event, log_event, unlogged, after_log, with_event,
  with_result, tool_call, answer,
}

-- A write that is confirmed has put the event into the log.
log_event-In :
    (event : Event) (up fault : Bool) (db : Db)
    → (log_event event up fault db).1 ≡ true
    → In event (log_event event up fault db).0.events
unfolding log_event
log_event-In event false fault db e = cc
log_event-In event true fault db e =
    let w = post_event-written event db fault e in
    let (_, _, same) = (write_event-written_iff event db _ fault).0 w in
    subst (λ (d : Db). In event d.events) (sym same)
      (append-In db.events (event ∷ []) event (inr (inl refl)))

-- What stands behind an execution.
pub record IsLogged (setup : Setup) (render : List Piece → String) (pep : Pep) (moment : Moment)
    (log : Logging) (req : ToolCallRequest) (after : Pep) (a : Answer) (tool : String)
    (args : Arguments) : Type 0 where
  pub result : PipelineResult
  pub returned : (run_pipeline setup pep moment req.call).1 ≡ some result
  pub cleared :
      IsCleared setup pep moment req.call (run_pipeline setup pep moment req.call).0 result
  pub event : Event
  pub built : build_event setup render req result log ≡ some event
  pub in_log : In event after.store.events
  pub decision : a.decision ≡ result.decision
  pub tool_is : tool ≡ req.call.tool
  pub arguments_are : args ≡ result.normalized_arguments

-- What the steps behind the pipeline establish.
record IsWritten (setup : Setup) (render : List Piece → String) (log : Logging)
    (req : ToolCallRequest) (result : PipelineResult) (after : Pep) (a : Answer)
    (sent : String × Arguments) : Type 0 where
  event : Event
  built : build_event setup render req result log ≡ some event
  in_log : In event after.store.events
  decision : a.decision ≡ result.decision
  executes : executable result.decision ≡ true
  forwarded : sent ≡ (req.call.tool, result.normalized_arguments)

executed_of :
    (d : Decision) (here sent : String × Arguments)
    → (if executable d then some here else none) ≡ some sent
    → (executable d ≡ true) × (sent ≡ here)
executed_of d here sent e = elim (Bool-cases (executable d)) [
  | inl x ↦ (x, sym (some-injective _ _ (rw x at e)))
  | inr x ↦ cc (rw x at e)
]

module _ (setup : Setup) (render : List Piece → String) (log : Logging) (req : ToolCallRequest)
    (a : Answer) (sent : String × Arguments) where
  logged-Written :
      (result : PipelineResult) (pep : Pep) (event : Event)
      → build_event setup render req result log ≡ some event
      → (w : Db × Bool) → (w.1 ≡ true → In event w.0.events)
      → (after_log setup render req result log pep w).1 ≡ some a
      → a.executed ≡ some sent
      → IsWritten setup render log req result (after_log setup render req result log pep w).0 a sent
  unfolding after_log answer unlogged
  logged-Written result pep event b (db, true) m e x =
      let same = some-injective _ _ e in
      let (runs, here) =
        executed_of result.decision (req.call.tool, result.normalized_arguments) sent
          (ap (λ (c : Answer). c.executed) same ∙ x) in
      record {
        event = event;
        built = b;
        in_log = m refl;
        decision = sym (ap (λ (c : Answer). c.decision) same);
        executes = runs;
        forwarded = here;
      }
  logged-Written result pep event b (db, false) m e x =
      cc (ap (λ (c : Answer). c.executed) (some-injective _ _ e), x)

  built-Written :
      (result : PipelineResult) (pep : Pep) (o : Option Event)
      → build_event setup render req result log ≡ o
      → (with_event setup render req result log pep o).1 ≡ some a
      → a.executed ≡ some sent
      → IsWritten setup render log req result
          (with_event setup render req result log pep o).0
          a
          sent
  unfolding with_event
  built-Written result pep none b e x = cc
  built-Written result pep (some event) b e x =
      logged-Written result pep event b (log_event event log.up log.fault pep.store)
        (log_event-In event log.up log.fault pep.store) e x

  result-Written :
      (pep : Pep) (o : Option PipelineResult)
      → (with_result setup render req log (pep, o)).1 ≡ some a
      → a.executed ≡ some sent
      → (r : PipelineResult) × (o ≡ some r)
        × IsWritten setup render log req r (with_result setup render req log (pep, o)).0 a sent
  unfolding with_result
  result-Written pep none e x = cc
  result-Written pep (some r) e x =
      (r, refl, built-Written r pep (build_event setup render req r log) refl e x)

-- Log-or-deny: whatever a tool call sends out, the pipeline had cleared it, its event is built from
-- the pipeline's result and is in the event store's log afterwards, the caller is told the pipeline's
-- decision, and what goes out is the tool of the call with the canonical arguments.
pub tool_call-IsLogged :
    (setup : Setup) (render : List Piece → String) (pep : Pep) (moment : Moment) (log : Logging)
    (req : ToolCallRequest) (a : Answer) (tool : String) (args : Arguments)
    → (tool_call setup render pep moment log req).1 ≡ some a
    → a.executed ≡ some (tool, args)
    → IsLogged setup render pep moment log req
        (tool_call setup render pep moment log req).0
        a
        tool
        args
unfolding tool_call
tool_call-IsLogged setup render pep moment log req a tool args e x =
    let (r, got, w) =
      result-Written setup render log req a (tool, args) (run_pipeline setup pep moment req.call).0
        (run_pipeline setup pep moment req.call).1 e x in
    record {
      result = r;
      returned = got;
      cleared = run_pipeline-IsCleared setup pep moment req.call r got w.executes;
      event = w.event;
      built = w.built;
      in_log = w.in_log;
      decision = w.decision;
      tool_is = ap (λ (s : String × Arguments). s.0) w.forwarded;
      arguments_are = ap (λ (s : String × Arguments). s.1) w.forwarded;
    }
