-- ===== src/Pep/Proxy.antt =====
-- pep/proxy.py: a tool call at the proxy: the pipeline, the event that is logged, log-or-deny, and what
-- is executed. An execution is the tool and the arguments that go out; what comes back is not
-- modelled. The event's time and latencies are arguments.
pub mod LogOrDeny
pub mod Conforms
mod Tests
use ai_agent_security_firewa.Prelude.{
  ℕ, String, Bool, true, false, not, ◌&&◌, ◌||◌, Option, none, some, List, [], ◌∷◌, ◌==◌, nat_eq,
  if◌then◌else◌,
}
use text.Mathlib.Text.{starts_with}
use ai_agent_security_firewa.Prelude.Dict.{Dict, get}
use ai_agent_security_firewa.Prelude.Json.{
  Json, null, num, str, arr, obj, Items, nil, item, Fields, end, field,
}
use ai_agent_security_firewa.Prelude.Text.{or_else}
use ai_agent_security_firewa.Policy.Decision.{Decision, deny, name, executable}
use ai_agent_security_firewa.Events.Store.{Event, Db}
use ai_agent_security_firewa.Events.App.{Response, post_event}
use ai_agent_security_firewa.Risk.Scorer.{Factor, Piece}
use ai_agent_security_firewa.Pep.Pipeline.Stages.{action_of}
use ai_agent_security_firewa.Pep.Pipeline.Targets.{Arguments, Canonical, Target, extract_target}
use ai_agent_security_firewa.Pep.Pipeline.{run_pipeline}
use ai_agent_security_firewa.Pep.Pipeline.State.{Setup, Pep, Moment, ToolCall, PipelineResult}

-- ToolCallRequest, with the caller's address and the token of its Authorization header.
pub record ToolCallRequest : Type 0 where
  pub call : ToolCall
  pub trace_id : String

-- What happens outside while the events are written: whether the event store answers, whether its
-- database fails, and what the events show of the time.
pub record Logging : Type 0 where
  pub up : Bool
  pub fault : Bool
  pub retry_up : Bool
  pub retry_fault : Bool
  pub timestamp : String
  pub latency_ms : Json

text_or_null : Option String → Json
text_or_null none = null
text_or_null (some t) = str t

default_port : Option String → ℕ
default_port none = 80
default_port (some scheme) = if scheme == "https" then 443 else 80

-- canonical.port or (443 if canonical.scheme == "https" else 80)
port_or_default : Option ℕ → Option String → ℕ
unfolding default_port
port_or_default none scheme = default_port scheme
port_or_default (some port) scheme = if nat_eq port 0 then default_port scheme else port

destination : Json → Json → Json → Json
destination fqdn port protocol =
    obj (field "fqdn" fqdn (field "ip" null (field "port" port (field "protocol" protocol end))))

url_destination : Canonical → String → Option Json → Option Json
unfolding destination port_or_default text_or_null
url_destination canon fqdn (some (str url)) = elim (canon.normalize_url url) [
  | none ↦ none
  | some _ ↦ some (
      destination (str fqdn) (num (port_or_default (canon.port_of url) (canon.scheme_of url)))
        (text_or_null (canon.scheme_of url)))
]
url_destination canon fqdn _ = none

-- _destination_dict, none where it raises
pub destination_dict : Canonical → String → Arguments → Option String → Option Json
unfolding url_destination destination
destination_dict canon tool args none = some (destination null null null)
destination_dict canon tool args (some fqdn) =
    if fqdn == "" || not (starts_with tool "http.")
    then some (destination null null null)
    else url_destination canon fqdn (get args "url")

-- result.normalized_arguments or req.arguments
pub arguments_of : Arguments → Arguments → Arguments
arguments_of [] original = original
arguments_of (a ∷ args) original = a ∷ args

factor_items : (List Piece → String) → List Factor → Items
factor_items render [] = nil
factor_items render (f ∷ fs) =
    item
      (obj (
        field "code" (str f.code)
          (field "points" (num f.points) (field "human_reason" (str (render f.human_reason)) end))))
      (factor_items render fs)

module _ (setup : Setup) (render : List Piece → String) where
  event_of : ToolCallRequest → PipelineResult → Logging → Target → Option Json → Option Event
  unfolding text_or_null factor_items
  event_of req result log target none = none
  event_of req result log target (some dest) = some (
      ("schema_version", str "1.0")
      ∷ ("timestamp", str log.timestamp)
      ∷ ("trace_id", str req.trace_id)
      ∷ ("session_id", str req.call.session_id)
      ∷ ("agent_id", str result.agent_key)
      ∷ ("role", str (or_else result.role "unknown"))
      ∷ ("tool", str req.call.tool)
      ∷ ("action", str (action_of req.call.tool))
      ∷ ("destination", dest)
      ∷ ("resource", text_or_null target.resource)
      ∷ ("data_classification", str result.data_classification)
      ∷ ("session_taint", str result.session_taint)
      ∷ ("risk_score", num result.risk_score)
      ∷ ("risk_factors", arr (factor_items render result.risk_factors))
      ∷ ("policy_id", str result.policy_id)
      ∷ ("policy_bundle_version", str setup.bundle.version)
      ∷ ("decision", str (name result.decision))
      ∷ ("reason", str result.reason)
      ∷ ("latency_ms", log.latency_ms)
      ∷ [])

  with_event_target :
      ToolCallRequest → PipelineResult → Logging → Arguments → Option Target → Option Event
  unfolding event_of destination_dict
  with_event_target req result log args none = none
  with_event_target req result log args (some target) =
      event_of req result log target
        (destination_dict setup.canonical req.call.tool args target.fqdn)

  -- _build_event, none where it raises
  unfoldable pub build_event : ToolCallRequest → PipelineResult → Logging → Option Event
  unfolding with_event_target arguments_of
  build_event req result log =
      let args = arguments_of result.normalized_arguments req.call.arguments in
      with_event_target req result log args (extract_target setup.canonical req.call.tool args)

-- _log_event: the event store's file after the call, and whether it answered with 201.
unfoldable pub log_event : Event → Bool → Bool → Db → Db × Bool
log_event event false fault db = (db, false)
log_event event true fault db =
    let (db', response) = post_event event db fault in (db', nat_eq response.status 201)

-- The result that replaces one whose event was not written.
unfoldable pub unlogged : PipelineResult → PipelineResult
unlogged result = record result { decision = deny; reason = "event_store_write_failed" }

-- What the caller gets, and what goes out to the tool.
pub record Answer : Type 0 where
  pub decision : Decision
  pub reason : String
  pub executed : Option (String × Arguments)

pub answer : ToolCallRequest → PipelineResult → Answer
answer req result = record {
  decision = result.decision;
  reason = result.reason;
  executed =
      if executable result.decision
      then some (req.call.tool, result.normalized_arguments)
      else none;
}

retry : Option Event → Logging → Pep → Pep
retry none log pep = pep
retry (some event) log pep = record pep {
  store = (log_event event log.retry_up log.retry_fault pep.store).0;
}

module _ (setup : Setup) (render : List Piece → String) where
  -- Log-or-deny, on what the first write answered.
  pub after_log : ToolCallRequest → PipelineResult → Logging → Pep → Db × Bool → Pep × Option Answer
  unfolding answer retry
  after_log req result log pep (db, true) = (record pep { store = db }, some (answer req result))
  after_log req result log pep (db, false) = (
    retry (build_event setup render req (unlogged result) log) log (record pep { store = db }),
    some (answer req (unlogged result)),
  )

  pub with_event :
      ToolCallRequest → PipelineResult → Logging → Pep → Option Event → Pep × Option Answer
  unfolding after_log
  with_event req result log pep none = (pep, none)
  with_event req result log pep (some event) =
      after_log req result log pep (log_event event log.up log.fault pep.store)

  pub with_result : ToolCallRequest → Logging → Pep × Option PipelineResult → Pep × Option Answer
  unfolding with_event
  with_result req log (pep, none) = (pep, none)
  with_result req log (pep, some result) =
      with_event req result log pep (build_event setup render req result log)

  -- tool_call, none where it raises
  unfoldable pub tool_call : Pep → Moment → Logging → ToolCallRequest → Pep × Option Answer
  unfolding with_result
  tool_call pep moment log req = with_result req log (run_pipeline setup pep moment req.call)
