-- ===== src/Pep/Proxy/Tests.antt =====
-- The proxy on one call, with and without the event store, and its theorem at that call.
use ai_agent_security_firewa.Prelude.{
  String, Option, ◌≡◌, refl, arith, Bool, true, false, none, some, List, [], ◌∷◌,
}
use ai_agent_security_firewa.Prelude.Dict.{get, put}
use ai_agent_security_firewa.Prelude.Json.{str, obj, end}
use ai_agent_security_firewa.Prelude.Text.{codes, codes_eq, split_at, join_with, first_chars}
use ai_agent_security_firewa.Prelude.Order.{min_by}
use ai_agent_security_firewa.Policy.Decision.{deny, rate_limit, name}
use ai_agent_security_firewa.Policy.DefaultBundle.{default_bundle}
use ai_agent_security_firewa.Policy.Glob.{fnmatch}
use ai_agent_security_firewa.Policy.Engine.{applies, evaluate}
use ai_agent_security_firewa.Events.Store.{Event, empty, write_event, quarantine_list}
use ai_agent_security_firewa.Events.App.{post_event, list_quarantined}
use ai_agent_security_firewa.Identity.Tokens.{Claims, valid}
use ai_agent_security_firewa.Risk.Scorer.{
  Piece, score, action_points, data_class_points, band_and_ceiling,
}
use ai_agent_security_firewa.Risk.Outcomes.{record_outcome}
use ai_agent_security_firewa.Risk.Behavior.{cold, recent, is_rate_anomalous, is_unseen_bigram}
use ai_agent_security_firewa.ThreatIntel.Feed.{any_parent, is_known_bad}
use ai_agent_security_firewa.Dlp.Detectors.{split_words, counter, is_high_entropy, outcome, scan}
use ai_agent_security_firewa.Pep.Quarantine.{is_quarantined}
use ai_agent_security_firewa.Pep.Pipeline.Stages.{
  policy_stage, is_external, inspects, dlp_stage, least, action_of,
}
use ai_agent_security_firewa.Pep.Pipeline.Targets.{Arguments, normalize_arguments, extract_target}
use ai_agent_security_firewa.Pep.Pipeline.Identify.{verify_identity}
use ai_agent_security_firewa.Pep.Pipeline.{taint_after, conclude, result_of, identify, run_pipeline}
use ai_agent_security_firewa.Pep.Pipeline.Assess.{assess}
use ai_agent_security_firewa.Pep.Pipeline.State.{
  Setup, Pep, Entry, Moment, PipelineResult, taint_of,
}
use ai_agent_security_firewa.Pep.Proxy.{
  ToolCallRequest, Logging, Answer, build_event, log_event, unlogged, tool_call,
}
use ai_agent_security_firewa.Pep.Proxy.LogOrDeny.{IsLogged, tool_call-IsLogged}
use ai_agent_security_firewa.Events.Schema.{conforms, object_of, conforms_to, is_valid_at, number}
use ai_agent_security_firewa.Pep.BypassProxy.{latencies, stages}
use ai_agent_security_firewa.Attacks.Samples
use ai_agent_security_firewa.Pep.Proxy.Conforms.{IsReportable, build_event-conforms}

running : Unit {0}
unfolding get put codes_eq split_at join_with first_chars min_by fnmatch applies evaluate
    write_event quarantine_list post_event list_quarantined recent score action_points
    data_class_points band_and_ceiling record_outcome is_rate_anomalous is_unseen_bigram any_parent
    is_known_bad split_words counter is_high_entropy outcome scan is_quarantined verify_identity
    normalize_arguments extract_target policy_stage is_external inspects dlp_stage least action_of
    taint_of assess taint_after conclude result_of identify run_pipeline build_event log_event
    unlogged tool_call name
running = tt

abbrev claims : Claims
claims =
    ("role", str "research_agent")
    ∷ ("container_id", str "0123456789abcdef")
    ∷ ("service", str "agent")
    ∷ ("attested_ip", str "172.18.0.5")
    ∷ []

abbrev setup : Setup
setup = record {
  bundle = default_bundle;
  listed = codes "evil.example.com" ∷ [];
  verify = λ token now. valid claims;
  canonical = record {
    normalize_url = λ url. some url;
    normalize_path = λ path. path;
    host_of = λ url. some url;
    path_of = λ url. "/list";
    port_of = λ url. none;
    scheme_of = λ url. some "https";
  };
  show = λ v. "";
  finditer = λ pattern blob. [];
}

abbrev fresh : Pep
fresh = record { taint = []; key_cached = false; behavior = cold; denials = []; store = empty }

abbrev answering : Entry
answering = record { up = true; fault = false; at = "t" }

abbrev moment : Moment
moment = record {
  issuer_up = true;
  check_up = true;
  token_time = 0;
  score_time = 0;
  outcome_time = 0;
  denial_time = 0;
  denial_entry = answering;
  critical_entry = answering;
  hit_entry = answering;
}

abbrev logging : Bool → Logging
logging up = record {
  up = up;
  fault = false;
  retry_up = up;
  retry_fault = false;
  timestamp = "t";
  latency_ms = obj end;
}

abbrev arguments : Arguments
arguments = ("url", str "export.arxiv.org") ∷ []

abbrev request : ToolCallRequest
request = record {
  call = record {
    token = some (b't' ∷ []);
    peer_ip = some "172.18.0.5";
    session_id = "s1";
    tool = "http.get";
    arguments = arguments;
  };
  trace_id = "t1";
}

abbrev render : List Piece → String
render pieces = ""

abbrev sent : Answer
sent = record {
  decision = rate_limit;
  reason = "risk_band_moderate";
  executed = some ("http.get", arguments);
}

logged : (tool_call setup render fresh moment (logging true) request).1 ≡ some sent
unfolding running
logged = refl

not_logged :
    (tool_call setup render fresh moment (logging false) request).1
    ≡ some (record { decision = deny; reason = "event_store_write_failed"; executed = none })
unfolding running
not_logged = refl

tool_call-IsLogged_example :
    IsLogged setup render fresh moment
      (logging true)
      request
      (tool_call setup render fresh moment (logging true) request).0
      sent
      "http.get"
      arguments
tool_call-IsLogged_example =
    tool_call-IsLogged setup render fresh moment (logging true) request sent "http.get" arguments
      logged refl

-- A result that is like the one above, the event that it gives, and that of the bypass listener.
abbrev result : PipelineResult
result = record {
  decision = rate_limit;
  reason = "risk_band_moderate";
  policy_id = "R-RESEARCH-001";
  role = some "research_agent";
  agent_key = "0123456789ab";
  session_taint = "clean";
  data_classification = "internal";
  risk_score = 25;
  risk_factors = record { code = "DATA_CLASS"; points = 10; human_reason = [] } ∷ [];
  normalized_arguments = arguments;
}

abbrev rendered : List Piece → String
rendered pieces = "reason"

abbrev timed : Logging
timed = record (logging true) { latency_ms = obj (latencies stages) }

abbrev event_or_none : Option Event → Event
event_or_none none = []
event_or_none (some event) = event

abbrev fetched : PipelineResult
fetched = record result { normalized_arguments = ("url", str "http://b.arxiv.org/") ∷ [] }

fetched-IsReportable : IsReportable fetched
fetched-IsReportable = record {
  agent_key = λ e. cc;
  data_classification = refl;
  session_taint = refl;
  risk_score = omega arith;
  codes = (λ e. cc, tt);
  policy_id = λ e. cc;
  reason = λ e. cc;
}

build_event-conforms_example :
    conforms (event_or_none (build_event Samples.setup rendered request fetched timed)) ≡ true
unfolding running Samples.running object_of conforms_to is_valid_at number
build_event-conforms_example =
    build_event-conforms Samples.setup rendered request fetched timed
      (event_or_none (build_event Samples.setup rendered request fetched timed))
      fetched-IsReportable (λ e. cc) (λ e. cc) (λ e. cc) (λ e. cc) (λ e. cc, tt) refl
      (λ is_http. (omega arith, refl)) refl
