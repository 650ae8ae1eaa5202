-- ===== src/Pep/Proxy/Conforms.antt =====
-- pep/proxy.py, _build_event, and pep/bypass_proxy.py, _log_bypass, against events/schema.json.
use text.Mathlib.Text.{starts_with}
use ai_agent_security_firewa.Prelude.{
  ℕ, String, ◌≡◌, ◌≢◌, ◌≤◌, refl, ap, sym, ◌∙◌, Bool, true, false, not, ◌||◌, ◌==◌, leb, All,
  Option, none, some, List, [], ◌∷◌, eq_iff, arith, Bool-cases, inl, inr, if◌then◌else◌,
}
use ai_agent_security_firewa.Prelude.Dict.{get, contains}
use ai_agent_security_firewa.Prelude.Json.{Json, null, bool, num, str, arr, obj}
use ai_agent_security_firewa.Prelude.Text.{or_else}
use ai_agent_security_firewa.Policy.Decision.{
  Decision, deny, quarantine, require_approval, rate_limit, allow_redacted, allow, name,
}
use ai_agent_security_firewa.Risk.Scorer.{Factor, Piece}
use ai_agent_security_firewa.Events.Store.{Event}
use ai_agent_security_firewa.Events.Schema.{
  conforms, conforms_to, is_valid_at, non_empty, one_of, any_text, nullable_text, one_of_or_null,
  at_most, at_most_or_null, number, object_of, are_factors, factors, classes, taint_levels,
  decisions, protocols, destination_properties, latency_properties,
}
use ai_agent_security_firewa.Pep.Pipeline.Stages.{action_of}
use ai_agent_security_firewa.Pep.Pipeline.Targets.{Canonical, Arguments, Target, extract_target}
use ai_agent_security_firewa.Pep.Pipeline.State.{Setup, PipelineResult}
use ai_agent_security_firewa.Pep.Proxy.{
  ToolCallRequest, Logging, text_or_null, factor_items, event_of, build_event, destination,
  default_port, port_or_default, url_destination, destination_dict, with_event_target, arguments_of,
}
use ai_agent_security_firewa.Pep.BypassProxy.{Stamp, bypass_event}

-- What the schema asks of a result, by the fields that it goes into.
pub record IsReportable (result : PipelineResult) : Type 0 where
  pub agent_key : result.agent_key ≢ ""
  pub data_classification : contains classes result.data_classification ≡ true
  pub session_taint : contains taint_levels result.session_taint ≡ true
  pub risk_score : result.risk_score ≤ 100
  pub codes : All (λ (f : Factor). f.code ≢ "") result.risk_factors
  pub policy_id : result.policy_id ≢ ""
  pub reason : result.reason ≢ ""

name-decisions : (d : Decision) → contains decisions (name d) ≡ true
unfolding name
name-decisions deny = refl
name-decisions quarantine = refl
name-decisions require_approval = refl
name-decisions rate_limit = refl
name-decisions allow_redacted = refl
name-decisions allow = refl

text-non_empty : (s : String) → s ≢ "" → non_empty (str s) ≡ true
unfolding non_empty
text-non_empty s h = ground (arith, eq_iff s "")

if-non_empty :
    (b : Bool) (s t : String)
    → non_empty (str s) ≡ true
    → non_empty (str t) ≡ true
    → non_empty (str (if b then s else t)) ≡ true
if-non_empty true s t p q = p
if-non_empty false s t p q = q

or_else-non_empty : (o : Option String) → non_empty (str (or_else o "unknown")) ≡ true
unfolding non_empty
or_else-non_empty none = refl
or_else-non_empty (some s) = elim (Bool-cases (s == "")) [
  | inl e ↦ rw e refl
  | inr e ↦ rw (e, e) refl
]

action-non_empty : (tool : String) → non_empty (str (action_of tool)) ≡ true
unfolding action_of
action-non_empty tool = if-non_empty _ "read" _ (unfold non_empty in refl) (
    if-non_empty _ "write" _ (unfold non_empty in refl)
      (if-non_empty _ "invoke" "unknown" (unfold non_empty in refl) (unfold non_empty in refl)))

resource-nullable : (o : Option String) → nullable_text (text_or_null o) ≡ true
unfolding nullable_text text_or_null
resource-nullable none = refl
resource-nullable (some s) = refl

items-are_factors :
    (render : List Piece → String) (fs : List Factor)
    → All (λ (f : Factor). render f.human_reason ≢ "") fs
    → All (λ (f : Factor). f.code ≢ "") fs
    → are_factors (factor_items render fs) ≡ true
unfolding are_factors factor_items object_of conforms_to is_valid_at get number
items-are_factors render [] h k = refl
items-are_factors render (f ∷ fs) (r, h) (c, k) =
    rw (text-non_empty f.code c, text-non_empty (render f.human_reason) r)
      (items-are_factors render fs h k)

any_conforms : Option Event → Bool
any_conforms none = true
any_conforms (some event) = conforms event

le→leb : (a b : ℕ) → a ≤ b → leb a b ≡ true
le→leb a b h = ground arith

is_http :
    (fqdn tool : String)
    → (fqdn == "" || not (starts_with tool "http.")) ≡ false
    → starts_with tool "http." ≡ true
is_http fqdn tool e = ground arith

-- The destinations of an event.
any_destination : Option Json → Bool
any_destination none = true
any_destination (some dest) = object_of destination_properties dest

unknown-destination : object_of destination_properties (destination null null null) ≡ true
unfolding destination object_of conforms_to is_valid_at get nullable_text at_most_or_null
    one_of_or_null
unknown-destination = refl

-- A port of 16 bits, a scheme that the schema lists, and a URL argument with both, where each is given.
abbrev pub IsPort : Option ℕ → Type 0
IsPort none = Unit
IsPort (some n) = n ≤ 65535

abbrev pub IsProtocol : Option String → Type 0
IsProtocol none = Unit
IsProtocol (some s) = contains protocols s ≡ true

abbrev pub IsListedUrl : Canonical → Option Json → Type 0
IsListedUrl canon (some (str url)) = IsPort (canon.port_of url) × IsProtocol (canon.scheme_of url)
IsListedUrl canon _ = Unit

module _ (canon : Canonical) where
  default_port-small : (o : Option String) → default_port o ≤ 65535
  unfolding default_port
  default_port-small none = omega arith
  default_port-small (some s) = ground arith

  port-small : (p : Option ℕ) (o : Option String) → IsPort p → port_or_default p o ≤ 65535
  unfolding port_or_default
  port-small none o h = default_port-small o
  port-small (some n) o h = ground (arith, h, default_port-small o)

  scheme-known :
      (o : Option String) → IsProtocol o → one_of_or_null protocols (text_or_null o) ≡ true
  unfolding one_of_or_null text_or_null
  scheme-known none h = refl
  scheme-known (some s) h = h

  url-destination :
      (fqdn url : String) (o : Option String)
      → IsListedUrl canon (some (str url))
      → canon.normalize_url url ≡ o
      → any_destination (url_destination canon fqdn (some (str url))) ≡ true
  unfolding url_destination any_destination destination object_of conforms_to is_valid_at get
      nullable_text at_most_or_null
  url-destination fqdn url none (p, s) e = rw (e, any_destination) refl
  url-destination fqdn url (some u) (p, s) e =
      rw
        (
          e,
          any_destination,
          le→leb (port_or_default (canon.port_of url) (canon.scheme_of url)) 65535
              (port-small (canon.port_of url) (canon.scheme_of url) p),
          scheme-known (canon.scheme_of url) s,
        )
        refl

  value-destination :
      (fqdn : String) (v : Option Json)
      → IsListedUrl canon v
      → any_destination (url_destination canon fqdn v) ≡ true
  unfolding url_destination any_destination
  value-destination fqdn (some (str url)) h =
      url-destination fqdn url (canon.normalize_url url) h refl
  value-destination fqdn (some null) h = refl
  value-destination fqdn (some (bool b)) h = refl
  value-destination fqdn (some (num n)) h = refl
  value-destination fqdn (some (arr vs)) h = refl
  value-destination fqdn (some (obj fs)) h = refl
  value-destination fqdn none h = refl

  destination_dict-conforms :
      (tool : String) (args : Arguments) (fqdn : Option String)
      → (starts_with tool "http." ≡ true → IsListedUrl canon (get args "url"))
      → any_destination (destination_dict canon tool args fqdn) ≡ true
  unfolding destination_dict any_destination
  destination_dict-conforms tool args none h = unknown-destination
  destination_dict-conforms tool args (some fqdn) h =
      elim (Bool-cases (fqdn == "" || not (starts_with tool "http."))) [
        | inl e ↦ rw e unknown-destination
        | inr e ↦ rw e (value-destination fqdn (get args "url") (h (is_http fqdn tool e)))
      ]

module _ (setup : Setup) (render : List Piece → String) (req : ToolCallRequest)
    (result : PipelineResult) (log : Logging) (r : IsReportable result) (trace : req.trace_id ≢ "")
    (session : req.call.session_id ≢ "") (tool : req.call.tool ≢ "")
    (version : setup.bundle.version ≢ "")
    (rendered : All (λ (f : Factor). render f.human_reason ≢ "") result.risk_factors)
    (latency : object_of latency_properties log.latency_ms ≡ true) where
  event_of-conforms :
      (target : Target) (dest : Json)
      → object_of destination_properties dest ≡ true
      → any_conforms (event_of setup render req result log target (some dest)) ≡ true
  unfolding any_conforms event_of conforms conforms_to is_valid_at get one_of any_text at_most
      factors
  event_of-conforms target dest d =
      rw
        (
          text-non_empty req.trace_id trace,
          text-non_empty req.call.session_id session,
          text-non_empty result.agent_key r.agent_key,
          or_else-non_empty result.role,
          text-non_empty req.call.tool tool,
          action-non_empty req.call.tool,
          d,
          resource-nullable target.resource,
          r.data_classification,
          r.session_taint,
          le→leb result.risk_score 100 r.risk_score,
          items-are_factors render result.risk_factors rendered r.codes,
          text-non_empty result.policy_id r.policy_id,
          text-non_empty setup.bundle.version version,
          name-decisions result.decision,
          text-non_empty result.reason r.reason,
          latency,
        )
        refl

  dest-conforms :
      (target : Target) (dest : Option Json)
      → any_destination dest ≡ true
      → any_conforms (event_of setup render req result log target dest) ≡ true
  unfolding any_destination
  dest-conforms target none d = unfold event_of any_conforms in refl
  dest-conforms target (some dest) d = event_of-conforms target dest d

  target-conforms :
      (args : Arguments) (target : Option Target)
      → (starts_with req.call.tool "http." ≡ true → IsListedUrl setup.canonical (get args "url"))
      → any_conforms (with_event_target setup render req result log args target) ≡ true
  unfolding with_event_target
  target-conforms args none h = unfold any_conforms in refl
  target-conforms args (some target) h =
      dest-conforms target (destination_dict setup.canonical req.call.tool args target.fqdn)
        (destination_dict-conforms setup.canonical req.call.tool args target.fqdn h)

-- Every event that is built of a reportable result is an instance of the event schema, where the ids of the
-- request, its tool and the bundle's version are not empty, the reasons of the result's risk factors are
-- rendered to texts that are not empty, the latencies are those of the stages, and the URL of an http call,
-- if it has one, is normalized to one with a port of 16 bits and a scheme that the schema lists.
pub build_event-conforms :
    (setup : Setup) (render : List Piece → String) (req : ToolCallRequest) (result : PipelineResult)
    (log : Logging) (event : Event)
    → IsReportable result
    → req.trace_id ≢ ""
    → req.call.session_id ≢ ""
    → req.call.tool ≢ ""
    → setup.bundle.version ≢ ""
    → All (λ (f : Factor). render f.human_reason ≢ "") result.risk_factors
    → object_of latency_properties log.latency_ms ≡ true
    → (starts_with req.call.tool "http." ≡ true
        → IsListedUrl setup.canonical
            (get (arguments_of result.normalized_arguments req.call.arguments) "url"))
    → build_event setup render req result log ≡ some event
    → conforms event ≡ true
unfolding build_event any_conforms
build_event-conforms setup render req result log event r trace session tool version rendered latency
      url e =
    ap any_conforms (sym e)
    ∙ target-conforms setup render req result log r trace session tool version rendered latency
        (arguments_of result.normalized_arguments req.call.arguments)
        (extract_target setup.canonical req.call.tool
          (arguments_of result.normalized_arguments req.call.arguments))
        url

-- Every event of the bypass listener is an instance of the schema, whatever the request line is, where its
-- trace id is not empty.
pub bypass_event-conforms :
    (dest request_line : String) (stamp : Stamp)
    → stamp.trace_id ≢ ""
    → conforms (bypass_event dest request_line stamp) ≡ true
unfolding bypass_event conforms conforms_to is_valid_at get one_of any_text at_most factors
    are_factors object_of nullable_text at_most_or_null one_of_or_null number
bypass_event-conforms dest request_line stamp h =
    rw (text-non_empty stamp.trace_id h) (unfold non_empty in refl)
