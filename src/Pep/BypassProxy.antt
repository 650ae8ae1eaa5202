-- ===== src/Pep/BypassProxy.antt =====
-- pep/bypass_proxy.py: the listener that takes every direct outbound call, logs it and denies it.
pub mod Denial
mod Tests
use ai_agent_security_firewa.Prelude.{
  ℕ, String, Bool, true, false, Option, none, some, List, [], ◌∷◌, ◌++◌,
}
use ai_agent_security_firewa.Prelude.Dict.{Dict}
use ai_agent_security_firewa.Prelude.Json.{Json, null, num, str, arr, obj, nil, Fields, end, field}
use ai_agent_security_firewa.Prelude.Text.{codes, split_at, strip, first_chars}
use ai_agent_security_firewa.Prelude.Chars.{of_codes}
use ai_agent_security_firewa.Events.Store.{Event, Db}
use ai_agent_security_firewa.Events.App.{post_event}

-- reader.readline(), with the time limit around it.
pub data Read : Type 0 where
  line : List ℕ → Read
  -- TimeoutError or OSError
  failed : Read
  -- the ValueError of a line above the reader's limit
  too_long : Read

-- The clock and the random trace id.
pub record Stamp : Type 0 where
  pub timestamp : String
  pub trace_id : String

-- _STAGES with their latencies, 0 each
abbrev pub latencies : List String → Fields
latencies [] = end
latencies (stage ∷ stages) = field stage (num 0) (latencies stages)

abbrev pub stages : List String
stages =
    "identity" ∷ "normalize" ∷ "policy" ∷ "threat_intel" ∷ "dlp" ∷ "risk" ∷ "decision" ∷ "log"
    ∷ "total" ∷ []

-- What a call leaves behind: the event on the log stream, the event store's file, the bytes that were
-- written to the caller, and whether an exception got out.
pub record Handled : Type 0 where
  pub logged : Option Event
  pub store : Db
  pub response : Option (List ℕ)
  pub escaped : Bool

unfoldable pub bypass_event : String → String → Stamp → Event
bypass_event destination request_line stamp =
    ("schema_version", str "1.0")
    ∷ ("timestamp", str stamp.timestamp)
    ∷ ("trace_id", str stamp.trace_id)
    ∷ ("session_id", str "unknown")
    ∷ ("agent_id", str "unknown")
    ∷ ("role", str "unknown")
    ∷ ("tool", str "network.bypass")
    ∷ ("action", str "connect")
    ∷ (
      "destination",
      obj (
          field "fqdn" (str destination)
            (field "ip" null (field "port" null (field "protocol" null end)))),
    )
    ∷ ("resource", str (first_chars 200 request_line))
    ∷ ("data_classification", str "internal")
    ∷ ("session_taint", str "clean")
    ∷ ("risk_score", num 0)
    ∷ ("risk_factors", arr nil)
    ∷ ("policy_id", str "BYPASS_DENY")
    ∷ ("policy_bundle_version", str "m1-hardcoded")
    ∷ ("decision", str "DENY")
    ∷ ("reason", str "BYPASS_ATTEMPTED")
    ∷ ("latency_ms", obj (latencies stages))
    ∷ []

-- The post to the event store, whose answer is not looked at.
post_or_pass : Event → Bool → Bool → Db → Db
post_or_pass event false fault db = db
post_or_pass event true fault db = (post_event event db fault).0

-- parts[1] if len(parts) > 1 else "unknown"
destination_of : List (List ℕ) → String
destination_of [] = "unknown"
destination_of (part ∷ parts) = of_codes part

-- The destination that a request line names.
unfoldable pub destination : List ℕ → String
unfolding destination_of
destination request_line = destination_of (split_at 32 request_line).1

abbrev pub forbidden : List ℕ
forbidden =
    codes "HTTP/1.1 403 Forbidden"
    ++ 13 ∷ 10 ∷ codes "Content-Length: 0"
    ++ 13 ∷ 10 ∷ codes "Connection: close"
    ++ 13 ∷ 10 ∷ 13 ∷ 10 ∷ []

deny_line : List ℕ → Stamp → Bool → Bool → Db → Handled
unfolding post_or_pass
deny_line request_line stamp up fault db =
    let event = bypass_event (destination request_line) (of_codes request_line) stamp in
    record {
      logged = some event;
      store = post_or_pass event up fault db;
      response = some forbidden;
      escaped = false;
    }

-- _handle
unfoldable pub handle : Read → Stamp → Bool → Bool → Db → Handled
unfolding deny_line
handle (line bytes) stamp up fault db = deny_line (strip bytes) stamp up fault db
handle failed stamp up fault db = record {
  logged = none;
  store = db;
  response = none;
  escaped = false;
}
handle too_long stamp up fault db = record {
  logged = none;
  store = db;
  response = none;
  escaped = true;
}
