-- ===== src/Attacks/RawEgress.antt =====
-- attacks/a9.py, with try_live_raw_connect of attacks/common.py: a raw request line to the bypass listener, of
-- the deployment or of this process. Bytes are numbers, and latin-1 keeps them.
pub mod Unreached
mod Tests
use Prim.Native.String
use ai_agent_security_firewa.Prelude.{
  ℕ, String, Bool, true, false, ◌&&◌, ◌||◌, nat_eq, Option, none, some, List, [], ◌∷◌, ◌++◌, any,
  if◌then◌else◌,
}
use ai_agent_security_firewa.Prelude.Json.{Json, str}
use ai_agent_security_firewa.Prelude.Text.{codes}
use ai_agent_security_firewa.Prelude.Chars.{of_codes}
use ai_agent_security_firewa.Events.Store.{Event, Db}
use ai_agent_security_firewa.Pep.BypassProxy.{line, Stamp, Handled, handle}
use ai_agent_security_firewa.Attacks.Common.{
  AttackResult, Note, unreached, real_docker_verified, unverified, assess_mechanism,
}
use ai_agent_security_firewa.Attacks.Scenario.{Graded, measured}

abbrev pub request_line : String
request_line = "CONNECT evil.com:443 HTTP/1.1"

-- Where splitlines() ends a line, among the characters of latin-1.
unfoldable pub ends_line : ℕ → Bool
ends_line c = any (nat_eq c) (10 ∷ 11 ∷ 12 ∷ 13 ∷ 28 ∷ 29 ∷ 30 ∷ 133 ∷ [])

-- splitlines()[0] of a text that is not empty
unfoldable pub first_line : List ℕ → List ℕ
first_line [] = []
first_line (c ∷ s) = let rest = first_line s in if ends_line c then [] else c ∷ rest

-- What a connection reads, or an OSError.
unfoldable pub try_live_raw_connect : Option (List ℕ) → Option (List ℕ)
try_live_raw_connect none = none
try_live_raw_connect (some []) = none
try_live_raw_connect (some (c ∷ bytes)) = some (first_line (c ∷ bytes))

begins : List ℕ → List ℕ → Bool
begins [] s = true
begins (c ∷ part) [] = false
begins (c ∷ part) (d ∷ s) = nat_eq c d && begins part s

-- part in s
unfoldable pub has_part : List ℕ → List ℕ → Bool
unfolding begins
has_part part [] = begins part []
has_part part (c ∷ s) = begins part (c ∷ s) || has_part part s

-- The first line of the response that _handle writes, if it does.
response_of : Option (List ℕ) → Option (List ℕ)
response_of none = none
response_of (some []) = none
response_of (some (c ∷ bytes)) = some (first_line (c ∷ bytes))

-- What happens outside while the local listener runs, which answers within the eight seconds that the
-- caller waits.
pub record Local : Type 0 where
  pub stamp : Stamp
  pub up : Bool
  pub fault : Bool
  pub store : Db

unfoldable pub handled : Local → Handled
handled local =
    handle (line (codes request_line ++ 13 ∷ 10 ∷ [])) local.stamp local.up local.fault local.store

-- _run_local_listener: the first line of the response, and the event that was logged.
unfoldable pub run_local_listener : Local → Option (List ℕ) × Option Event
unfolding response_of
run_local_listener local = let h = handled local in (response_of h.response, h.logged)

is_denial : Option (List ℕ) → Bool
is_denial none = false
is_denial (some response) = has_part (codes "403") response

grade_live : List ℕ → Graded
unfolding measured
grade_live response =
    if has_part (codes "403") response
    then measured (str "DENY") (str "BYPASS_ATTEMPTED") "DENY" "BYPASS_ATTEMPTED"
    else measured (str "UNKNOWN") (str (String.◌++◌ "unexpected response: " (of_codes response)))
        "DENY" "BYPASS_ATTEMPTED"

grade_local : Bool → Graded
grade_local denial = record {
  status = unverified;
  decision = str (if denial then "DENY" else "UNKNOWN");
  reason = str (if denial then "BYPASS_ATTEMPTED" else "no_response");
  mechanism_match = none;
}

result_a9 : Graded → List Note → Event → AttackResult
result_a9 g notes event = record {
  attack_id = "A9";
  description = "Direct egress / raw proxy bypass via PEP's bypass-catch listener";
  category = "raw_egress_bypass";
  attempted = "raw 'CONNECT evil.com:443 HTTP/1.1' to pep:8081 (target https://evil.com/)";
  identity_desc = "none presented - this path bypasses agent/tools.py and identity entirely";
  destination = "https://evil.com/";
  stage = "bypass-catch listener (pep/bypass_proxy.py, port 8081) - denies unconditionally";
  policy_id = "BYPASS_DENY";
  reason = g.reason;
  risk_score = 0;
  risk_factors = [];
  decision = g.decision;
  event = event;
  notes = notes;
  verification_status = g.status;
  expected_decision = some "DENY";
  expected_reason = some "BYPASS_ATTEMPTED";
  mechanism_match = g.mechanism_match;
}

event_or_empty : Option Event → Event
event_or_empty none = []
event_or_empty (some event) = event

run_from : Local → Option (List ℕ) → AttackResult
unfolding grade_live grade_local result_a9 event_or_empty is_denial
run_from local (some response) = result_a9 (grade_live response) [] []
run_from local none =
    let (response, event) = run_local_listener local in
    result_a9 (grade_local (is_denial response)) (unreached ∷ []) (event_or_empty event)

-- run, with the default host and port
unfoldable pub run_a9 : Option (List ℕ) → Local → AttackResult
unfolding run_from
run_a9 connection local = run_from local (try_live_raw_connect connection)
