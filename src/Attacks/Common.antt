-- ===== src/Attacks/Common.antt =====
-- attacks/common.py: how a demonstration reaches the deployment, what it may report of it, and how it is
-- replayed in the process.
pub mod Genuine
mod Tests
use Prim.Native.String
use ai_agent_security_firewa.Prelude.{
  ℕ, String, Bool, true, false, not, ◌&&◌, ◌||◌, ◌==◌, Option, none, some, List, [], ◌∷◌, ◌++◌,
  if◌then◌else◌,
}
use ai_agent_security_firewa.Prelude.Dict.{Dict, get, get_default}
use ai_agent_security_firewa.Prelude.Json.{Json, null, bool, num, str, obj, end}
use ai_agent_security_firewa.Prelude.Text.{first_chars}
use ai_agent_security_firewa.Policy.Decision.{Decision, name, deny, quarantine}
use ai_agent_security_firewa.Risk.Scorer.{Factor, Piece}
use ai_agent_security_firewa.Risk.Behavior.{cold}
use ai_agent_security_firewa.Events.Store.{Event, Db, empty}
use ai_agent_security_firewa.Identity.Tokens.{
  Codec, Claims, Verified, valid, malformed, bad_signature, expired, crashed, mint_token,
  verify_token,
}
use ai_agent_security_firewa.Pep.Pipeline.{run_pipeline}
use ai_agent_security_firewa.Pep.Pipeline.State.{Setup, Pep, Moment, ToolCall, PipelineResult}
use ai_agent_security_firewa.Pep.Pipeline.Targets.{Arguments}
use ai_agent_security_firewa.Pep.Proxy.{Logging, ToolCallRequest, build_event}

-- verification_status
pub data Status : Type 0 where
  real_docker_verified test_only unverified : Status

-- What a note says: that the decision is the deployment's, that the deployment was not reached, or what the
-- replay in the process gave. The sentences and those that are the same in every run are left out.
pub data Note : Type 0 where
  from_live : (role : Json) → Note
  unreached : Note
  replayed : (decision : Decision) (reason policy_id : String) → Note

-- A decision and a reason of the deployment are whatever its reply holds.
pub record AttackResult : Type 0 where
  pub attack_id : String
  pub description : String
  pub category : String
  pub attempted : String
  pub identity_desc : String
  pub destination : String
  pub stage : String
  pub policy_id : String
  pub reason : Json
  pub risk_score : ℕ
  pub risk_factors : List Factor
  pub decision : Json
  pub event : Event
  pub notes : List Note
  pub verification_status : Status
  pub expected_decision : Option String
  pub expected_reason : Option String
  pub mechanism_match : Option Bool

unfoldable pub is_real : Status → Bool
is_real real_docker_verified = true
is_real test_only = false
is_real unverified = false

unfoldable pub is_true : Option Bool → Bool
is_true none = false
is_true (some b) = b

is_false : Option Bool → Bool
is_false none = false
is_false (some b) = not b

-- v == t, where v may be any value
unfoldable pub is_text : Json → String → Bool
is_text (str s) t = s == t
is_text _ t = false

-- AttackResult.blocked
unfoldable pub is_blocked : AttackResult → Bool
unfolding is_text
is_blocked r = is_text r.decision (name deny) || is_text r.decision (name quarantine)

-- AttackResult.genuinely_verified
unfoldable pub genuinely_verified : AttackResult → Bool
unfolding is_real is_true
genuinely_verified r = is_real r.verification_status && is_true r.mechanism_match

unfoldable pub status_name : Status → String
status_name real_docker_verified = "REAL_DOCKER_VERIFIED"
status_name test_only = "TEST_ONLY"
status_name unverified = "UNVERIFIED"

expectation : Option String → Json
expectation none = null
expectation (some t) = str t

unfoldable pub truth_or_null : Option Bool → Json
truth_or_null none = null
truth_or_null (some b) = bool b

-- emit_result_json: the payload of the line that it prints
unfoldable pub emit_result_json : AttackResult → Dict Json
unfolding status_name expectation truth_or_null
emit_result_json r =
    ("attack_id", str r.attack_id)
    ∷ ("category", str r.category)
    ∷ ("verification_status", str (status_name r.verification_status))
    ∷ ("decision", r.decision)
    ∷ ("reason", r.reason)
    ∷ ("policy_id", str r.policy_id)
    ∷ ("stage", str r.stage)
    ∷ ("expected_decision", expectation r.expected_decision)
    ∷ ("expected_reason", expectation r.expected_reason)
    ∷ ("mechanism_match", truth_or_null r.mechanism_match)
    ∷ ("blocked", bool (is_blocked r))
    ∷ ("genuinely_verified", bool (genuinely_verified r))
    ∷ ("identity_desc", str r.identity_desc)
    ∷ ("attempted", str r.attempted)
    ∷ ("destination", str r.destination)
    ∷ ("risk_score", num r.risk_score)
    ∷ []

unfoldable pub mechanism_exit_code : AttackResult → ℕ
unfolding is_real is_false
mechanism_exit_code r = if is_real r.verification_status && is_false r.mechanism_match then 1 else 0

unfoldable pub assess_mechanism :
    (result_decision result_reason : Json) (expected_decision expected_reason : String) → Bool
unfolding is_text
assess_mechanism decision reason expected_decision expected_reason =
    is_text decision expected_decision && is_text reason expected_reason

-- What a request gives: its value, an httpx.HTTPError, or another exception, as for a reply without a key.
pub data Fetched (A : Type 0) : Type 0 where
  fetched : A → Fetched A
  http_error : Fetched A
  other_error : Fetched A

-- What the deployment answers: the token of /attest, the key of /public-key with which a token is verified,
-- and the reply to /v1/tool-call with that token.
pub record Live : Type 0 where
  pub attest : Fetched (List ℕ)
  pub public_key : Fetched (List ℕ → Verified)
  pub tool_call : List ℕ → Fetched (Dict Json)

-- (role, token, error): an attested role with its token, or the error; raised is an exception.
pub data Attested : Type 0 where
  attested : (role : Json) (token : List ℕ) → Attested
  refused : Attested
  raised : Attested

role_of : List ℕ → Option Json → Attested
role_of token none = raised
role_of token (some role) = attested role token

of_claims : List ℕ → Verified → Attested
unfolding role_of
of_claims token (valid claims) = role_of token (get claims "role")
of_claims token malformed = refused
of_claims token bad_signature = refused
of_claims token expired = refused
of_claims token crashed = raised

with_key : List ℕ → Fetched (List ℕ → Verified) → Attested
unfolding of_claims
with_key token (fetched verify) = of_claims token (verify token)
with_key token http_error = refused
with_key token other_error = raised

attest_with : Fetched (List ℕ) → Fetched (List ℕ → Verified) → Attested
unfolding with_key
attest_with (fetched token) key = with_key token key
attest_with http_error key = refused
attest_with other_error key = raised

unfoldable pub attest_and_verify_role : Live → Attested
unfolding attest_with
attest_and_verify_role live = attest_with live.attest live.public_key

-- The texts of errors are left out.
pub record LiveCallOutcome : Type 0 where
  pub reachable : Bool
  pub attested_role : Option Json
  pub role_ok : Bool
  pub decision : Option Json
  pub reason : Option Json
  pub result : Option Json
  pub latency_ms : Json

unmeasured : Bool → Option Json → Bool → LiveCallOutcome
unmeasured reachable role role_ok = record {
  reachable = reachable;
  attested_role = role;
  role_ok = role_ok;
  decision = none;
  reason = none;
  result = none;
  latency_ms = obj end;
}

with_body : Json → Dict Json → Option Json → Option Json → Option LiveCallOutcome
with_body role body (some decision) (some reason) = some (record {
  reachable = true;
  attested_role = some role;
  role_ok = true;
  decision = some decision;
  reason = some reason;
  result = get body "result";
  latency_ms = get_default body "latency_ms" (obj end);
})
with_body role body _ _ = none

with_reply : Json → Fetched (Dict Json) → Option LiveCallOutcome
unfolding with_body unmeasured
with_reply role (fetched body) = with_body role body (get body "decision") (get body "reason")
with_reply role http_error = some (unmeasured false (some role) true)
with_reply role other_error = none

with_role : Live → String → Attested → Option LiveCallOutcome
unfolding with_reply is_text unmeasured
with_role live expected_role refused = some (unmeasured false none false)
with_role live expected_role raised = none
with_role live expected_role (attested null token) = some (unmeasured false none false)
with_role live expected_role (attested role token) =
    if is_text role expected_role
    then with_reply role (live.tool_call token)
    else some (unmeasured true (some role) false)

-- try_live_pep_call_verified, none where it raises
unfoldable pub try_live_pep_call_verified : Live → String → Option LiveCallOutcome
unfolding with_role
try_live_pep_call_verified live expected_role =
    with_role live expected_role (attest_and_verify_role live)
