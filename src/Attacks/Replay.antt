-- ===== src/Attacks/Replay.antt =====
-- attacks/common.py: the reset of the process and the replay of a call in it.
pub mod Isolation
use Prim.Native.String
use ai_agent_security_firewa.Prelude.{
  ℕ, String, Bool, true, false, not, ◌&&◌, ◌||◌, ◌==◌, Option, none, some, List, [], ◌∷◌, ◌++◌,
  if◌then◌else◌,
}
use ai_agent_security_firewa.Prelude.Dict.{Dict, get, get_default}
use ai_agent_security_firewa.Prelude.Json.{Json, null, str, obj, end}
use ai_agent_security_firewa.Prelude.Text.{first_chars}
use ai_agent_security_firewa.Policy.Decision.{name, deny, quarantine}
use ai_agent_security_firewa.Risk.Scorer.{Factor, Piece}
use ai_agent_security_firewa.Risk.Behavior.{cold}
use ai_agent_security_firewa.Events.Store.{Event, Db, empty}
use ai_agent_security_firewa.Identity.Tokens.{
  Codec, Claims, Verified, valid, malformed, bad_signature, expired, crashed, mint_token,
  verify_token,
}
use ai_agent_security_firewa.Pep.Pipeline.{run_pipeline}
use ai_agent_security_firewa.Pep.Pipeline.State.{Setup, Pep, Moment, ToolCall, PipelineResult}
use ai_agent_security_firewa.Pep.Pipeline.Targets.{Arguments}
use ai_agent_security_firewa.Pep.Proxy.{Logging, ToolCallRequest, build_event}

abbrev pub peer_ip : String
peer_ip = "10.0.1.5"

abbrev pub container_id : String
container_id = "deadbeefcafe1234567890abcdef"

unfoldable pub reset_process_state : Pep → Pep
reset_process_state pep = record pep { taint = []; behavior = cold; denials = [] }

-- The claims of mint_local_token without extra ones.
unfoldable pub local_claims : String → String → Claims
local_claims role service =
    (
      "spiffe_id",
      str (
          String.◌++◌ "spiffe://agentfw.internal/ns/"
            (String.◌++◌ role (String.◌++◌ "/agent/" (first_chars 12 container_id)))),
    )
    ∷ ("role", str role)
    ∷ ("container_id", str container_id)
    ∷ ("image_digest", str "sha256:deadbeef")
    ∷ ("service", str service)
    ∷ ("attested_ip", str peer_ip)
    ∷ []

-- mint_local_token: the token, and the process with its key installed.
unfoldable pub mint_local_token : Codec → Pep → (role service : String) (now : ℕ) → Pep × List ℕ
mint_local_token codec pep role service now =
    (record pep { key_cached = true }, mint_token codec (local_claims role service) now)

-- A call to replay.
pub record LocalCall : Type 0 where
  pub role : String
  pub service : String
  pub tool : String
  pub arguments : Arguments
  pub session_id : String

-- The result of a call with its event, none where one of them raises.
paired : PipelineResult → Option Event → Option (PipelineResult × Event)
paired result none = none
paired result (some event) = some (result, event)

-- quarantine.is_quarantined answers False: the event store answers, and lists nobody.
unquarantined : Pep → Pep
unquarantined pep = record pep { store = empty }

unfoldable pub request_of : LocalCall → List ℕ → ToolCallRequest
request_of call token = record {
  call = record {
    token = some token;
    peer_ip = some peer_ip;
    session_id = call.session_id;
    tool = call.tool;
    arguments = call.arguments;
  };
  trace_id = String.◌++◌ "attack-" call.session_id;
}

finish :
    Setup
    → (List Piece → String)
    → Logging
    → ToolCallRequest
    → Db
    → Pep × Option PipelineResult
    → Pep × Option (PipelineResult × Event)
unfolding paired
finish setup render log req store (pep, none) = (record pep { store = store }, none)
finish setup render log req store (pep, some result) =
    (record pep { store = store }, paired result (build_event setup render req result log))

-- run_locally without `quarantine_calls`: what `enter` does is dropped, and the functions that were replaced
-- are put back.
unfoldable pub run_locally :
    Codec
    → Setup
    → (List Piece → String)
    → Logging
    → Moment
    → LocalCall
    → Pep
    → Pep × Option (PipelineResult × Event)
unfolding finish unquarantined
run_locally codec setup render log moment call pep =
    let (keyed, token) = mint_local_token codec pep call.role call.service moment.token_time in
    let own = record setup { verify = verify_token codec } in
    let req = request_of call token in
    finish own render log req pep.store
      (run_pipeline own (unquarantined keyed) (record moment { check_up = true }) req.call)
