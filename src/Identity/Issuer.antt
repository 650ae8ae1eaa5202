-- ===== src/Identity/Issuer.antt =====
-- identity/issuer.py: attestation. The answer of the Docker API, the local pin store's faults, the
-- clock and the environment's digests are arguments; what the route does is its reply, the pins that
-- it leaves and the denial events that it prints. Minting is identity/tokens.py's.
pub mod Attest
mod Tests
use Prim.Native.String
use ai_agent_security_firewa.Prelude.{
  ℕ, String, Bool, true, false, not, Option, none, some, List, [], ◌∷◌, ◌++◌, any, ◌==◌,
  if◌then◌else◌,
}
use ai_agent_security_firewa.Prelude.Dict.{Dict, get, get_default}
use ai_agent_security_firewa.Prelude.Json.{str}
use ai_agent_security_firewa.Prelude.Text.{first_chars, or_text, or_else}
use ai_agent_security_firewa.Identity.Tokens.{Claims}
use ai_agent_security_firewa.Identity.Store.{Pins, get_or_set}

pub record RegisteredAgent : Type 0 where
  pub role : String
  pub image_digest : String

-- The optional digests that the environment sets: EXPECTED_DIGEST_AGENT and so on, "" where unset.
pub record ExpectedDigests : Type 0 where
  pub agent : String
  pub finance_agent : String
  pub support_agent : String

unfoldable pub agent_registry : ExpectedDigests → Dict RegisteredAgent
agent_registry env =
    ("agent", record { role = "research_agent"; image_digest = env.agent })
    ∷ ("finance-agent", record { role = "finance_agent"; image_digest = env.finance_agent })
    ∷ ("support-agent", record { role = "support_agent"; image_digest = env.support_agent })
    ∷ []

-- A container in Docker's answer: its addresses, and its labels where it has any.
pub record Container : Type 0 where
  pub id : String
  pub image_id : Option String
  pub addresses : List (Option String)
  pub labels : Option (Dict String)

pub record ContainerInfo : Type 0 where
  pub container_id : String
  pub image_digest : String
  pub service : String

has_address : String → Option String → Bool
has_address ip none = false
has_address ip (some a) = a == ip

labels_of : Option (Dict String) → Dict String
labels_of none = []
labels_of (some labels) = labels

text_or_empty : Option String → String
text_or_empty none = ""
text_or_empty (some t) = t

pub info_of : Container → ContainerInfo
unfolding labels_of text_or_empty
info_of c = record {
  container_id = c.id;
  image_digest = text_or_empty c.image_id;
  service = get_default (labels_of c.labels) "com.docker.compose.service" "";
}

pub owns : String → Container → Bool
unfolding has_address
owns ip c = any (has_address ip) c.addresses

-- _lookup_caller_container, on the containers that Docker answers with
unfoldable pub lookup_caller_container : String → List Container → Option ContainerInfo
unfolding info_of owns
lookup_caller_container ip [] = none
lookup_caller_container ip (c ∷ cs) =
    if owns ip c then some (info_of c) else lookup_caller_container ip cs

pub data Denial : Type 0 where
  no_container_match : Denial
  not_registered : (service : String) → Denial
  pin_check_unavailable : Denial
  digest_mismatch : (service pinned got : String) → Denial

-- The event that _log_attestation_denial prints, less its constant fields.
pub record DenialEvent : Type 0 where
  pub reason : Denial
  pub agent_id : String
  pub ip : String
  pub resource : Option String

info_service : Option ContainerInfo → Option String
info_service none = none
info_service (some info) = some info.service

info_container : Option ContainerInfo → Option String
info_container none = none
info_container (some info) = some info.container_id

unfoldable pub attestation_denial : Denial → String → Option ContainerInfo → DenialEvent
unfolding info_service info_container
attestation_denial reason source_ip info = record {
  reason = reason;
  agent_id = or_else (info_service info) "unknown";
  ip = source_ip;
  resource = info_container info;
}

pub data Reply : Type 0 where
  -- the claims that are minted into the token
  token : Claims → Reply
  -- HTTPException
  refused : (status : ℕ) → Reply
  -- the Docker API's error goes on to the framework
  server_error : Reply

pub record Attestation : Type 0 where
  pub reply : Reply
  pub pins : Pins
  pub log : List DenialEvent

unfoldable pub claims_of : String → ContainerInfo → String → Claims
claims_of role info source_ip =
    (
      "spiffe_id",
      str (
          String.◌++◌ "spiffe://agentfw.internal/ns/"
            (String.◌++◌ role (String.◌++◌ "/agent/" (first_chars 12 info.container_id)))),
    )
    ∷ ("role", str role)
    ∷ ("container_id", str info.container_id)
    ∷ ("image_digest", str info.image_digest)
    ∷ ("service", str info.service)
    ∷ ("attested_ip", str source_ip)
    ∷ []

denied : Denial → String → Option ContainerInfo → Pins → Attestation
denied reason source_ip info pins = record {
  reply = refused 403;
  pins = pins;
  log = attestation_denial reason source_ip info ∷ [];
}

-- The digest check, on what the pin store answered.
pub check_pin : String → ContainerInfo → String → Pins → Option (Pins × String) → Attestation
unfolding denied
check_pin source_ip info role pins none = denied pin_check_unavailable source_ip (some info) pins
check_pin source_ip info role pins (some (after, pinned)) =
    if info.image_digest == pinned
    then record { reply = token (claims_of role info source_ip); pins = after; log = [] }
    else denied (digest_mismatch info.service pinned info.image_digest) source_ip (some info) after

pub check_registered :
    String → ContainerInfo → Option RegisteredAgent → String → Bool → Pins → Attestation
unfolding check_pin denied
check_registered source_ip info none now fault pins =
    denied (not_registered info.service) source_ip (some info) pins
check_registered source_ip info (some registered) now fault pins =
    let seed = or_text registered.image_digest info.image_digest in
    check_pin source_ip info registered.role pins (get_or_set info.service seed now pins fault)

pub check_container :
    ExpectedDigests → String → Option ContainerInfo → String → Bool → Pins → Attestation
unfolding check_registered denied
check_container env source_ip none now fault pins = denied no_container_match source_ip none pins
check_container env source_ip (some info) now fault pins =
    check_registered source_ip info (get (agent_registry env) info.service) now fault pins

check_docker :
    ExpectedDigests → String → Option (List Container) → String → Bool → Pins → Attestation
unfolding check_container
check_docker env source_ip none now fault pins = record {
  reply = server_error;
  pins = pins;
  log = [];
}
check_docker env source_ip (some containers) now fault pins =
    check_container env source_ip (lookup_caller_container source_ip containers) now fault pins

-- attest: `now` is the time as text, and `docker` none where the Docker API fails.
unfoldable pub attest :
    ExpectedDigests → Option String → Option (List Container) → String → Bool → Pins → Attestation
unfolding check_docker
attest env none docker now fault pins = record { reply = refused 400; pins = pins; log = [] }
attest env (some source_ip) docker now fault pins =
    if source_ip == ""
    then record { reply = refused 400; pins = pins; log = [] }
    else check_docker env source_ip docker now fault pins
