-- ===== src/Pep/Pipeline/Identify.antt =====
-- pep/pipeline.py, _verify_identity: who makes a call.

use ai_agent_security_firewa.Prelude.{
  ℕ, String, Bool, true, false, Option, none, some, List, [], ◌∷◌, ◌==◌, if◌then◌else◌,
}
use ai_agent_security_firewa.Prelude.Dict.{get}
use ai_agent_security_firewa.Prelude.Json.{Json, null, str}
use ai_agent_security_firewa.Prelude.Text.{first_chars, or_text}
use ai_agent_security_firewa.Identity.Tokens.{
  Claims, Verified, valid, malformed, bad_signature, expired, crashed,
}
use ai_agent_security_firewa.Pep.Pipeline.Targets.{Maybe}

pub data Identified : Type 0 where
  accepted : (role agent_key workload_key : String) → Identified
  rejected : (fallback_key reason : String) → Identified
  raised : Identified

unfoldable pub peer_or_unknown : Option String → String
peer_or_unknown none = "unknown"
peer_or_unknown (some ip) = or_text ip "unknown"

-- claims.get("attested_ip") == peer_ip, where the peer has an address
unfoldable pub is_bound : Option Json → Option String → Bool
is_bound (some (str ip)) (some peer) = ip == peer
is_bound _ _ = false

-- claims.get("container_id", fallback_key)[:12]
unfoldable pub agent_key_of : Option Json → String → Maybe String
agent_key_of none fallback = some (first_chars 12 fallback)
agent_key_of (some (str id)) fallback = some (first_chars 12 id)
agent_key_of (some _) fallback = none

-- claims.get("service") or agent_key
unfoldable pub workload_key_of : Option Json → String → Maybe String
workload_key_of none agent_key = some agent_key
workload_key_of (some null) agent_key = some agent_key
workload_key_of (some (str service)) agent_key = some (or_text service agent_key)
workload_key_of (some _) agent_key = none

unfoldable pub accept : Option Json → Maybe String → Maybe String → Identified
accept (some (str role)) (some agent_key) (some workload_key) = accepted role agent_key workload_key
accept _ _ _ = raised

unfoldable pub with_agent : Claims → Maybe String → Identified
unfolding accept workload_key_of
with_agent claims none = raised
with_agent claims (some agent_key) =
    accept (get claims "role") (some agent_key) (workload_key_of (get claims "service") agent_key)

unfoldable pub bind_claims : Claims → Option String → Identified
unfolding is_bound with_agent agent_key_of
bind_claims claims peer_ip =
    if is_bound (get claims "attested_ip") peer_ip
    then with_agent claims (agent_key_of (get claims "container_id") (peer_or_unknown peer_ip))
    else rejected (peer_or_unknown peer_ip)
        "identity_verification_failed: container binding mismatch"

unfoldable pub from_verified : Verified → Option String → Identified
unfolding bind_claims
from_verified (valid claims) peer_ip = bind_claims claims peer_ip
from_verified malformed peer_ip =
    rejected (peer_or_unknown peer_ip) "identity_verification_failed: malformed token"
from_verified bad_signature peer_ip =
    rejected (peer_or_unknown peer_ip) "identity_verification_failed: signature verification failed"
from_verified expired peer_ip =
    rejected (peer_or_unknown peer_ip) "identity_verification_failed: token expired"
from_verified crashed peer_ip = raised

-- _verify_identity; `has_key` tells whether the issuer's public key is in the cache or can be fetched.
unfoldable pub verify_identity :
    (List ℕ → ℕ → Verified) → Option (List ℕ) → Option String → Bool → ℕ → Identified
unfolding from_verified
verify_identity verify none peer_ip has_key now =
    rejected (peer_or_unknown peer_ip) "identity_verification_failed: no token presented"
verify_identity verify (some []) peer_ip has_key now =
    rejected (peer_or_unknown peer_ip) "identity_verification_failed: no token presented"
verify_identity verify (some (c ∷ token)) peer_ip true now =
    from_verified (verify (c ∷ token) now) peer_ip
verify_identity verify (some (c ∷ token)) peer_ip false now =
    rejected (peer_or_unknown peer_ip) "identity_verification_failed: issuer unreachable"
