-- ===== src/Identity/Issuer/Tests.antt =====
-- Attestation of two containers, and the theorems on it at concrete pins.
use ai_agent_security_firewa.Prelude.{String, ◌≡◌, refl, false, some, [], ◌∷◌}
use ai_agent_security_firewa.Prelude.Dict.{get, put, remove}
use ai_agent_security_firewa.Prelude.Text.{first_chars}
use ai_agent_security_firewa.Identity.Tokens.{Claims}
use ai_agent_security_firewa.Identity.Store.{Pins, get_or_set, clear}
use ai_agent_security_firewa.Identity.Issuer.{
  ExpectedDigests, Container, token, refused, agent_registry, lookup_caller_container, claims_of,
  attestation_denial, attest,
}
use ai_agent_security_firewa.Identity.Issuer.Attest.{IsAttested, attest-IsAttested}

running : Unit {0}
unfolding get put remove first_chars get_or_set clear agent_registry lookup_caller_container
    claims_of attestation_denial attest
running = tt

abbrev unseeded : ExpectedDigests
unseeded = record { agent = ""; finance_agent = ""; support_agent = "" }

abbrev container : String → Container
container digest = record {
  id = "0123456789abcdef";
  image_id = some digest;
  addresses = some "172.18.0.5" ∷ [];
  labels = some (("com.docker.compose.service", "agent") ∷ []);
}

abbrev claims : Claims
claims =
    claims_of "research_agent"
      (record { container_id = "0123456789abcdef"; image_digest = "sha256:a"; service = "agent" })
      "172.18.0.5"

abbrev pins : Pins
pins = ("agent", ("sha256:a", "t0")) ∷ []

first_attestation :
    (attest unseeded (some "172.18.0.5") (some (container "sha256:a" ∷ [])) "t1" false []).reply
    ≡ token claims
unfolding running
first_attestation = refl

other_image :
    (attest unseeded (some "172.18.0.5") (some (container "sha256:b" ∷ [])) "t1" false pins).reply
    ≡ refused 403
unfolding running
other_image = refl

attest-IsAttested_example :
    IsAttested unseeded "172.18.0.5"
      (container "sha256:a" ∷ [])
      []
      (attest unseeded (some "172.18.0.5") (some (container "sha256:a" ∷ [])) "t1" false []).pins
      claims
attest-IsAttested_example =
    attest-IsAttested unseeded "172.18.0.5" [] (container "sha256:a" ∷ []) "t1" false claims
      first_attestation
