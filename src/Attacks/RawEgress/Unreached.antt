-- ===== src/Attacks/RawEgress/Unreached.antt =====
-- attacks/a9.py: its result by the first line of what the deployment sends.
use ai_agent_security_firewa.Prelude.{
  ℕ, ◌≡◌, true, false, Option, none, some, List, [], if◌then◌else◌,
}
use ai_agent_security_firewa.Prelude.Text.{codes}
use ai_agent_security_firewa.Pep.BypassProxy.{bypass_event}
use ai_agent_security_firewa.Attacks.Common.{
  AttackResult, real_docker_verified, unverified, genuinely_verified, is_blocked,
  mechanism_exit_code,
}
use ai_agent_security_firewa.Attacks.RawEgress.{Local, has_part, request_line}

unfoldable pub IsUnproven : AttackResult → Local → Type 0
IsUnproven r local =
    (r.verification_status ≡ unverified)
    × (genuinely_verified r ≡ false)
    × (mechanism_exit_code r ≡ 0)
    × (is_blocked r ≡ true)
    × (r.event ≡ bypass_event "evil.com:443" request_line local.stamp)

-- How a result follows from the first line of an answer, if there is one.
unfoldable pub IsGraded : AttackResult → Local → Option (List ℕ) → Type 0
IsGraded r local none = IsUnproven r local
IsGraded r local (some line) =
    (r.verification_status ≡ real_docker_verified)
    × (genuinely_verified r ≡ has_part (codes "403") line)
    × (mechanism_exit_code r ≡ (if has_part (codes "403") line then 0 else 1))
    × (is_blocked r ≡ has_part (codes "403") line)
    × (r.event ≡ [])
