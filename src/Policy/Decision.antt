-- ===== src/Policy/Decision.antt =====
-- policy/engine.py: the decision lattice and the groups of decisions.
use ai_agent_security_firewa.Prelude.{ℕ, ◌≤◌, String, ◌≡◌, Bool, true, false, arith, nat_eq}

pub data Decision : Type 0 where
  deny quarantine require_approval rate_limit allow_redacted allow : Decision

-- the member's number in the IntEnum
abbrev pub rank : Decision → ℕ
rank deny = 0
rank quarantine = 1
rank require_approval = 2
rank rate_limit = 3
rank allow_redacted = 4
rank allow = 5

-- Decision.X.name
unfoldable pub name : Decision → String
name deny = "DENY"
name quarantine = "QUARANTINE"
name require_approval = "REQUIRE_APPROVAL"
name rate_limit = "RATE_LIMIT"
name allow_redacted = "ALLOW_REDACTED"
name allow = "ALLOW"

abbrev pub is_decision : Decision → Decision → Bool
is_decision a b = nat_eq (rank a) (rank b)

-- EXECUTABLE_DECISIONS
abbrev pub executable : Decision → Bool
executable allow = true
executable allow_redacted = true
executable rate_limit = true
executable _ = false

-- BLOCKED_DECISIONS
abbrev pub blocked : Decision → Bool
blocked deny = true
blocked quarantine = true
blocked _ = false

-- PERMITTED_DECISIONS
abbrev pub permitted : Decision → Bool
permitted allow = true
permitted allow_redacted = true
permitted rate_limit = true
permitted require_approval = true
permitted _ = false

-- FRICTION_DECISIONS
abbrev pub friction : Decision → Bool
friction rate_limit = true
friction require_approval = true
friction _ = false

infix 50 ◌⊑◌
abbrev pub ◌⊑◌ : Decision → Decision → Type 0
a ⊑ b = rank a ≤ rank b

pub rank-injective : (a b : Decision) → rank a ≡ rank b → a ≡ b
rank-injective a b h = ground arith

pub is_decision-eq : (a b : Decision) → is_decision a b ≡ true → a ≡ b
is_decision-eq a b h = ground arith
