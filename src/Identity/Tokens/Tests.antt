-- ===== src/Identity/Tokens/Tests.antt =====
-- identity/tokens.py: the round trip with a codec.
use ai_agent_security_firewa.Prelude.{◌≤◌, ◌<◌, ◌≡◌, [], ◌∷◌}
use ai_agent_security_firewa.Prelude.Json.{null, num, str, arr, nil, item}
use ai_agent_security_firewa.Identity.Tokens.{Claims, valid, expired, mint_token, verify_token}
use ai_agent_security_firewa.Identity.Tokens.StackCodec.{codec}
use ai_agent_security_firewa.Identity.Tokens.RoundTrip.{deadline, Reads, verify_token-mint_token}

abbrev claims : Claims
claims = ("role", str "research_agent") ∷ ("pins", arr (item (num 7) nil)) ∷ ("note", null) ∷ []

verify_token-mint_token_example :
    (d : Claims) × Reads claims 5000000 d
    × (9000000 ≤ deadline 5000000
        → verify_token codec (mint_token codec claims 5000000) 9000000 ≡ valid d)
    × (deadline 5000000 < 9000000
        → verify_token codec (mint_token codec claims 5000000) 9000000 ≡ expired)
verify_token-mint_token_example = verify_token-mint_token codec claims 5000000 9000000
