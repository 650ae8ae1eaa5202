-- ===== src/Identity/Tokens/RoundTrip.antt =====
-- identity/tokens.py: a token that is minted verifies until it expires, and what verifies was signed.
use ai_agent_security_firewa.Prelude.{
  ℕ, ◌+◌, ◌*◌, ◌/◌, ◌≤◌, ◌<◌, String, ◌≡◌, ap, ◌∙◌, Option, some, ltb, ◌==◌, arith, if◌then◌else◌,
}
use ai_agent_security_firewa.Prelude.Dict.{get, put, get-put}
use ai_agent_security_firewa.Prelude.Json.{num}
use ai_agent_security_firewa.Prelude.Text.{split_at-none, split_at-append}
use ai_agent_security_firewa.Identity.Tokens.{
  Claims, Codec, valid, expired, token_ttl_seconds, stamp, check_expiry, check_payload, mint_token,
  check_signature, check_parts, verify_token,
}

-- The last moment at which a token minted at `now` verifies.
abbrev pub deadline : ℕ → ℕ
deadline now = (now / 1000000 + token_ttl_seconds) * 1000000

-- The claims that a token carries: the caller's, with `iat` and `exp` set by the issuer whatever the
-- caller gave for them.
pub stamp-get :
    (claims : Claims) (now : ℕ) (k : String)
    → get (stamp claims now) k ≡ (
        if "exp" == k
        then some (num (now / 1000000 + token_ttl_seconds))
        else if "iat" == k
        then some (num (now / 1000000))
        else get claims k)
unfolding stamp
stamp-get claims now k = ground (
  arith,
  get-put (put claims "iat" (num (now / 1000000))) "exp" k
      (num (now / 1000000 + token_ttl_seconds)),
  get-put claims "iat" k (num (now / 1000000)),
)

-- What a verifier gets from a token minted at `now`, when it looks at `later`.
abbrev pub Reads : Claims → ℕ → Claims → Type 0
Reads claims now d = (k : String) → get d k ≡ get (stamp claims now) k

module _ (codec : Codec) where
  check_payload-stamp :
      (claims : Claims) (now later : ℕ) (d : Claims)
      → Reads claims now d
      → check_payload (some d) later ≡ (if ltb (deadline now) later then expired else valid d)
  unfolding check_payload check_expiry
  check_payload-stamp claims now later d same = rw (same "exp", stamp-get claims now "exp")

  check_parts-mint :
      (claims : Claims) (now later : ℕ)
      → verify_token codec (mint_token codec claims now) later
        ≡ check_payload (codec.loads (codec.dumps (stamp claims now))) later
  unfolding verify_token mint_token check_parts check_signature
  check_parts-mint claims now later =
      let payload = codec.dumps (stamp claims now) in
      let signature = codec.b64encode (codec.sign payload) in
      rw (
        split_at-append b'.' (codec.b64encode payload) signature (codec.b64encode_dotless payload),
        split_at-none b'.' signature (codec.b64encode_dotless (codec.sign payload)),
        codec.b64decode_encode payload,
        codec.b64decode_encode (codec.sign payload),
        codec.verifies_sign payload,
      )

  -- Until 15 minutes after the second in which it was minted a token verifies, to the caller's claims
  -- with the issuer's `iat` and `exp`; from then on it is expired.
  pub verify_token-mint_token :
      (claims : Claims) (now later : ℕ)
      → (d : Claims) × Reads claims now d
        × (later ≤ deadline now → verify_token codec (mint_token codec claims now) later ≡ valid d)
        × (deadline now < later → verify_token codec (mint_token codec claims now) later ≡ expired)
  verify_token-mint_token claims now later =
      let (d, e, same) = codec.loads_dumps (stamp claims now) in
      let all =
        check_parts-mint claims now later
        ∙ ap (λ (o : Option Claims). check_payload o later) e
        ∙ check_payload-stamp claims now later d same in
      (d, same, (λ h. ground arith), λ h. ground arith)
