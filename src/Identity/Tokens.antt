-- ===== src/Identity/Tokens.antt =====
-- identity/tokens.py: signed tokens with an expiry. The signature scheme, base64 and JSON come as one
-- interface with their documented behaviour. A time is a number of microseconds, a token a list of
-- code points. `json.loads` and the comparison of `exp` raise errors of their own: `crashed`.
pub mod RoundTrip
pub mod StackCodec
mod Tests
use ai_agent_security_firewa.Prelude.{
  ℕ, suc, ◌+◌, ◌*◌, ◌/◌, String, ◌≡◌, ◌≢◌, Bool, true, false, Option, none, some, List, [], ◌∷◌,
  ◌++◌, All, ltb, if◌then◌else◌,
}
use ai_agent_security_firewa.Prelude.Dict.{Dict, get, put}
use ai_agent_security_firewa.Prelude.Json.{Json, null, bool, num, str, arr, obj}
use ai_agent_security_firewa.Prelude.Text.{split_at}

abbrev pub Claims : Type 0
Claims = Dict Json

abbrev pub Bytes : Type 0
Bytes = List ℕ

-- TOKEN_TTL_SECONDS
abbrev pub token_ttl_seconds : ℕ
token_ttl_seconds = 900

-- What the module uses of `cryptography`, `base64` and `json`.
pub record Codec : Type 0 where
  pub sign : Bytes → Bytes
  pub verifies : (signature payload : Bytes) → Bool
  pub verifies_sign : (payload : Bytes) → verifies (sign payload) payload ≡ true
  pub b64encode : Bytes → List ℕ
  pub b64decode : List ℕ → Option Bytes
  pub b64decode_encode : (b : Bytes) → b64decode (b64encode b) ≡ some b
  -- the URL-safe alphabet holds no dot
  pub b64encode_dotless : (b : Bytes) → All (λ c. c ≢ b'.') (b64encode b)
  pub dumps : Claims → Bytes
  pub loads : Bytes → Option Claims
  -- the keys are written in order, so a dict comes back with the same values under each key
  pub loads_dumps :
      (c : Claims) → (d : Claims) × (loads (dumps c) ≡ some d) × ((k : String) → get d k ≡ get c k)

pub data Verified : Type 0 where
  valid : Claims → Verified
  -- TokenInvalidError
  malformed : Verified
  bad_signature : Verified
  expired : Verified
  -- another exception
  crashed : Verified

-- {**claims, "iat": now, "exp": now + TOKEN_TTL_SECONDS}
unfoldable pub stamp : Claims → ℕ → Claims
stamp claims now =
    let seconds = now / 1000000 in
    put (put claims "iat" (num seconds)) "exp" (num (seconds + token_ttl_seconds))

check_expiry : Claims → Option Json → ℕ → Verified
check_expiry payload none now = if ltb 0 now then expired else valid payload
check_expiry payload (some (num exp)) now =
    if ltb (exp * 1000000) now then expired else valid payload
check_expiry payload (some (bool b)) now =
    if ltb (if b then 1000000 else 0) now then expired else valid payload
check_expiry payload (some _) now = crashed

check_payload : Option Claims → ℕ → Verified
unfolding check_expiry
check_payload none now = crashed
check_payload (some payload) now = check_expiry payload (get payload "exp") now

module _ (codec : Codec) where
  open codec use {sign, verifies, b64encode, b64decode, dumps, loads}

  unfoldable pub mint_token : Claims → ℕ → List ℕ
  mint_token claims now =
      let payload = dumps (stamp claims now) in b64encode payload ++ b'.' ∷ b64encode (sign payload)

  check_signature : Option Bytes → Option Bytes → ℕ → Verified
  unfolding check_payload
  check_signature (some payload) (some signature) now =
      if verifies signature payload then check_payload (loads payload) now else bad_signature
  check_signature (some payload) none now = malformed
  check_signature none signature now = malformed

  check_parts : List ℕ × List (List ℕ) → ℕ → Verified
  unfolding check_signature
  check_parts (payload_b64, sig_b64 ∷ []) now =
      check_signature (b64decode payload_b64) (b64decode sig_b64) now
  check_parts (payload_b64, []) now = malformed
  check_parts (payload_b64, s ∷ t ∷ parts) now = malformed

  unfoldable pub verify_token : List ℕ → ℕ → Verified
  unfolding check_parts
  verify_token token now = check_parts (split_at b'.' token) now
