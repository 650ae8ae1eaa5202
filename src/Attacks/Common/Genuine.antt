-- ===== src/Attacks/Common/Genuine.antt =====
-- attacks/common.py: what counts as a measurement of the deployment.
use ai_agent_security_firewa.Prelude.{
  ℕ, String, ◌≡◌, refl, ap, sym, subst, ◌∙◌, ◌↔◌, ◌⊎◌, true, false, ◌&&◌, Option, none, some, List,
  ◌==◌, eq_iff, arith, if◌then◌else◌, Bool-cases, inl, inr,
}
use ai_agent_security_firewa.Prelude.Dict.{Dict, get}
use ai_agent_security_firewa.Prelude.Json.{Json, null, bool, num, str, arr, obj}
use ai_agent_security_firewa.Identity.Tokens.{
  Claims, Verified, valid, malformed, bad_signature, expired, crashed,
}
use ai_agent_security_firewa.Attacks.Common.{
  AttackResult, real_docker_verified, genuinely_verified, mechanism_exit_code, assess_mechanism,
  Fetched, fetched, http_error, other_error, Live, Attested, attested, refused, raised, role_of,
  of_claims, with_key, attest_with, attest_and_verify_role, LiveCallOutcome, unmeasured, with_body,
  with_reply, is_text, with_role, try_live_pep_call_verified, is_real, is_true, is_false,
}

pub is_text_iff : (v : Json) (t : String) → (is_text v t ≡ true) ↔ (v ≡ str t)
unfolding is_text
is_text_iff null t = ((λ e. cc), (λ e. cc))
is_text_iff (bool b) t = ((λ e. cc), (λ e. cc))
is_text_iff (num n) t = ((λ e. cc), (λ e. cc))
is_text_iff (str s) t = (
  (λ e. ap (λ (r : String). str r) ((eq_iff s t).0 e)),
  (λ e. (eq_iff s t).1 (str_injective s t e)),
)
  where
    str_injective : (s t : String) → str s ≡ str t → s ≡ t
    str_injective s t e = cc
is_text_iff (arr vs) t = ((λ e. cc), (λ e. cc))
is_text_iff (obj fs) t = ((λ e. cc), (λ e. cc))

-- A measured result that is graded by `assess_mechanism` is genuinely verified exactly if both its decision
-- and its reason are the expected ones; its exit code is 0 then and 1 otherwise.
pub genuinely_verified_iff :
    (r : AttackResult) (decision reason : String)
    → r.verification_status ≡ real_docker_verified
    → r.mechanism_match ≡ some (assess_mechanism r.decision r.reason decision reason)
    → ((genuinely_verified r ≡ true) ↔ ((r.decision ≡ str decision) × (r.reason ≡ str reason)))
      × (mechanism_exit_code r ≡ (if genuinely_verified r then 0 else 1))
unfolding genuinely_verified mechanism_exit_code assess_mechanism is_real is_true is_false
genuinely_verified_iff r decision reason s m =
    rw (s, m) (ground (arith, is_text_iff r.decision decision, is_text_iff r.reason reason))

-- How a role was attested.
unfoldable pub IsAttested : Live → Json → List ℕ → Type 0
IsAttested live role token =
    (verify : List ℕ → Verified) × (claims : Claims) × (live.attest ≡ fetched token)
    × (live.public_key ≡ fetched verify)
    × (verify token ≡ valid claims)
    × (get claims "role" ≡ some role)

-- The decision that is reported, and the reply that it was read from.
IsMeasured : Live → String → Json → Option Json → Attested → Type 0
IsMeasured live expected d q a =
    (token : List ℕ) × (body : Dict Json) × (a ≡ attested (str expected) token)
    × (live.tool_call token ≡ fetched body)
    × (get body "decision" ≡ some d)
    × (get body "reason" ≡ q)

-- The decision and the reason of an outcome that has a decision.
with_reason : Option Json → Option Json → Option (Json × Option Json)
with_reason none q = none
with_reason (some d) q = some (d, q)

verdict_of : Option LiveCallOutcome → Option (Json × Option Json)
unfolding with_reason
verdict_of none = none
verdict_of (some o) = with_reason o.decision o.reason

pair_injective :
    (d p : Json) (q r : Option Json)
    → ◌≡◌ {A = Option (Json × Option Json)} (some (p, r)) (some (d, q))
    → (some p ≡ some d) × (r ≡ q)
pair_injective d p q r e = (cc, cc)

from_body :
    (role : Json) (body : Dict Json) (d : Json) (q p r : Option Json)
    → verdict_of (with_body role body p r) ≡ some (d, q)
    → (p ≡ some d) × (r ≡ q)
unfolding with_body verdict_of with_reason
from_body role body d q (some p) (some r) e = pair_injective d p q (some r) e
from_body role body d q (some p) none e = absurd (cc e)
from_body role body d q none r e = absurd (cc e)

from_reply :
    (role d : Json) (q : Option Json) (f : Fetched (Dict Json))
    → verdict_of (with_reply role f) ≡ some (d, q)
    → (body : Dict Json) × (f ≡ fetched body)
      × (get body "decision" ≡ some d)
      × (get body "reason" ≡ q)
unfolding with_reply verdict_of with_reason unmeasured
from_reply role d q (fetched body) e =
    let (p, r) = from_body role body d q (get body "decision") (get body "reason") e in
    (body, refl, p, r)
from_reply role d q http_error e = absurd (cc e)
from_reply role d q other_error e = absurd (cc e)

from_role :
    (live : Live) (expected : String) (d : Json) (q : Option Json) (a : Attested)
    → verdict_of (with_role live expected a) ≡ some (d, q)
    → IsMeasured live expected d q a
unfolding with_role is_text unmeasured verdict_of with_reason IsMeasured
from_role live expected d q refused e = absurd (cc e)
from_role live expected d q raised e = absurd (cc e)
from_role live expected d q (attested null token) e = absurd (cc e)
from_role live expected d q (attested (bool b) token) e = absurd (cc e)
from_role live expected d q (attested (num n) token) e = absurd (cc e)
from_role live expected d q (attested (arr vs) token) e = absurd (cc e)
from_role live expected d q (attested (obj fs) token) e = absurd (cc e)
from_role live expected d q (attested (str role) token) e = elim (Bool-cases (role == expected)) [
  | inl same ↦
      let (body, is_body, is_decision, is_reason) =
        from_reply (str role) d q (live.tool_call token) (rw same at e) in
      (
        token,
        body,
        ap (λ (r : String). attested (str r) token) ((eq_iff role expected).0 same),
        is_body,
        is_decision,
        is_reason,
      )
  | inr other ↦ absurd (cc (rw other at e))
]

from_claims :
    (role : Json) (token sent : List ℕ) (v : Verified)
    → of_claims sent v ≡ attested role token
    → (claims : Claims) × (v ≡ valid claims) × (get claims "role" ≡ some role) × (sent ≡ token)
unfolding of_claims
from_claims role token sent (valid claims) e =
    let (p, q) = from_option (get claims "role") e in (claims, refl, p, q)
  where
    from_option :
        (o : Option Json) → role_of sent o ≡ attested role token → (o ≡ some role) × (sent ≡ token)
    from_option none e = absurd (cc e)
    from_option (some r) e = (cc e, cc e)
from_claims role token sent malformed e = absurd (cc e)
from_claims role token sent bad_signature e = absurd (cc e)
from_claims role token sent expired e = absurd (cc e)
from_claims role token sent crashed e = absurd (cc e)

from_key :
    (role : Json) (token sent : List ℕ) (f : Fetched (List ℕ → Verified))
    → with_key sent f ≡ attested role token
    → (verify : List ℕ → Verified) × (claims : Claims) × (f ≡ fetched verify)
      × (verify token ≡ valid claims)
      × (get claims "role" ≡ some role)
      × (sent ≡ token)
unfolding with_key
from_key role token sent (fetched verify) e =
    let (claims, v, r, s) = from_claims role token sent (verify sent) e in
    (verify, claims, refl, ap verify (sym s) ∙ v, r, s)
from_key role token sent http_error e = absurd (cc e)
from_key role token sent other_error e = absurd (cc e)

from_attest :
    (role : Json) (token : List ℕ) (f : Fetched (List ℕ)) (key : Fetched (List ℕ → Verified))
    → attest_with f key ≡ attested role token
    → (verify : List ℕ → Verified) × (claims : Claims) × (f ≡ fetched token)
      × (key ≡ fetched verify)
      × (verify token ≡ valid claims)
      × (get claims "role" ≡ some role)
unfolding attest_with
from_attest role token (fetched sent) key e =
    let (verify, claims, k, v, r, s) = from_key role token sent key e in
    (verify, claims, ap (λ (t : List ℕ). fetched t) s, k, v, r)
from_attest role token http_error key e = absurd (cc e)
from_attest role token other_error key e = absurd (cc e)

pub attest_and_verify_role-IsAttested :
    (live : Live) (role : Json) (token : List ℕ)
    → attest_and_verify_role live ≡ attested role token
    → IsAttested live role token
unfolding attest_and_verify_role IsAttested
attest_and_verify_role-IsAttested live role token =
    from_attest role token live.attest live.public_key

-- A decision is reported as measured only if it was: the issuer gave a token, that verifies with the key that
-- the issuer gave, to claims with just the role that the scenario asks for; and the decision and the reason
-- are those that the proxy replied with to that token.
pub try_live-IsMeasured :
    (live : Live) (expected : String) (o : LiveCallOutcome) (d : Json)
    → try_live_pep_call_verified live expected ≡ some o
    → o.decision ≡ some d
    → (token : List ℕ) × IsAttested live (str expected) token
      × (body : Dict Json) × (live.tool_call token ≡ fetched body)
      × (get body "decision" ≡ some d)
      × (get body "reason" ≡ o.reason)
unfolding try_live_pep_call_verified attest_and_verify_role IsAttested IsMeasured verdict_of
    with_reason
try_live-IsMeasured live expected o d e f =
    let (token, body, a, b, g, h) =
      from_role live expected d o.reason (attest_and_verify_role live)
        (ap verdict_of e ∙ ap (λ (p : Option Json). with_reason p o.reason) f) in
    (token, from_attest (str expected) token live.attest live.public_key a, body, b, g, h)

-- An outcome that counts as a measurement has a decision and a reason.
IsComplete : LiveCallOutcome → Type 0
IsComplete o =
    (o.reachable && o.role_ok ≡ false)
    ⊎ ((d : Json) × (q : Json) × (o.decision ≡ some d) × (o.reason ≡ some q))

IsCompleteIfAny : Option LiveCallOutcome → Type 0
unfolding IsComplete
IsCompleteIfAny none = Unit
IsCompleteIfAny (some o) = IsComplete o

body-IsComplete :
    (role : Json) (body : Dict Json) (p q : Option Json) → IsCompleteIfAny (with_body role body p q)
unfolding IsCompleteIfAny IsComplete with_body
body-IsComplete role body (some d) (some q) = inr (d, q, refl, refl)
body-IsComplete role body (some d) none = tt
body-IsComplete role body none q = tt

reply-IsComplete : (role : Json) (f : Fetched (Dict Json)) → IsCompleteIfAny (with_reply role f)
unfolding with_reply unmeasured IsCompleteIfAny IsComplete
reply-IsComplete role (fetched body) =
    body-IsComplete role body (get body "decision") (get body "reason")
reply-IsComplete role http_error = inl refl
reply-IsComplete role other_error = tt

role-IsComplete :
    (live : Live) (expected : String) (a : Attested) → IsCompleteIfAny (with_role live expected a)
unfolding with_role is_text unmeasured IsCompleteIfAny IsComplete
role-IsComplete live expected refused = inl refl
role-IsComplete live expected raised = tt
role-IsComplete live expected (attested null token) = inl refl
role-IsComplete live expected (attested (bool b) token) = inl refl
role-IsComplete live expected (attested (num n) token) = inl refl
role-IsComplete live expected (attested (arr vs) token) = inl refl
role-IsComplete live expected (attested (obj fs) token) = inl refl
role-IsComplete live expected (attested (str role) token) = elim (Bool-cases (role == expected)) [
  | inl same ↦ rw same (reply-IsComplete (str role) (live.tool_call token))
  | inr other ↦ rw other (inl refl)
]

pub try_live-IsComplete :
    (live : Live) (expected : String) (o : LiveCallOutcome)
    → try_live_pep_call_verified live expected ≡ some o
    → (o.reachable && o.role_ok ≡ false)
      ⊎ ((d : Json) × (q : Json) × (o.decision ≡ some d) × (o.reason ≡ some q))
unfolding try_live_pep_call_verified IsCompleteIfAny IsComplete
try_live-IsComplete live expected o e =
    subst IsCompleteIfAny e (role-IsComplete live expected (attest_and_verify_role live))
