-- ===== src/Pep/Pipeline/Stages/Binding.antt =====
-- pep/pipeline.py, `_verify_identity`: what an accepted identity rests on.
use ai_agent_security_firewa.Prelude.{
  ℕ, String, ◌≡◌, refl, ap, Bool, true, false, Option, none, some, List, [], ◌∷◌, eq_iff,
  Bool-cases, inl, inr,
}
use ai_agent_security_firewa.Prelude.Dict.{get}
use ai_agent_security_firewa.Prelude.Json.{Json, null, bool, num, str, arr, obj}
use ai_agent_security_firewa.Identity.Tokens.{
  Claims, Verified, valid, malformed, bad_signature, expired, crashed,
}
use ai_agent_security_firewa.Pep.Pipeline.Identify.{
  accepted, peer_or_unknown, is_bound, accept, with_agent, agent_key_of, workload_key_of,
  bind_claims, from_verified, verify_identity,
}

-- The claims of a verified token name the peer's address and the role.
pub record IsBound (claims : Claims) (peer_ip : Option String) (role : String) : Type 0 where
  pub peer : String
  pub connected : peer_ip ≡ some peer
  pub attested : get claims "attested_ip" ≡ some (str peer)
  pub role_claim : get claims "role" ≡ some (str role)

is_bound-peer :
    (ip : Option Json) (peer_ip : Option String)
    → is_bound ip peer_ip ≡ true
    → (peer : String) × (peer_ip ≡ some peer) × (ip ≡ some (str peer))
unfolding is_bound
is_bound-peer (some (str ip)) (some peer) e =
    (peer, refl, ap (λ (s : String). some (str s)) ((eq_iff ip peer).0 e))
is_bound-peer (some (str ip)) none e = cc
is_bound-peer none p e = cc
is_bound-peer (some null) p e = cc
is_bound-peer (some (bool b)) p e = cc
is_bound-peer (some (num n)) p e = cc
is_bound-peer (some (arr xs)) p e = cc
is_bound-peer (some (obj fs)) p e = cc

accept-role :
    (r : Option Json) (a w : Option String) (role agent_key key : String)
    → accept r a w ≡ accepted role agent_key key
    → r ≡ some (str role)
unfolding accept
accept-role (some (str role')) (some a) (some w) role agent_key key e = cc
accept-role (some (str role')) (some a) none role agent_key key e = cc
accept-role (some (str role')) none w role agent_key key e = cc
accept-role none a w role agent_key key e = cc
accept-role (some null) a w role agent_key key e = cc
accept-role (some (bool b)) a w role agent_key key e = cc
accept-role (some (num n)) a w role agent_key key e = cc
accept-role (some (arr xs)) a w role agent_key key e = cc
accept-role (some (obj fs)) a w role agent_key key e = cc

with_agent-role :
    (claims : Claims) (a : Option String) (role agent_key key : String)
    → with_agent claims a ≡ accepted role agent_key key
    → get claims "role" ≡ some (str role)
unfolding with_agent
with_agent-role claims none role agent_key key e = cc
with_agent-role claims (some a) role agent_key key e =
    accept-role (get claims "role") (some a) (workload_key_of (get claims "service") a) role
      agent_key key e

bind_claims-IsBound :
    (claims : Claims) (peer_ip : Option String) (role agent_key key : String)
    → bind_claims claims peer_ip ≡ accepted role agent_key key
    → IsBound claims peer_ip role
unfolding bind_claims
bind_claims-IsBound claims peer_ip role agent_key key e =
    elim (Bool-cases (is_bound (get claims "attested_ip") peer_ip)) [
      | inl b ↦
          let (peer, c, a) = is_bound-peer (get claims "attested_ip") peer_ip b in
          record {
            peer = peer;
            connected = c;
            attested = a;
            role_claim =
                with_agent-role claims
                  (agent_key_of (get claims "container_id") (peer_or_unknown peer_ip)) role
                  agent_key key (rw b at e);
          }
      | inr b ↦ cc (rw b at e)
    ]

from_verified-valid :
    (v : Verified) (peer_ip : Option String) (role agent_key key : String)
    → from_verified v peer_ip ≡ accepted role agent_key key
    → (claims : Claims) × (v ≡ valid claims) × IsBound claims peer_ip role
unfolding from_verified
from_verified-valid (valid claims) peer_ip role agent_key key e =
    (claims, refl, bind_claims-IsBound claims peer_ip role agent_key key e)
from_verified-valid malformed peer_ip role agent_key key e = cc
from_verified-valid bad_signature peer_ip role agent_key key e = cc
from_verified-valid expired peer_ip role agent_key key e = cc
from_verified-valid crashed peer_ip role agent_key key e = cc

-- An identity is accepted only for a token that is presented and verifies at that time, with claims
-- whose address is that of the connection and whose role is the one accepted.
pub verify_identity-IsBound :
    (verify : List ℕ → ℕ → Verified) (token : Option (List ℕ)) (peer_ip : Option String)
    (has_key : Bool) (now : ℕ) (role agent_key key : String)
    → verify_identity verify token peer_ip has_key now ≡ accepted role agent_key key
    → (t : List ℕ) × (token ≡ some t)
      × ((claims : Claims) × (verify t now ≡ valid claims) × IsBound claims peer_ip role)
unfolding verify_identity
verify_identity-IsBound verify none peer_ip has_key now role agent_key key e = cc
verify_identity-IsBound verify (some []) peer_ip has_key now role agent_key key e = cc
verify_identity-IsBound verify (some (c ∷ t)) peer_ip false now role agent_key key e = cc
verify_identity-IsBound verify (some (c ∷ t)) peer_ip true now role agent_key key e =
    (c ∷ t, refl, from_verified-valid (verify (c ∷ t) now) peer_ip role agent_key key e)
