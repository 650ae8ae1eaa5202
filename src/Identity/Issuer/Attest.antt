-- ===== src/Identity/Issuer/Attest.antt =====
-- identity/issuer.py: which attestations succeed, and what a success says of the container.
use ai_agent_security_firewa.Prelude.{
  String, ◌≡◌, ◌≢◌, inl, inr, refl, ap, sym, ◌∙◌, Bool, true, Option, none, some, List, [], ◌∷◌, In,
  ◌==◌, eq_iff, eq_refl, arith, Bool-cases,
}
use mathlib.Core.Option.{some-injective}
use ai_agent_security_firewa.Prelude.Dict.{get}
use ai_agent_security_firewa.Prelude.Text.{or_text}
use ai_agent_security_firewa.Identity.Tokens.{Claims}
use ai_agent_security_firewa.Identity.Store.{Pins, get_or_set}
use ai_agent_security_firewa.Identity.Store.Pins.{pinned, pin_or, get_or_set-some}
use ai_agent_security_firewa.Identity.Issuer.{
  RegisteredAgent, ExpectedDigests, agent_registry, Container, ContainerInfo, info_of, owns,
  lookup_caller_container, token, claims_of, check_pin, check_registered, check_container,
  check_docker, attest,
}

-- A container of the list, the first that has the address.
pub record IsCaller (ip : String) (cs : List Container) (info : ContainerInfo) : Type 0 where
  pub container : Container
  pub present : In container cs
  pub address : owns ip container ≡ true
  pub info_is : info ≡ info_of container

-- What a token that is handed out vouches for.
pub record IsAttested (env : ExpectedDigests) (ip : String) (cs : List Container)
    (pins after : Pins) (claims : Claims) : Type 0 where
  pub info : ContainerInfo
  pub caller : IsCaller ip cs info
  pub registered : RegisteredAgent
  pub in_registry : get (agent_registry env) info.service ≡ some registered
  pub claims_are : claims ≡ claims_of registered.role info ip
  -- the image is the one that the service is pinned to, by an earlier attestation or by this one
  pub image :
      info.image_digest
      ≡ pin_or (pinned pins info.service) (or_text registered.image_digest info.image_digest)
  pub pin : pinned after info.service ≡ some info.image_digest
  pub others : (other : String) → info.service ≢ other → pinned after other ≡ pinned pins other

lookup-IsCaller :
    (ip : String) (cs : List Container) (info : ContainerInfo)
    → lookup_caller_container ip cs ≡ some info
    → IsCaller ip cs info
unfolding lookup_caller_container
lookup-IsCaller ip [] info e = cc
lookup-IsCaller ip (c ∷ cs) info e = elim (Bool-cases (owns ip c)) [
  | inl o ↦ record {
    container = c;
    present = inl refl;
    address = o;
    info_is = sym (some-injective _ _ (rw o at e));
  }
  | inr o ↦
      let k = lookup-IsCaller ip cs info (rw o at e) in
      record {
        container = k.container;
        present = inr k.present;
        address = k.address;
        info_is = k.info_is;
      }
]

check_pin-token :
    (ip : String) (info : ContainerInfo) (role : String) (pins : Pins) (o : Option (Pins × String))
    (claims : Claims)
    → (check_pin ip info role pins o).reply ≡ token claims
    → (after : Pins) × (o ≡ some (after, info.image_digest))
      × (claims ≡ claims_of role info ip)
      × ((check_pin ip info role pins o).pins ≡ after)
unfolding check_pin
check_pin-token ip info role pins none claims e = cc
check_pin-token ip info role pins (some (after, d)) claims e =
    elim (Bool-cases (info.image_digest == d)) [
      | inl q ↦
          let same = (eq_iff info.image_digest d).0 q in
          rw q (after, ap (λ (x : String). some (after, x)) (sym same), cc (rw q at e), refl)
      | inr q ↦ cc (rw q at e)
    ]

module _ (env : ExpectedDigests) (ip : String) (pins : Pins) where
  check_container-token :
      (cs : List Container) (info : ContainerInfo) (now : String) (fault : Bool) (claims : Claims)
      → IsCaller ip cs info
      → (found : Option RegisteredAgent) → get (agent_registry env) info.service ≡ found
      → (check_registered ip info found now fault pins).reply ≡ token claims
      → IsAttested env ip cs pins (check_registered ip info found now fault pins).pins claims
  unfolding check_registered
  check_container-token cs info now fault claims caller none q e = cc
  check_container-token cs info now fault claims caller (some r) q e =
      let seed = or_text r.image_digest info.image_digest in
      let answer = get_or_set info.service seed now pins fault in
      let (after, got, c, p) = check_pin-token ip info r.role pins answer claims e in
      let (image, all) =
        get_or_set-some info.service seed now pins after fault info.image_digest got in
      record {
        info = info;
        caller = caller;
        registered = r;
        in_registry = q;
        claims_are = c;
        image = image;
        pin =
            ap (λ (t : Pins). pinned t info.service) p
            ∙ all info.service
            ∙ ground (arith, eq_refl info.service);
        others = λ other ne.
            ap (λ (t : Pins). pinned t other) p
            ∙ all other
            ∙ ground (arith, eq_iff info.service other);
      }

  lookup-token :
      (cs : List Container) (now : String) (fault : Bool) (claims : Claims)
      (found : Option ContainerInfo)
      → lookup_caller_container ip cs ≡ found
      → (check_container env ip found now fault pins).reply ≡ token claims
      → IsAttested env ip cs pins (check_container env ip found now fault pins).pins claims
  unfolding check_container
  lookup-token cs now fault claims none q e = cc
  lookup-token cs now fault claims (some info) q e =
      check_container-token cs info now fault claims (lookup-IsCaller ip cs info q)
        (get (agent_registry env) info.service) refl e

  -- A token is handed out only to a container that Docker reports at the caller's address, whose
  -- service is registered and whose image is the one that the service is pinned to. Its claims are the
  -- registry's role and the container's own facts, and afterwards the service is pinned to that image
  -- and no other service's pin has changed.
  pub attest-IsAttested :
      (cs : List Container) (now : String) (fault : Bool) (claims : Claims)
      → (attest env (some ip) (some cs) now fault pins).reply ≡ token claims
      → IsAttested env ip cs pins (attest env (some ip) (some cs) now fault pins).pins claims
  unfolding attest check_docker
  attest-IsAttested cs now fault claims e = elim (Bool-cases (ip == "")) [
    | inl q ↦ cc (rw q at e)
    | inr q ↦
        rw q (lookup-token cs now fault claims (lookup_caller_container ip cs) refl (rw q at e))
  ]
