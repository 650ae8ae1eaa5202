-- ===== src/Identity/Store/Pins.antt =====
-- identity/store.py: trust on first use. The first digest stays until it is cleared.
use mathlib.Core.Option.{some-injective}
use ai_agent_security_firewa.Prelude.{
  String, ◌≡◌, refl, ap, sym, ◌∙◌, Bool, true, false, Option, none, some, ◌==◌, eq_iff, eq_refl,
  arith, if◌then◌else◌,
}
use ai_agent_security_firewa.Prelude.Dict.{get, has_key, get-put, get-remove, insert_or_ignore}
use ai_agent_security_firewa.Identity.Store.{Pins, read_digest, get_or_set, clear}

-- The digest that a service is pinned to.
abbrev pub digest_of : Option (String × String) → Option String
digest_of none = none
digest_of (some row) = some row.0

abbrev pub pinned : Pins → String → Option String
pinned pins service = digest_of (get pins service)

-- The pin that a call leaves: the old one if there is one, else the digest that it brings.
abbrev pub pin_or : Option String → String → String
pin_or none digest = digest
pin_or (some old) digest = old

inserted :
    (pins : Pins) (service digest at other : String)
    → digest_of (get (insert_or_ignore pins service (digest, at)) other)
      ≡ (if service == other then some (pin_or (pinned pins other) digest) else pinned pins other)
inserted pins service digest at other = ground (
  arith,
  get-put pins service other (digest, at),
  eq_iff service other,
  λ (e : service ≡ other). ap (get pins) e,
)

-- Without a fault a service always has a pin after the call, which the call returns: the pin that it
-- had, or the digest that the call brings. No other service's pin changes.
pub get_or_set-pinned :
    (service digest at : String) (pins : Pins)
    → (after : Pins) × (get_or_set service digest at pins false
        ≡ some (after, pin_or (pinned pins service) digest))
      × ((other : String)
          → pinned after other ≡ (
              if service == other
              then some (pin_or (pinned pins other) digest)
              else pinned pins other))
unfolding get_or_set
get_or_set-pinned service digest at pins =
    let after = insert_or_ignore pins service (digest, at) in
    (after, read (get after service) refl, inserted pins service digest at)
  where
    here :
        digest_of (get (insert_or_ignore pins service (digest, at)) service)
        ≡ some (pin_or (pinned pins service) digest)
    here = inserted pins service digest at service ∙ rw (eq_refl service)

    read :
        (row : Option (String × String))
        → get (insert_or_ignore pins service (digest, at)) service ≡ row
        → read_digest (insert_or_ignore pins service (digest, at)) row
          ≡ some (insert_or_ignore pins service (digest, at), pin_or (pinned pins service) digest)
    read none e = cc (here, ap digest_of e)
    read (some row) e =
        ap (λ (d : String). some (insert_or_ignore pins service (digest, at), d))
          (some-injective _ _ (sym (ap digest_of e) ∙ here))

-- Clearing a pin answers whether there was one, removes it, and leaves every other service's pin.
pub clear-pinned :
    (service other : String) (pins : Pins)
    → ((clear service pins).1 ≡ has_key pins service)
      × (pinned (clear service pins).0 other
          ≡ (if service == other then none else pinned pins other))
unfolding clear
clear-pinned service other pins = (refl, ground (arith, get-remove pins service other))

get_or_set-fault :
    (service digest at : String) (pins : Pins) → get_or_set service digest at pins true ≡ none
unfolding get_or_set
get_or_set-fault service digest at pins = refl

-- What a call that does not raise has done.
pub get_or_set-some :
    (service digest at : String) (pins after : Pins) (fault : Bool) (d : String)
    → get_or_set service digest at pins fault ≡ some (after, d)
    → (d ≡ pin_or (pinned pins service) digest)
      × ((other : String)
          → pinned after other ≡ (
              if service == other
              then some (pin_or (pinned pins other) digest)
              else pinned pins other))
get_or_set-some service digest at pins after true d e = absurd (raises e)
  where
    raises : get_or_set service digest at pins true ≡ some (after, d) → ⊥
    raises q = cc (get_or_set-fault service digest at pins)
get_or_set-some service digest at pins after false d e =
    let (after', got, all) = get_or_set-pinned service digest at pins in
    let same = some-injective _ _ (sym got ∙ e) in
    let tables : after' ≡ after = ap (λ (p : Pins × String). p.0) same in
    (
      sym (ap (λ (p : Pins × String). p.1) same),
      λ other. ap (λ (t : Pins). pinned t other) (sym tables) ∙ all other,
    )
