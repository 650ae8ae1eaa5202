-- ===== src/Policy/Engine/Order.antt =====
-- policy/engine.py, `_pick_winner`: the winner is a rule of the list that no rule of it outranks.
use ai_agent_security_firewa.Prelude.{
  ◌≡◌, sym, subst, true, false, List, [], ◌∷◌, select, In, All, In-select, select-In, All-In, arith,
}
use ai_agent_security_firewa.Prelude.Order.{
  key_lt_irrefl, key_lt_trans, IsStrict, min_by-In, min_by-least,
}
use ai_agent_security_firewa.Policy.Decision.{Decision, is_decision, is_decision-eq}
use ai_agent_security_firewa.Policy.Rules.{Rule, Bundle}
use ai_agent_security_firewa.Policy.Engine.{Request, applies, outranks, pick_winner, with_effect}

pub outranks-IsStrict : IsStrict outranks
outranks-IsStrict = record {
  irrefl = λ r. key_lt_irrefl r.priority r.id;
  trans = λ r s t. key_lt_trans r.priority r.id s.priority s.id t.priority t.id;
}

pub pick_winner-In : (r : Rule) (rs : List Rule) → In (pick_winner r rs) (r ∷ rs)
unfolding pick_winner
pick_winner-In r rs = min_by-In outranks r rs

pub pick_winner-least :
    (r : Rule) (rs : List Rule) → All (λ s. outranks s (pick_winner r rs) ≡ false) (r ∷ rs)
unfolding pick_winner
pick_winner-least r rs = min_by-least outranks outranks-IsStrict r rs

module _ (d : Decision) (q : Request) (b : Bundle) where
  -- A rule of the bundle that matches the request and has the effect.
  abbrev pub Candidate : Rule → Type 0
  Candidate r = In r b.rules × (applies q r ≡ true) × (r.effect ≡ d)

  pub with_effect-Candidate : (r : Rule) → In r (with_effect d q b) → Candidate r
  with_effect-Candidate r m =
      let (m', e) = In-select (λ s. is_decision s.effect d) (select (applies q) b.rules) r m in
      let (k, a) = In-select (applies q) b.rules r m' in (k, a, is_decision-eq r.effect d e)

  pub Candidate-with_effect : (r : Rule) → Candidate r → In r (with_effect d q b)
  Candidate-with_effect r (m, a, e) =
      select-In (λ s. is_decision s.effect d) (select (applies q) b.rules) r
        (select-In (applies q) b.rules r m a) (rw e (same d))
    where
      same : (c : Decision) → is_decision c c ≡ true
      same c = ground arith

  -- No rule of the bundle matches with the effect.
  abbrev pub IsUnmatched : Type 0
  IsUnmatched = (r : Rule) → In r b.rules → applies q r ≡ true → ¬ (r.effect ≡ d)

  -- The rule that decides among those with the effect.
  pub record Wins (w : Rule) : Type 0 where
    pub candidate : Candidate w
    pub unbeaten : (r : Rule) → Candidate r → outranks r w ≡ false

  pub Wins-pick_winner :
      (r : Rule) (rs : List Rule) → with_effect d q b ≡ r ∷ rs → Wins (pick_winner r rs)
  Wins-pick_winner r rs e = record {
    candidate =
        with_effect-Candidate (pick_winner r rs)
          (subst (In (pick_winner r rs)) (sym e) (pick_winner-In r rs));
    unbeaten = λ s c.
        All-In (λ t. outranks t (pick_winner r rs) ≡ false) (r ∷ rs) s (pick_winner-least r rs)
          (subst (In s) e (Candidate-with_effect s c));
  }

  pub IsUnmatched-nil : with_effect d q b ≡ [] → IsUnmatched
  IsUnmatched-nil e r m a k = absurd (subst (In r) e (Candidate-with_effect r (m, a, k)))
