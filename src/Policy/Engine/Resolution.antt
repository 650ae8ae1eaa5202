-- ===== src/Policy/Engine/Resolution.antt =====
-- policy/engine.py, `evaluate`, against a specification of the resolution order that names no list
-- and no search: what the verdict is in terms of the rules that match.
use ai_agent_security_firewa.Prelude.{
  String, ◌≡◌, ◌↔◌, ◌⊎◌, inl, inr, refl, ap, sym, subst, ◌∙◌, false, Option, none, some, List, [],
  ◌∷◌, In, eq_iff, arith,
}
use ai_agent_security_firewa.Prelude.Order.{key_lt_total}
use ai_agent_security_firewa.Policy.Decision.{Decision, deny, allow}
use ai_agent_security_firewa.Policy.Rules.{Rule, Bundle, EvalResult}
use ai_agent_security_firewa.Policy.Engine.{
  Request, pick_winner, with_effect, evaluate, resolve, ceiling, denied_by,
}
use ai_agent_security_firewa.Policy.Engine.Order.{
  IsUnmatched, Wins, Wins-pick_winner, IsUnmatched-nil,
}

abbrev pub verdict : Decision → Rule → String → EvalResult
verdict d w reason = record {
  decision = d;
  policy_id = w.id;
  reason = reason;
  max_data_class = w.max_data_class;
  inspect = w.inspect;
}

abbrev pub default_deny : EvalResult
default_deny = record {
  decision = deny;
  policy_id = "DEFAULT_DENY";
  reason = "no_matching_rule";
  max_data_class = none;
  inspect = false;
}

-- The calls that the taint ceiling stops: a write, or data of a high class, in a tainted session.
abbrev pub IsCapped : Request → Rule → Type 0
IsCapped q w =
    (q.session_taint ≡ "tainted")
    × ((q.tool ≡ "http.post")
        ⊎ (q.tool ≡ "email.send")
        ⊎ (w.max_data_class ≡ some "confidential")
        ⊎ (w.max_data_class ≡ some "secret"))

-- The resolution order: explicit DENY, then explicit ALLOW under the ceiling, then implicit DENY.
pub data Resolves (b : Bundle) (q : Request) (x : EvalResult) : Type 0 where
  explicit_deny :
      (w : Rule) → Wins deny q b w → x ≡ verdict deny w "matched_explicit_deny" → Resolves b q x
  capped :
      (w : Rule)
      → IsUnmatched deny q b
      → Wins allow q b w
      → IsCapped q w
      → x ≡ verdict deny w "taint_ceiling"
      → Resolves b q x
  explicit_allow :
      (w : Rule)
      → IsUnmatched deny q b
      → Wins allow q b w
      → ¬ (IsCapped q w)
      → x ≡ verdict allow w "matched_explicit_allow"
      → Resolves b q x
  implicit_deny : IsUnmatched deny q b → IsUnmatched allow q b → x ≡ default_deny → Resolves b q x

ceiling_cases :
    (q : Request) (w : Rule)
    → (IsCapped q w × (ceiling q w ≡ verdict deny w "taint_ceiling"))
      ⊎ ((¬ (IsCapped q w)) × (ceiling q w ≡ verdict allow w "matched_explicit_allow"))
unfolding ceiling
ceiling_cases q w = split w.max_data_class refl
  where
    split :
        (c : Option String)
        → w.max_data_class ≡ c
        → (IsCapped q w × (ceiling q w ≡ verdict deny w "taint_ceiling"))
          ⊎ ((¬ (IsCapped q w)) × (ceiling q w ≡ verdict allow w "matched_explicit_allow"))
    split none e = ground (
      arith,
      eq_iff q.session_taint "tainted",
      eq_iff "http.post" q.tool,
      eq_iff "email.send" q.tool,
    )
    split (some c) e = ground (
      arith,
      eq_iff q.session_taint "tainted",
      eq_iff "http.post" q.tool,
      eq_iff "email.send" q.tool,
      eq_iff "confidential" c,
      eq_iff "secret" c,
    )

module _ (b : Bundle) (q : Request) where
  resolve-Resolves :
      (denies allows : List Rule)
      → with_effect deny q b ≡ denies
      → with_effect allow q b ≡ allows
      → Resolves b q (resolve q denies allows)
  unfolding resolve denied_by
  resolve-Resolves (r ∷ rs) allows e f =
      explicit_deny (pick_winner r rs) (Wins-pick_winner deny q b r rs e) refl
  resolve-Resolves [] [] e f =
      implicit_deny (IsUnmatched-nil deny q b e) (IsUnmatched-nil allow q b f) refl
  resolve-Resolves [] (r ∷ rs) e f =
      let none_denies = IsUnmatched-nil deny q b e in
      let wins = Wins-pick_winner allow q b r rs f in
      elim (ceiling_cases q (pick_winner r rs)) [
        | inl (c, k) ↦ capped (pick_winner r rs) none_denies wins c k
        | inr (c, k) ↦ explicit_allow (pick_winner r rs) none_denies wins c k
      ]

  -- The evaluator's verdict is one that the resolution order gives, whatever the bundle and the
  -- request: an explicit DENY that no other matching DENY outranks; or, where none matches, the
  -- ALLOW that no other matching ALLOW outranks, unless the taint ceiling stops it; or the default.
  pub evaluate-Resolves : Resolves b q (evaluate b q)
  unfolding evaluate
  evaluate-Resolves = resolve-Resolves (with_effect deny q b) (with_effect allow q b) refl refl

-- Rule ids are unique in the bundle.
abbrev pub HasUniqueIds : Bundle → Type 0
HasUniqueIds b = (r s : Rule) → In r b.rules → In s b.rules → r.id ≡ s.id → r ≡ s

-- Two bundles hold the same rules, in any order and as often as they like.
abbrev pub HasSameRules : Bundle → Bundle → Type 0
HasSameRules b c = (r : Rule) → (In r b.rules) ↔ (In r c.rules)

module _ (q : Request) (b c : Bundle) (same : HasSameRules b c) where
  Wins-same : (d : Decision) (w : Rule) → Wins d q b w → Wins d q c w
  Wins-same d w h =
      let (m, a, e) = h.candidate in
      record {
        candidate = ((same w).0 m, a, e);
        unbeaten = λ r (m', a', e'). h.unbeaten r ((same r).1 m', a', e');
      }

  IsUnmatched-same : (d : Decision) → IsUnmatched d q b → IsUnmatched d q c
  IsUnmatched-same d h r m = h r ((same r).1 m)

  Resolves-same : (x : EvalResult) → Resolves b q x → Resolves c q x
  Resolves-same x (explicit_deny w h e) = explicit_deny w (Wins-same deny w h) e
  Resolves-same x (capped w u h k e) = capped w (IsUnmatched-same deny u) (Wins-same allow w h) k e
  Resolves-same x (explicit_allow w u h k e) =
      explicit_allow w (IsUnmatched-same deny u) (Wins-same allow w h) k e
  Resolves-same x (implicit_deny u v e) =
      implicit_deny (IsUnmatched-same deny u) (IsUnmatched-same allow v) e

module _ (b : Bundle) (q : Request) (unique : HasUniqueIds b) where
  Wins-unique : (d : Decision) (v w : Rule) → Wins d q b v → Wins d q b w → v ≡ w
  Wins-unique d v w h k = unique v w h.candidate.0 k.candidate.0 (
      key_lt_total v.priority v.id w.priority w.id (k.unbeaten v h.candidate)
        (h.unbeaten w k.candidate))

  unmatched : (d : Decision) (w : Rule) → IsUnmatched d q b → Wins d q b w → ⊥
  unmatched d w u h = let (m, a, e) = h.candidate in u w m a e

  -- With unique ids the resolution order gives at most one verdict.
  pub Resolves-unique : (x y : EvalResult) → Resolves b q x → Resolves b q y → x ≡ y
  Resolves-unique x y (explicit_deny v h e) (explicit_deny w k f) = cc (Wins-unique deny v w h k)
  Resolves-unique x y (explicit_deny v h e) (capped w u k c f) = absurd (unmatched deny v u h)
  Resolves-unique x y (explicit_deny v h e) (explicit_allow w u k c f) =
      absurd (unmatched deny v u h)
  Resolves-unique x y (explicit_deny v h e) (implicit_deny u k f) = absurd (unmatched deny v u h)
  Resolves-unique x y (capped v u h c e) (explicit_deny w k f) = absurd (unmatched deny w u k)
  Resolves-unique x y (capped v u h c e) (capped w u' k c' f) = cc (Wins-unique allow v w h k)
  Resolves-unique x y (capped v u h c e) (explicit_allow w u' k c' f) =
      absurd (c' (subst (IsCapped q) (Wins-unique allow v w h k) c))
  Resolves-unique x y (capped v u h c e) (implicit_deny u' v' f) = absurd (unmatched allow v v' h)
  Resolves-unique x y (explicit_allow v u h c e) (explicit_deny w k f) =
      absurd (unmatched deny w u k)
  Resolves-unique x y (explicit_allow v u h c e) (capped w u' k c' f) =
      absurd (c (subst (IsCapped q) (Wins-unique allow w v k h) c'))
  Resolves-unique x y (explicit_allow v u h c e) (explicit_allow w u' k c' f) =
      cc (Wins-unique allow v w h k)
  Resolves-unique x y (explicit_allow v u h c e) (implicit_deny u' v' f) =
      absurd (unmatched allow v v' h)
  Resolves-unique x y (implicit_deny u v e) (explicit_deny w k f) = absurd (unmatched deny w u k)
  Resolves-unique x y (implicit_deny u v e) (capped w u' k c f) = absurd (unmatched allow w v k)
  Resolves-unique x y (implicit_deny u v e) (explicit_allow w u' k c f) =
      absurd (unmatched allow w v k)
  Resolves-unique x y (implicit_deny u v e) (implicit_deny u' v' f) = e ∙ sym f

-- Where ids are unique, the verdict does not depend on the order in which the bundle lists its
-- rules: two bundles with the same rules give the same verdict on every request.
pub evaluate_order_independent :
    (b c : Bundle) (q : Request) → HasUniqueIds c → HasSameRules b c → evaluate b q ≡ evaluate c q
evaluate_order_independent b c q unique same =
    Resolves-unique c q unique (evaluate b q) (evaluate c q)
      (Resolves-same q b c same (evaluate b q) (evaluate-Resolves b q)) (evaluate-Resolves c q)

-- In a tainted session no bundle lets a write through: the verdict on http.post and email.send is
-- DENY.
pub evaluate-tainted_write :
    (b : Bundle) (q : Request)
    → q.session_taint ≡ "tainted"
    → (q.tool ≡ "http.post") ⊎ (q.tool ≡ "email.send")
    → (evaluate b q).decision ≡ deny
evaluate-tainted_write b q t w = split (evaluate-Resolves b q)
  where
    split : Resolves b q (evaluate b q) → (evaluate b q).decision ≡ deny
    split (explicit_deny v h e) = ap (λ (x : EvalResult). x.decision) e
    split (capped v u h c e) = ap (λ (x : EvalResult). x.decision) e
    split (explicit_allow v u h c e) =
        absurd (c (t, elim w [ inl p ↦ inl p | inr p ↦ inr (inl p) ]))
    split (implicit_deny u v e) = ap (λ (x : EvalResult). x.decision) e
