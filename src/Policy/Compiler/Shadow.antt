-- ===== src/Policy/Compiler/Shadow.antt =====
-- policy/compiler.py, `_find_shadowed`: what a warning says of the evaluator. A shadower with a
-- session_taint condition of its own does not match in every session, so the statement asks that it
-- has none; the code does not look at that field.
use ai_agent_security_firewa.Prelude.{
  ℕ, suc, String, ◌≡◌, ◌≢◌, ◌⊎◌, inl, inr, refl, ap, sym, subst, ◌∙◌, true, none, List, [], ◌∷◌, In,
  all, In-append, not, ◌&&◌, nat_eq, Bool-cases, eq_iff, arith,
}
use ai_agent_security_firewa.Prelude.Dict.{contains}
use ai_agent_security_firewa.Policy.Decision.{Decision, deny, allow, is_decision-eq}
use ai_agent_security_firewa.Policy.Rules.{Rule, Bundle, EvalResult}
use ai_agent_security_firewa.Policy.Engine.{Request, applies, outranks, evaluate}
use ai_agent_security_firewa.Policy.Engine.Order.{Candidate, Wins, IsUnmatched}
use ai_agent_security_firewa.Policy.Engine.Resolution.{
  Resolves, explicit_deny, capped, explicit_allow, implicit_deny, evaluate-Resolves, HasUniqueIds,
}
use ai_agent_security_firewa.Policy.Compiler.{
  CompileWarning, shadows, find_shadower, warnings_from, find_shadowed,
}

-- A warning names a rule and another rule that shadows it.
record IsFounded (rules : List Rule) (w : CompileWarning) : Type 0 where
  rule : Rule
  other : Rule
  rule_in : In rule rules
  other_in : In other rules
  shadowed : w.shadowed ≡ rule.id
  shadower : w.shadower ≡ other.id
  shadowing : shadows other rule ≡ true

find_shadower_sound :
    (i : ℕ) (r : Rule) (j : ℕ) (rest : List Rule) (w : CompileWarning)
    → In w (find_shadower i r j rest)
    → (other : Rule) × In other rest
      × (shadows other r ≡ true)
      × (w.shadowed ≡ r.id)
      × (w.shadower ≡ other.id)
unfolding find_shadower
find_shadower_sound i r j [] w m = absurd m
find_shadower_sound i r j (other ∷ rest) w m =
    elim (Bool-cases (not (nat_eq i j) && shadows other r)) [
      | inl e ↦ elim (rw e at m) [
        | inl q ↦ (
          other,
          inl refl,
          ground arith,
          ap (λ (x : CompileWarning). x.shadowed) q,
          ap (λ (x : CompileWarning). x.shadower) q,
        )
        | inr n ↦ absurd n
      ]
      | inr e ↦
          let (s, k, h, p, q) = find_shadower_sound i r (suc j) rest w (rw e at m) in
          (s, inr k, h, p, q)
    ]

warnings_from-IsFounded :
    (i : ℕ) (rs rules : List Rule) (w : CompileWarning)
    → ((r : Rule) → In r rs → In r rules)
    → In w (warnings_from i rs rules)
    → IsFounded rules w
unfolding warnings_from
warnings_from-IsFounded i [] rules w sub m = absurd m
warnings_from-IsFounded i (r ∷ rs) rules w sub m =
    elim (In-append (find_shadower i r 0 rules) (warnings_from (suc i) rs rules) w m) [
      | inl k ↦
          let (s, n, h, p, q) = find_shadower_sound i r 0 rules w k in
          record {
            rule = r;
            other = s;
            rule_in = sub r (inl refl);
            other_in = n;
            shadowed = p;
            shadower = q;
            shadowing = h;
          }
      | inr k ↦ warnings_from-IsFounded (suc i) rs rules w (λ t n. sub t (inr n)) k
    ]

all-contains :
    (ts us : List String) (t : String)
    → all (contains us) ts ≡ true
    → contains ts t ≡ true
    → contains us t ≡ true
all-contains [] us t h c = cc
all-contains (x ∷ ts) us t h c =
    ground (arith, all-contains ts us t, eq_iff x t, λ (e : x ≡ t). ap (contains us) e)

shadows-applies :
    (q : Request) (r s : Rule)
    → shadows s r ≡ true
    → s.session_taint ≡ none
    → applies q r ≡ true
    → applies q s ≡ true
unfolding shadows applies
shadows-applies q r s h t a = ground (
  arith,
  all-contains r.tool s.tool q.tool,
  eq_iff s.role r.role,
  eq_iff r.role q.role,
  eq_iff s.role q.role,
)

-- Which rule wins where a shadower matches too.
shadows-cases :
    (r s : Rule)
    → shadows s r ≡ true
    → ((s.effect ≡ deny) × (r.effect ≡ allow)) ⊎ ((s.effect ≡ r.effect) × (outranks s r ≡ true))
unfolding shadows
shadows-cases r s h = ground (
  arith,
  is_decision-eq s.effect r.effect,
  is_decision-eq s.effect deny,
  is_decision-eq r.effect allow,
)

-- `_parse_rule` lets no other effect in.
abbrev pub HasParsedEffects : Bundle → Type 0
HasParsedEffects b = (r : Rule) → In r b.rules → (r.effect ≡ allow) ⊎ (r.effect ≡ deny)

module _ (b : Bundle) (q : Request) (unique : HasUniqueIds b) (parsed : HasParsedEffects b) where
  -- The rule is not the one that decides, where `other` shadows it and matches in every session.
  overruled :
      (r other : Rule)
      → In r b.rules
      → In other b.rules
      → shadows other r ≡ true
      → other.session_taint ≡ none
      → applies q r ≡ true
      → (evaluate b q).policy_id ≢ r.id
  overruled r other m n h t a e = split (evaluate-Resolves b q)
    where
      matched : (d : Decision) → other.effect ≡ d → Candidate d q b other
      matched d k = (n, shadows-applies q r other h t a, k)

      at_r : (d : Decision) (v : Rule) → Wins d q b v → v.id ≡ r.id → Wins d q b r
      at_r d v k p = subst (Wins d q b) (unique v r k.candidate.0 m p) k

      not_r : (d : Decision) → Wins d q b r → (d ≡ deny) ⊎ (IsUnmatched deny q b) → ⊥
      not_r d k c =
          let (_, _, eff) = k.candidate in
          elim (shadows-cases r other h) [
            | inl (x, y) ↦ elim c [
              | inl z ↦ cc (eff, y, z)
              | inr u ↦ u other n (shadows-applies q r other h t a) x
            ]
            | inr (x, y) ↦ cc (y, k.unbeaten other (matched d (x ∙ eff)))
          ]

      split : Resolves b q (evaluate b q) → ⊥
      split (explicit_deny v k x) =
          not_r deny (at_r deny v k (sym (ap (λ (z : EvalResult). z.policy_id) x) ∙ e)) (inl refl)
      split (capped v u k c x) =
          not_r allow (at_r allow v k (sym (ap (λ (z : EvalResult). z.policy_id) x) ∙ e)) (inr u)
      split (explicit_allow v u k c x) =
          not_r allow (at_r allow v k (sym (ap (λ (z : EvalResult). z.policy_id) x) ∙ e)) (inr u)
      split (implicit_deny u v x) = elim (parsed other n) [
        | inl y ↦ v other n (shadows-applies q r other h t a) y
        | inr y ↦ u other n (shadows-applies q r other h t a) y
      ]

-- In a bundle with unique ids and parsed effects, a rule that a warning calls shadowed decides no
-- request that it matches, if the shadower that the warning names has no session_taint condition.
pub find_shadowed_sound :
    (b : Bundle) (q : Request) (w : CompileWarning) (r : Rule)
    → HasUniqueIds b
    → HasParsedEffects b
    → In w (find_shadowed b.rules)
    → ((s : Rule) → In s b.rules → s.id ≡ w.shadower → s.session_taint ≡ none)
    → In r b.rules
    → r.id ≡ w.shadowed
    → applies q r ≡ true
    → (evaluate b q).policy_id ≢ r.id
unfolding find_shadowed
find_shadowed_sound b q w r unique parsed m untainted n e a =
    let f = warnings_from-IsFounded 0 b.rules b.rules w (λ s k. k) m in
    let same = unique r f.rule n f.rule_in (e ∙ f.shadowed) in
    overruled b q unique parsed r f.other n f.other_in
      (subst (λ (s : Rule). shadows f.other s ≡ true) (sym same) f.shadowing)
      (untainted f.other f.other_in (sym f.shadower)) a
