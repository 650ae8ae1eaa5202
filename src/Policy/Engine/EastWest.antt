-- ===== src/Policy/Engine/EastWest.antt =====
-- policy/engine.py, `evaluate_east_west`: which calls from one workload to another are allowed.
use ai_agent_security_firewa.Prelude.{
  ◌≡◌, ◌↔◌, ◌⊎◌, inl, refl, subst, true, List, [], ◌∷◌, In, select, In-select, select-In, eq_iff,
  arith,
}
use ai_agent_security_firewa.Policy.Decision.{Decision, deny, allow, is_decision, is_decision-eq}
use ai_agent_security_firewa.Policy.Rules.{EastWestRule, Bundle}
use ai_agent_security_firewa.Policy.Engine.{
  EastWestCall, applies_east_west, ew_with_effect, evaluate_east_west, resolve_east_west,
  east_west_result,
}

-- The rule names the call's action, and its source and destination or a wildcard.
pub record Covers (r : EastWestRule) (c : EastWestCall) : Type 0 where
  pub action : r.action ≡ c.action
  pub source : (r.source_workload ≡ "*") ⊎ (r.source_workload ≡ c.source_workload)
  pub dest : (r.dest_workload ≡ "*") ⊎ (r.dest_workload ≡ c.dest_workload)

applies-Covers : (c : EastWestCall) (r : EastWestRule) → applies_east_west c r ≡ true → Covers r c
unfolding applies_east_west
applies-Covers c r h = ground (
  arith,
  eq_iff r.action c.action,
  eq_iff r.source_workload "*",
  eq_iff r.source_workload c.source_workload,
  eq_iff r.dest_workload "*",
  eq_iff r.dest_workload c.dest_workload,
)

Covers-applies : (c : EastWestCall) (r : EastWestRule) → Covers r c → applies_east_west c r ≡ true
unfolding applies_east_west
Covers-applies c r h = ground (
  arith,
  eq_iff r.action c.action,
  eq_iff r.source_workload "*",
  eq_iff r.source_workload c.source_workload,
  eq_iff r.dest_workload "*",
  eq_iff r.dest_workload c.dest_workload,
)

module _ (c : EastWestCall) (b : Bundle) where
  -- A rule of the bundle that covers the call and has the effect.
  abbrev pub Grants : Decision → EastWestRule → Type 0
  Grants d r = In r b.east_west_rules × Covers r c × (r.effect ≡ d)

  ew_with_effect-Grants :
      (d : Decision) (r : EastWestRule) → In r (ew_with_effect d c b) → Grants d r
  ew_with_effect-Grants d r m =
      let (m', e) =
        In-select (λ s. is_decision s.effect d) (select (applies_east_west c) b.east_west_rules) r
          m in
      let (k, a) = In-select (applies_east_west c) b.east_west_rules r m' in
      (k, applies-Covers c r a, is_decision-eq r.effect d e)

  Grants-ew_with_effect :
      (d : Decision) (r : EastWestRule) → Grants d r → In r (ew_with_effect d c b)
  Grants-ew_with_effect d r (m, a, e) =
      select-In (λ s. is_decision s.effect d) (select (applies_east_west c) b.east_west_rules) r
        (select-In (applies_east_west c) b.east_west_rules r m (Covers-applies c r a))
        (rw e (same d))
    where
      same : (x : Decision) → is_decision x x ≡ true
      same x = ground arith

  resolve-allow :
      (denies allows : List EastWestRule)
      → ((resolve_east_west denies allows).decision ≡ allow)
        ↔ ((denies ≡ []) × ((r : EastWestRule) × In r allows))
  unfolding resolve_east_west east_west_result
  resolve-allow (d ∷ ds) allows = ((λ h. cc), λ (e, _). cc)
  resolve-allow [] [] = ((λ h. cc), λ (e, r). absurd r.1)
  resolve-allow [] (r ∷ rs) = ((λ h. (refl, (r, inl refl))), λ _. refl)

  empty_iff : (d : Decision) → (ew_with_effect d c b ≡ []) ↔ ((r : EastWestRule) → ¬ (Grants d r))
  empty_iff d = (
    (λ e r g. absurd (subst (In r) e (Grants-ew_with_effect d r g))),
    λ h. none_in (ew_with_effect d c b) (λ r m. h r (ew_with_effect-Grants d r m)),
  )
    where
      none_in : (rs : List EastWestRule) → ((r : EastWestRule) → ¬ (In r rs)) → rs ≡ []
      none_in [] h = refl
      none_in (r ∷ rs) h = absurd (h r (inl refl))

  -- A call between workloads is allowed exactly when some ALLOW rule covers it and no DENY rule does.
  pub evaluate_east_west-allow_iff :
      ((evaluate_east_west b c).decision ≡ allow)
      ↔ (((r : EastWestRule) → ¬ (Grants deny r)) × ((r : EastWestRule) × Grants allow r))
  unfolding evaluate_east_west
  evaluate_east_west-allow_iff =
      let (to, from) = resolve-allow (ew_with_effect deny c b) (ew_with_effect allow c b) in
      (
        (λ h.
            let (e, found) = to h in
            let (r, m) = found in ((empty_iff deny).0 e, (r, ew_with_effect-Grants allow r m))),
        λ (u, found).
            let (r, g) = found in from ((empty_iff deny).1 u, (r, Grants-ew_with_effect allow r g)),
      )
