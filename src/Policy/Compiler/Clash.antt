-- ===== src/Policy/Compiler/Clash.antt =====
-- policy/compiler.py: the test of two rules in `_overlap_errors`, as a relation.
use ai_agent_security_firewa.Prelude.{
  String, ◌≡◌, ◌≢◌, ◌↔◌, refl, true, Option, none, some, List, [], ◌∷◌, ◌++◌, In, any, In-any,
  any-In, eq_iff, arith,
}
use ai_agent_security_firewa.Prelude.Order.{eqb_ℤ}
use ai_agent_security_firewa.Prelude.Dict.{contains, contains-In}
use ai_agent_security_firewa.Policy.Decision.{is_decision-eq}
use ai_agent_security_firewa.Policy.Rules.{Rule}
use ai_agent_security_firewa.Policy.Compiler.{CompileError, list_eq, option_eq, conflict}

pub append-nil_iff : (xs ys : List CompileError) → (xs ++ ys ≡ []) ↔ ((xs ≡ []) × (ys ≡ []))
append-nil_iff [] ys = ((λ h. (refl, h)), λ h. h.1)
append-nil_iff (x ∷ xs) ys = ((λ h. cc), λ h. cc)

-- Two rules of one role whose verdicts clash: same priority and targets, a tool in common, and
-- different effects.
pub record Clashes (r s : Rule) : Type 0 where
  pub role : r.role ≡ s.role
  pub priority : eqb_ℤ r.priority s.priority ≡ true
  pub effect : r.effect ≢ s.effect
  pub tool : (t : String) × In t r.tool × In t s.tool
  pub destination : r.destination ≡ s.destination
  pub resource : r.resource ≡ s.resource

list_eq_iff : (xs ys : List String) → (list_eq xs ys ≡ true) ↔ (xs ≡ ys)
unfolding list_eq
list_eq_iff [] [] = ground arith
list_eq_iff [] (y ∷ ys) = ground arith
list_eq_iff (x ∷ xs) [] = ground arith
list_eq_iff (x ∷ xs) (y ∷ ys) = ground (arith, list_eq_iff xs ys, eq_iff x y)

option_eq_iff : (x y : Option (List String)) → (option_eq x y ≡ true) ↔ (x ≡ y)
unfolding option_eq
option_eq_iff none none = ground arith
option_eq_iff none (some y) = ground arith
option_eq_iff (some x) none = ground arith
option_eq_iff (some x) (some y) = ground (arith, list_eq_iff x y)

shared_tool : (xs ys : List String) → any (contains ys) xs ≡ true → (t : String) × In t xs × In t ys
shared_tool xs ys h = let (t, m, c) = any-In (contains ys) xs h in (t, m, (contains-In ys t).0 c)

pub conflict-Clashes : (r s : Rule) → r.role ≡ s.role → conflict r s ≡ true → Clashes r s
unfolding conflict
conflict-Clashes r s same h = record {
  role = same;
  priority = ground arith;
  effect = ground arith;
  tool = shared_tool r.tool s.tool (ground arith);
  destination = (option_eq_iff r.destination s.destination).0 (ground arith);
  resource = (option_eq_iff r.resource s.resource).0 (ground arith);
}

pub Clashes-conflict : (r s : Rule) → Clashes r s → conflict r s ≡ true
unfolding conflict
Clashes-conflict r s c =
    let (t, m, n) = c.tool in
    ground (
      arith,
      c.priority,
      c.effect,
      is_decision-eq r.effect s.effect,
      In-any (contains s.tool) r.tool t m ((contains-In s.tool t).1 n),
      (option_eq_iff r.destination s.destination).1 c.destination,
      (option_eq_iff r.resource s.resource).1 c.resource,
    )

-- No two rules of the list clash, the earlier one with the later.
abbrev pub IsClashFree : List Rule → Type 0
IsClashFree [] = Unit
IsClashFree (r ∷ rs) = ((s : Rule) → In s rs → ¬ (Clashes r s)) × IsClashFree rs
