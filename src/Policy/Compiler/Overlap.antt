-- ===== src/Policy/Compiler/Overlap.antt =====
-- policy/compiler.py, `_overlap_errors`: grouping the rules by role and comparing each pair of a group
-- finds every pair of rules that clash.
use mathlib.Core.List.{append-nil, append_assoc}
use ai_agent_security_firewa.Prelude.{
  String, ◌≡◌, ◌↔◌, ◌⊎◌, inl, inr, refl, ap, sym, subst, ◌∙◌, true, false, none, some, List, [],
  ◌∷◌, ◌++◌, In, select, In-select, select-In, Option-cases, Bool-cases, ◌==◌, eq_iff, eq_refl,
}
use ai_agent_security_firewa.Prelude.Dict.{
  Dict, put, get, get_default, get_default-put, get_default-some, get_default-none, HasUniqueKeys,
  put-HasUniqueKeys, In-get, get-In,
}
use ai_agent_security_firewa.Policy.Rules.{Rule}
use ai_agent_security_firewa.Policy.Compiler.{
  conflict, by_role, conflicts_with, role_conflicts, all_conflicts, overlap_errors,
}
use ai_agent_security_firewa.Policy.Compiler.Clash.{
  IsClashFree, conflict-Clashes, Clashes-conflict, append-nil_iff,
}

abbrev of_role : String → List Rule → List Rule
of_role k rs = select (λ r. r.role == k) rs

-- What the loop over the rules collects under a role.
by_role-of_role :
    (d : Dict (List Rule)) (rs : List Rule) (k : String)
    → get_default (by_role d rs) k [] ≡ get_default d k [] ++ of_role k rs
unfolding by_role
by_role-of_role d [] k = sym (append-nil _)
by_role-of_role d (r ∷ rs) k =
    by_role-of_role (put d r.role (get_default d r.role [] ++ r ∷ [])) rs k
    ∙ step (Bool-cases (r.role == k))
  where
    step :
        (r.role == k ≡ true) ⊎ (r.role == k ≡ false)
        → get_default (put d r.role (get_default d r.role [] ++ r ∷ [])) k [] ++ of_role k rs
          ≡ get_default d k [] ++ of_role k (r ∷ rs)
    step (inl e) =
        rw (get_default-put d r.role k (get_default d r.role [] ++ r ∷ []) [], e)
          (ap (λ (j : String). (get_default d j [] ++ r ∷ []) ++ of_role k rs)
              ((eq_iff r.role k).0 e)
            ∙ append_assoc (get_default d k []) (r ∷ []) (of_role k rs))
    step (inr e) = rw (get_default-put d r.role k (get_default d r.role [] ++ r ∷ []) [], e)

by_role-HasUniqueKeys :
    (d : Dict (List Rule)) (rs : List Rule) → HasUniqueKeys d → HasUniqueKeys (by_role d rs)
unfolding by_role
by_role-HasUniqueKeys d [] h = h
by_role-HasUniqueKeys d (r ∷ rs) h =
    by_role-HasUniqueKeys (put d r.role (get_default d r.role [] ++ r ∷ [])) rs
      (put-HasUniqueKeys d r.role (get_default d r.role [] ++ r ∷ []) h)

-- No rule of the list conflicts with a later one.
abbrev NoConflict : List Rule → Type 0
NoConflict [] = Unit
NoConflict (r ∷ rs) = ((s : Rule) → In s rs → conflict r s ≡ false) × NoConflict rs

conflicts_with-nil :
    (k : String) (r : Rule) (rs : List Rule)
    → (conflicts_with k r rs ≡ []) ↔ ((s : Rule) → In s rs → conflict r s ≡ false)
unfolding conflicts_with
conflicts_with-nil k r [] = ((λ h s m. absurd m), λ h. refl)
conflicts_with-nil k r (s ∷ rs) = elim (Bool-cases (conflict r s)) [
  | inl e ↦ rw e ((λ h. cc), λ h. cc (h s (inl refl), e))
  | inr e ↦
      let (to, from) = conflicts_with-nil k r rs in
      rw e
        ((λ h t m. elim m [ inl q ↦ rw q e | inr m' ↦ to h t m' ]), λ h. from (λ t m. h t (inr m)))
]

role_conflicts-nil : (k : String) (rs : List Rule) → (role_conflicts k rs ≡ []) ↔ NoConflict rs
unfolding role_conflicts
role_conflicts-nil k [] = ((λ h. tt), λ h. refl)
role_conflicts-nil k (r ∷ rs) =
    let (c_to, c_from) = conflicts_with-nil k r rs in
    let (to, from) = role_conflicts-nil k rs in
    let (a_to, a_from) = append-nil_iff (conflicts_with k r rs) (role_conflicts k rs) in
    ((λ h. (c_to (a_to h).0, to (a_to h).1)), λ h. a_from (c_from h.0, from h.1))

all_conflicts-nil :
    (d : Dict (List Rule))
    → (all_conflicts d ≡ []) ↔ ((k : String) (rs : List Rule) → In (k, rs) d → NoConflict rs)
unfolding all_conflicts
all_conflicts-nil [] = ((λ h k rs m. absurd m), λ h. refl)
all_conflicts-nil ((j, qs) ∷ d) =
    let (c_to, c_from) = role_conflicts-nil j qs in
    let (to, from) = all_conflicts-nil d in
    let (a_to, a_from) = append-nil_iff (role_conflicts j qs) (all_conflicts d) in
    (
      (λ h k rs m. elim m [
        | inl e ↦ subst NoConflict (sym (ap (λ (p : String × List Rule). p.1) e)) (c_to (a_to h).0)
        | inr m' ↦ to (a_to h).1 k rs m'
      ]),
      λ h. a_from (c_from (h j qs (inl refl)), from (λ k rs m. h k rs (inr m))),
    )

IsClashFree-NoConflict : (rs : List Rule) (k : String) → IsClashFree rs → NoConflict (of_role k rs)
IsClashFree-NoConflict [] k h = tt
IsClashFree-NoConflict (r ∷ rs) k h = elim (Bool-cases (r.role == k)) [
  | inl e ↦ rw e (
    (λ s m.
        let (m', q) = In-select (λ t. t.role == k) rs s m in
        let same = (eq_iff r.role k).0 e ∙ sym ((eq_iff s.role k).0 q) in
        elim (Bool-cases (conflict r s)) [
          | inl c ↦ absurd (h.0 s m' (conflict-Clashes r s same c))
          | inr c ↦ c
        ]),
    IsClashFree-NoConflict rs k h.1,
  )
  | inr e ↦ rw e (IsClashFree-NoConflict rs k h.1)
]

NoConflict-tail :
    (r : Rule) (rs : List Rule) (k : String)
    → NoConflict (of_role k (r ∷ rs))
    → NoConflict (of_role k rs)
NoConflict-tail r rs k h = elim (Bool-cases (r.role == k)) [
  | inl e ↦ (rw e at h).1
  | inr e ↦ rw e at h
]

NoConflict-IsClashFree :
    (rs : List Rule) → ((k : String) → NoConflict (of_role k rs)) → IsClashFree rs
NoConflict-IsClashFree [] h = tt
NoConflict-IsClashFree (r ∷ rs) h = (
  (λ s m c.
      let mine : NoConflict (r ∷ of_role r.role rs) = rw (eq_refl r.role) at (h r.role) in
      let member =
        select-In (λ t. t.role == r.role) rs s m ((eq_iff s.role r.role).1 (sym c.role)) in
      cc (mine.0 s member, Clashes-conflict r s c)),
  NoConflict-IsClashFree rs (λ k. NoConflict-tail r rs k (h k)),
)

-- `_overlap_errors` is empty exactly if no two rules of one role clash.
pub overlap_errors-nil : (rs : List Rule) → (overlap_errors rs ≡ []) ↔ IsClashFree rs
unfolding overlap_errors get
overlap_errors-nil rs =
    let d = by_role [] rs in
    let (to, from) = all_conflicts-nil d in
    (
      (λ h. NoConflict-IsClashFree rs (λ k. under (to h) k (Option-cases (get d k)))),
      λ h. from (λ k qs m. subst NoConflict (sym (here k qs m)) (IsClashFree-NoConflict rs k h)),
    )
  where
    here : (k : String) (qs : List Rule) → In (k, qs) (by_role [] rs) → qs ≡ of_role k rs
    here k qs m =
        let e = In-get (by_role [] rs) k qs (by_role-HasUniqueKeys [] rs tt) m in
        sym (get_default-some (by_role [] rs) k qs [] e) ∙ by_role-of_role [] rs k

    under :
        ((k : String) (qs : List Rule) → In (k, qs) (by_role [] rs) → NoConflict qs)
        → (k : String)
        → (get (by_role [] rs) k ≡ none) ⊎ ((v : List Rule) × (get (by_role [] rs) k ≡ some v))
        → NoConflict (of_role k rs)
    under h k (inl e) =
        subst NoConflict (sym (get_default-none (by_role [] rs) k [] e) ∙ by_role-of_role [] rs k)
          tt
    under h k (inr (v, e)) =
        subst NoConflict (sym (get_default-some (by_role [] rs) k v [] e) ∙ by_role-of_role [] rs k)
          (h k v (get-In (by_role [] rs) k v e))
