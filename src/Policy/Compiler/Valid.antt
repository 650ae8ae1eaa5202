-- ===== src/Policy/Compiler/Valid.antt =====
-- policy/compiler.py: a bundle compiles exactly if it is valid.
use ai_agent_security_firewa.Prelude.{
  String, ◌≡◌, ◌↔◌, ◌⊎◌, inl, inr, refl, ap, true, List, [], ◌∷◌, ◌++◌, In, All, All-In, All-of_In,
  Bool-cases, ◌==◌, eq_iff, arith,
}
use ai_agent_security_firewa.Prelude.Dict.{contains, contains-In, contains-add}
use ai_agent_security_firewa.Policy.Rules.{Rule, EastWestRule, Bundle}
use ai_agent_security_firewa.Policy.Compiler.Clash.{append-nil_iff, IsClashFree}
use ai_agent_security_firewa.Policy.Compiler.Overlap.{overlap_errors-nil}
use ai_agent_security_firewa.Policy.Compiler.{
  CompileError, CompileWarning, compiled, known_roles, sorted_roles, known_workloads,
  unknown_role_errors, unknown_workload_errors, check_workload, Side, source, dest, overlap_errors,
  covered, uncovered, missing_critical_path_errors, bundle_errors, report, find_shadowed,
  compile_bundle,
}

-- Every rule is for a known role.
abbrev pub HasKnownRoles : List Rule → Type 0
HasKnownRoles rs = All (λ (r : Rule). In r.role known_roles) rs

unknown_role_errors-nil : (rs : List Rule) → (unknown_role_errors rs ≡ []) ↔ HasKnownRoles rs
unfolding unknown_role_errors
unknown_role_errors-nil [] = ((λ _. tt), λ _. refl)
unknown_role_errors-nil (r ∷ rs) =
    ground (arith, unknown_role_errors-nil rs, contains-In known_roles r.role)

-- A workload that an east-west rule may name.
abbrev pub IsKnownWorkload : String → Type 0
IsKnownWorkload w = (w ≡ "*") ⊎ In w known_workloads

abbrev pub HasKnownWorkloads : List EastWestRule → Type 0
HasKnownWorkloads rs =
    All (λ (r : EastWestRule). IsKnownWorkload r.source_workload × IsKnownWorkload r.dest_workload)
      rs

check_workload-nil :
    (id : String) (side : Side) (w : String) → (check_workload id side w ≡ []) ↔ IsKnownWorkload w
unfolding check_workload
check_workload-nil id side w = ground (arith, contains-In known_workloads w, eq_iff w "*")

unknown_workload_errors-nil :
    (rs : List EastWestRule) → (unknown_workload_errors rs ≡ []) ↔ HasKnownWorkloads rs
unfolding unknown_workload_errors
unknown_workload_errors-nil [] = ((λ _. tt), λ _. refl)
unknown_workload_errors-nil (r ∷ rs) =
    let first = check_workload r.id source r.source_workload in
    let second = check_workload r.id dest r.dest_workload in
    let rest = unknown_workload_errors rs in
    let (s_to, s_from) = check_workload-nil r.id source r.source_workload in
    let (d_to, d_from) = check_workload-nil r.id dest r.dest_workload in
    let (to, from) = unknown_workload_errors-nil rs in
    (
      (λ h.
          let (e, k) = (append-nil_iff (first ++ second) rest).0 h in
          let (f, g) = (append-nil_iff first second).0 e in ((s_to f, d_to g), to k)),
      λ (p, h).
          (append-nil_iff (first ++ second) rest).1
            ((append-nil_iff first second).1 (s_from p.0, d_from p.1), from h),
    )

-- The roles with a rule that stays reachable in degraded modes.
abbrev pub HasCriticalPath : List Rule → String → Type 0
HasCriticalPath rs role = (r : Rule) × In r rs × (r.role ≡ role) × (r.critical_path ≡ true)

covered-HasCriticalPath :
    (rs : List Rule) (role : String) → contains (covered rs) role ≡ true → HasCriticalPath rs role
unfolding covered
covered-HasCriticalPath [] role h = cc
covered-HasCriticalPath (r ∷ rs) role h = elim (Bool-cases r.critical_path) [
  | inl c ↦ elim (Bool-cases (r.role == role)) [
    | inl e ↦ (r, inl refl, (eq_iff r.role role).0 e, c)
    | inr e ↦
        let (s, m, q, k) =
          covered-HasCriticalPath rs role (ground (arith, contains-add (covered rs) r.role role)) in
        (s, inr m, q, k)
  ]
  | inr c ↦ let (s, m, q, k) = covered-HasCriticalPath rs role (ground arith) in (s, inr m, q, k)
]

HasCriticalPath-covered :
    (rs : List Rule) (role : String) → HasCriticalPath rs role → contains (covered rs) role ≡ true
unfolding covered
HasCriticalPath-covered [] role (r, m, e, c) = absurd m
HasCriticalPath-covered (r ∷ rs) role (s, inl q, e, c) = ground (
  arith,
  contains-add (covered rs) r.role role,
  eq_iff r.role role,
  ap (λ (t : Rule). t.role) q,
  ap (λ (t : Rule). t.critical_path) q,
)
HasCriticalPath-covered (r ∷ rs) role (s, inr m, e, c) =
    ground
      (arith, contains-add (covered rs) r.role role, HasCriticalPath-covered rs role (s, m, e, c))

uncovered-nil :
    (roles done : List String)
    → (uncovered roles done ≡ []) ↔ All (λ role. contains done role ≡ true) roles
unfolding uncovered
uncovered-nil [] done = ((λ h. tt), λ h. refl)
uncovered-nil (role ∷ roles) done = ground (arith, uncovered-nil roles done)

-- What the compiler promises of a bundle that it accepts.
pub record IsValid (b : Bundle) : Type 0 where
  pub roles : HasKnownRoles b.rules
  pub clash_free : IsClashFree b.rules
  pub critical_paths : (role : String) → In role known_roles → HasCriticalPath b.rules role
  pub workloads : HasKnownWorkloads b.east_west_rules

sorted-known : (role : String) → In role sorted_roles → In role known_roles
sorted-known role m = ground arith

known-sorted : (role : String) → In role known_roles → In role sorted_roles
known-sorted role m = ground arith

missing_critical_path_errors-nil :
    (rs : List Rule)
    → (missing_critical_path_errors rs ≡ [])
      ↔ ((role : String) → In role known_roles → HasCriticalPath rs role)
unfolding missing_critical_path_errors
missing_critical_path_errors-nil rs =
    let (to, from) = uncovered-nil sorted_roles (covered rs) in
    (
      (λ h role m. covered-HasCriticalPath rs role (
          All-In (λ k. contains (covered rs) k ≡ true) sorted_roles role (to h)
            (known-sorted role m))),
      λ h. from (
          All-of_In (λ k. contains (covered rs) k ≡ true) sorted_roles
            (λ role m. HasCriticalPath-covered rs role (h role (sorted-known role m)))),
    )

bundle_errors-nil : (b : Bundle) → (bundle_errors b ≡ []) ↔ IsValid b
unfolding bundle_errors
bundle_errors-nil b =
    let roles = unknown_role_errors b.rules in
    let overlaps = overlap_errors b.rules in
    let paths = missing_critical_path_errors b.rules in
    let workloads = unknown_workload_errors b.east_west_rules in
    let (u_to, u_from) = append-nil_iff (roles ++ overlaps ++ paths) workloads in
    let (v_to, v_from) = append-nil_iff (roles ++ overlaps) paths in
    let (w_to, w_from) = append-nil_iff roles overlaps in
    (
      (λ h.
          let (e, f) = u_to h in
          let (g, k) = v_to e in
          let (p, q) = w_to g in
          record {
            roles = (unknown_role_errors-nil b.rules).0 p;
            clash_free = (overlap_errors-nil b.rules).0 q;
            critical_paths = (missing_critical_path_errors-nil b.rules).0 k;
            workloads = (unknown_workload_errors-nil b.east_west_rules).0 f;
          }),
      λ v. u_from (
        v_from (
          w_from (
            (unknown_role_errors-nil b.rules).1 v.roles,
            (overlap_errors-nil b.rules).1 v.clash_free,
          ),
          (missing_critical_path_errors-nil b.rules).1 v.critical_paths,
        ),
        (unknown_workload_errors-nil b.east_west_rules).1 v.workloads,
      ),
    )

report-compiled_iff :
    (b c : Bundle) (es : List CompileError)
    → ((ws : List CompileWarning) × (report b es ≡ compiled c ws)) ↔ ((es ≡ []) × (b ≡ c))
unfolding report
report-compiled_iff b c [] = ((λ (ws, e). (refl, cc)), λ (e, f). (find_shadowed b.rules, rw f))
report-compiled_iff b c (e ∷ es) = ((λ (ws, f). cc), λ (f, g). cc)

-- The compiler accepts a bundle, and hands that bundle on, exactly if every rule is for a known role,
-- no two rules of one role with the same priority and targets and a tool in common have different
-- effects, every known role has a critical-path rule, and every east-west rule names known workloads
-- or a wildcard.
pub compile_bundle-IsValid_iff :
    (b c : Bundle)
    → ((ws : List CompileWarning) × (compile_bundle b ≡ compiled c ws)) ↔ (IsValid b × (b ≡ c))
unfolding compile_bundle
compile_bundle-IsValid_iff b c =
    let (to, from) = report-compiled_iff b c (bundle_errors b) in
    let (v_to, v_from) = bundle_errors-nil b in
    ((λ h. (v_to (to h).0, (to h).1)), λ h. from (v_from h.0, h.1))
