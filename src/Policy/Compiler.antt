-- ===== src/Policy/Compiler.antt =====
-- policy/compiler.py: validation of a bundle, and the warnings on shadowed rules. An error keeps its
-- code and the values that its message is formatted from. Two rules are one object exactly if they
-- stand at one position of the bundle.
pub mod Clash
pub mod Overlap
pub mod Valid
pub mod Shadow
mod Tests
use ai_agent_security_firewa.Prelude.{
  ℕ, suc, String, Bool, true, false, not, ◌&&◌, ◌||◌, Option, none, some, List, [], ◌∷◌, ◌++◌, any,
  all, select, ◌==◌, nat_eq, if◌then◌else◌,
}
use ai_agent_security_firewa.Prelude.Order.{ℤ, ltb_ℤ, eqb_ℤ, str_lt}
use ai_agent_security_firewa.Prelude.Dict.{Dict, put, get, get_default, contains, add}
use ai_agent_security_firewa.Policy.Decision.{Decision, deny, allow, is_decision}
use ai_agent_security_firewa.Policy.Rules.{Rule, EastWestRule, Bundle}

abbrev pub known_roles : List String
known_roles = "research_agent" ∷ "finance_agent" ∷ "support_agent" ∷ "admin_agent" ∷ []

-- sorted(KNOWN_ROLES)
abbrev pub sorted_roles : List String
sorted_roles = "admin_agent" ∷ "finance_agent" ∷ "research_agent" ∷ "support_agent" ∷ []

abbrev pub known_workloads : List String
known_workloads = "agent" ∷ "finance-agent" ∷ "support-agent" ∷ []

-- Which workload of an east-west rule is unknown.
pub data Side : Type 0 where
  source dest : Side

pub data CompileError : Type 0 where
  unknown_role : (rule_id role : String) → CompileError
  conflicting_rules : (first second role : String) (priority : ℤ) → CompileError
  no_critical_path : (role : String) → CompileError
  unknown_workload : (rule_id : String) → Side → (workload : String) → CompileError

-- the `code` field
pub error_code : CompileError → String
error_code (unknown_role _ _) = "UNKNOWN_ROLE"
error_code (conflicting_rules _ _ _ _) = "CONFLICTING_RULES"
error_code (no_critical_path _) = "NO_CRITICAL_PATH"
error_code (unknown_workload _ _ _) = "UNKNOWN_WORKLOAD"

-- SHADOWED_RULE: the shadowed rule and its shadower.
pub record CompileWarning : Type 0 where
  pub shadowed : String
  pub shadower : String

pub data Compiled : Type 0 where
  -- BundleInvalidError, with every error found
  invalid : List CompileError → Compiled
  compiled : Bundle → List CompileWarning → Compiled

pub unknown_role_errors : List Rule → List CompileError
unknown_role_errors [] = []
unknown_role_errors (r ∷ rs) =
    if contains known_roles r.role
    then unknown_role_errors rs
    else unknown_role r.id r.role ∷ unknown_role_errors rs

check_workload : String → Side → String → List CompileError
check_workload id side w =
    if not (w == "*") && not (contains known_workloads w)
    then unknown_workload id side w ∷ []
    else []

pub unknown_workload_errors : List EastWestRule → List CompileError
unfolding check_workload
unknown_workload_errors [] = []
unknown_workload_errors (r ∷ rs) =
    check_workload r.id source r.source_workload
    ++ check_workload r.id dest r.dest_workload
    ++ unknown_workload_errors rs

list_eq : List String → List String → Bool
list_eq [] [] = true
list_eq [] (y ∷ ys) = false
list_eq (x ∷ xs) [] = false
list_eq (x ∷ xs) (y ∷ ys) = x == y && list_eq xs ys

option_eq : Option (List String) → Option (List String) → Bool
unfolding list_eq
option_eq none none = true
option_eq none (some _) = false
option_eq (some _) none = false
option_eq (some xs) (some ys) = list_eq xs ys

-- The test of two rules for one role in `_overlap_errors`.
pub conflict : Rule → Rule → Bool
unfolding option_eq
conflict r s =
    eqb_ℤ r.priority s.priority
    && not (is_decision r.effect s.effect)
    && any (contains s.tool) r.tool
    && option_eq r.destination s.destination
    && option_eq r.resource s.resource

-- by_role.setdefault(r.role, []).append(r), for each rule
pub by_role : Dict (List Rule) → List Rule → Dict (List Rule)
by_role d [] = d
by_role d (r ∷ rs) = by_role (put d r.role (get_default d r.role [] ++ r ∷ [])) rs

pub conflicts_with : String → Rule → List Rule → List CompileError
unfolding conflict
conflicts_with role r [] = []
conflicts_with role r (s ∷ rs) =
    if conflict r s
    then conflicting_rules r.id s.id role r.priority ∷ conflicts_with role r rs
    else conflicts_with role r rs

pub role_conflicts : String → List Rule → List CompileError
unfolding conflicts_with
role_conflicts role [] = []
role_conflicts role (r ∷ rs) = conflicts_with role r rs ++ role_conflicts role rs

pub all_conflicts : Dict (List Rule) → List CompileError
unfolding role_conflicts
all_conflicts [] = []
all_conflicts ((role, rules) ∷ d) = role_conflicts role rules ++ all_conflicts d

pub overlap_errors : List Rule → List CompileError
unfolding by_role all_conflicts
overlap_errors rules = all_conflicts (by_role [] rules)

-- {r.role for r in bundle.rules if r.critical_path}
pub covered : List Rule → List String
covered [] = []
covered (r ∷ rs) = if r.critical_path then add (covered rs) r.role else covered rs

pub uncovered : List String → List String → List CompileError
uncovered [] done = []
uncovered (role ∷ roles) done =
    if contains done role
    then uncovered roles done
    else no_critical_path role ∷ uncovered roles done

pub missing_critical_path_errors : List Rule → List CompileError
unfolding covered uncovered
missing_critical_path_errors rules = uncovered sorted_roles (covered rules)

is_unrestricted : Option (List String) → Bool
is_unrestricted none = true
is_unrestricted (some _) = false

-- `other` makes the loop of `_find_shadowed` warn about `r`.
pub shadows : Rule → Rule → Bool
unfolding is_unrestricted
shadows other r =
    other.role == r.role
    && is_unrestricted other.destination
    && is_unrestricted other.resource
    && all (contains other.tool) r.tool
    && ((is_decision other.effect deny && is_decision r.effect allow)
        || (is_decision other.effect r.effect
            && (ltb_ℤ r.priority other.priority
                || (eqb_ℤ other.priority r.priority && str_lt other.id r.id))))

-- The inner loop: the first other rule, by position, that shadows.
pub find_shadower : ℕ → Rule → ℕ → List Rule → List CompileWarning
unfolding shadows
find_shadower i r j [] = []
find_shadower i r j (other ∷ rest) =
    if not (nat_eq i j) && shadows other r
    then record { shadowed = r.id; shadower = other.id } ∷ []
    else find_shadower i r (suc j) rest

pub warnings_from : ℕ → List Rule → List Rule → List CompileWarning
unfolding find_shadower
warnings_from i [] rules = []
warnings_from i (r ∷ rs) rules = find_shadower i r 0 rules ++ warnings_from (suc i) rs rules

pub find_shadowed : List Rule → List CompileWarning
unfolding warnings_from
find_shadowed rules = warnings_from 0 rules rules

pub bundle_errors : Bundle → List CompileError
unfolding unknown_role_errors overlap_errors missing_critical_path_errors unknown_workload_errors
bundle_errors b =
    unknown_role_errors b.rules
    ++ overlap_errors b.rules
    ++ missing_critical_path_errors b.rules
    ++ unknown_workload_errors b.east_west_rules

report : Bundle → List CompileError → Compiled
unfolding find_shadowed
report b [] = compiled b (find_shadowed b.rules)
report b (e ∷ es) = invalid (e ∷ es)

-- compile_bundle, of a bundle that is loaded
unfoldable pub compile_bundle : Bundle → Compiled
unfolding report bundle_errors
compile_bundle b = report b (bundle_errors b)
