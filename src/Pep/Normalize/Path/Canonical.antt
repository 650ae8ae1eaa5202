-- ===== src/Pep/Normalize/Path/Canonical.antt =====
-- pep/normalize.py: the form of a normalized path.
use ai_agent_security_firewa.Prelude.{
  ℕ, ◌≡◌, ◌≢◌, refl, true, List, [], ◌∷◌, All, nat_eq, arith, Bool-cases, inl, inr,
}
use ai_agent_security_firewa.Prelude.Text.{split_at, codes_eq_iff}
use ai_agent_security_firewa.Pep.Normalize.Path.{
  decode_repeatedly, dot, dotdot, strip_slashes, initial_slashes, starts_with_slashes, push_comp,
  collapse, join_reversed, slashes, or_dot, normpath, normalize_path,
}

-- A component that names an entry of its directory.
abbrev pub IsEntry : List ℕ → Type 0
IsEntry comp = (comp ≢ []) × (comp ≢ dot) × (comp ≢ dotdot) × All (λ c. c ≢ 47) comp

-- The path from the root along components, which are given last first.
abbrev pub from_root : List (List ℕ) → List ℕ
from_root comps = 47 ∷ join_reversed comps []

-- An absolute path with one slash before each component and no way up.
abbrev pub IsCanonical : List ℕ → Type 0
IsCanonical path = (comps : List (List ℕ)) × (path ≡ from_root comps) × All IsEntry comps

split_at-no_sep :
    (s : List ℕ) → All (λ c. c ≢ 47) (split_at 47 s).0 × All (All (λ c. c ≢ 47)) (split_at 47 s).1
unfolding split_at
split_at-no_sep [] = (tt, tt)
split_at-no_sep (c ∷ s) = ground (arith, split_at-no_sep s)

push_comp-IsEntry :
    (comps : List (List ℕ)) (comp : List ℕ)
    → All IsEntry comps
    → All (λ c. c ≢ 47) comp
    → All IsEntry (push_comp true comps comp)
unfolding push_comp
push_comp-IsEntry [] comp h k =
    ground (arith, codes_eq_iff comp [], codes_eq_iff comp dot, codes_eq_iff comp dotdot)
push_comp-IsEntry (top ∷ comps) comp h k = ground (
  arith,
  codes_eq_iff comp [],
  codes_eq_iff comp dot,
  codes_eq_iff comp dotdot,
  codes_eq_iff top dotdot,
)

collapse-IsEntry :
    (todo comps : List (List ℕ))
    → All IsEntry comps
    → All (All (λ c. c ≢ 47)) todo
    → All IsEntry (collapse true comps todo)
unfolding collapse
collapse-IsEntry [] comps h k = h
collapse-IsEntry (comp ∷ todo) comps h (p, k) =
    collapse-IsEntry todo (push_comp true comps comp) (push_comp-IsEntry comps comp h p) k

pub strip_slashes-initial : (s : List ℕ) → initial_slashes (47 ∷ strip_slashes s) ≡ 1
unfolding initial_slashes starts_with_slashes
strip_slashes-initial [] = refl
strip_slashes-initial (c ∷ s) = elim (Bool-cases (nat_eq c 47)) [
  | inl e ↦ rw e (strip_slashes-initial s)
  | inr e ↦ rw (e, e) refl
]

pub normpath_rooted :
    (s : List ℕ)
    → initial_slashes s ≡ 1
    → normpath s ≡ from_root (collapse true [] ((split_at 47 s).0 ∷ (split_at 47 s).1))
unfolding normpath or_dot slashes
normpath_rooted s h = rw h refl

normpath-IsCanonical : (s : List ℕ) → initial_slashes s ≡ 1 → IsCanonical (normpath s)
normpath-IsCanonical s h = (
  collapse true [] ((split_at 47 s).0 ∷ (split_at 47 s).1),
  normpath_rooted s h,
  collapse-IsEntry ((split_at 47 s).0 ∷ (split_at 47 s).1) [] tt (split_at-no_sep s),
)

-- The normal form of a path that is not empty is canonical: no component of it is empty, "." or "..", so
-- that it names a place under the root.
pub normalize_path-IsCanonical : (c : ℕ) (s : List ℕ) → IsCanonical (normalize_path (c ∷ s))
unfolding normalize_path
normalize_path-IsCanonical c s =
    normpath-IsCanonical (47 ∷ strip_slashes (decode_repeatedly (c ∷ s)))
      (strip_slashes-initial (decode_repeatedly (c ∷ s)))
