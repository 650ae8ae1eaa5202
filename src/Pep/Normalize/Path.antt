-- ===== src/Pep/Normalize/Path.antt =====
-- pep/normalize.py: repeated percent-decoding and the collapse of a path, `posixpath.normpath` included.
pub mod Canonical
pub mod Idempotent
use ai_agent_security_firewa.Prelude.{
  ℕ, zero, suc, Bool, true, false, not, ◌&&◌, ◌||◌, List, [], ◌∷◌, ◌++◌, nat_eq, if◌then◌else◌,
}
use ai_agent_security_firewa.Prelude.Text.{split_at, codes_eq}
use ai_agent_security_firewa.Urllib.Percent.{unquote}

-- for _ in range(rounds): unquote, until nothing changes
unfoldable pub decode_rounds : ℕ → List ℕ → List ℕ
decode_rounds zero value = value
decode_rounds (suc rounds) value =
    let decoded = unquote value in
    let rest = decode_rounds rounds decoded in if codes_eq decoded value then decoded else rest

abbrev pub max_decode_rounds : ℕ
max_decode_rounds = 5

unfoldable pub decode_repeatedly : List ℕ → List ℕ
decode_repeatedly value = decode_rounds max_decode_rounds value

abbrev pub dot : List ℕ
dot = 46 ∷ []

abbrev pub dotdot : List ℕ
dotdot = 46 ∷ 46 ∷ []

-- s.lstrip("/")
abbrev pub strip_slashes : List ℕ → List ℕ
strip_slashes [] = []
strip_slashes (c ∷ s) = if nat_eq c 47 then strip_slashes s else c ∷ s

-- path.startswith(sep * n)
starts_with_slashes : ℕ → List ℕ → Bool
starts_with_slashes zero s = true
starts_with_slashes (suc n) [] = false
starts_with_slashes (suc n) (c ∷ s) = nat_eq c 47 && starts_with_slashes n s

-- initial_slashes: a path may begin with two slashes; three or more count as one.
unfoldable pub initial_slashes : List ℕ → ℕ
unfolding starts_with_slashes
initial_slashes s =
    if starts_with_slashes 1 s
    then if starts_with_slashes 2 s && not (starts_with_slashes 3 s) then 2 else 1
    else 0

-- new_comps.pop(), if there is one; the components are kept last first.
abbrev pub drop_last : List (List ℕ) → List (List ℕ)
drop_last [] = []
drop_last (top ∷ new_comps) = new_comps

-- Is ".." kept: in a relative path, at its start or behind another one.
abbrev pub keeps_dotdot : Bool → List (List ℕ) → Bool
keeps_dotdot rooted [] = not rooted
keeps_dotdot rooted (top ∷ new_comps) = codes_eq top dotdot

-- One component of the path.
unfoldable pub push_comp : Bool → List (List ℕ) → List ℕ → List (List ℕ)
push_comp rooted new_comps comp =
    if codes_eq comp [] || codes_eq comp dot
    then new_comps
    else if not (codes_eq comp dotdot) || keeps_dotdot rooted new_comps
    then comp ∷ new_comps
    else drop_last new_comps

unfoldable pub collapse : Bool → List (List ℕ) → List (List ℕ) → List (List ℕ)
collapse rooted new_comps [] = new_comps
collapse rooted new_comps (comp ∷ comps) = collapse rooted (push_comp rooted new_comps comp) comps

-- sep.join(reversed(new_comps)), before a text
unfoldable pub join_reversed : List (List ℕ) → List ℕ → List ℕ
join_reversed [] tail = tail
join_reversed (comp ∷ []) tail = comp ++ tail
join_reversed (comp ∷ below ∷ new_comps) tail =
    join_reversed (below ∷ new_comps) (47 ∷ comp ++ tail)

unfoldable pub slashes : ℕ → List ℕ → List ℕ
slashes zero s = s
slashes (suc n) s = 47 ∷ slashes n s

-- path or dot
or_dot : List ℕ → List ℕ
or_dot [] = dot
or_dot (c ∷ s) = c ∷ s

-- posixpath.normpath
unfoldable pub normpath : List ℕ → List ℕ
unfolding or_dot
normpath path =
    let initial = initial_slashes path in
    let (comp, comps) = split_at 47 path in
    or_dot
      (slashes initial (join_reversed (collapse (not (nat_eq initial 0)) [] (comp ∷ comps)) []))

unfoldable pub normalize_path : List ℕ → List ℕ
normalize_path [] = []
normalize_path (c ∷ s) = normpath (47 ∷ strip_slashes (decode_repeatedly (c ∷ s)))
