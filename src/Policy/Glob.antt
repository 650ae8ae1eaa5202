-- ===== src/Policy/Glob.antt =====
-- The standard library's `fnmatch.fnmatch`, which policy/engine.py matches targets with: `*`, `?` and
-- bracket sets, on code points. Names are compared as they are, as on a POSIX host.
pub mod Laws
use Prim.Native.String
use mathlib.Core.List.{reverse}
use ai_agent_security_firewa.Prelude.Text.{codes}
use ai_agent_security_firewa.Prelude.{
  ℕ, String, Bool, true, false, not, ◌&&◌, ◌||◌, List, [], ◌∷◌, ◌++◌, leb, nat_eq, any,
  if◌then◌else◌,
}

pub data Piece : Type 0 where
  star any_one : Piece
  lit : ℕ → Piece
  -- whether the set is negated, and its ranges
  one_of : Bool → List (ℕ × ℕ) → Piece

-- Where the translation stands: outside a set, behind `[`, behind `[!`, or in a set's body, whose
-- characters are kept in reverse.
pub data Mode : Type 0 where
  outside opened opened_not : Mode
  body : Bool → List ℕ → Mode

has_close : List ℕ → Bool
has_close [] = false
has_close (c ∷ cs) = nat_eq c b']' || has_close cs

skip_one : List ℕ → List ℕ
skip_one [] = []
skip_one (c ∷ cs) = cs

-- `[` opens a set if a `]` follows, where the first character of the set does not count.
closes : List ℕ → Bool
unfolding has_close skip_one
closes [] = false
closes (c ∷ cs) = has_close (if nat_eq c b'!' then skip_one cs else cs)

-- The ranges of a set's body: `a-b` is a range, and any other character stands for itself.
ranges : List ℕ → List (ℕ × ℕ)
ranges [] = []
ranges (a ∷ []) = (a, a) ∷ []
ranges (a ∷ d ∷ []) = (a, a) ∷ (d, d) ∷ []
ranges (a ∷ d ∷ b ∷ cs) =
    let single = (a, a) ∷ ranges (d ∷ b ∷ cs) in
    let range = (a, b) ∷ ranges cs in if nat_eq d b'-' then range else single

next_mode : Mode → ℕ → List ℕ → Mode
next_mode outside c cs = if nat_eq c b'[' && closes cs then opened else outside
next_mode opened c cs = if nat_eq c b'!' then opened_not else body false (c ∷ [])
next_mode opened_not c cs = body true (c ∷ [])
next_mode (body neg acc) c cs = if nat_eq c b']' then outside else body neg (c ∷ acc)

pieces_at : Mode → ℕ → List ℕ → List Piece
unfolding closes ranges
pieces_at outside c cs =
    if nat_eq c b'*'
    then star ∷ []
    else if nat_eq c b'?'
    then any_one ∷ []
    else if nat_eq c b'[' && closes cs
    then []
    else lit c ∷ []
pieces_at (body neg acc) c cs = if nat_eq c b']' then one_of neg (ranges (reverse acc)) ∷ [] else []
pieces_at _ c cs = []

pub translate : Mode → List ℕ → List Piece
unfolding next_mode pieces_at
translate m [] = []
translate m (c ∷ cs) = pieces_at m c cs ++ translate (next_mode m c cs) cs

in_range : ℕ → ℕ × ℕ → Bool
in_range c (a, b) = leb a c && leb c b

pub accepts : Piece → ℕ → Bool
unfolding in_range
accepts star c = true
accepts any_one c = true
accepts (lit d) c = nat_eq d c
accepts (one_of neg rs) c = if any (in_range c) rs then not neg else neg

-- `star` tries every suffix of the text.
on_suffix : (List ℕ → Bool) → List ℕ → Bool
on_suffix rest [] = rest []
on_suffix rest (c ∷ s) = rest (c ∷ s) || on_suffix rest s

first_then : (ℕ → Bool) → (List ℕ → Bool) → List ℕ → Bool
first_then test rest [] = false
first_then test rest (c ∷ s) = test c && rest s

nothing_left : List ℕ → Bool
nothing_left [] = true
nothing_left (c ∷ s) = false

pub matches : List Piece → List ℕ → Bool
unfolding on_suffix first_then nothing_left accepts
matches [] s = nothing_left s
matches (star ∷ ps) s = on_suffix (matches ps) s
matches (p ∷ ps) s = first_then (accepts p) (matches ps) s

-- fnmatch(name, pat)
unfoldable pub fnmatch : String → String → Bool
unfolding translate matches
fnmatch name pat = matches (translate outside (codes pat)) (codes name)
