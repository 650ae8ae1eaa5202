-- ===== src/Policy/Glob/Laws.antt =====
-- What a target pattern matches: `fnmatch` decides a relation between pieces and texts, a pattern with
-- no special character is equality, and `*` followed by plain text is a test of the ending.
use Prim.Native.Char.{Char, code}
use text.Mathlib.TextEquality.{Char-path}
use ai_agent_security_firewa.Prelude.{
  ℕ, String, ◌≡◌, ◌≢◌, ◌↔◌, refl, ap, ap₂, Bool, true, List, [], ◌∷◌, ◌++◌, map, All, Bool-cases,
  inl, inr, arith,
}
use ai_agent_security_firewa.Prelude.Text.{codes}
use ai_agent_security_firewa.Policy.Glob.{
  Piece, star, any_one, lit, one_of, outside, accepts, matches, on_suffix, first_then, nothing_left,
  translate, fnmatch,
}

-- The meaning of a translated pattern.
pub data Matches : List Piece → List ℕ → Type 0 where
  done : Matches [] []
  stop : {ps : List Piece} {s : List ℕ} → Matches ps s → Matches (star ∷ ps) s
  more :
      {ps : List Piece} {s : List ℕ} (c : ℕ) → Matches (star ∷ ps) s → Matches (star ∷ ps) (c ∷ s)
  one :
      {p : Piece} {ps : List Piece} {c : ℕ} {s : List ℕ}
      → accepts p c ≡ true
      → Matches ps s
      → Matches (p ∷ ps) (c ∷ s)

on_suffix-Matches :
    (ps : List Piece) (s : List ℕ)
    → ((t : List ℕ) → matches ps t ≡ true → Matches ps t)
    → on_suffix (matches ps) s ≡ true
    → Matches (star ∷ ps) s
unfolding on_suffix
on_suffix-Matches ps [] f h = stop (f [] h)
on_suffix-Matches ps (c ∷ s) f h = elim (Bool-cases (matches ps (c ∷ s))) [
  | inl e ↦ stop (f (c ∷ s) e)
  | inr e ↦ more c (on_suffix-Matches ps s f (ground arith))
]

first_then-Matches :
    (p : Piece) (ps : List Piece) (s : List ℕ)
    → ((t : List ℕ) → matches ps t ≡ true → Matches ps t)
    → first_then (accepts p) (matches ps) s ≡ true
    → Matches (p ∷ ps) s
unfolding first_then
first_then-Matches p ps [] f h = cc
first_then-Matches p ps (c ∷ s) f h = one (ground arith) (f s (ground arith))

matches-Matches : (ps : List Piece) (s : List ℕ) → matches ps s ≡ true → Matches ps s
unfolding matches nothing_left
matches-Matches [] [] h = done
matches-Matches [] (c ∷ s) h = cc
matches-Matches (star ∷ ps) s h = on_suffix-Matches ps s (matches-Matches ps) h
matches-Matches (any_one ∷ ps) s h = first_then-Matches any_one ps s (matches-Matches ps) h
matches-Matches (lit c ∷ ps) s h = first_then-Matches (lit c) ps s (matches-Matches ps) h
matches-Matches (one_of b r ∷ ps) s h = first_then-Matches (one_of b r) ps s (matches-Matches ps) h

on_suffix-stop : (f : List ℕ → Bool) (s : List ℕ) → f s ≡ true → on_suffix f s ≡ true
unfolding on_suffix
on_suffix-stop f [] h = h
on_suffix-stop f (c ∷ s) h = rw h

on_suffix-more :
    (f : List ℕ → Bool) (c : ℕ) (s : List ℕ) → on_suffix f s ≡ true → on_suffix f (c ∷ s) ≡ true
unfolding on_suffix
on_suffix-more f c s h = ground arith

one-matches :
    (p : Piece) (ps : List Piece) (c : ℕ) (s : List ℕ)
    → accepts p c ≡ true
    → matches ps s ≡ true
    → matches (p ∷ ps) (c ∷ s) ≡ true
unfolding matches first_then
one-matches star ps c s a h = on_suffix-more (matches ps) c s (on_suffix-stop (matches ps) s h)
one-matches any_one ps c s a h = rw a h
one-matches (lit d) ps c s a h = rw a h
one-matches (one_of b r) ps c s a h = rw a h

Matches-matches : {ps : List Piece} {s : List ℕ} → Matches ps s → matches ps s ≡ true
unfolding matches nothing_left
Matches-matches done = refl
Matches-matches (stop {ps = ps} {s = s} m) = on_suffix-stop (matches ps) s (Matches-matches m)
Matches-matches (more {ps = ps} {s = s} c m) = on_suffix-more (matches ps) c s (Matches-matches m)
Matches-matches (one {p = p} {ps = ps} {c = c} {s = s} a m) =
    one-matches p ps c s a (Matches-matches m)

-- `fnmatch` answers True exactly on the names that the translated pattern matches.
pub fnmatch_iff :
    (name pat : String)
    → (fnmatch name pat ≡ true) ↔ Matches (translate outside (codes pat)) (codes name)
unfolding fnmatch
fnmatch_iff name pat = (matches-Matches _ _, Matches-matches)

-- A character that stands for itself in a pattern.
abbrev pub IsPlain : ℕ → Type 0
IsPlain c = (c ≢ b'*') × (c ≢ b'?') × (c ≢ b'[')

translate-plain : (cs : List ℕ) → All IsPlain cs → translate outside cs ≡ map lit cs
unfolding translate
translate-plain [] h = refl
translate-plain (c ∷ cs) h = ground (arith, translate-plain cs h.1)

matches-lit : (cs s : List ℕ) → matches (map lit cs) s ≡ true → s ≡ cs
unfolding matches
matches-lit [] [] h = refl
matches-lit [] (c ∷ s) h = cc
matches-lit (d ∷ cs) [] h = cc
matches-lit (d ∷ cs) (c ∷ s) h = ground (arith, matches-lit cs s)

lit-Matches : (cs : List ℕ) → Matches (map lit cs) cs
unfolding accepts
lit-Matches [] = done
lit-Matches (c ∷ cs) = one (ground arith) (lit-Matches cs)

lit-matches : (cs : List ℕ) → matches (map lit cs) cs ≡ true
lit-matches cs = Matches-matches (lit-Matches cs)

codes-injective : (s t : String) → codes s ≡ codes t → s ≡ t
codes-injective String.[] String.[] h = refl
codes-injective String.[] (String.◌∷◌ d t) h = cc
codes-injective (String.◌∷◌ c s) String.[] h = cc
codes-injective (String.◌∷◌ c s) (String.◌∷◌ d t) h =
    ap₂ String.◌∷◌ (Char-path c d (cc)) (codes-injective s t (cc))

-- A pattern with none of `*`, `?` and `[` matches the name that it spells, and no other.
pub fnmatch-plain :
    (name pat : String) → All IsPlain (codes pat) → (fnmatch name pat ≡ true) ↔ (name ≡ pat)
unfolding fnmatch
fnmatch-plain name pat h = rw (translate-plain (codes pat) h) (
  (λ m. codes-injective name pat (matches-lit (codes pat) (codes name) m)),
  (λ e. rw e (lit-matches (codes pat))),
)

star-suffix : (cs s : List ℕ) → matches (star ∷ map lit cs) s ≡ true → (u : List ℕ) × (s ≡ u ++ cs)
unfolding matches
star-suffix cs [] h = ([], matches-lit cs [] h)
star-suffix cs (c ∷ s) h = elim (Bool-cases (matches (map lit cs) (c ∷ s))) [
  | inl e ↦ ([], matches-lit cs (c ∷ s) e)
  | inr e ↦ let (u, p) = star-suffix cs s (ground arith) in (c ∷ u, ap (λ (t : List ℕ). c ∷ t) p)
]

suffix-star : (cs u : List ℕ) → Matches (star ∷ map lit cs) (u ++ cs)
suffix-star cs [] = stop (lit-Matches cs)
suffix-star cs (c ∷ u) = more c (suffix-star cs u)

suffix-matches : (cs u : List ℕ) → matches (star ∷ map lit cs) (u ++ cs) ≡ true
suffix-matches cs u = Matches-matches (suffix-star cs u)

-- `*` followed by plain text matches exactly the names that end with that text.
pub fnmatch-suffix :
    (name : String) (star_char : Char) (text : String)
    → code star_char ≡ b'*'
    → All IsPlain (codes text)
    → (fnmatch name (String.◌∷◌ star_char text) ≡ true)
      ↔ ((u : List ℕ) × (codes name ≡ u ++ codes text))
unfolding fnmatch translate
fnmatch-suffix name star_char text e h =
    rw (e, translate-plain (codes text) h)
      (star-suffix (codes text) (codes name), (λ (u, p). rw p (suffix-matches (codes text) u)))
