-- ===== src/Prelude/Text.antt =====
-- Python's `str` from the left: slices from the start, splits at a character, joins, `or` on a text
-- that may be missing, and the tests on characters.
use Prim.Native.Nat.{ℕ, zero, suc, ◌+◌}
use Prim.Native.Char.{code}
use Prim.Native.String.{String}
use mathlib.Core.Path.{◌≡◌, refl, ap, ap₂, sym, ◌∙◌}
use mathlib.Core.Logic.{◌≢◌, ◌↔◌, inl, inr}
use mathlib.Core.Option.{Option, none, some}
use mathlib.Core.Bool.{Bool, true, false, ◌&&◌, ◌||◌}
use mathlib.Core.List.{List, [], ◌∷◌, ◌++◌, reverse}
use native.Mathlib.Omega.{arith}
use text.Mathlib.Text.{◌==◌}
use ai_agent_security_firewa.Prelude.Tests.{if◌then◌else◌, nat_eq, nat_eq_iff, leb, Bool-cases}
use ai_agent_security_firewa.Prelude.Lists.{All}

-- s[:n]
unfoldable pub first_chars : ℕ → String → String
first_chars zero s = ""
first_chars (suc n) String.[] = ""
first_chars (suc n) (String.◌∷◌ c s) = String.◌∷◌ c (first_chars n s)

-- a or b, for texts
abbrev pub or_text : String → String → String
or_text a b = if a == "" then b else a

-- a or b, where a may be None
abbrev pub or_else : Option String → String → String
or_else none b = b
or_else (some a) b = or_text a b

-- s.split(sep), on the characters' numbers: always at least one part
unfoldable pub split_at : ℕ → List ℕ → List ℕ × List (List ℕ)
split_at sep [] = ([], [])
split_at sep (c ∷ s) =
    let (part, parts) = split_at sep s in
    if nat_eq c sep then ([], part ∷ parts) else (c ∷ part, parts)

pub split_at-none : (sep : ℕ) (s : List ℕ) → All (λ c. c ≢ sep) s → split_at sep s ≡ (s, [])
unfolding split_at
split_at-none sep [] h = refl
split_at-none sep (c ∷ s) (p, h) = ground (arith, split_at-none sep s h)

pub split_at-append :
    (sep : ℕ) (s t : List ℕ)
    → All (λ c. c ≢ sep) s
    → split_at sep (s ++ sep ∷ t) ≡ (s, (split_at sep t).0 ∷ (split_at sep t).1)
unfolding split_at
split_at-append sep [] t h = ground arith
split_at-append sep (c ∷ s) t (p, h) = ground (arith, split_at-append sep s t h)

-- The characters' numbers.
abbrev pub codes : String → List ℕ
codes String.[] = []
codes (String.◌∷◌ c s) = code c ∷ codes s

-- sep.join((part, *parts))
unfoldable pub join_with : ℕ → List ℕ → List (List ℕ) → List ℕ
join_with sep part [] = part
join_with sep part (next ∷ parts) = part ++ sep ∷ join_with sep next parts

-- s == t, on code points
unfoldable pub codes_eq : List ℕ → List ℕ → Bool
codes_eq [] [] = true
codes_eq [] (d ∷ t) = false
codes_eq (c ∷ s) [] = false
codes_eq (c ∷ s) (d ∷ t) = nat_eq c d && codes_eq s t

pub codes_eq_iff : (s t : List ℕ) → (codes_eq s t ≡ true) ↔ (s ≡ t)
unfolding codes_eq
codes_eq_iff [] [] = ground arith
codes_eq_iff [] (d ∷ t) = ((λ h. cc), (λ h. cc))
codes_eq_iff (c ∷ s) [] = ((λ h. cc), (λ h. cc))
codes_eq_iff (c ∷ s) (d ∷ t) = ground (arith, codes_eq_iff s t, nat_eq_iff c d)

-- str.lower, on the ASCII letters
abbrev pub lower_code : ℕ → ℕ
lower_code c = if leb 65 c && leb c 90 then c + 32 else c

-- str.isspace, of one character
abbrev pub is_space : ℕ → Bool
is_space c =
    (leb 9 c && leb c 13)
    || (leb 28 c && leb c 32)
    || nat_eq c 133
    || nat_eq c 160
    || nat_eq c 5760
    || (leb 8192 c && leb c 8202)
    || nat_eq c 8232
    || nat_eq c 8233
    || nat_eq c 8239
    || nat_eq c 8287
    || nat_eq c 12288

abbrev drop_spaces : List ℕ → List ℕ
drop_spaces [] = []
drop_spaces (c ∷ s) = if is_space c then drop_spaces s else c ∷ s

-- s.strip()
unfoldable pub strip : List ℕ → List ℕ
strip s = reverse (drop_spaces (reverse (drop_spaces s)))

join-cons :
    (sep c : ℕ) (part : List ℕ) (parts : List (List ℕ))
    → join_with sep (c ∷ part) parts ≡ c ∷ join_with sep part parts
unfolding join_with
join-cons sep c part [] = refl
join-cons sep c part (next ∷ parts) = refl

pub join-split : (sep : ℕ) (s : List ℕ) → join_with sep (split_at sep s).0 (split_at sep s).1 ≡ s
unfolding join_with split_at
join-split sep [] = refl
join-split sep (c ∷ s) = elim (Bool-cases (nat_eq c sep)) [
  | inl e ↦
      rw e (ap₂ (λ (a : ℕ) (t : List ℕ). a ∷ t) (sym ((nat_eq_iff c sep).0 e)) (join-split sep s))
  | inr e ↦ rw e (
      join-cons sep c (split_at sep s).0 (split_at sep s).1
      ∙ ap (λ (t : List ℕ). c ∷ t) (join-split sep s))
]
