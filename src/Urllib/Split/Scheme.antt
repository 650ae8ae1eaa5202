-- ===== src/Urllib/Split/Scheme.antt =====
-- The scheme of a URL.
use ai_agent_security_firewa.Prelude.{
  ℕ, ◌≡◌, ◌≢◌, refl, true, false, Option, none, some, List, [], ◌∷◌, map, All, nat_eq, arith,
  Bool-cases, inl, inr,
}
use ai_agent_security_firewa.Prelude.Text.{lower_code}
use ai_agent_security_firewa.Urllib.Split.{
  is_alpha, is_scheme_char, scan_scheme, with_scheme, add_first, split_scheme,
}

-- No scheme, or a letter with letters, digits, "+", "-" and "." behind it.
abbrev pub IsScheme : List ℕ → Type 0
IsScheme [] = Unit
IsScheme (c ∷ s) = (is_alpha c ≡ true) × All (λ d. is_scheme_char d ≡ true) s

-- A character that has no meaning in a netloc and stays in a URL.
abbrev pub IsHostChar : ℕ → Type 0
IsHostChar c =
    (c ≢ 9)
    × (c ≢ 10)
    × (c ≢ 13)
    × (c ≢ 35)
    × (c ≢ 37)
    × (c ≢ 47)
    × (c ≢ 58)
    × (c ≢ 63)
    × (c ≢ 64)
    × (c ≢ 91)

-- A character of a host or of the port behind it.
abbrev pub IsNetlocChar : ℕ → Type 0
IsNetlocChar c =
    (c ≢ 9) × (c ≢ 10) × (c ≢ 13) × (c ≢ 35) × (c ≢ 47) × (c ≢ 63) × (c ≢ 64) × (c ≢ 91)

IsScanned : Option (List ℕ × List ℕ) → Type 0
IsScanned none = Unit
IsScanned (some (scheme, url)) = All (λ d. is_scheme_char d ≡ true) scheme

add_first-IsScanned :
    (c : ℕ) (o : Option (List ℕ × List ℕ))
    → is_scheme_char c ≡ true
    → IsScanned o
    → IsScanned (add_first c o)
unfolding IsScanned
add_first-IsScanned c none p h = tt
add_first-IsScanned c (some (scheme, url)) p h = (p, h)

scan_scheme-IsScanned : (s : List ℕ) → IsScanned (scan_scheme s)
unfolding scan_scheme IsScanned
scan_scheme-IsScanned [] = tt
scan_scheme-IsScanned (c ∷ s) = elim (Bool-cases (nat_eq c 58)) [
  | inl e ↦ rw e tt
  | inr e ↦ rw e (elim (Bool-cases (is_scheme_char c)) [
    | inl p ↦ rw p (add_first-IsScanned c (scan_scheme s) p (scan_scheme-IsScanned s))
    | inr p ↦ rw p tt
  ])
]

pub alpha-scheme_char : (c : ℕ) → is_alpha c ≡ true → is_scheme_char c ≡ true
unfolding is_scheme_char
alpha-scheme_char c p = rw p refl

alpha_no_colon : (c : ℕ) → is_alpha c ≡ true → nat_eq c 58 ≡ false
unfolding is_alpha
alpha_no_colon c p = ground arith

pub scheme_char_no_colon : (c : ℕ) → is_scheme_char c ≡ true → nat_eq c 58 ≡ false
unfolding is_scheme_char is_alpha
scheme_char_no_colon c p = ground arith

lower-alpha : (c : ℕ) → is_alpha c ≡ true → is_alpha (lower_code c) ≡ true
unfolding is_alpha
lower-alpha c h = ground arith

lower-scheme_char : (c : ℕ) → is_scheme_char c ≡ true → is_scheme_char (lower_code c) ≡ true
unfolding is_scheme_char is_alpha
lower-scheme_char c h = ground arith

pub lower-IsScheme : (s : List ℕ) → IsScheme s → IsScheme (map lower_code s)
lower-IsScheme [] h = tt
lower-IsScheme (c ∷ s) (p, h) = (lower-alpha c p, rest s h)
  where
    rest :
        (s : List ℕ)
        → All (λ d. is_scheme_char d ≡ true) s
        → All (λ d. is_scheme_char d ≡ true) (map lower_code s)
    rest [] h = tt
    rest (c ∷ s) (p, h) = (lower-scheme_char c p, rest s h)

pub scan_from_alpha :
    (c : ℕ) (s : List ℕ) → is_alpha c ≡ true → scan_scheme (c ∷ s) ≡ add_first c (scan_scheme s)
unfolding scan_scheme
scan_from_alpha c s p = rw (alpha_no_colon c p, alpha-scheme_char c p) refl

with_scheme-IsScheme :
    (c : ℕ) (o : Option (List ℕ × List ℕ)) (s : List ℕ)
    → is_alpha c ≡ true
    → IsScanned o
    → IsScheme (with_scheme (add_first c o) s).0
unfolding IsScanned
with_scheme-IsScheme c none s p h = tt
with_scheme-IsScheme c (some (scheme, url)) s p h = lower-IsScheme (c ∷ scheme) (p, h)

-- What is taken for a scheme is one.
pub split_scheme-IsScheme : (s : List ℕ) → IsScheme (split_scheme s).0
unfolding split_scheme
split_scheme-IsScheme [] = tt
split_scheme-IsScheme (c ∷ s) = elim (Bool-cases (is_alpha c)) [
  | inl p ↦
      rw (p, scan_from_alpha c s p)
        (with_scheme-IsScheme c (scan_scheme s) (c ∷ s) p (scan_scheme-IsScanned s))
  | inr p ↦ rw p tt
]
