-- ===== src/Urllib/Split/Host.antt =====
-- The netloc of a URL that `urlunsplit` puts together.
use mathlib.Core.List.{append_assoc}
use ai_agent_security_firewa.Prelude.{
  ℕ, ◌≡◌, ◌≢◌, refl, ap, sym, ◌∙◌, ◌⊎◌, true, Option, none, some, List, [], ◌∷◌, ◌++◌, map, All,
  All-map, arith, Bool-cases, inl, inr,
}
use ai_agent_security_firewa.Prelude.Text.{lower_code}
use ai_agent_security_firewa.Urllib.Split.{
  Tables, SplitResult, strip_controls, drop_unsafe, is_alpha, is_scheme_char, scan_scheme,
  split_scheme, split_netloc, take_netloc, is_netloc, split_rest, urlsplit, rooted, with_netloc,
  add_part, add_scheme, urlunsplit,
}
use ai_agent_security_firewa.Urllib.Split.Scheme.{
  IsScheme, IsNetlocChar, alpha-scheme_char, scheme_char_no_colon, scan_from_alpha,
  split_scheme-IsScheme,
}

-- What may follow a netloc.
IsEnd : List ℕ → Type 0
IsEnd [] = Unit
IsEnd (c ∷ s) = (c ≡ 47) ⊎ (c ≡ 63)

drop_unsafe-append :
    (s t : List ℕ)
    → All (λ c. (c ≢ 9) × (c ≢ 10) × (c ≢ 13)) s
    → drop_unsafe (s ++ t) ≡ s ++ drop_unsafe t
unfolding drop_unsafe
drop_unsafe-append [] t h = refl
drop_unsafe-append (c ∷ s) t (p, h) = ground (arith, drop_unsafe-append s t h)

drop_unsafe-IsEnd : (s : List ℕ) → IsEnd s → IsEnd (drop_unsafe s)
unfolding IsEnd drop_unsafe
drop_unsafe-IsEnd [] h = tt
drop_unsafe-IsEnd (c ∷ s) (inl e) = rw e (inl refl)
drop_unsafe-IsEnd (c ∷ s) (inr e) = rw e (inr refl)

split_netloc-append : (s t : List ℕ) → All IsNetlocChar s → IsEnd t → split_netloc (s ++ t) ≡ (s, t)
unfolding split_netloc IsEnd
split_netloc-append [] [] h k = refl
split_netloc-append [] (c ∷ t) h k = ground arith
split_netloc-append (c ∷ s) t (p, h) k = ground (arith, split_netloc-append s t h k)

scan_scheme-append :
    (s t : List ℕ) → All (λ d. is_scheme_char d ≡ true) s → scan_scheme (s ++ 58 ∷ t) ≡ some (s, t)
unfolding scan_scheme
scan_scheme-append [] t h = refl
scan_scheme-append (c ∷ s) t (p, h) =
    rw (scheme_char_no_colon c p, p, scan_scheme-append s t h) refl

split_scheme-add_scheme :
    (s t : List ℕ) → IsScheme s → split_scheme (add_scheme s (47 ∷ t)) ≡ (map lower_code s, 47 ∷ t)
unfolding split_scheme is_alpha
split_scheme-add_scheme [] t h = refl
split_scheme-add_scheme (c ∷ s) t (p, h) =
    rw (p, scan_from_alpha c (s ++ 58 ∷ 47 ∷ t) p, scan_scheme-append s (47 ∷ t) h) refl

strip_controls-add_scheme :
    (s t : List ℕ) → IsScheme s → strip_controls (add_scheme s (47 ∷ t)) ≡ add_scheme s (47 ∷ t)
unfolding strip_controls is_alpha
strip_controls-add_scheme [] t h = refl
strip_controls-add_scheme (c ∷ s) t (p, h) = ground arith

scheme_char_safe : (c : ℕ) → is_scheme_char c ≡ true → (c ≢ 9) × (c ≢ 10) × (c ≢ 13)
unfolding is_scheme_char is_alpha
scheme_char_safe c p = ground arith

drop_unsafe-add_scheme :
    (s t : List ℕ)
    → IsScheme s
    → drop_unsafe (add_scheme s (47 ∷ t)) ≡ add_scheme s (47 ∷ drop_unsafe t)
unfolding drop_unsafe
drop_unsafe-add_scheme [] t h = refl
drop_unsafe-add_scheme (c ∷ s) t (p, h) =
    drop_unsafe-append (c ∷ s) (58 ∷ 47 ∷ t)
      (scheme_char_safe c (alpha-scheme_char c p), All-map scheme_char_safe s h)

append-add_scheme : (s t u : List ℕ) → add_scheme s t ++ u ≡ add_scheme s (t ++ u)
append-add_scheme [] t u = refl
append-add_scheme (c ∷ s) t u = ap (λ (v : List ℕ). c ∷ v) (append_assoc s (58 ∷ t) u)

rooted-IsEnd : (path query : List ℕ) → IsEnd (rooted path ++ add_part 63 query)
unfolding IsEnd
rooted-IsEnd [] [] = tt
rooted-IsEnd [] (c ∷ query) = inr refl
rooted-IsEnd (c ∷ path) query = ground arith

with_netloc_nonempty :
    (scheme netloc path : List ℕ)
    → netloc ≢ []
    → with_netloc scheme netloc path ≡ 47 ∷ 47 ∷ netloc ++ rooted path
unfolding with_netloc
with_netloc_nonempty scheme [] path ne = absurd (ne refl)
with_netloc_nonempty scheme (c ∷ netloc) path ne = refl

urlunsplit_form :
    (scheme netloc path query : List ℕ)
    → netloc ≢ []
    → urlunsplit scheme netloc path query
      ≡ add_scheme scheme (47 ∷ 47 ∷ netloc ++ (rooted path ++ add_part 63 query))
unfolding urlunsplit
urlunsplit_form scheme netloc path query ne =
    append-add_scheme scheme (with_netloc scheme netloc path) (add_part 63 query)
    ∙ ap (λ (u : List ℕ). add_scheme scheme (u ++ add_part 63 query))
        (with_netloc_nonempty scheme netloc path ne)
    ∙ ap (λ (u : List ℕ). add_scheme scheme (47 ∷ 47 ∷ u))
        (append_assoc netloc (rooted path) (add_part 63 query))

-- What `urlsplit` takes for the netloc.
abbrev netloc_read : List ℕ → List ℕ
netloc_read url = (take_netloc (split_scheme (drop_unsafe (strip_controls url))).1).0

netloc_read-form :
    (scheme netloc rest : List ℕ)
    → IsScheme scheme
    → All IsNetlocChar netloc
    → IsEnd rest
    → netloc_read (add_scheme scheme (47 ∷ 47 ∷ netloc ++ rest)) ≡ netloc
unfolding take_netloc drop_unsafe
netloc_read-form scheme netloc rest s n e =
    ap (λ (u : List ℕ). (take_netloc (split_scheme (drop_unsafe u)).1).0)
      (strip_controls-add_scheme scheme (47 ∷ netloc ++ rest) s)
    ∙ ap (λ (u : List ℕ). (take_netloc (split_scheme u).1).0)
        (drop_unsafe-add_scheme scheme (47 ∷ netloc ++ rest) s)
    ∙ ap (λ (p : List ℕ × List ℕ). (take_netloc p.1).0)
        (split_scheme-add_scheme scheme (47 ∷ drop_unsafe (netloc ++ rest)) s)
    ∙ ap (λ (u : List ℕ). (split_netloc u).0)
        (drop_unsafe-append netloc rest
          (All-map (λ c (p : IsNetlocChar c). (p.0, p.1, p.2)) netloc n))
    ∙ ap (λ (p : List ℕ × List ℕ). p.0)
        (split_netloc-append netloc (drop_unsafe rest) n (drop_unsafe-IsEnd rest e))

netloc_or : Option SplitResult → List ℕ → List ℕ
netloc_or none netloc = netloc
netloc_or (some parts) netloc = parts.netloc

netloc_or-urlsplit :
    (tables : Tables) (url : List ℕ)
    → netloc_or (urlsplit tables url) (netloc_read url) ≡ netloc_read url
unfolding urlsplit netloc_or split_rest
netloc_or-urlsplit tables url = elim (Bool-cases (is_netloc tables (netloc_read url))) [
  | inl e ↦ rw e refl
  | inr e ↦ rw e refl
]

-- `urlsplit` finds the netloc that `urlunsplit` was given.
pub netloc-urlunsplit :
    (tables : Tables) (scheme netloc path query : List ℕ) (parts : SplitResult)
    → IsScheme scheme
    → netloc ≢ []
    → All IsNetlocChar netloc
    → urlsplit tables (urlunsplit scheme netloc path query) ≡ some parts
    → parts.netloc ≡ netloc
unfolding netloc_or
netloc-urlunsplit tables scheme netloc path query parts s ne n e =
    sym (
      ap
        (λ (o : Option SplitResult).
          netloc_or o (netloc_read (urlunsplit scheme netloc path query)))
        e)
    ∙ netloc_or-urlsplit tables (urlunsplit scheme netloc path query)
    ∙ ap netloc_read (urlunsplit_form scheme netloc path query ne)
    ∙ netloc_read-form scheme netloc (rooted path ++ add_part 63 query) s n
        (rooted-IsEnd path query)

unfoldable pub IsSplit : Option SplitResult → Type 0
IsSplit none = Unit
IsSplit (some parts) = IsScheme parts.scheme

pub urlsplit-IsSplit : (tables : Tables) (url : List ℕ) → IsSplit (urlsplit tables url)
unfolding urlsplit IsSplit split_rest
urlsplit-IsSplit tables url =
    elim (Bool-cases
      (is_netloc tables (take_netloc (split_scheme (drop_unsafe (strip_controls url))).1).0)) [
        | inl e ↦ rw e (split_scheme-IsScheme (drop_unsafe (strip_controls url)))
        | inr e ↦ rw e tt
      ]
