-- ===== src/ThreatIntel/Feed/Parents.antt =====
-- threat_intel/feed.py: which names are known to be bad.
use ai_agent_security_firewa.Prelude.{
  ℕ, String, ◌≡◌, ◌≢◌, ◌↔◌, ◌⊎◌, inl, inr, refl, ap, sym, true, some, List, [], ◌∷◌, ◌++◌, map, In,
  arith, Bool-cases, nat_eq, nat_eq_iff, subst,
}
use ai_agent_security_firewa.Prelude.Text.{codes, split_at, join-split, codes_eq_iff, lower_code}
use ai_agent_security_firewa.ThreatIntel.Feed.{
  listed_in, any_parent, match_lower, match_codes, is_known_bad,
}

-- An entry is the name or a parent domain of it: the name ends in a dot and the entry.
abbrev pub Covers : List ℕ → List ℕ → Type 0
Covers name entry = (name ≡ entry) ⊎ ((p : List ℕ) × (name ≡ p ++ b'.' ∷ entry))

listed_in_iff :
    (listed : List (List ℕ)) (name : List ℕ) → (listed_in listed name ≡ true) ↔ In name listed
listed_in_iff [] name = ground arith
listed_in_iff (e ∷ listed) name = ground (arith, listed_in_iff listed name, codes_eq_iff e name)

abbrev IsBelow : List (List ℕ) → List ℕ → Type 0
IsBelow listed name = (e : List ℕ) × In e listed × ((p : List ℕ) × (name ≡ p ++ b'.' ∷ e))

IsBelow-dot :
    (listed : List (List ℕ)) (name : List ℕ)
    → IsBelow listed (b'.' ∷ name) ↔ (In name listed ⊎ IsBelow listed name)
IsBelow-dot listed name = (to, from)
  where
    to : IsBelow listed (b'.' ∷ name) → In name listed ⊎ IsBelow listed name
    to (e, m, ([], q)) = inl (subst (λ n. In n listed) (cc q) m)
    to (e, m, (c ∷ p, q)) = inr (e, m, (p, cc q))

    from : In name listed ⊎ IsBelow listed name → IsBelow listed (b'.' ∷ name)
    from (inl m) = (name, m, ([], refl))
    from (inr (e, m, (p, q))) = (e, m, (b'.' ∷ p, ap (λ (n : List ℕ). b'.' ∷ n) q))

IsBelow-other :
    (listed : List (List ℕ)) (c : ℕ) (name : List ℕ)
    → c ≢ b'.'
    → IsBelow listed (c ∷ name) ↔ IsBelow listed name
IsBelow-other listed c name ne = (to, from)
  where
    to : IsBelow listed (c ∷ name) → IsBelow listed name
    to (e, m, ([], q)) = absurd (ne (cc q))
    to (e, m, (d ∷ p, q)) = (e, m, (p, cc q))

    from : IsBelow listed name → IsBelow listed (c ∷ name)
    from (e, m, (p, q)) = (e, m, (c ∷ p, ap (λ (n : List ℕ). c ∷ n) q))

IsBelow-nil : (listed : List (List ℕ)) → ¬ (IsBelow listed [])
IsBelow-nil listed (e, m, ([], q)) = cc q
IsBelow-nil listed (e, m, (d ∷ p, q)) = cc q

at-dot :
    (listed : List (List ℕ)) (name : List ℕ)
    → (any_parent listed (split_at b'.' name).1 ≡ true) ↔ IsBelow listed name
    → (any_parent listed (split_at b'.' (b'.' ∷ name)).1 ≡ true) ↔ IsBelow listed (b'.' ∷ name)
unfolding any_parent split_at
at-dot listed name ih = ground (
  arith,
  IsBelow-dot listed name,
  listed_in_iff listed name,
  ih,
  ap (listed_in listed) (join-split b'.' name),
)

any_parent_iff :
    (listed : List (List ℕ)) (name : List ℕ)
    → (any_parent listed (split_at b'.' name).1 ≡ true) ↔ IsBelow listed name
unfolding any_parent split_at
any_parent_iff listed [] = ((λ h. cc), (λ b. absurd (IsBelow-nil listed b)))
any_parent_iff listed (c ∷ name) = elim (Bool-cases (nat_eq c b'.')) [
  | inl e ↦
      subst
        (λ d. (any_parent listed (split_at b'.' (d ∷ name)).1 ≡ true) ↔ IsBelow listed (d ∷ name))
        (sym ((nat_eq_iff c b'.').0 e)) (at-dot listed name (any_parent_iff listed name))
  | inr e ↦ rw e (
      ground (
        arith,
        any_parent_iff listed name,
        IsBelow-other listed c name (λ q. cc ((nat_eq_iff c b'.').1 q)),
      ))
]

match_lower_iff :
    (listed : List (List ℕ)) (name : List ℕ)
    → (match_lower listed name ≡ true) ↔ ((e : List ℕ) × In e listed × Covers name e)
unfolding match_lower
match_lower_iff listed name = (to, from)
  where
    to : match_lower listed name ≡ true → (e : List ℕ) × In e listed × Covers name e
    to h = elim (Bool-cases (listed_in listed name)) [
      | inl l ↦ (name, (listed_in_iff listed name).0 l, inl refl)
      | inr l ↦ let (e, m, below) = (any_parent_iff listed name).0 (rw l at h) in (e, m, inr below)
    ]

    from : (e : List ℕ) × In e listed × Covers name e → match_lower listed name ≡ true
    from (e, m, inl q) =
        ground (arith, (listed_in_iff listed name).1 (subst (λ n. In n listed) (sym q) m))
    from (e, m, inr below) = ground (arith, (any_parent_iff listed name).1 (e, m, below))

match_codes_iff :
    (listed : List (List ℕ)) (name : List ℕ)
    → (match_codes listed name ≡ true)
      ↔ ((name ≢ []) × ((e : List ℕ) × In e listed × Covers (map lower_code name) e))
unfolding match_codes
match_codes_iff listed [] = ((λ h. cc), (λ (ne, _). absurd (ne refl)))
match_codes_iff listed (c ∷ name) = (
  (λ h. ((λ q. cc q), (match_lower_iff listed (map lower_code (c ∷ name))).0 h)),
  λ (_, found). (match_lower_iff listed (map lower_code (c ∷ name))).1 found,
)

-- A destination is known to be bad exactly if its name is not empty and some entry of the list is
-- the name in lower case or a parent domain of it.
pub is_known_bad_iff :
    (listed : List (List ℕ)) (fqdn : String)
    → (is_known_bad listed (some fqdn) ≡ true)
      ↔ ((codes fqdn ≢ []) × ((e : List ℕ) × In e listed × Covers (map lower_code (codes fqdn)) e))
unfolding is_known_bad
is_known_bad_iff listed fqdn = match_codes_iff listed (codes fqdn)
