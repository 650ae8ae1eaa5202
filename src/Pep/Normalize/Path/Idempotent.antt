-- ===== src/Pep/Normalize/Path/Idempotent.antt =====
-- pep/normalize.py: normalizing a path that is in normal form.
use mathlib.Core.List.{append-nil}
use ai_agent_security_firewa.Prelude.{
  ℕ, ◌≡◌, ◌≢◌, refl, ap, sym, subst, ◌∙◌, ◌⊎◌, true, List, [], ◌∷◌, ◌++◌, All, arith, inl, inr,
}
use ai_agent_security_firewa.Prelude.Text.{split_at, codes_eq, codes_eq_iff}
use ai_agent_security_firewa.Urllib.Percent.RoundTrip.{unquote-no_percent}
use ai_agent_security_firewa.Pep.Normalize.Path.{
  decode_rounds, decode_repeatedly, dot, dotdot, strip_slashes, initial_slashes, push_comp,
  collapse, join_reversed, normpath, normalize_path,
}
use ai_agent_security_firewa.Pep.Normalize.Path.Canonical.{
  IsEntry, from_root, normpath_rooted, strip_slashes-initial, normalize_path-IsCanonical,
}

-- The components, first to last, before others.
rev_onto : List (List ℕ) → List (List ℕ) → List (List ℕ)
rev_onto [] parts = parts
rev_onto (comp ∷ comps) parts = rev_onto comps (comp ∷ parts)

split_at-append_part :
    (s t : List ℕ)
    → All (λ c. c ≢ 47) s
    → split_at 47 (s ++ t) ≡ (s ++ (split_at 47 t).0, (split_at 47 t).1)
unfolding split_at
split_at-append_part [] t h = refl
split_at-append_part (c ∷ s) t (p, h) = ground (arith, split_at-append_part s t h)

split-join_reversed :
    (comp : List ℕ) (comps parts : List (List ℕ)) (tail : List ℕ)
    → All IsEntry (comp ∷ comps)
    → split_at 47 tail ≡ ([], parts)
    → (split_at 47 (join_reversed (comp ∷ comps) tail)).0
        ∷ (split_at 47 (join_reversed (comp ∷ comps) tail)).1
      ≡ rev_onto comps (comp ∷ parts)
unfolding join_reversed rev_onto split_at
split-join_reversed comp [] parts tail (p, h) e =
    rw (split_at-append_part comp tail p.3, e, append-nil comp) refl
split-join_reversed comp (below ∷ comps) parts tail (p, h) e =
    split-join_reversed below comps (comp ∷ parts) (47 ∷ comp ++ tail) h
      (rw (split_at-append_part comp tail p.3, e, append-nil comp) refl)

push_comp_entry :
    (comps : List (List ℕ)) (comp : List ℕ)
    → IsEntry comp
    → push_comp true comps comp ≡ comp ∷ comps
unfolding push_comp
push_comp_entry comps comp p =
    ground (arith, codes_eq_iff comp [], codes_eq_iff comp dot, codes_eq_iff comp dotdot)

collapse-rev_onto :
    (comps parts : List (List ℕ))
    → All IsEntry comps
    → collapse true [] (rev_onto comps parts) ≡ collapse true comps parts
unfolding collapse rev_onto
collapse-rev_onto [] parts h = refl
collapse-rev_onto (comp ∷ comps) parts (p, h) =
    collapse-rev_onto comps (comp ∷ parts) h
    ∙ ap (λ (a : List (List ℕ)). collapse true a parts) (push_comp_entry comps comp p)

strip-entry : (comp s : List ℕ) → IsEntry comp → strip_slashes (comp ++ s) ≡ comp ++ s
strip-entry [] s p = absurd (p.0 refl)
strip-entry (c ∷ comp) s p = ground arith

strip-join_reversed :
    (comps : List (List ℕ)) (tail : List ℕ)
    → All IsEntry comps
    → strip_slashes tail ≡ tail ⊎ (comps ≢ [])
    → strip_slashes (join_reversed comps tail) ≡ join_reversed comps tail
unfolding join_reversed
strip-join_reversed [] tail h (inl e) = e
strip-join_reversed [] tail h (inr ne) = absurd (ne refl)
strip-join_reversed (comp ∷ []) tail (p, h) q = strip-entry comp tail p
strip-join_reversed (comp ∷ below ∷ comps) tail (p, h) q =
    strip-join_reversed (below ∷ comps) (47 ∷ comp ++ tail) h (inr (λ e. cc e))

collapse-from_root :
    (comps : List (List ℕ))
    → All IsEntry comps
    → collapse true [] ((split_at 47 (from_root comps)).0 ∷ (split_at 47 (from_root comps)).1)
      ≡ comps
unfolding collapse push_comp split_at codes_eq join_reversed
collapse-from_root [] h = refl
collapse-from_root (comp ∷ comps) h =
    ap (collapse true []) (split-join_reversed comp comps [] [] h refl)
    ∙ collapse-rev_onto comps (comp ∷ []) h.1
    ∙ push_comp_entry comps comp h.0

normalize_path-unfold :
    (s : List ℕ)
    → normalize_path (47 ∷ s) ≡ normpath (47 ∷ strip_slashes (decode_repeatedly (47 ∷ s)))
unfolding normalize_path
normalize_path-unfold s = refl

decode_repeatedly-no_percent : (s : List ℕ) → All (λ c. c ≢ 37) s → decode_repeatedly s ≡ s
unfolding decode_repeatedly decode_rounds
decode_repeatedly-no_percent s h = rw (unquote-no_percent s h, (codes_eq_iff s s).1 refl) refl

canonical_fixed :
    (comps : List (List ℕ))
    → All IsEntry comps
    → All (λ c. c ≢ 37) (from_root comps)
    → normalize_path (from_root comps) ≡ from_root comps
canonical_fixed comps h k =
    normalize_path-unfold (join_reversed comps [])
    ∙ ap (λ (s : List ℕ). normpath (47 ∷ strip_slashes s))
        (decode_repeatedly-no_percent (from_root comps) k)
    ∙ ap (λ (s : List ℕ). normpath (47 ∷ s)) (strip-join_reversed comps [] h (inl refl))
    ∙ normpath_rooted (from_root comps) (
        ap (λ (s : List ℕ). initial_slashes (47 ∷ s))
          (sym (strip-join_reversed comps [] h (inl refl)))
        ∙ strip_slashes-initial (join_reversed comps []))
    ∙ ap from_root (collapse-from_root comps h)

-- A normal form without "%" is its own normal form.
pub normalize_path_idempotent :
    (c : ℕ) (s : List ℕ)
    → All (λ d. d ≢ 37) (normalize_path (c ∷ s))
    → normalize_path (normalize_path (c ∷ s)) ≡ normalize_path (c ∷ s)
normalize_path_idempotent c s h =
    let (comps, e, entries) = normalize_path-IsCanonical c s in
    ap normalize_path e
    ∙ canonical_fixed comps entries (subst (λ (p : List ℕ). All (λ d. d ≢ 37) p) e h)
    ∙ sym e
