-- ===== src/Risk/Scorer/Novelty.antt =====
-- risk/scorer.py: what makes a destination or a pair of tools new, and what no longer does.
use ai_agent_security_firewa.Prelude.{
  ℕ, suc, String, ◌≡◌, ◌↔◌, ◌⊎◌, inl, inr, refl, ap, sym, ◌∙◌, true, Option, none, some, List, [],
  ◌∷◌, In, length, ◌==◌, eq_iff, Bool-cases, arith,
}
use ai_agent_security_firewa.Prelude.Dict.{
  Dict, get_default, get_default-put, contains, contains-add, add,
}
use ai_agent_security_firewa.Risk.Outcomes.{
  Outcome, BaselineEvent, note_org, note_agent, record_outcome, record_all, seed_event, warm_up,
}
use ai_agent_security_firewa.Risk.Behavior.{Behavior}
use ai_agent_security_firewa.Risk.Scorer.{destination_factors}

-- A destination that the organisation, or this agent, has called.
abbrev pub KnownToOrg : Behavior → String → Type 0
KnownToOrg b dest = contains b.seen_by_org dest ≡ true

abbrev pub KnownToAgent : Behavior → String → String → Type 0
KnownToAgent b agent dest = contains (get_default b.seen_by_agent agent []) dest ≡ true

note_org_iff :
    (seen : List String) (d : Option String) (dest : String)
    → (contains (note_org seen d) dest ≡ true) ↔ ((d ≡ some dest) ⊎ (contains seen dest ≡ true))
unfolding note_org
note_org_iff seen none dest = ground arith
note_org_iff seen (some e) dest = ground (arith, contains-add seen e dest, eq_iff e dest)

note_agent_iff :
    (seen : Dict (List String)) (a : String) (d : Option String) (agent dest : String)
    → (contains (get_default (note_agent seen a d) agent []) dest ≡ true)
      ↔ (((a ≡ agent) × (d ≡ some dest)) ⊎ (contains (get_default seen agent []) dest ≡ true))
unfolding note_agent
note_agent_iff seen a none agent dest = ground arith
note_agent_iff seen a (some e) agent dest = elim (Bool-cases (a == agent)) [
  | inl q ↦
      let same : a ≡ agent = (eq_iff a agent).0 q in
      rw (get_default-put seen a agent (add (get_default seen a []) e) [], q)
        (ground (
          arith,
          same,
          contains-add (get_default seen a []) e dest,
          eq_iff e dest,
          ap (λ (j : String). contains (get_default seen j []) dest) same,
        ))
  | inr q ↦
      rw (get_default-put seen a agent (add (get_default seen a []) e) [], q)
        (ground (arith, eq_iff a agent))
]

-- A destination is known after an outcome exactly if it was known before or the outcome names it.
record_outcome-KnownToOrg :
    (b : Behavior) (now : ℕ) (o : Outcome) (dest : String)
    → KnownToOrg (record_outcome b now o) dest
      ↔ ((o.destination_key ≡ some dest) ⊎ KnownToOrg b dest)
unfolding record_outcome
record_outcome-KnownToOrg b now o dest = note_org_iff b.seen_by_org o.destination_key dest

record_outcome-KnownToAgent :
    (b : Behavior) (now : ℕ) (o : Outcome) (agent dest : String)
    → KnownToAgent (record_outcome b now o) agent dest
      ↔ (((o.agent_id ≡ agent) × (o.destination_key ≡ some dest)) ⊎ KnownToAgent b agent dest)
unfolding record_outcome
record_outcome-KnownToAgent b now o agent dest =
    note_agent_iff b.seen_by_agent o.agent_id o.destination_key agent dest

record_all-KnownToOrg :
    (b : Behavior) (os : List (ℕ × Outcome)) (dest : String)
    → KnownToOrg b dest
    → KnownToOrg (record_all b os) dest
unfolding record_all
record_all-KnownToOrg b [] dest h = h
record_all-KnownToOrg b ((t, o) ∷ os) dest h =
    record_all-KnownToOrg (record_outcome b t o) os dest
      ((record_outcome-KnownToOrg b t o dest).1 (inr h))

record_all-KnownToAgent :
    (b : Behavior) (os : List (ℕ × Outcome)) (agent dest : String)
    → KnownToAgent b agent dest
    → KnownToAgent (record_all b os) agent dest
unfolding record_all
record_all-KnownToAgent b [] agent dest h = h
record_all-KnownToAgent b ((t, o) ∷ os) agent dest h =
    record_all-KnownToAgent (record_outcome b t o) os agent dest
      ((record_outcome-KnownToAgent b t o agent dest).1 (inr h))

known_has_no_factor :
    (b : Behavior) (agent dest : String)
    → KnownToOrg b dest
    → KnownToAgent b agent dest
    → destination_factors b agent (some dest) ≡ []
unfolding destination_factors
known_has_no_factor b agent dest h k = ground arith

-- Once a call of an agent to a destination is recorded, that destination adds no risk factor to a later
-- call of the agent, whatever is recorded before and after.
pub destination_factors-record_all :
    (b : Behavior) (os : List (ℕ × Outcome)) (t : ℕ) (o : Outcome) (dest : String)
    → In (t, o) os
    → o.destination_key ≡ some dest
    → destination_factors (record_all b os) o.agent_id (some dest) ≡ []
unfolding record_all
destination_factors-record_all b [] t o dest m e = absurd m
destination_factors-record_all b ((s, p) ∷ os) t o dest (inl q) e =
    let same : o ≡ p = ap (λ (x : ℕ × Outcome). x.1) q in
    let named : p.destination_key ≡ some dest =
      sym (ap (λ (x : Outcome). x.destination_key) same) ∙ e in
    let agent : p.agent_id ≡ o.agent_id = sym (ap (λ (x : Outcome). x.agent_id) same) in
    known_has_no_factor (record_all (record_outcome b s p) os) o.agent_id dest
      (record_all-KnownToOrg (record_outcome b s p) os dest
        ((record_outcome-KnownToOrg b s p dest).1 (inl named)))
      (record_all-KnownToAgent (record_outcome b s p) os o.agent_id dest
        ((record_outcome-KnownToAgent b s p o.agent_id dest).1 (inl (agent, named))))
destination_factors-record_all b ((s, p) ∷ os) t o dest (inr m) e =
    destination_factors-record_all (record_outcome b s p) os t o dest m e

-- What a baseline teaches, and what it leaves alone.
pub record IsSeeded (b : Behavior) (es : List BaselineEvent) : Type 0 where
  pub count : (warm_up b es).1 ≡ length es
  pub call_times : (warm_up b es).0.call_times ≡ b.call_times
  pub denial_streak : (warm_up b es).0.denial_streak ≡ b.denial_streak
  pub org :
      (dest : String)
      → KnownToOrg (warm_up b es).0 dest
        ↔ (KnownToOrg b dest ⊎ ((e : BaselineEvent) × In e es × (e.destination_key ≡ some dest)))

seed_event-KnownToOrg :
    (b : Behavior) (e : BaselineEvent) (dest : String)
    → KnownToOrg (seed_event b e) dest ↔ ((e.destination_key ≡ some dest) ⊎ KnownToOrg b dest)
unfolding seed_event
seed_event-KnownToOrg b e dest = note_org_iff b.seen_by_org e.destination_key dest

abbrev Teaches : List BaselineEvent → String → Type 0
Teaches es dest = (e : BaselineEvent) × In e es × (e.destination_key ≡ some dest)

Teaches-cons :
    (e : BaselineEvent) (es : List BaselineEvent) (dest : String)
    → Teaches (e ∷ es) dest ↔ ((e.destination_key ≡ some dest) ⊎ Teaches es dest)
Teaches-cons e es dest = (
  (λ (f, m, q). elim m [
    | inl p ↦ inl (sym (ap (λ (x : BaselineEvent). x.destination_key) p) ∙ q)
    | inr n ↦ inr (f, n, q)
  ]),
  λ h. elim h [ inl q ↦ (e, inl refl, q) | inr (f, n, q) ↦ (f, inr n, q) ],
)

warm_org :
    (b : Behavior) (e : BaselineEvent) (es : List BaselineEvent) (dest : String)
    → KnownToOrg (warm_up (seed_event b e) es).0 dest
      ↔ (KnownToOrg (seed_event b e) dest ⊎ Teaches es dest)
    → KnownToOrg (warm_up (seed_event b e) es).0 dest ↔ (KnownToOrg b dest ⊎ Teaches (e ∷ es) dest)
warm_org b e es dest (to, from) =
    let (s_to, s_from) = seed_event-KnownToOrg b e dest in
    let (t_to, t_from) = Teaches-cons e es dest in
    (
      (λ h. elim (to h) [
        | inl k ↦ elim (s_to k) [ inl q ↦ inr (t_from (inl q)) | inr k' ↦ inl k' ]
        | inr k ↦ inr (t_from (inr k))
      ]),
      λ h. elim h [
        | inl k ↦ from (inl (s_from (inr k)))
        | inr k ↦ elim (t_to k) [ inl q ↦ from (inl (s_from (inl q))) | inr k' ↦ from (inr k') ]
      ],
    )

seed_event-rest :
    (b : Behavior) (e : BaselineEvent)
    → ((seed_event b e).call_times ≡ b.call_times)
      × ((seed_event b e).denial_streak ≡ b.denial_streak)
unfolding seed_event
seed_event-rest b e = (refl, refl)

-- Warming up counts the events, changes neither the rate windows nor the denial streaks, so that a
-- baseline causes no rate anomaly, and makes exactly the baseline's destinations known to the
-- organisation, beside those known before.
pub warm_up-IsSeeded : (b : Behavior) (es : List BaselineEvent) → IsSeeded b es
unfolding warm_up
warm_up-IsSeeded b [] = record {
  count = refl;
  call_times = refl;
  denial_streak = refl;
  org = λ dest. (inl, λ h. elim h [ inl k ↦ k | inr (e, m, q) ↦ absurd m ]);
}
warm_up-IsSeeded b (e ∷ es) =
    let w = warm_up-IsSeeded (seed_event b e) es in
    record {
      count = ap suc w.count;
      call_times = w.call_times ∙ (seed_event-rest b e).0;
      denial_streak = w.denial_streak ∙ (seed_event-rest b e).1;
      org = λ dest. warm_org b e es dest (w.org dest);
    }
