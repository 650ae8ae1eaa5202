-- ===== src/Risk/Scorer/Streak.antt =====
-- risk/scorer.py: the denial streak counts the DENY outcomes at the end of an agent's history. A
-- QUARANTINE outcome is no DENY, and ends a streak.
use ai_agent_security_firewa.Prelude.{
  ℕ, suc, String, ◌≡◌, refl, ap, ◌∙◌, List, [], ◌∷◌, ◌==◌, eq_iff, Bool-cases, if◌then◌else◌, inl,
  inr,
}
use ai_agent_security_firewa.Prelude.Dict.{Dict, get, get_default, get_default-put}
use ai_agent_security_firewa.Policy.Decision.{Decision, deny, is_decision}
use ai_agent_security_firewa.Risk.Outcomes.{Outcome, note_streak, record_outcome, record_all}
use ai_agent_security_firewa.Risk.Behavior.{Behavior, cold}

-- The agent's decisions, the latest first, in front of earlier ones.
abbrev pub latest_first : String → List (ℕ × Outcome) → List Decision → List Decision
latest_first agent [] ds = ds
latest_first agent ((t, o) ∷ os) ds =
    latest_first agent os (if o.agent_id == agent then o.decision ∷ ds else ds)

-- How many of the first decisions are DENY.
abbrev pub leading_denials : List Decision → ℕ
leading_denials [] = 0
leading_denials (d ∷ ds) = if is_decision d deny then suc (leading_denials ds) else 0

note_streak-get :
    (s : Dict ℕ) (a : String) (d : Decision) (agent : String)
    → get_default (note_streak s a d) agent 0 ≡ (
        if a == agent
        then (if is_decision d deny then suc (get_default s a 0) else 0)
        else get_default s agent 0)
unfolding note_streak
note_streak-get s a d agent = elim (Bool-cases (is_decision d deny)) [
  | inl e ↦ rw (e, get_default-put s a agent (suc (get_default s a 0)) 0)
  | inr e ↦ rw (e, get_default-put s a agent 0 0)
]

streak-step :
    (b : Behavior) (t : ℕ) (o : Outcome) (agent : String) (ds : List Decision)
    → get_default b.denial_streak agent 0 ≡ leading_denials ds
    → get_default (record_outcome b t o).denial_streak agent 0
      ≡ leading_denials (if o.agent_id == agent then o.decision ∷ ds else ds)
unfolding record_outcome
streak-step b t o agent ds h = elim (Bool-cases (o.agent_id == agent)) [
  | inl e ↦
      rw (note_streak-get b.denial_streak o.agent_id o.decision agent, e)
        (ap (λ (n : ℕ). if is_decision o.decision deny then suc n else 0)
          (ap (λ (j : String). get_default b.denial_streak j 0) ((eq_iff o.agent_id agent).0 e)
            ∙ h))
  | inr e ↦ rw (note_streak-get b.denial_streak o.agent_id o.decision agent, e) h
]

streak-record_all :
    (b : Behavior) (os : List (ℕ × Outcome)) (agent : String) (ds : List Decision)
    → get_default b.denial_streak agent 0 ≡ leading_denials ds
    → get_default (record_all b os).denial_streak agent 0
      ≡ leading_denials (latest_first agent os ds)
unfolding record_all
streak-record_all b [] agent ds h = h
streak-record_all b ((t, o) ∷ os) agent ds h =
    streak-record_all (record_outcome b t o) os agent
      (if o.agent_id == agent then o.decision ∷ ds else ds) (streak-step b t o agent ds h)

-- Whatever a cold scorer has recorded, an agent's denial streak is the number of DENY outcomes since
-- the agent's last outcome of another kind.
pub denial_streak-record_all :
    (os : List (ℕ × Outcome)) (agent : String)
    → get_default (record_all cold os).denial_streak agent 0
      ≡ leading_denials (latest_first agent os [])
unfolding get
denial_streak-record_all os agent = streak-record_all cold os agent [] refl
