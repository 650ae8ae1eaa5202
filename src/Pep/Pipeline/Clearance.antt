-- ===== src/Pep/Pipeline/Clearance.antt =====
-- pep/pipeline.py: a decision is the narrowest of the stages' verdicts, and what executes is cleared by
-- all of them.
use ai_agent_security_firewa.Prelude.{
  ◌||◌, ℕ, List, Bool, ◌∙◌, none, String, ◌≡◌, ◌⊎◌, inl, inr, refl, ap, sym, true, false, some,
  arith, Bool-cases, subst,
}
use mathlib.Core.Option.{some-injective}
use ai_agent_security_firewa.Prelude.Order.{min_by}
use ai_agent_security_firewa.Events.Store.{Db, quarantine_is_active}
use ai_agent_security_firewa.Identity.Tokens.{Claims, valid}
use ai_agent_security_firewa.Pep.Quarantine.{is_quarantined}
use ai_agent_security_firewa.Pep.Quarantine.Gate.{is_quarantined-active}
use ai_agent_security_firewa.Pep.Pipeline.Stages.Binding.{IsBound, verify_identity-IsBound}
use ai_agent_security_firewa.Policy.Decision.{Decision, executable, ◌⊑◌}
use ai_agent_security_firewa.Risk.Scorer.Bounds.{score-threat_intel_hit}
use ai_agent_security_firewa.ThreatIntel.Feed.{is_known_bad}
use ai_agent_security_firewa.Pep.Pipeline.Stages.{least, lower_decision, risk_reason}
use ai_agent_security_firewa.Pep.Pipeline.{result_of, identify, fetch_key, run_pipeline}
use ai_agent_security_firewa.Pep.Pipeline.Assess.{Assessment, assess}
use ai_agent_security_firewa.Pep.Pipeline.State.{Setup, Pep, Moment, ToolCall, PipelineResult}
use ai_agent_security_firewa.Pep.Pipeline.Mediation.{IsAssessed, run_pipeline-cases}

-- The least of three verdicts is at most each of them, and is one of them.
pub least-below :
    (p d k : Decision × String)
    → ((least p d k).0 ⊑ p.0)
      × ((least p d k).0 ⊑ d.0)
      × ((least p d k).0 ⊑ k.0)
      × ((least p d k ≡ p) ⊎ ((least p d k ≡ d) ⊎ (least p d k ≡ k)))
unfolding least min_by
least-below p d k = elim (Bool-cases (lower_decision d p)) [
  | inl e ↦ rw e (elim (Bool-cases (lower_decision k d)) [
    | inl f ↦ rw f ((ground arith), (ground arith), (ground arith), inr (inr refl))
    | inr f ↦ rw f ((ground arith), (ground arith), (ground arith), inr (inl refl))
  ])
  | inr e ↦ rw e (elim (Bool-cases (lower_decision k p)) [
    | inl f ↦ rw f ((ground arith), (ground arith), (ground arith), inr (inr refl))
    | inr f ↦ rw f ((ground arith), (ground arith), (ground arith), inl refl)
  ])
]

unanswered : (key : String) (db : Db) → is_quarantined key false db ≡ none
unfolding is_quarantined
unanswered key db = refl

-- An open gate means that the event store answered and does not list the workload.
gate-free :
    (key : String) (up : Bool) (db : Db)
    → is_quarantined key up db ≡ some false
    → (up ≡ true) × (quarantine_is_active key db ≡ false)
gate-free key false db e = cc (unanswered key db)
gate-free key true db e = (refl, some-injective _ _ (sym (is_quarantined-active key db) ∙ e))

executable_up : (d e : Decision) → d ⊑ e → executable d ≡ true → executable e ≡ true
executable_up d e h x = ground arith

-- What the stages found for a call that was assessed.
abbrev pub assessment :
    (setup : Setup) (pep : Pep) (moment : Moment) (call : ToolCall) (after : Pep)
    (r : PipelineResult)
    → IsAssessed setup pep moment call after r
    → Assessment
assessment setup pep moment call after r s =
    assess setup (fetch_key pep moment call) moment s.role s.workload_key call s.arguments s.target

module _ (setup : Setup) (pep : Pep) (moment : Moment) (call : ToolCall) (after : Pep)
    (r : PipelineResult) where
  -- How the final verdict stands to those of the stages.
  pub record IsNarrowest (s : IsAssessed setup pep moment call after r) : Type 0 where
    pub policy : r.decision ⊑ (assessment setup pep moment call after r s).policy.decision
    pub dlp : r.decision ⊑ (assessment setup pep moment call after r s).dlp.0
    pub risk : r.decision ⊑ (assessment setup pep moment call after r s).risk.decision_ceiling

  pub IsAssessed-IsNarrowest : (s : IsAssessed setup pep moment call after r) → IsNarrowest s
  unfolding assess result_of
  IsAssessed-IsNarrowest s =
      let a = assessment setup pep moment call after r s in
      let (below_policy, below_dlp, below_risk, _) =
        least-below (a.policy.decision, a.policy.reason) a.dlp
          (a.risk.decision_ceiling, risk_reason a.risk.band) in
      let e : r.decision ≡ a.final.0 = ap (λ (q : PipelineResult). q.decision) s.result in
      record {
        policy = subst (λ d. d ⊑ a.policy.decision) (sym e) below_policy;
        dlp = subst (λ d. d ⊑ a.dlp.0) (sym e) below_dlp;
        risk = subst (λ d. d ⊑ a.risk.decision_ceiling) (sym e) below_risk;
      }

  -- Everything that an executable decision depends on.
  pub record IsCleared : Type 0 where
    pub assessed : IsAssessed setup pep moment call after r
    -- the token that was presented, and its claims
    pub token : List ℕ
    pub presented : call.token ≡ some token
    pub claims : Claims
    pub verified : setup.verify token moment.token_time ≡ valid claims
    pub bound : IsBound claims call.peer_ip assessed.role
    -- the quarantine table
    pub answered : moment.check_up ≡ true
    pub free : quarantine_is_active assessed.workload_key pep.store ≡ false
    -- the stages' own verdicts
    pub policy :
        executable (assessment setup pep moment call after r assessed).policy.decision ≡ true
    pub dlp : executable (assessment setup pep moment call after r assessed).dlp.0 ≡ true
    pub ceiling :
        executable (assessment setup pep moment call after r assessed).risk.decision_ceiling ≡ true
    pub not_listed : is_known_bad setup.listed assessed.target.fqdn ≡ false

  IsAssessed-IsCleared :
      IsAssessed setup pep moment call after r → executable r.decision ≡ true → IsCleared
  unfolding assess identify
  IsAssessed-IsCleared s x =
      let n = IsAssessed-IsNarrowest s in
      let a = assessment setup pep moment call after r s in
      let (t, p, (c, v, b)) =
        verify_identity-IsBound setup.verify call.token call.peer_ip
          (pep.key_cached || moment.issuer_up) moment.token_time s.role s.agent_key s.workload_key
          s.identified in
      let (up, out) = gate-free s.workload_key moment.check_up pep.store s.gate in
      record {
        assessed = s;
        token = t;
        presented = p;
        claims = c;
        verified = v;
        bound = b;
        answered = up;
        free = out;
        policy = executable_up r.decision a.policy.decision n.policy x;
        dlp = executable_up r.decision a.dlp.0 n.dlp x;
        ceiling = executable_up r.decision a.risk.decision_ceiling n.risk x;
        not_listed = elim (Bool-cases (is_known_bad setup.listed s.target.fqdn)) [
          | inl h ↦ cc (x, score-threat_intel_hit _ _ _ r.decision h n.risk)
          | inr h ↦ h
        ];
      }

-- A call whose result has an executable decision was mediated completely: the token that it presents
-- verified and names the peer's address and the role, the event store answered and did not list the
-- workload, the result is that of the stages on the canonical arguments, policy, inspection and risk
-- each allow execution for themselves, and the destination is not on the list of bad names.
pub run_pipeline-IsCleared :
    (setup : Setup) (pep : Pep) (moment : Moment) (call : ToolCall) (r : PipelineResult)
    → (run_pipeline setup pep moment call).1 ≡ some r
    → executable r.decision ≡ true
    → IsCleared setup pep moment call (run_pipeline setup pep moment call).0 r
run_pipeline-IsCleared setup pep moment call r e x =
    elim (run_pipeline-cases setup pep moment call r e) [
      | inl (d, _) ↦ cc (x, ap executable d)
      | inr s ↦
          IsAssessed-IsCleared setup pep moment call (run_pipeline setup pep moment call).0 r s x
    ]
