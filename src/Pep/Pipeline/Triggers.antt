-- ===== src/Pep/Pipeline/Triggers.antt =====
-- pep/pipeline.py: the triggers that put a workload in quarantine, and what becomes of its later calls.
use ai_agent_security_firewa.Prelude.{
  String, ◌≡◌, inl, inr, refl, ap, ◌∙◌, Bool, true, false, not, ◌&&◌, ◌||◌, Option, none, some,
  List, [], ◌∷◌, arith, Bool-cases, Option-cases, ◌==◌, eq_refl,
}
use ai_agent_security_firewa.Prelude.Dict.{get}
use ai_agent_security_firewa.Policy.Decision.{blocked}
use ai_agent_security_firewa.Events.Store.{Db, quarantine_is_active}
use ai_agent_security_firewa.Events.App.{enter_quarantine}
use ai_agent_security_firewa.Pep.Quarantine.{record_denial, is_quarantined, enter}
use ai_agent_security_firewa.Pep.Quarantine.Gate.{entered-active, is_quarantined-active}
use ai_agent_security_firewa.Pep.Pipeline.Targets.{Target}
use ai_agent_security_firewa.Pep.Pipeline.Identify.{Identified, accepted}
use ai_agent_security_firewa.Pep.Pipeline.{
  conclude, record_call, at_gate, at_identity, identify, fetch_key, run_pipeline, enter_if,
  enter_on_denials, on_blocked,
}
use ai_agent_security_firewa.Pep.Pipeline.Assess.{Assessment}
use ai_agent_security_firewa.Pep.Pipeline.State.{
  Setup, Pep, Moment, Entry, ToolCall, PipelineResult, deny_early,
}
use ai_agent_security_firewa.Pep.Pipeline.Mediation.{IsAssessed, run_pipeline-cases}
use ai_agent_security_firewa.Pep.Pipeline.Clearance.{assessment}
use ai_agent_security_firewa.Pep.Pipeline.Taint.{run_all, run_pipeline-none}

-- The event store answers, and its database has no fault.
abbrev pub is_made : Entry → Bool
is_made entry = entry.up && not entry.fault

enter-active :
    (key reason other : String) (entry : Entry) (db : Db)
    → quarantine_is_active other (enter key reason entry.up entry.at entry.fault db).0
      ≡ ((is_made entry && key == other) || quarantine_is_active other db)
unfolding enter enter_quarantine get
enter-active key reason other entry db = elim (Bool-cases entry.up) [
  | inl e ↦ elim (Bool-cases entry.fault) [
    | inl f ↦ rw (e, f) refl
    | inr f ↦ rw (e, f) (entered-active key reason entry.at other db)
  ]
  | inr e ↦ rw e refl
]

enter_if-active :
    (b : Bool) (key reason other : String) (entry : Entry) (pep : Pep)
    → quarantine_is_active other (enter_if b key reason entry pep).store
      ≡ (((b && is_made entry) && key == other) || quarantine_is_active other pep.store)
unfolding enter_if
enter_if-active true key reason other entry pep = enter-active key reason other entry pep.store
enter_if-active false key reason other entry pep = refl

-- The blocked call is the fifth within the window.
abbrev pub is_repeated : Pep → Moment → String → Bool
is_repeated pep moment key = (record_denial pep.denials moment.denial_time key).1

on_blocked-active :
    (b : Bool) (key other : String) (moment : Moment) (pep : Pep)
    → quarantine_is_active other (on_blocked b key moment pep).store ≡ (
        (((b && is_repeated pep moment key) && is_made moment.denial_entry) && key == other)
        || quarantine_is_active other pep.store)
unfolding on_blocked enter_on_denials
on_blocked-active false key other moment pep = refl
on_blocked-active true key other moment pep =
    enter_if-active (record_denial pep.denials moment.denial_time key).1 key
      "5+ denials within 60 seconds" other moment.denial_entry
      (record pep { denials = (record_denial pep.denials moment.denial_time key).0 })

-- One of the three triggers fires, and the event store makes the entry.
abbrev pub triggers : Pep → Moment → String → Assessment → Bool
triggers pep moment key a =
    (a.ti_hit && is_made moment.hit_entry)
    || (a.risk.band == "CRITICAL" && is_made moment.critical_entry)
    || ((blocked a.final.0 && is_repeated pep moment key) && is_made moment.denial_entry)

gather :
    (hit critical repeated same old : Bool)
    → ((hit && same) || ((critical && same) || ((repeated && same) || old)))
      ≡ ((((hit || critical) || repeated) && same) || old)
gather hit critical repeated same old = ground arith

conclude-active :
    (pep : Pep) (moment : Moment) (role key other : String) (call : ToolCall) (target : Target)
    (a : Assessment)
    → quarantine_is_active other (conclude pep moment role key call target a).store
      ≡ ((triggers pep moment key a && key == other) || quarantine_is_active other pep.store)
unfolding conclude
conclude-active pep moment role key other call target a =
    let recorded = record_call pep moment role key call target a.final.0 in
    let third = on_blocked (blocked a.final.0) key moment recorded in
    let second =
      enter_if (a.risk.band == "CRITICAL") key "risk score reached CRITICAL band"
        moment.critical_entry third in
    let hit = a.ti_hit && is_made moment.hit_entry in
    let critical = a.risk.band == "CRITICAL" && is_made moment.critical_entry in
    let repeated =
      (blocked a.final.0 && is_repeated pep moment key) && is_made moment.denial_entry in
    enter_if-active a.ti_hit key "threat-intelligence hit on destination" other moment.hit_entry
      second
    ∙ ap (λ (b : Bool). (hit && key == other) || b)
        (enter_if-active (a.risk.band == "CRITICAL") key "risk score reached CRITICAL band" other
            moment.critical_entry third
          ∙ ap (λ (b : Bool). (critical && key == other) || b)
              (on_blocked-active (blocked a.final.0) key other moment recorded))
    ∙ gather hit critical repeated (key == other) (quarantine_is_active other pep.store)

or_keeps : (after fires before : Bool) → after ≡ (fires || before) → before ≡ true → after ≡ true
or_keeps after fires before e h = ground arith

-- No call takes a workload out of quarantine.
stays_active :
    (setup : Setup) (pep : Pep) (moment : Moment) (call : ToolCall) (key : String)
    → quarantine_is_active key pep.store ≡ true
    → quarantine_is_active key (run_pipeline setup pep moment call).0.store ≡ true
stays_active setup pep moment call key h =
    elim (Option-cases (run_pipeline setup pep moment call).1) [
      | inl e ↦
          ap (λ (p : Pep). quarantine_is_active key p.store)
            (run_pipeline-none setup pep moment call e)
          ∙ h
      | inr (r, e) ↦ elim (run_pipeline-cases setup pep moment call r e) [
        | inl (_, q) ↦ ap (λ (p : Pep). quarantine_is_active key p.store) q ∙ h
        | inr s ↦
            ap (λ (p : Pep). quarantine_is_active key p.store) s.state
            ∙ or_keeps _ _ _
                (conclude-active (fetch_key pep moment call) moment s.role s.workload_key key call
                  s.target
                  (assessment setup pep moment call (run_pipeline setup pep moment call).0 r s))
                h
      ]
    ]

run_all-active :
    (setup : Setup) (pep : Pep) (calls : List (Moment × ToolCall)) (key : String)
    → quarantine_is_active key pep.store ≡ true
    → quarantine_is_active key (run_all setup pep calls).store ≡ true
unfolding run_all
run_all-active setup pep [] key h = h
run_all-active setup pep ((moment, call) ∷ calls) key h =
    run_all-active setup (run_pipeline setup pep moment call).0 calls key
      (stays_active setup pep moment call key h)

-- The answer to a workload in quarantine.
abbrev pub quarantine_reply : Bool → String → PipelineResult
quarantine_reply true agent_key = deny_early "AGENT_QUARANTINED" "QUARANTINE_DENY" agent_key
quarantine_reply false agent_key =
    deny_early "quarantine_check_unavailable" "QUARANTINE_CHECK_FAILED" agent_key

unavailable : (key : String) (db : Db) → is_quarantined key false db ≡ none
unfolding is_quarantined
unavailable key db = refl

gate-reply :
    (setup : Setup) (pep : Pep) (moment : Moment) (call : ToolCall) (role agent_key key : String)
    → quarantine_is_active key pep.store ≡ true
    → at_identity setup pep moment call (accepted role agent_key key)
      ≡ (pep, some (quarantine_reply moment.check_up agent_key))
unfolding at_identity at_gate
gate-reply setup pep moment call role agent_key key h = elim (Bool-cases moment.check_up) [
  | inl e ↦ rw (e, is_quarantined-active key pep.store, h) refl
  | inr e ↦ rw (e, unavailable key pep.store) refl
]

-- Once a call of a workload is assessed and one of the triggers fires (a hit on the list of bad names,
-- a CRITICAL risk, or the fifth blocked call within 60 seconds) while the event store makes the entry,
-- every later call that is identified as that workload is denied before any stage, whatever calls lie
-- between: as quarantined, or as unchecked where the event store does not answer.
pub run_all-quarantined :
    (setup : Setup) (pep : Pep) (first : Moment) (trigger : ToolCall) (r : PipelineResult)
    (s : IsAssessed setup pep first trigger (run_pipeline setup pep first trigger).0 r)
    (calls : List (Moment × ToolCall)) (moment : Moment) (call : ToolCall) (role agent_key : String)
    → triggers pep first s.workload_key
        (assessment setup pep first trigger (run_pipeline setup pep first trigger).0 r s)
      ≡ true
    → identify setup (run_all setup (run_pipeline setup pep first trigger).0 calls) moment call
      ≡ accepted role agent_key s.workload_key
    → (run_pipeline setup
        (run_all setup (run_pipeline setup pep first trigger).0 calls)
        moment
        call).1
      ≡ some (quarantine_reply moment.check_up agent_key)
unfolding run_pipeline
run_all-quarantined setup pep first trigger r s calls moment call role agent_key fires who =
    let after = run_all setup (run_pipeline setup pep first trigger).0 calls in
    let held : quarantine_is_active s.workload_key (run_pipeline setup pep first trigger).0.store
        ≡ true =
      ap (λ (p : Pep). quarantine_is_active s.workload_key p.store) s.state
      ∙ ground (
        arith,
        conclude-active (fetch_key pep first trigger) first s.role s.workload_key s.workload_key
            trigger s.target
            (assessment setup pep first trigger (run_pipeline setup pep first trigger).0 r s),
        eq_refl s.workload_key,
      ) in
    ap (λ (i : Identified). (at_identity setup (fetch_key after moment call) moment call i).1) who
    ∙ ap (λ (p : Pep × Option PipelineResult). p.1)
        (gate-reply setup (fetch_key after moment call) moment call role agent_key s.workload_key
          (run_all-active setup (run_pipeline setup pep first trigger).0 calls s.workload_key held))
