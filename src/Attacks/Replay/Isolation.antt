-- ===== src/Attacks/Replay/Isolation.antt =====
-- attacks/common.py: a replay after a reset knows nothing of what the process did before.
use ai_agent_security_firewa.Prelude.{
  String, ◌≡◌, refl, ap, sym, ◌∙◌, List, [], Option, none, some, true,
}
use ai_agent_security_firewa.Identity.Tokens.{Codec, mint_token, verify_token}
use ai_agent_security_firewa.Risk.Scorer.{Piece}
use ai_agent_security_firewa.Risk.Behavior.{cold}
use ai_agent_security_firewa.Events.Store.{Db, empty}
use ai_agent_security_firewa.Pep.Pipeline.{run_pipeline}
use ai_agent_security_firewa.Pep.Pipeline.State.{Setup, Pep, Moment, PipelineResult}
use ai_agent_security_firewa.Pep.Proxy.{Logging, ToolCallRequest}
use ai_agent_security_firewa.Attacks.Replay.{
  LocalCall, reset_process_state, mint_local_token, run_locally, finish, unquarantined, request_of,
  local_claims,
}

module _ (setup : Setup) (render : List Piece → String) (log : Logging)
    (req : ToolCallRequest) where
  finish-result :
      (s t : Db) (x : Pep × Option PipelineResult)
      → (finish setup render log req s x).1 ≡ (finish setup render log req t x).1
  unfolding finish
  finish-result s t (pep, none) = refl
  finish-result s t (pep, some result) = refl

  finish-store :
      (s : Db) (x : Pep × Option PipelineResult) → (finish setup render log req s x).0.store ≡ s
  unfolding finish
  finish-store s (pep, none) = refl
  finish-store s (pep, some result) = refl

-- The process in which a replay after a reset runs, but for the event store.
started : Codec → Setup → Moment → LocalCall → Pep × Option PipelineResult
started codec setup moment call =
    run_pipeline (record setup { verify = verify_token codec })
      (record { taint = []; key_cached = true; behavior = cold; denials = []; store = empty })
      (record moment { check_up = true })
      (request_of call
        (mint_token codec (local_claims call.role call.service) moment.token_time)).call

-- The part of the process that a replay depends on.
abbrev pub relevant : Pep → Pep
relevant pep = record pep { key_cached = true; store = empty }

relevant-finish :
    (setup : Setup) (render : List Piece → String) (log : Logging) (req : ToolCallRequest) (s : Db)
    (x : Pep × Option PipelineResult)
    → relevant (finish setup render log req s x).0 ≡ relevant x.0
unfolding finish
relevant-finish setup render log req s (pep, none) = refl
relevant-finish setup render log req s (pep, some result) = refl

-- Processes that agree in what is relevant replay a call alike, and agree afterwards.
pub run_locally-relevant :
    (codec : Codec) (setup : Setup) (render : List Piece → String) (log : Logging) (moment : Moment)
    (call : LocalCall) (p q : Pep)
    → relevant p ≡ relevant q
    → ((run_locally codec setup render log moment call p).1
        ≡ (run_locally codec setup render log moment call q).1)
      × (relevant (run_locally codec setup render log moment call p).0
          ≡ relevant (run_locally codec setup render log moment call q).0)
unfolding run_locally mint_local_token unquarantined
run_locally-relevant codec setup render log moment call p q e =
    let own = record setup { verify = verify_token codec } in
    let token = mint_token codec (local_claims call.role call.service) moment.token_time in
    let req = request_of call token in
    let run = λ (r : Pep). run_pipeline own r (record moment { check_up = true }) req.call in
    (
      finish-result own render log req p.store q.store (run (relevant p))
          ∙ ap (λ (r : Pep). (finish own render log req q.store (run r)).1) e,
      relevant-finish own render log req p.store (run (relevant p))
          ∙ ap (λ (r : Pep). relevant (run r).0) e
          ∙ sym (relevant-finish own render log req q.store (run (relevant q))),
    )

-- After a reset, a call that is replayed has the same result and the same event whatever the process did
-- before, and it leaves the event store as it was.
pub run_locally-reset :
    (codec : Codec) (setup : Setup) (render : List Piece → String) (log : Logging) (moment : Moment)
    (call : LocalCall) (p q : Pep)
    → ((run_locally codec setup render log moment call (reset_process_state p)).1
        ≡ (run_locally codec setup render log moment call (reset_process_state q)).1)
      × ((run_locally codec setup render log moment call p).0.store ≡ p.store)
unfolding run_locally reset_process_state mint_local_token unquarantined started
run_locally-reset codec setup render log moment call p q =
    let own = record setup { verify = verify_token codec } in
    let token = mint_token codec (local_claims call.role call.service) moment.token_time in
    let req = request_of call token in
    (
      finish-result own render log req p.store q.store (started codec setup moment call),
      finish-store own render log req p.store (
          run_pipeline own (record p { key_cached = true; store = empty })
            (record moment { check_up = true }) req.call),
    )
