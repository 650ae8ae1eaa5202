-- ===== src/Evals/Score/Isolation.antt =====
-- evals/score.py: neither corpus bears on the other's scores.
use ai_agent_security_firewa.Prelude.{
  ℕ, suc, String, ◌≡◌, refl, ap, ap₂, sym, ◌∙◌, Option, none, some, List, [], ◌∷◌, length,
}
use ai_agent_security_firewa.Risk.Scorer.{Piece}
use ai_agent_security_firewa.Risk.Outcomes.{BaselineEvent}
use ai_agent_security_firewa.Identity.Tokens.{Codec}
use ai_agent_security_firewa.Pep.Pipeline.State.{Setup, Pep, Moment}
use ai_agent_security_firewa.Pep.Proxy.{Logging}
use ai_agent_security_firewa.Attacks.Replay.{LocalCall, reset_process_state}
use ai_agent_security_firewa.Attacks.Replay.Isolation.{relevant, run_locally-relevant}
use ai_agent_security_firewa.Evals.Corpus.{CorpusRecord}
use ai_agent_security_firewa.Evals.Score.{
  Rate, false_positive_rate, approval_rate, throttle_rate, ReplayOutcome, at_offset, add_result,
  local_call_of, run_call, replay_corpus, seeded, Evaluation, report_of, run_evaluation,
}

abbrev Part : Type 0
Part = ReplayOutcome × Rate × Rate × Rate

-- What an evaluation says of the benign corpus.
abbrev pub benign_part : Evaluation → Part
benign_part e = (e.benign, e.false_positive, e.approval, e.throttle)

part_of : Option ReplayOutcome → Option Part
part_of none = none
part_of (some b) =
    some (b, false_positive_rate b.decisions, approval_rate b.decisions, throttle_rate b.decisions)

part_or_none : Option Evaluation → Option Part
part_or_none none = none
part_or_none (some e) = some (benign_part e)

part_injective : {a b : Part} → some a ≡ some b → a ≡ b
part_injective e = cc e

report_of-part :
    (n m : ℕ) (a b : Option ReplayOutcome) (e : Evaluation)
    → report_of n m a b ≡ some e
    → part_of b ≡ some (benign_part e)
unfolding report_of part_of part_or_none
report_of-part n m none b e h = absurd (cc h)
report_of-part n m (some a) none e h = absurd (cc h)
report_of-part n m (some a) (some b) e h = ap part_or_none h

module _ (codec : Codec) (setup : Setup) (render : List Piece → String) (logs : ℕ → Logging)
    (moments : ℕ → Moment) (corpus_start : ℕ) where
  run_call-relevant :
      (i offset : ℕ) (p q : Pep) (call : Option LocalCall)
      → relevant p ≡ relevant q
      → ((run_call codec setup render logs moments corpus_start i offset p call).1
          ≡ (run_call codec setup render logs moments corpus_start i offset q call).1)
        × (relevant (run_call codec setup render logs moments corpus_start i offset p call).0
            ≡ relevant (run_call codec setup render logs moments corpus_start i offset q call).0)
  unfolding run_call
  run_call-relevant i offset p q none e = (refl, e)
  run_call-relevant i offset p q (some call) e =
      run_locally-relevant codec setup render (logs i) (at_offset corpus_start offset (moments i))
        call p q e

  replay_corpus-relevant :
      (i : ℕ) (records : List CorpusRecord) (p q : Pep)
      → relevant p ≡ relevant q
      → (replay_corpus codec setup render logs moments corpus_start i records p).1
        ≡ (replay_corpus codec setup render logs moments corpus_start i records q).1
  unfolding replay_corpus
  replay_corpus-relevant i [] p q e = refl
  replay_corpus-relevant i (rec ∷ records) p q e =
      let call = local_call_of i rec.id rec.role rec.service rec.tool rec.arguments in
      let (same, after) = run_call-relevant i rec.offset_seconds p q call e in
      ap₂ add_result same (
        replay_corpus-relevant (suc i) records
          (run_call codec setup render logs moments corpus_start i rec.offset_seconds p call).0
          (run_call codec setup render logs moments corpus_start i rec.offset_seconds q call).0
          after)

  -- A replay after the reset and the baseline gives the same decisions whatever the process did before.
  replay_corpus-seeded :
      (baseline : List BaselineEvent) (records : List CorpusRecord) (p q : Pep)
      → (replay_corpus codec setup render logs moments corpus_start 0 records
          (seeded codec setup render logs moments corpus_start baseline p)).1
        ≡ (replay_corpus codec setup render logs moments corpus_start 0 records
            (seeded codec setup render logs moments corpus_start baseline q)).1
  unfolding seeded reset_process_state
  replay_corpus-seeded baseline records p q =
      replay_corpus-relevant 0 records
        (seeded codec setup render logs moments corpus_start baseline p)
        (seeded codec setup render logs moments corpus_start baseline q) refl

  -- The scores of the benign corpus depend neither on the attack corpus, which is replayed before it, nor on
  -- what the process did before that: two evaluations that return have the same outcome, false-positive rate,
  -- approval rate and throttle rate on it.
  pub run_evaluation-benign_part :
      (baseline : List BaselineEvent) (attacks others benigns : List CorpusRecord) (p q : Pep)
      (e f : Evaluation)
      → (run_evaluation codec setup render logs moments corpus_start baseline attacks benigns p).1
        ≡ some e
      → (run_evaluation codec setup render logs moments corpus_start baseline others benigns q).1
        ≡ some f
      → benign_part e ≡ benign_part f
  unfolding run_evaluation
  run_evaluation-benign_part baseline attacks others benigns p q e f h k =
      let replay = λ (records : List CorpusRecord) (r : Pep).
        replay_corpus codec setup render logs moments corpus_start 0 records
          (seeded codec setup render logs moments corpus_start baseline r) in
      part_injective (
        sym (
          report_of-part (length attacks) (length benigns) (replay attacks p).1
            (replay benigns (replay attacks p).0).1 e h)
        ∙ ap part_of
            (replay_corpus-seeded baseline benigns (replay attacks p).0 (replay others q).0)
        ∙ report_of-part (length others) (length benigns) (replay others q).1
            (replay benigns (replay others q).0).1 f k)
