-- ===== src/Evals/Score.antt =====
-- evals/score.py: the rates, the percentiles and the replay. A rate is a count and a total, the
-- quotient of which the source returns, 0 of 0 for an empty corpus.
pub mod Percentile
pub mod Isolation
mod Tests
use Prim.Native.String
use ai_agent_security_firewa.Evals.Corpus.{CorpusRecord}
use ai_agent_security_firewa.Prelude.{
  ℕ, zero, suc, ◌+◌, ◌-◌, ◌*◌, ◌/◌, ◌%◌, min, String, Bool, true, false, not, any, ◌==◌, Option,
  none, some, List, [], ◌∷◌, ltb, leb, nat_eq, select, length, if◌then◌else◌,
}
use ai_agent_security_firewa.Prelude.Dict.{Dict, get, has_key}
use ai_agent_security_firewa.Prelude.Json.{Json, null, bool, num, str, arr, obj, Fields, fields}
use ai_agent_security_firewa.Prelude.Text.{strip}
use ai_agent_security_firewa.Prelude.Chars.{of_codes}
use ai_agent_security_firewa.Urllib.Split.{decimal}
use ai_agent_security_firewa.Policy.Decision.{
  Decision, require_approval, rate_limit, is_decision, blocked,
}
use ai_agent_security_firewa.Risk.Scorer.{Factor, Piece}
use ai_agent_security_firewa.Risk.Outcomes.{BaselineEvent, warm_up}
use ai_agent_security_firewa.Events.Store.{Event}
use ai_agent_security_firewa.Identity.Tokens.{Codec}
use ai_agent_security_firewa.Pep.Pipeline.State.{Setup, Pep, Moment, PipelineResult}
use ai_agent_security_firewa.Pep.Proxy.{Logging}
use ai_agent_security_firewa.Attacks.Replay.{LocalCall, reset_process_state, run_locally}

pub record Rate : Type 0 where
  pub hits : ℕ
  pub total : ℕ

unfoldable pub blocked_fraction : List Decision → Rate
blocked_fraction decisions = record {
  hits = length (select blocked decisions);
  total = length decisions;
}

unfoldable pub block_rate : List Decision → Rate
block_rate decisions = blocked_fraction decisions

unfoldable pub false_positive_rate : List Decision → Rate
false_positive_rate decisions = blocked_fraction decisions

unfoldable pub approval_rate : List Decision → Rate
approval_rate decisions = record {
  hits = length (select (λ d. is_decision d require_approval) decisions);
  total = length decisions;
}

unfoldable pub throttle_rate : List Decision → Rate
throttle_rate decisions = record {
  hits = length (select (λ d. is_decision d rate_limit) decisions);
  total = length decisions;
}

unfoldable pub insert_value : ℕ → List ℕ → List ℕ
insert_value v [] = v ∷ []
insert_value v (w ∷ ws) = if ltb w v then w ∷ insert_value v ws else v ∷ w ∷ ws

-- sorted(values)
unfoldable pub sorted_values : List ℕ → List ℕ
sorted_values [] = []
sorted_values (v ∷ vs) = insert_value v (sorted_values vs)

-- round(n / 100), where a half goes to the even neighbour
unfoldable pub round_hundredths : ℕ → ℕ
round_hundredths n =
    let q = n / 100 in
    let r = n % 100 in if ltb r 50 then q else if nat_eq r 50 then q + q % 2 else q + 1

-- ordered[k]
unfoldable pub value_at : List ℕ → ℕ → ℕ
value_at [] k = 0
value_at (v ∷ vs) zero = v
value_at (v ∷ vs) (suc k) = value_at vs k

-- percentile, of a whole number of percent, where the source computes the rank in floating point
unfoldable pub percentile : List ℕ → ℕ → ℕ
percentile [] pct = 0
percentile (v ∷ vs) pct =
    let last = length vs in
    value_at (sorted_values (v ∷ vs)) (min last (round_hundredths (pct * last)))

pub record ReplayOutcome : Type 0 where
  pub decisions : List Decision
  pub rate_anomaly_hits : ℕ

is_rate_anomaly : List Factor → ℕ
is_rate_anomaly factors = if any (λ f. f.code == "RATE_ANOMALY") factors then 1 else 0

-- A call of a record whose role, service, tool and id are texts; the session is `eval-{id}-{i}`.
local_call_of : ℕ → Json → Json → Json → Json → Dict Json → Option LocalCall
local_call_of i (str id) (str role) (str service) (str tool) arguments = some (record {
  role = role;
  service = service;
  tool = tool;
  arguments = arguments;
  session_id =
      String.◌++◌ "eval-" (String.◌++◌ id (String.◌++◌ "-" (of_codes (decimal (suc i) i))));
})
local_call_of i _ _ _ _ arguments = none

-- The clock of risk/scorer.py at a record's offset.
abbrev pub at_offset : ℕ → ℕ → Moment → Moment
at_offset corpus_start offset moment = record moment {
  score_time = corpus_start + offset * 1000000;
  outcome_time = corpus_start + offset * 1000000;
}

add_result : Option (PipelineResult × Event) → Option ReplayOutcome → Option ReplayOutcome
unfolding is_rate_anomaly
add_result none rest = none
add_result (some (result, event)) none = none
add_result (some (result, event)) (some rest) = some (record {
  decisions = result.decision ∷ rest.decisions;
  rate_anomaly_hits = is_rate_anomaly result.risk_factors + rest.rate_anomaly_hits;
})

pub record Evaluation : Type 0 where
  pub attack : ReplayOutcome
  pub benign : ReplayOutcome
  pub block : Rate
  pub false_positive : Rate
  pub approval : Rate
  pub throttle : Rate
  pub attack_rate_anomaly : Rate
  pub benign_rate_anomaly : Rate

report_of : ℕ → ℕ → Option ReplayOutcome → Option ReplayOutcome → Option Evaluation
report_of attacks benigns (some attack) (some benign) = some (record {
  attack = attack;
  benign = benign;
  block = block_rate attack.decisions;
  false_positive = false_positive_rate benign.decisions;
  approval = approval_rate benign.decisions;
  throttle = throttle_rate benign.decisions;
  attack_rate_anomaly = record { hits = attack.rate_anomaly_hits; total = attacks };
  benign_rate_anomaly = record { hits = benign.rate_anomaly_hits; total = benigns };
})
report_of attacks benigns _ _ = none

-- What the replays are set up with; the moment and the times of the log of each call are arguments.
module _ (codec : Codec) (setup : Setup) (render : List Piece → String) (logs : ℕ → Logging)
    (moments : ℕ → Moment) (corpus_start : ℕ) where
  run_call : ℕ → ℕ → Pep → Option LocalCall → Pep × Option (PipelineResult × Event)
  run_call i offset pep none = (pep, none)
  run_call i offset pep (some call) =
      run_locally codec setup render (logs i) (at_offset corpus_start offset (moments i)) call pep

  -- replay_corpus from a record on; none where a call raises
  unfoldable pub replay_corpus : ℕ → List CorpusRecord → Pep → Pep × Option ReplayOutcome
  unfolding run_call local_call_of add_result
  replay_corpus i [] pep = (pep, some (record { decisions = []; rate_anomaly_hits = 0 }))
  replay_corpus i (rec ∷ records) pep =
      let (pep', result) =
        run_call i rec.offset_seconds pep
          (local_call_of i rec.id rec.role rec.service rec.tool rec.arguments) in
      let (pep'', rest) = replay_corpus (suc i) records pep' in (pep'', add_result result rest)

  -- common.reset_process_state(), then RiskScorer.warm_up()
  unfoldable pub seeded : List BaselineEvent → Pep → Pep
  seeded baseline pep =
      let clean = reset_process_state pep in
      record clean { behavior = (warm_up clean.behavior baseline).0 }

  -- run_evaluation on two corpora that are loaded, without the latencies; none where a call raises
  unfoldable pub run_evaluation :
      List BaselineEvent → List CorpusRecord → List CorpusRecord → Pep → Pep × Option Evaluation
  unfolding report_of
  run_evaluation baseline attacks benigns pep =
      let (after, attack) = replay_corpus 0 attacks (seeded baseline pep) in
      let (last, benign) = replay_corpus 0 benigns (seeded baseline after) in
      (last, report_of (length attacks) (length benigns) attack benign)
