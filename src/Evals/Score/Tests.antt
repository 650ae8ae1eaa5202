-- ===== src/Evals/Score/Tests.antt =====
-- evals/score.py: a corpus of three lines, the figures of small lists, and the theorems.
use ai_agent_security_firewa.Attacks.Samples.{running, process, setup, render, fresh}
use ai_agent_security_firewa.Risk.Outcomes.{warm_up}
use ai_agent_security_firewa.Prelude.{
  ℕ, String, ◌≡◌, ◌≤◌, refl, Option, none, some, List, [], ◌∷◌, In, arith, if◌then◌else◌,
}
use ai_agent_security_firewa.Prelude.Dict.{get}
use ai_agent_security_firewa.Prelude.Json.{Json, str, obj, end, field}
use ai_agent_security_firewa.Prelude.Text.{codes, codes_eq, strip}
use ai_agent_security_firewa.Policy.Decision.{
  Decision, deny, quarantine, require_approval, rate_limit, allow,
}
use ai_agent_security_firewa.Identity.Tokens.StackCodec.{codec}
use ai_agent_security_firewa.Evals.Corpus.{
  CorpusRecord, missing_fields, not_json, loaded, invalid, load_corpus,
}
use ai_agent_security_firewa.Evals.Score.{
  block_rate, blocked_fraction, approval_rate, throttle_rate, false_positive_rate, insert_value,
  sorted_values, round_hundredths, value_at, percentile, replay_corpus, seeded, Evaluation,
  run_evaluation,
}
use ai_agent_security_firewa.Evals.Score.Percentile.{percentile-In}
use ai_agent_security_firewa.Evals.Score.Isolation.{benign_part, run_evaluation-benign_part}

evaluating : Unit {0}
unfolding run_evaluation replay_corpus seeded block_rate blocked_fraction approval_rate
    throttle_rate false_positive_rate warm_up
evaluating = tt

-- A line is read as an object by its first character.
abbrev loads : List ℕ → Option Json
loads s = if codes_eq s (codes "a") then some (obj (field "id" (str "a") end)) else none

rejected :
    load_corpus loads 1 (codes " " ∷ codes "a" ∷ [])
    ≡ invalid (
        missing_fields 2 (
          "category" ∷ "role" ∷ "service" ∷ "tool" ∷ "arguments" ∷ "description" ∷ "offset_seconds"
          ∷ []))
unfolding load_corpus get strip codes_eq
rejected = refl

blank_lines : load_corpus loads 1 (codes " " ∷ [] ∷ []) ≡ loaded []
unfolding load_corpus strip codes_eq
blank_lines = refl

broken : load_corpus loads 1 (codes "{" ∷ codes "a" ∷ []) ≡ invalid (not_json 1)
unfolding load_corpus get strip codes_eq
broken = refl

abbrev decisions : List Decision
decisions = deny ∷ allow ∷ rate_limit ∷ require_approval ∷ quarantine ∷ []

rates :
    ((block_rate decisions).hits ≡ 2)
    × ((approval_rate decisions).hits ≡ 1)
    × ((throttle_rate decisions).hits ≡ 1)
unfolding block_rate blocked_fraction approval_rate throttle_rate
rates = (refl, refl, refl)

abbrev latencies : List ℕ
latencies = 5 ∷ 1 ∷ 4 ∷ 2 ∷ 3 ∷ []

figures :
    (percentile latencies 50 ≡ 3)
    × (percentile latencies 95 ≡ 5)
    × (percentile latencies 0 ≡ 1)
    × (percentile [] 50 ≡ 0)
unfolding percentile sorted_values insert_value round_hundredths value_at
figures = (refl, refl, refl, refl)

percentile-In_example :
    In (percentile latencies 50) latencies × (percentile latencies 50 ≤ percentile latencies 95)
percentile-In_example = percentile-In 5 (1 ∷ 4 ∷ 2 ∷ 3 ∷ []) 50 95 (omega arith)

-- A call of the kind that the corpora hold.
abbrev call : String → String → CorpusRecord
call id tool = record {
  id = str id;
  category = str "c";
  role = str "research_agent";
  service = str "agent";
  tool = str tool;
  arguments = ("url", str "http://B.arXiv.org/") ∷ ("path", str "/etc/passwd") ∷ [];
  description = str "d";
  offset_seconds = 5;
}

abbrev or_empty : Option Evaluation → Evaluation
or_empty none = record {
  attack = record { decisions = []; rate_anomaly_hits = 0 };
  benign = record { decisions = []; rate_anomaly_hits = 0 };
  block = record { hits = 0; total = 0 };
  false_positive = record { hits = 0; total = 0 };
  approval = record { hits = 0; total = 0 };
  throttle = record { hits = 0; total = 0 };
  attack_rate_anomaly = record { hits = 0; total = 0 };
  benign_rate_anomaly = record { hits = 0; total = 0 };
}
or_empty (some e) = e

abbrev evaluated : List CorpusRecord → Option Evaluation
evaluated attacks =
    (run_evaluation codec setup render process.logs process.moments 0 [] attacks
      (call "b1" "http.get" ∷ []) fresh).1

one_limited : (or_empty (evaluated [])).benign.decisions ≡ rate_limit ∷ []
unfolding running evaluating
one_limited = refl

run_evaluation-benign_part_example :
    benign_part (or_empty (evaluated []))
    ≡ benign_part (or_empty (evaluated (call "a1" "file.read" ∷ [])))
unfolding running evaluating
run_evaluation-benign_part_example =
    run_evaluation-benign_part codec setup render process.logs process.moments 0 [] []
      (call "a1" "file.read" ∷ []) (call "b1" "http.get" ∷ []) fresh fresh (or_empty (evaluated []))
      (or_empty (evaluated (call "a1" "file.read" ∷ []))) refl refl
