-- ===== src/Evals/Corpus.antt =====
-- evals/score.py: the records of a corpus and their checks. Offsets are whole seconds.

use ai_agent_security_firewa.Prelude.{
  ℕ, suc, String, not, Option, none, some, List, [], ◌∷◌, select,
}
use ai_agent_security_firewa.Prelude.Dict.{Dict, get, has_key}
use ai_agent_security_firewa.Prelude.Json.{Json, null, num, obj, fields}
use ai_agent_security_firewa.Prelude.Text.{strip}

-- REQUIRED_FIELDS
abbrev pub corpus_fields : List String
corpus_fields =
    "id" ∷ "category" ∷ "role" ∷ "service" ∷ "tool" ∷ "arguments" ∷ "description" ∷ "offset_seconds"
    ∷ []

pub record CorpusRecord : Type 0 where
  pub id : Json
  pub category : Json
  pub role : Json
  pub service : Json
  pub tool : Json
  pub arguments : Dict Json
  pub description : Json
  pub offset_seconds : ℕ

-- What stops the loading, with its line: CorpusValidationError in the first three, or the error of
-- `json.loads`, or what a line gives that is no object.
pub data LoadError : Type 0 where
  missing_fields : ℕ → List String → LoadError
  bad_arguments bad_offset not_json no_object : ℕ → LoadError

pub data Loaded : Type 0 where
  loaded : List CorpusRecord → Loaded
  invalid : LoadError → Loaded

field_or_null : Option Json → Json
field_or_null none = null
field_or_null (some v) = v

check_offset : ℕ → Dict Json → Dict Json → Option Json → Loaded
unfolding field_or_null
check_offset lineno raw arguments (some (num offset)) =
    let the = λ (k : String). field_or_null (get raw k) in
    loaded (
      record {
        id = the "id";
        category = the "category";
        role = the "role";
        service = the "service";
        tool = the "tool";
        arguments = arguments;
        description = the "description";
        offset_seconds = offset;
      }
      ∷ [])
check_offset lineno raw arguments _ = invalid (bad_offset lineno)

check_arguments : ℕ → Dict Json → Option Json → Loaded
unfolding check_offset
check_arguments lineno raw (some (obj arguments)) =
    check_offset lineno raw (fields arguments) (get raw "offset_seconds")
check_arguments lineno raw _ = invalid (bad_arguments lineno)

check_missing : ℕ → Dict Json → List String → Loaded
unfolding check_arguments
check_missing lineno raw [] = check_arguments lineno raw (get raw "arguments")
check_missing lineno raw (f ∷ missing) = invalid (missing_fields lineno (f ∷ missing))

check_line : ℕ → Option Json → Loaded
unfolding check_missing
check_line lineno none = invalid (not_json lineno)
check_line lineno (some (obj fs)) =
    check_missing lineno (fields fs) (select (λ f. not (has_key (fields fs) f)) corpus_fields)
check_line lineno (some _) = invalid (no_object lineno)

-- The records of a line before those of the lines that follow.
and_then : Loaded → Loaded → Loaded
and_then (invalid e) rest = invalid e
and_then (loaded records) (invalid e) = invalid e
and_then (loaded []) (loaded more) = loaded more
and_then (loaded (r ∷ records)) (loaded more) = loaded (r ∷ more)

line_of : (List ℕ → Option Json) → ℕ → List ℕ → Loaded
unfolding check_line
line_of loads lineno [] = loaded []
line_of loads lineno (c ∷ line) = check_line lineno (loads (c ∷ line))

-- load_corpus, on the lines of the file from a line on
unfoldable pub load_corpus : (List ℕ → Option Json) → ℕ → List (List ℕ) → Loaded
unfolding line_of and_then
load_corpus loads lineno [] = loaded []
load_corpus loads lineno (line ∷ lines) =
    and_then (line_of loads lineno (strip line)) (load_corpus loads (suc lineno) lines)
