-- ===== src/Risk/Behavior.antt =====
-- risk/scorer.py: the behavioral state of the process, and what it tells of a call. The
-- module's globals are one record.
use ai_agent_security_firewa.Prelude.{
  ℕ, ◌-◌, String, Bool, false, not, ◌&&◌, ◌||◌, Option, none, some, List, [], ◌∷◌, length, select,
  leb, ◌==◌, if◌then◌else◌,
}
use ai_agent_security_firewa.Prelude.Dict.{Dict, get, get_default}

-- _RATE_WINDOW_SECONDS, in microseconds
abbrev pub rate_window : ℕ
rate_window = 60000000

abbrev pub rate_threshold : ℕ
rate_threshold = 5

pub record Behavior : Type 0 where
  pub seen_by_agent : Dict (List String)
  pub seen_by_org : List String
  pub call_times : Dict (List ℕ)
  pub last_tool : Dict String
  pub seen_bigrams : Dict (List (String × String))
  pub denial_streak : Dict ℕ

-- The state after a start of the process.
abbrev pub cold : Behavior
cold = record {
  seen_by_agent = [];
  seen_by_org = [];
  call_times = [];
  last_tool = [];
  seen_bigrams = [];
  denial_streak = [];
}

abbrev pub has_bigram : List (String × String) → String → String → Bool
has_bigram [] a b = false
has_bigram ((x, y) ∷ s) a b = (x == a && y == b) || has_bigram s a b

abbrev pub add_bigram : List (String × String) → String → String → List (String × String)
add_bigram s a b = if has_bigram s a b then s else (a, b) ∷ s

-- [t for t in times if now - t <= _RATE_WINDOW_SECONDS]
unfoldable pub recent : ℕ → List ℕ → List ℕ
recent now times = select (λ t. leb (now - t) rate_window) times

unfoldable pub is_rate_anomalous : Behavior → ℕ → String → Bool
unfolding recent
is_rate_anomalous b now agent_id =
    leb rate_threshold (length (recent now (get_default b.call_times agent_id [])))

unfoldable pub unseen_after : Behavior → String → String → Option String → Bool
unseen_after b role tool none = false
unseen_after b role tool (some last) =
    not (has_bigram (get_default b.seen_bigrams role []) last tool)

unfoldable pub is_unseen_bigram : Behavior → String → String → Bool
unfolding unseen_after
is_unseen_bigram b role tool = unseen_after b role tool (get b.last_tool role)
