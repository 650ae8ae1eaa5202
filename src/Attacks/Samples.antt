-- ===== src/Attacks/Samples.antt =====
-- The inputs that the tests of attacks/ share: a process with the shipped bundle whose event store answers, and a
-- deployment that attests research_agent and replies as A1 expects.
use ai_agent_security_firewa.Prelude.{
  ℕ, String, Option, none, true, false, some, List, [], ◌∷◌, map,
}
use ai_agent_security_firewa.Prelude.Json.{str, obj, end}
use ai_agent_security_firewa.Prelude.Text.{codes, lower_code}
use ai_agent_security_firewa.Policy.DefaultBundle.{default_bundle}
use ai_agent_security_firewa.Risk.Scorer.{Piece}
use ai_agent_security_firewa.Risk.Behavior.{cold}
use ai_agent_security_firewa.Events.Store.{empty}
use ai_agent_security_firewa.Identity.Tokens.{Verified, valid}
use ai_agent_security_firewa.Identity.Tokens.StackCodec.{codec}
use ai_agent_security_firewa.Pep.Normalize.Interface.{canonical_of}
use ai_agent_security_firewa.Pep.Pipeline.State.{Setup, Pep, Entry}
use ai_agent_security_firewa.Attacks.Common.{AttackResult, Live, fetched, unverified}
use ai_agent_security_firewa.Attacks.Scenario.{Process}
use ai_agent_security_firewa.Prelude.Dict.{get, put}
use ai_agent_security_firewa.Prelude.Text.{codes_eq, split_at, join_with, first_chars, strip}
use ai_agent_security_firewa.Prelude.Order.{min_by}
use ai_agent_security_firewa.Policy.Glob.{fnmatch}
use ai_agent_security_firewa.Policy.Engine.{applies, evaluate, evaluate_east_west}
use ai_agent_security_firewa.Events.Store.{write_event, quarantine_list}
use ai_agent_security_firewa.Events.App.{post_event, list_quarantined}
use ai_agent_security_firewa.Risk.Scorer.{score, action_points, data_class_points, band_and_ceiling}
use ai_agent_security_firewa.Risk.Outcomes.{record_outcome}
use ai_agent_security_firewa.Risk.Behavior.{recent, is_rate_anomalous, is_unseen_bigram}
use ai_agent_security_firewa.ThreatIntel.Feed.{any_parent, is_known_bad}
use ai_agent_security_firewa.Dlp.Detectors.{split_words, counter, is_high_entropy, outcome, scan}
use ai_agent_security_firewa.Pep.Quarantine.{is_quarantined, record_denial}
use ai_agent_security_firewa.Pep.Pipeline.Stages.{
  policy_stage, is_external, inspects, dlp_stage, least, action_of,
}
use ai_agent_security_firewa.Pep.Pipeline.Targets.{normalize_arguments, extract_target}
use ai_agent_security_firewa.Pep.Pipeline.Identify.{verify_identity}
use ai_agent_security_firewa.Pep.Pipeline.{taint_after, conclude, result_of, identify, run_pipeline}
use ai_agent_security_firewa.Pep.Pipeline.Assess.{assess}
use ai_agent_security_firewa.Pep.Pipeline.State.{taint_of}
use ai_agent_security_firewa.Pep.Proxy.{build_event, log_event, unlogged}
use ai_agent_security_firewa.Policy.Decision.{name}
use ai_agent_security_firewa.Attacks.Replay.{
  reset_process_state, run_locally, mint_local_token, local_claims, request_of,
}
use ai_agent_security_firewa.Identity.Tokens.{verify_token, mint_token, stamp}
use ai_agent_security_firewa.Prelude.Chars.{of_codes, char_of}
use ai_agent_security_firewa.Urllib.Split.{
  decimal, urlsplit, strip_controls, drop_unsafe, is_alpha, is_scheme_char, scan_scheme,
  split_scheme, split_netloc, take_netloc, cut, after_last, hostinfo, hostname, int_of, port_of,
  with_netloc, urlunsplit,
}
use ai_agent_security_firewa.Pep.Normalize.Path.{
  normalize_path, normpath, initial_slashes, slashes, join_reversed, collapse, push_comp,
  decode_repeatedly, decode_rounds,
}
use ai_agent_security_firewa.Urllib.Percent.{unquote, scan_all, scan_next, decode, hex_value}
use ai_agent_security_firewa.Urllib.Utf8.{next, lead, flush}
use ai_agent_security_firewa.Pep.Normalize.Url.{normalize_host, fold_port, netloc_of, normalize_url}
use ai_agent_security_firewa.Pep.Normalize.Query.{normalize_query}
use ai_agent_security_firewa.Attacks.Scenario.{replay, result_from}

-- What a replay computes with.
unfoldable pub running : Unit {0}
unfolding get put codes_eq split_at join_with first_chars min_by fnmatch applies evaluate
    write_event quarantine_list post_event list_quarantined recent score action_points
    data_class_points band_and_ceiling record_outcome is_rate_anomalous is_unseen_bigram any_parent
    is_known_bad split_words counter is_high_entropy outcome scan is_quarantined verify_identity
    normalize_arguments extract_target policy_stage is_external inspects dlp_stage least action_of
    taint_of assess taint_after conclude result_of identify run_pipeline build_event log_event
    unlogged name reset_process_state run_locally mint_local_token local_claims request_of
    verify_token mint_token stamp codec canonical_of of_codes char_of decimal strip normalize_path
    normpath initial_slashes slashes join_reversed collapse push_comp decode_repeatedly
    decode_rounds unquote scan_all scan_next decode next lead flush hex_value urlsplit
    strip_controls drop_unsafe is_alpha is_scheme_char scan_scheme split_scheme split_netloc
    take_netloc cut after_last hostinfo hostname int_of port_of with_netloc urlunsplit
    normalize_host fold_port netloc_of normalize_url normalize_query record_denial
    evaluate_east_west replay result_from
running = tt

abbrev pub setup : Setup
setup = record {
  bundle = default_bundle;
  listed = codes "evil.example.com" ∷ codes "known-c2.example" ∷ [];
  verify = λ token now. valid [];
  canonical =
      canonical_of
        (record { lower = λ s. map lower_code s; idna = λ s. some s; accepts = λ s. true });
  show = λ v. "";
  finditer = λ pattern blob. [];
}

abbrev pub answering : Entry
answering = record { up = true; fault = false; at = "t" }

abbrev pub render : List Piece → String
render pieces = ""

abbrev pub process : Process
process = record {
  codec = codec;
  setup = setup;
  render = render;
  logs = λ i. record {
    up = true;
    fault = false;
    retry_up = true;
    retry_fault = false;
    timestamp = "t";
    latency_ms = obj end;
  };
  moments = λ i. record {
    issuer_up = true;
    check_up = true;
    token_time = 0;
    score_time = 0;
    outcome_time = 0;
    denial_time = 0;
    denial_entry = answering;
    critical_entry = answering;
    hit_entry = answering;
  };
}

abbrev pub fresh : Pep
fresh = record { taint = []; key_cached = false; behavior = cold; denials = []; store = empty }

abbrev pub verify : List ℕ → Verified
verify token = valid (("role", str "research_agent") ∷ [])

abbrev pub live : Live
live = record {
  attest = fetched (codes "t");
  public_key = fetched verify;
  tool_call = λ token. fetched (("decision", str "DENY") ∷ ("reason", str "no_matching_rule") ∷ []);
}

-- The result of a run that has one.
abbrev pub reported : Option AttackResult → AttackResult
reported none = record {
  attack_id = "";
  description = "";
  category = "";
  attempted = "";
  identity_desc = "";
  destination = "";
  stage = "";
  policy_id = "";
  reason = str "";
  risk_score = 0;
  risk_factors = [];
  decision = str "";
  event = [];
  notes = [];
  verification_status = unverified;
  expected_decision = none;
  expected_reason = none;
  mechanism_match = none;
}
reported (some r) = r
