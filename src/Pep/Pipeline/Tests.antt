-- ===== src/Pep/Pipeline/Tests.antt =====
-- The pipeline on short runs of calls, and its theorems at concrete states.
use ai_agent_security_firewa.Prelude.{
  String, ◌≡◌, refl, inl, true, false, none, some, [], ◌∷◌, ◌&&◌, ◌||◌, ◌==◌,
}
use ai_agent_security_firewa.Prelude.Dict.{get, put}
use ai_agent_security_firewa.Prelude.Json.{str}
use ai_agent_security_firewa.Prelude.Text.{codes, codes_eq, split_at, join_with, first_chars}
use ai_agent_security_firewa.Prelude.Order.{min_by}
use ai_agent_security_firewa.Policy.Decision.{deny, executable}
use ai_agent_security_firewa.Policy.DefaultBundle.{default_bundle}
use ai_agent_security_firewa.Policy.Glob.{fnmatch}
use ai_agent_security_firewa.Policy.Engine.{applies, evaluate, evaluate_east_west}
use ai_agent_security_firewa.Events.Store.{
  empty, quarantine_enter, quarantine_is_active, quarantine_list,
}
use ai_agent_security_firewa.Events.App.{enter_quarantine, list_quarantined}
use ai_agent_security_firewa.Identity.Tokens.{Claims, valid}
use ai_agent_security_firewa.Risk.Scorer.{score, action_points, data_class_points, band_and_ceiling}
use ai_agent_security_firewa.Risk.Outcomes.{record_outcome}
use ai_agent_security_firewa.Risk.Behavior.{cold, recent, is_rate_anomalous, is_unseen_bigram}
use ai_agent_security_firewa.ThreatIntel.Feed.{any_parent, is_known_bad}
use ai_agent_security_firewa.Dlp.Detectors.{split_words, counter, is_high_entropy, outcome, scan}
use ai_agent_security_firewa.Pep.Quarantine.{is_quarantined, enter, record_denial}
use ai_agent_security_firewa.Pep.Pipeline.Stages.{
  policy_stage, is_external, inspects, dlp_stage, least, action_of,
}
use ai_agent_security_firewa.Pep.Pipeline.Targets.{
  Canonical, Arguments, Target, normalize_arguments, extract_target,
}
use ai_agent_security_firewa.Pep.Pipeline.Identify.{accepted, verify_identity}
use ai_agent_security_firewa.Pep.Pipeline.{taint_after, conclude, result_of, identify, run_pipeline}
use ai_agent_security_firewa.Pep.Pipeline.Assess.{assess}
use ai_agent_security_firewa.Pep.Pipeline.State.{
  Setup, Pep, Entry, Moment, ToolCall, PipelineResult, deny_early, taint_of,
}
use ai_agent_security_firewa.Pep.Pipeline.Mediation.{IsAssessed}
use ai_agent_security_firewa.Pep.Pipeline.Clearance.{IsCleared, assessment, run_pipeline-IsCleared}
use ai_agent_security_firewa.Pep.Pipeline.Taint.{
  is_tainted, run_all, run_pipeline-taint, run_all-tainted_write,
}
use ai_agent_security_firewa.Pep.Pipeline.Triggers.{triggers, quarantine_reply, run_all-quarantined}

running : Unit {0}
unfolding get put codes_eq split_at join_with first_chars min_by fnmatch applies evaluate
    evaluate_east_west quarantine_enter quarantine_is_active quarantine_list enter_quarantine
    list_quarantined recent score action_points data_class_points band_and_ceiling record_outcome
    is_rate_anomalous is_unseen_bigram any_parent is_known_bad split_words counter is_high_entropy
    outcome scan is_quarantined enter record_denial verify_identity normalize_arguments
    extract_target policy_stage is_external inspects dlp_stage least action_of deny_early taint_of
    assess taint_after conclude result_of identify run_pipeline run_all
running = tt

abbrev claims : Claims
claims =
    ("role", str "research_agent")
    ∷ ("container_id", str "0123456789abcdef")
    ∷ ("service", str "agent")
    ∷ ("attested_ip", str "172.18.0.5")
    ∷ []

-- Every token carries the same claims, and a URL is its own host.
abbrev canonical : Canonical
canonical = record {
  normalize_url = λ url. some url;
  normalize_path = λ path. path;
  host_of = λ url. some url;
  path_of = λ url. "/list";
  port_of = λ url. none;
  scheme_of = λ url. some "https";
}

abbrev setup : Setup
setup = record {
  bundle = default_bundle;
  listed = codes "evil.example.com" ∷ [];
  verify = λ token now. valid claims;
  canonical = canonical;
  show = λ v. "";
  finditer = λ pattern blob. [];
}

abbrev fresh : Pep
fresh = record { taint = []; key_cached = false; behavior = cold; denials = []; store = empty }

abbrev answering : Entry
answering = record { up = true; fault = false; at = "t" }

abbrev moment : Moment
moment = record {
  issuer_up = true;
  check_up = true;
  token_time = 0;
  score_time = 0;
  outcome_time = 0;
  denial_time = 0;
  denial_entry = answering;
  critical_entry = answering;
  hit_entry = answering;
}

abbrev calling : String → Arguments → ToolCall
calling tool arguments = record {
  token = some (b't' ∷ []);
  peer_ip = some "172.18.0.5";
  session_id = "s1";
  tool = tool;
  arguments = arguments;
}

abbrev fetch : ToolCall
fetch = calling "http.get" (("url", str "export.arxiv.org") ∷ [])

abbrev post : ToolCall
post = calling "http.post" (("url", str "export.arxiv.org") ∷ [])

abbrev hit : ToolCall
hit = calling "http.get" (("url", str "a.evil.example.com") ∷ [])

abbrev page : PipelineResult
page = result_of "research_agent" "0123456789ab" fetch.arguments (
    assess setup (record fresh { key_cached = true }) moment "research_agent" "agent" fetch
      fetch.arguments (record { fqdn = some "export.arxiv.org"; resource = some "/list" }))

page_returned : (run_pipeline setup fresh moment fetch).1 ≡ some page
unfolding running
page_returned = refl

page_executes : executable page.decision ≡ true
unfolding running
page_executes = refl

run_pipeline-IsCleared_example :
    IsCleared setup fresh moment fetch (run_pipeline setup fresh moment fetch).0 page
run_pipeline-IsCleared_example =
    run_pipeline-IsCleared setup fresh moment fetch page page_returned page_executes

run_pipeline-taint_example : is_tainted (run_pipeline setup fresh moment fetch).0 "s1" ≡ (
    ((fetch.tool == "http.get" && executable page.decision) && fetch.session_id == "s1")
    || is_tainted fresh "s1")
run_pipeline-taint_example = run_pipeline-taint setup fresh moment fetch page "s1" page_returned

abbrev tainted : Pep
tainted = (run_pipeline setup fresh moment fetch).0

abbrev posted : PipelineResult
posted = result_of "research_agent" "0123456789ab" post.arguments (
    assess setup tainted moment "research_agent" "agent" post post.arguments
      (record { fqdn = some "export.arxiv.org"; resource = some "/list" }))

post_returned : (run_pipeline setup (run_all setup tainted []) moment post).1 ≡ some posted
unfolding running
post_returned = refl

run_all-tainted_write_example : posted.decision ≡ deny
run_all-tainted_write_example =
    run_all-tainted_write setup fresh moment fetch page [] moment post posted page_returned refl
      page_executes refl (inl refl) post_returned

abbrev hit_target : Target
hit_target = record { fqdn = some "a.evil.example.com"; resource = some "/list" }

abbrev flagged : PipelineResult
flagged = result_of "research_agent" "0123456789ab" hit.arguments (
    assess setup (record fresh { key_cached = true }) moment "research_agent" "agent" hit
      hit.arguments hit_target)

hit_assessed : IsAssessed setup fresh moment hit (run_pipeline setup fresh moment hit).0 flagged
unfolding running
hit_assessed = record {
  role = "research_agent";
  agent_key = "0123456789ab";
  workload_key = "agent";
  arguments = hit.arguments;
  target = hit_target;
  identified = refl;
  gate = refl;
  normalized = refl;
  targeted = refl;
  result = refl;
  state = refl;
}

hit_fires :
    triggers fresh moment hit_assessed.workload_key (
      assessment setup fresh moment hit
        (run_pipeline setup fresh moment hit).0
        flagged
        hit_assessed)
    ≡ true
unfolding running hit_assessed
hit_fires = refl

still_agent :
    identify setup (run_all setup (run_pipeline setup fresh moment hit).0 []) moment fetch
    ≡ accepted "research_agent" "0123456789ab" hit_assessed.workload_key
unfolding running hit_assessed
still_agent = refl

run_all-quarantined_example :
    (run_pipeline setup (run_all setup (run_pipeline setup fresh moment hit).0 []) moment fetch).1
    ≡ some (quarantine_reply true "0123456789ab")
run_all-quarantined_example =
    run_all-quarantined setup fresh moment hit flagged hit_assessed [] moment fetch "research_agent"
      "0123456789ab" hit_fires still_agent
