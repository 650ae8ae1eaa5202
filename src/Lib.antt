-- ===== src/Lib.antt =====
-- A model of the AI agent security firewall: the policy enforcement point with its rules, scores,
-- detectors, identities and records, and the properties that make them correct.
--
-- How the parts work together. An agent sends a tool call with a token to the proxy (pep/proxy.py).
-- The issuer (identity/issuer.py) has handed out that token after it looked up the caller's container,
-- its registered role and its pinned image. The proxy runs the pipeline (pep/pipeline.py): it checks
-- the token and the quarantine table, brings the arguments into their canonical form, evaluates the
-- policy bundle (policy/engine.py, compiled by policy/compiler.py), looks the destination up in the
-- list of bad names (threat_intel/feed.py), scans for secrets (dlp/detectors.py), scores the risk
-- (risk/scorer.py) and takes the least of the decisions. The proxy writes the event to the store
-- (events/store.py), which also holds the quarantine table, and executes the call only if the event
-- was written.
--
-- Files:
--   Prelude and its children: names that are passed on, tests, lists, dicts, texts, orders, JSON.
--   Policy/Decision, Policy/Rules: policy/engine.py's IntEnum, its sets of decisions and dataclasses.
--   Policy/Glob: Python's fnmatch, which the engine matches destinations and resources with.
--   Policy/Engine: evaluate, evaluate_east_west and their helpers. A request's arguments are one
--     record. The taint ceiling is `ceiling`, the choice of the winner `pick_winner`.
--   Policy/Loader: load_bundle and the two parsers of a rule, on the value that yaml.safe_load gives.
--   Policy/Compiler: compile_bundle and its checks, each a function from the rules to the errors.
--   Policy/DefaultBundle: policy/bundles/default.yaml as a value.
--   Risk/Behavior, Risk/Scorer, Risk/Outcomes: the globals of risk/scorer.py as one record, score over it,
--     and record_outcome and RiskScorer.warm_up, which change it. The clock is an argument in microseconds.
--   Events/Store, Events/App: events/store.py and the routes of events/app.py. The database is a
--     record; a fault of the database is an argument.
--   Events/Schema: events/schema.json as an executable check.
--   Identity/Tokens: mint_token and verify_token over a record of what the cryptography package,
--     base64 and json do.
--   Identity/Store: the pins of identity/store.py. Identity/Issuer: attest, whose Docker answer,
--     clock and faults are arguments. Identity/AdminCli: the admin command line.
--   ThreatIntel/Feed: _load_set and is_known_bad. Dlp/Detectors: the detector table, _luhn_valid, the
--     entropy test, scan and outcome; the regular expression engine is an argument.
--   Urllib and its children: what urllib.parse gives to pep/normalize.py. UTF-8 is a machine on bytes,
--     percent-decoding one on characters. Texts are lists of code points there.
--   Pep/Normalize: Path has normalize_path and _decode_repeatedly, with posixpath.normpath; Query has
--     _normalize_query, with parse_qsl and urlencode; Url has normalize_url and _normalize_host;
--     Interface gives them to the pipeline.
--   Pep/Quarantine: pep/quarantine.py over the event store's routes.
--   Pep/Pipeline and its children, pep/pipeline.py: Identify has _verify_identity; Targets has
--     normalize_arguments and extract_target; Stages has policy, inspection and the least verdict; State
--     has the records of the process's state and of what happens outside during a call; Assess joins
--     stages 3 to 7; Pep/Pipeline has run_pipeline. What it uses of pep/normalize.py and `urlsplit` is the
--     record Canonical, which Pep/Normalize/Interface fills; verify_token is a field of Setup.
--   Pep/Proxy: tool_call, _build_event, _destination_dict and _log_event of pep/proxy.py. What
--     _execute sends out is a part of the answer.
--   Agent/Tools, Agent/Loop: the schemas, _attest and dispatch of agent/tools.py, and run of
--     agent/loop.py over a provider that is a state with its next turn.
--   Pep/BypassProxy: _handle and _log_bypass of pep/bypass_proxy.py.
--   Agent/Providers, Agent/Main: MockProvider of agent/providers.py with its scripts, and the report
--     of agent/main.py.
--   Attacks/Common, Attacks/Replay: attacks/common.py's verified live call and grading, and its reset
--     and replay. What the deployment answers is a record.
--   Attacks/Scenario: run of attacks/a1.py to a5.py, a7.py and a8.py, over a record of the constants of a
--     script; the constants are in Attacks/Scenario/Scripts. Attacks/Injection: attacks/a6.py.
--     Attacks/RawEgress: attacks/a9.py with try_live_raw_connect. Attacks/Cascade: attacks/a10.py.
--   Attacks/RunAll: clear_and_verify_quarantine, the dispatch mode and the exit code of
--     attacks/run_all.py, over the event store's routes. What name the store gets by the unquoted URL of a
--     DELETE is an argument.
--   Evals/Corpus: load_corpus of evals/score.py. Evals/Score: its rates, percentile, replay_corpus and
--     run_evaluation.
--   A module Tests holds runs at concrete inputs and the theorems applied to them.
--
-- Bounds. Loops are structural recursion on lists and texts, the agent's loop on the iterations that
-- MAX_ITERATIONS leaves, the decoding of a path on _MAX_DECODE_ROUNDS. Two functions run on fuel:
-- `decimal`, which prints a number, with 6 for a port, which has at most five digits, and one more than the
-- number for a record's place in a corpus and a number in a policy bundle; and the replay of A6's script,
-- with 4 for its three calls. Numbers are natural, but priorities, which may be negative, are integers;
-- Python's integers have no bound, so nothing wraps. Times are whole microseconds. Lower case and digits
-- are those of ASCII. A call whose argument has another JSON type than the tool's schema says has no result
-- in the model, as a call that raises has none. In a policy bundle, int() reads texts of ASCII digits, and
-- str() of a list or a dict counts as a TypeError.
--
-- Not modelled: the YAML parser, key generation, the constant health routes, the network servers, the
-- latencies, the provider over the Anthropic API, the dashboard, the benchmarks, and the wording of the
-- attack scripts' notes and reports: they are calls of other programs or print. The tables of Unicode for
-- lower case, IDNA and NFKC are a record of functions.
pub mod Prelude
pub mod Urllib
pub mod Policy
pub mod Risk
pub mod Events
pub mod Identity
pub mod ThreatIntel
pub mod Dlp
pub mod Pep
pub mod Agent
pub mod Attacks
pub mod Evals
