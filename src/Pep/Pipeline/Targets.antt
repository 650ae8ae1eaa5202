-- ===== src/Pep/Pipeline/Targets.antt =====
-- pep/pipeline.py, normalize_arguments and extract_target: the canonical arguments of a call and what it
-- reaches.

use text.Mathlib.Text.{starts_with}
use ai_agent_security_firewa.Prelude.{ℕ, String, Option, none, some, ◌==◌, if◌then◌else◌}
use ai_agent_security_firewa.Prelude.Dict.{Dict, get, put}
use ai_agent_security_firewa.Prelude.Json.{Json, null, str}

-- A value, or none where the source raises or where an argument has another type than its schema says.
abbrev pub Maybe {ℓ} : Type ℓ → Type ℓ
Maybe = Option

-- pep/normalize.py and `urlsplit`, as the pipeline uses them.
pub record Canonical : Type 0 where
  -- normalize_url(url).url, none where it raises
  pub normalize_url : String → Option String
  pub normalize_path : String → String
  -- urlsplit(url).hostname and urlsplit(url).path
  pub host_of : String → Option String
  pub path_of : String → String
  -- normalize_url(url).port and normalize_url(url).scheme
  pub port_of : String → Option ℕ
  pub scheme_of : String → Option String

abbrev pub Arguments : Type 0
Arguments = Dict Json

unfoldable pub put_url : Arguments → Option String → Maybe Arguments
put_url args none = none
put_url args (some url) = some (put args "url" (str url))

unfoldable pub normalize_http : Canonical → Arguments → Option Json → Maybe Arguments
unfolding put_url
normalize_http canon args none = some args
normalize_http canon args (some (str url)) = put_url args (canon.normalize_url url)
normalize_http canon args (some _) = none

unfoldable pub normalize_file : Canonical → Arguments → Option Json → Maybe Arguments
normalize_file canon args none = some args
normalize_file canon args (some (str path)) =
    some (put args "path" (str (canon.normalize_path path)))
normalize_file canon args (some _) = none

-- normalize_arguments
unfoldable pub normalize_arguments : Canonical → String → Arguments → Maybe Arguments
unfolding normalize_http normalize_file
normalize_arguments canon tool args =
    if starts_with tool "http."
    then normalize_http canon args (get args "url")
    else if tool == "file.read"
    then normalize_file canon args (get args "path")
    else some args

pub record Target : Type 0 where
  pub fqdn : Option String
  pub resource : Option String

-- parsed.path or None
unfoldable pub path_or_none : String → Option String
path_or_none path = if path == "" then none else some path

unfoldable pub http_target : Canonical → Option Json → Maybe Target
unfolding path_or_none
http_target canon none =
    some (record { fqdn = canon.host_of ""; resource = path_or_none (canon.path_of "") })
http_target canon (some (str url)) =
    some (record { fqdn = canon.host_of url; resource = path_or_none (canon.path_of url) })
http_target canon (some _) = none

unfoldable pub resource_target : Option Json → Maybe Target
resource_target none = some (record { fqdn = none; resource = none })
resource_target (some null) = some (record { fqdn = none; resource = none })
resource_target (some (str name)) = some (record { fqdn = none; resource = some name })
resource_target (some _) = none

-- extract_target
unfoldable pub extract_target : Canonical → String → Arguments → Maybe Target
unfolding http_target resource_target
extract_target canon tool args =
    if starts_with tool "http."
    then http_target canon (get args "url")
    else if tool == "db.query"
    then resource_target (get args "table")
    else if tool == "file.read"
    then resource_target (get args "path")
    else if tool == "email.send"
    then resource_target (get args "to")
    else if tool == "agent.invoke"
    then resource_target (get args "target_service")
    else some (record { fqdn = none; resource = none })

-- fqdn or resource
abbrev pub destination_key : Target → Option String
destination_key target = elim target.fqdn [
  | none ↦ target.resource
  | some name ↦ if name == "" then target.resource else some name
]
