-- ===== src/Pep/Normalize/Interface.antt =====
-- pep/normalize.py: what the pipeline uses of it, on texts.
use ai_agent_security_firewa.Prelude.{ℕ, String, Option, none, some, List}
use ai_agent_security_firewa.Prelude.Text.{codes}
use ai_agent_security_firewa.Prelude.Chars.{of_codes}
use ai_agent_security_firewa.Urllib.Split.{Tables, SplitResult, urlsplit, hostname}
use ai_agent_security_firewa.Pep.Normalize.Path.{normalize_path}
use ai_agent_security_firewa.Pep.Normalize.Url.{NormalizedUrl, normalize_url}
use ai_agent_security_firewa.Pep.Pipeline.Targets.{Canonical}

text_or_none : Option (List ℕ) → Option String
text_or_none none = none
text_or_none (some s) = some (of_codes s)

-- A URL that `urlsplit` refuses has no host here; the pipeline splits only what was normalized.
host_text : Tables → Option SplitResult → Option String
unfolding text_or_none
host_text tables none = none
host_text tables (some parts) = text_or_none (hostname tables parts)

path_text : Option SplitResult → String
path_text none = ""
path_text (some parts) = of_codes parts.path

url_text : Option NormalizedUrl → Option String
url_text none = none
url_text (some r) = some (of_codes r.url)

port_or_none : Option NormalizedUrl → Option ℕ
port_or_none none = none
port_or_none (some r) = r.port

scheme_text : Option NormalizedUrl → Option String
unfolding text_or_none
scheme_text none = none
scheme_text (some r) = text_or_none r.scheme

unfoldable pub canonical_of : Tables → Canonical
unfolding host_text path_text url_text port_or_none scheme_text
canonical_of tables = record {
  normalize_url = λ url. url_text (normalize_url tables (codes url));
  normalize_path = λ path. of_codes (normalize_path (codes path));
  host_of = λ url. host_text tables (urlsplit tables (codes url));
  path_of = λ url. path_text (urlsplit tables (codes url));
  port_of = λ url. port_or_none (normalize_url tables (codes url));
  scheme_of = λ url. scheme_text (normalize_url tables (codes url));
}
