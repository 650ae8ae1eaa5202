-- ===== src/Pep/Normalize/Url.antt =====
-- pep/normalize.py: `normalize_url`.
pub mod Host
use ai_agent_security_firewa.Prelude.{
  ℕ, Bool, true, false, Option, none, some, List, [], ◌∷◌, ◌++◌, map, nat_eq, if◌then◌else◌, ◌&&◌,
  ◌||◌,
}
use ai_agent_security_firewa.Prelude.Text.{codes, codes_eq, lower_code}
use ai_agent_security_firewa.Urllib.Split.{
  Tables, SplitResult, urlsplit, hostname, Port, raised, port, port_of, decimal, urlunsplit,
}
use ai_agent_security_firewa.Pep.Normalize.Path.{normalize_path}
use ai_agent_security_firewa.Pep.Normalize.Query.{normalize_query}

pub record NormalizedUrl : Type 0 where
  pub url : List ℕ
  pub fqdn : Option (List ℕ)
  pub port : Option ℕ
  pub path : List ℕ
  pub scheme : Option (List ℕ)

-- (parts.scheme or "").lower() or None
abbrev pub scheme_or_none : List ℕ → Option (List ℕ)
scheme_or_none [] = none
scheme_or_none (c ∷ s) = some (map lower_code (c ∷ s))

-- s or "", where s may be None
abbrev pub or_empty : Option (List ℕ) → List ℕ
or_empty none = []
or_empty (some s) = s

-- hostname.encode("idna").decode("ascii"), or the name itself where that raises
abbrev pub or_name : Option (List ℕ) → List ℕ → List ℕ
or_name none name = name
or_name (some ascii) name = ascii

-- _normalize_host
unfoldable pub normalize_host : Tables → List ℕ → List ℕ
normalize_host tables name = or_name (tables.idna (tables.lower name)) (tables.lower name)

abbrev pub host_of_parts : Tables → Option (List ℕ) → Option (List ℕ)
host_of_parts tables none = none
host_of_parts tables (some name) = some (normalize_host tables name)

-- _DEFAULT_PORTS.get(scheme or "") == port
is_default_port : List ℕ → ℕ → Bool
is_default_port scheme n =
    (codes_eq scheme (codes "http") && nat_eq n 80)
    || (codes_eq scheme (codes "https") && nat_eq n 443)

unfoldable pub fold_port : List ℕ → Option ℕ → Option ℕ
unfolding is_default_port
fold_port scheme none = none
fold_port scheme (some n) = if is_default_port scheme n then none else some n

-- The netloc is made of the host and the port alone.
unfoldable pub netloc_of : List ℕ → Option ℕ → List ℕ
netloc_of host none = host
netloc_of host (some n) = host ++ 58 ∷ decimal 6 n

canonical_url :
    Tables → Option (List ℕ) → Option (List ℕ) → Option ℕ → List ℕ → List ℕ → NormalizedUrl
canonical_url tables scheme fqdn folded path query = record {
  url = urlunsplit (or_empty scheme) (netloc_of (or_empty fqdn) folded) path query;
  fqdn = fqdn;
  port = folded;
  path = path;
  scheme = scheme;
}

with_port : Tables → SplitResult → Port → Option NormalizedUrl
unfolding canonical_url
with_port tables parts raised = none
with_port tables parts (port n) = some (
    canonical_url tables (scheme_or_none parts.scheme)
      (host_of_parts tables (hostname tables parts))
      (fold_port (or_empty (scheme_or_none parts.scheme)) n) (normalize_path parts.path)
      (normalize_query parts.query))

normalize_parts : Tables → Option SplitResult → Option NormalizedUrl
unfolding with_port
normalize_parts tables none = none
normalize_parts tables (some parts) = with_port tables parts (port_of parts)

-- normalize_url(raw_url), none where it raises
unfoldable pub normalize_url : Tables → List ℕ → Option NormalizedUrl
unfolding normalize_parts
normalize_url tables raw_url = normalize_parts tables (urlsplit tables raw_url)
