-- ===== src/Pep/Normalize/Url/Host.antt =====
-- pep/normalize.py: the host that policy is evaluated for is the host of the URL that is forwarded.
use mathlib.Core.List.{append-nil}
use ai_agent_security_firewa.Prelude.{
  ℕ, zero, suc, ◌+◌, ◌/◌, ◌%◌, ◌≡◌, ◌≢◌, refl, ap, sym, subst, ◌∙◌, Option, none, some, List, [],
  ◌∷◌, ◌++◌, All, All-map, All-append, ltb, arith, Bool-cases, inl, inr,
}
use ai_agent_security_firewa.Urllib.Split.{
  Tables, SplitResult, urlsplit, hostname, Port, raised, port, port_of, decimal, urlunsplit,
}
use ai_agent_security_firewa.Urllib.Split.Scheme.{
  IsScheme, IsHostChar, IsNetlocChar, lower-IsScheme,
}
use ai_agent_security_firewa.Urllib.Split.Host.{netloc-urlunsplit, IsSplit, urlsplit-IsSplit}
use ai_agent_security_firewa.Urllib.Split.Hostname.{IsPort, hostname-netloc}
use ai_agent_security_firewa.Pep.Normalize.Path.{normalize_path}
use ai_agent_security_firewa.Pep.Normalize.Query.{normalize_query}
use ai_agent_security_firewa.Pep.Normalize.Url.{
  NormalizedUrl, scheme_or_none, or_empty, netloc_of, canonical_url, with_port, normalize_parts,
  normalize_url,
}

decimal-IsNetlocChar : (fuel n : ℕ) → All IsNetlocChar (decimal fuel n)
unfolding decimal
decimal-IsNetlocChar zero n = tt
decimal-IsNetlocChar (suc fuel) n = elim (Bool-cases (ltb n 10)) [
  | inl e ↦ rw e (ground arith, tt)
  | inr e ↦ rw e (
      All-append IsNetlocChar (decimal fuel (n / 10)) ((48 + n % 10) ∷ [])
        (decimal-IsNetlocChar fuel (n / 10)) (ground arith, tt))
]

-- ":" and the port, or nothing.
port_text : Option ℕ → List ℕ
port_text none = []
port_text (some n) = 58 ∷ decimal 6 n

netloc_of-port_text :
    (host : List ℕ) (folded : Option ℕ) → netloc_of host folded ≡ host ++ port_text folded
unfolding netloc_of port_text
netloc_of-port_text host none = sym (append-nil host)
netloc_of-port_text host (some n) = refl

port_text-IsPort : (folded : Option ℕ) → IsPort (port_text folded)
unfolding port_text
port_text-IsPort none = tt
port_text-IsPort (some n) = refl

port_text-IsNetlocChar : (folded : Option ℕ) → All IsNetlocChar (port_text folded)
unfolding port_text
port_text-IsNetlocChar none = tt
port_text-IsNetlocChar (some n) = (ground arith, decimal-IsNetlocChar 6 n)

host_char_in_netloc : (c : ℕ) → IsHostChar c → IsNetlocChar c
host_char_in_netloc c p = (p.0, p.1, p.2, p.3, p.5, p.7, p.8, p.9)

append_nonempty : (s t : List ℕ) → s ≢ [] → s ++ t ≢ []
append_nonempty [] t ne e = ne refl
append_nonempty (c ∷ s) t ne e = cc e

some_injective : {r q : NormalizedUrl} → some r ≡ some q → r ≡ q
some_injective e = cc e

-- How a result was put together.
Composed : NormalizedUrl → Type 0
Composed r =
    (scheme : List ℕ) × (path : List ℕ) × (query : List ℕ) × IsScheme scheme
    × (r.url ≡ urlunsplit scheme (netloc_of (or_empty r.fqdn) r.port) path query)

scheme_or_none-IsScheme : (s : List ℕ) → IsScheme s → IsScheme (or_empty (scheme_or_none s))
scheme_or_none-IsScheme [] h = tt
scheme_or_none-IsScheme (c ∷ s) h = lower-IsScheme (c ∷ s) h

with_port-Composed :
    (tables : Tables) (parts : SplitResult) (p : Port) (r : NormalizedUrl)
    → IsScheme parts.scheme
    → with_port tables parts p ≡ some r
    → Composed r
unfolding with_port canonical_url Composed
with_port-Composed tables parts raised r s e = absurd (cc e)
with_port-Composed tables parts (port n) r s e = subst Composed (some_injective e) (
  or_empty (scheme_or_none parts.scheme),
  normalize_path parts.path,
  normalize_query parts.query,
  scheme_or_none-IsScheme parts.scheme s,
  refl,
)

normalize_parts-Composed :
    (tables : Tables) (o : Option SplitResult) (r : NormalizedUrl)
    → IsSplit o
    → normalize_parts tables o ≡ some r
    → Composed r
unfolding normalize_parts IsSplit
normalize_parts-Composed tables none r s e = absurd (cc e)
normalize_parts-Composed tables (some parts) r s e =
    with_port-Composed tables parts (port_of parts) r s e

normalize_url-Composed :
    (tables : Tables) (raw_url : List ℕ) (r : NormalizedUrl)
    → normalize_url tables raw_url ≡ some r
    → Composed r
unfolding normalize_url
normalize_url-Composed tables raw_url r e =
    normalize_parts-Composed tables (urlsplit tables raw_url) r (urlsplit-IsSplit tables raw_url) e

-- Where normalization gives a URL and a host, a name without the characters that a URL has a meaning
-- for, `urlsplit` of that URL finds the same host, in lower case: what is evaluated is what is forwarded.
pub hostname-normalize_url :
    (tables : Tables) (raw_url host : List ℕ) (r : NormalizedUrl) (parts : SplitResult)
    → normalize_url tables raw_url ≡ some r
    → r.fqdn ≡ some host
    → host ≢ []
    → All IsHostChar host
    → urlsplit tables r.url ≡ some parts
    → hostname tables parts ≡ some (tables.lower host)
unfolding Composed
hostname-normalize_url tables raw_url host r parts e f ne h split =
    let (scheme, path, query, s, u) = normalize_url-Composed tables raw_url r e in
    let netloc : netloc_of (or_empty r.fqdn) r.port ≡ host ++ port_text r.port =
      ap (λ (o : Option (List ℕ)). netloc_of (or_empty o) r.port) f
      ∙ netloc_of-port_text host r.port in
    let chars : All IsNetlocChar (host ++ port_text r.port) =
      All-append IsNetlocChar host (port_text r.port) (All-map host_char_in_netloc host h)
        (port_text-IsNetlocChar r.port) in
    hostname-netloc tables parts host (port_text r.port)
      (netloc-urlunsplit tables scheme (host ++ port_text r.port) path query parts s
        (append_nonempty host (port_text r.port) ne) chars
        (ap (λ (n : List ℕ). urlsplit tables (urlunsplit scheme n path query)) (sym netloc)
          ∙ ap (urlsplit tables) (sym u)
          ∙ split))
      ne h (port_text-IsPort r.port) chars
