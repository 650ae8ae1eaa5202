-- ===== src/Pep/Normalize/Tests.antt =====
-- pep/normalize.py: the cases of tests/test_normalize.py and more, and the theorems at concrete inputs.
use ai_agent_security_firewa.Prelude.{
  ℕ, String, ◌≡◌, refl, Option, none, some, true, List, [], All, arith,
}
use ai_agent_security_firewa.Prelude.Text.{codes, codes_eq, split_at, join_with}
use ai_agent_security_firewa.Prelude.Chars.{of_codes, char_of}
use ai_agent_security_firewa.Prelude.Dict.{put}
use ai_agent_security_firewa.Prelude.Sorting.{sorted, insert_item}
use ai_agent_security_firewa.Urllib.Utf8.{next, lead, flush, encode}
use ai_agent_security_firewa.Urllib.Percent.{
  scan_all, scan_next, decode, unquote, unquote_plus, is_safe, hex_digit, hex_value, quote_byte,
  quote_bytes, encode_all, quote_plus,
}
use ai_agent_security_firewa.Urllib.Split.{
  Tables, SplitResult, strip_controls, drop_unsafe, is_alpha, is_scheme_char, scan_scheme,
  split_scheme, split_netloc, take_netloc, cut, urlsplit, after_last, hostinfo, hostname, int_of,
  port_of, decimal, with_netloc, urlunsplit,
}
use ai_agent_security_firewa.Urllib.Split.Scheme.{IsHostChar}
use ai_agent_security_firewa.Pep.Normalize.Path.{
  decode_rounds, decode_repeatedly, initial_slashes, push_comp, collapse, join_reversed, slashes,
  normpath, normalize_path,
}
use ai_agent_security_firewa.Pep.Normalize.Path.Canonical.{IsCanonical, normalize_path-IsCanonical}
use ai_agent_security_firewa.Pep.Normalize.Path.Idempotent.{normalize_path_idempotent}
use ai_agent_security_firewa.Pep.Normalize.Query.{
  split_field, parse_fields, parse_qsl, put_all, encode_item, urlencode, normalize_query,
}
use ai_agent_security_firewa.Pep.Normalize.Query.Canonical.{last_value, normalize_query_last_wins}
use ai_agent_security_firewa.Pep.Normalize.Url.{
  NormalizedUrl, normalize_host, fold_port, netloc_of, normalize_url,
}
use ai_agent_security_firewa.Pep.Normalize.Url.Host.{hostname-normalize_url}
use ai_agent_security_firewa.Prelude.Text.{lower_code}
use mathlib.Core.List.{map}

-- Names of ASCII characters.
abbrev ascii : Tables
ascii = record { lower = λ s. map lower_code s; idna = λ s. some s; accepts = λ s. true }

abbrev PathIs : String → String → Type 0
PathIs raw normal = normalize_path (codes raw) ≡ codes normal

-- Five rounds of decoding leave a sixth encoding: normalizing the result again changes it.
paths :
    PathIs "/data/../../etc/passwd" "/etc/passwd"
    × PathIs "data/%252e%252e/x" "/x"
    × PathIs "" ""
    × PathIs "//a/./b//c/" "/a/b/c"
    × PathIs "/a/%25252525252e%25252525252e" "/a/%2e%2e"
    × PathIs "/a/%2e%2e" "/"
unfolding normalize_path normpath initial_slashes slashes join_reversed collapse push_comp
    decode_repeatedly decode_rounds unquote scan_all scan_next decode next lead flush codes_eq
    split_at hex_value
paths = (refl, refl, refl, refl, refl, refl)

abbrev QueryIs : String → String → Type 0
QueryIs raw normal = normalize_query (codes raw) ≡ codes normal

queries :
    QueryIs "" ""
    × QueryIs "b=2&a=1&b=3&&c" "a=1&b=3&c="
    × QueryIs "q=a%20b+c&x=%26" "q=a+b+c&x=%26"
unfolding normalize_query urlencode encode_item put_all put sorted insert_item parse_qsl
    parse_fields split_field join_with split_at of_codes char_of quote_plus quote_bytes quote_byte
    is_safe hex_digit encode_all encode unquote_plus unquote scan_all scan_next decode next lead
    flush hex_value
queries = (refl, refl, refl)

abbrev url_of : Option NormalizedUrl → List ℕ
url_of none = []
url_of (some r) = r.url

abbrev UrlIs : String → String → Type 0
UrlIs raw normal = url_of (normalize_url ascii (codes raw)) ≡ codes normal

-- A "?" that was encoded in the path begins a query in the result, and the brackets of an address are lost.
urls :
    UrlIs "HTTP://evil.com@Trusted.com:80/a/../b?y=2&x=1" "http://trusted.com/b?x=1&y=2"
    × UrlIs "https://h:443" "https://h"
    × UrlIs "https://h:8443/" "https://h:8443/"
    × UrlIs "http://h:99999/" ""
    × UrlIs "http://h/a%3Fb=1" "http://h/a?b=1"
    × UrlIs "http://h/a?b=1" "http://h/a?b=1"
    × UrlIs "http://[::1]:8080/" "http://::1:8080/"
unfolding urlsplit strip_controls drop_unsafe is_alpha is_scheme_char scan_scheme split_scheme
    split_netloc take_netloc cut after_last hostinfo hostname int_of port_of decimal with_netloc
    urlunsplit normalize_host fold_port netloc_of normalize_url normalize_path normpath
    initial_slashes slashes join_reversed collapse push_comp decode_repeatedly decode_rounds unquote
    scan_all scan_next decode next lead flush codes_eq split_at hex_value normalize_query urlencode
    encode_item put_all put sorted insert_item parse_qsl parse_fields split_field join_with of_codes
    char_of quote_plus quote_bytes quote_byte is_safe hex_digit encode_all encode unquote_plus
urls = (refl, refl, refl, refl, refl, refl, refl)

normalize_path-IsCanonical_example : IsCanonical (normalize_path (codes "/a/%2e%2e/b"))
normalize_path-IsCanonical_example = normalize_path-IsCanonical 47 (codes "a/%2e%2e/b")

normalize_path_idempotent_example :
    normalize_path (normalize_path (codes "/a/%2e%2e")) ≡ normalize_path (codes "/a/%2e%2e")
unfolding normalize_path normpath initial_slashes slashes join_reversed collapse push_comp
    decode_repeatedly decode_rounds unquote scan_all scan_next decode next lead flush codes_eq
    split_at hex_value
normalize_path_idempotent_example =
    normalize_path_idempotent 47 (codes "a/%2e%2e") (omega arith, tt)

normalize_query_last_wins_example :
    normalize_query (codes "a=1&b=2&a=3") ≡ normalize_query (codes "b=2&a=3")
unfolding last_value normalize_query urlencode encode_item put_all put sorted insert_item parse_qsl
    parse_fields split_field join_with split_at of_codes char_of quote_plus quote_bytes quote_byte
    is_safe hex_digit encode_all encode unquote_plus unquote scan_all scan_next decode next lead
    flush hex_value
normalize_query_last_wins_example =
    normalize_query_last_wins (codes "a=1&b=2&a=3") (codes "b=2&a=3") (λ k. ground arith)

abbrev example_url : NormalizedUrl
example_url = record {
  url = codes "http://t.io/";
  fqdn = some (codes "t.io");
  port = none;
  path = codes "/";
  scheme = some (codes "http");
}

abbrev example_parts : SplitResult
example_parts = record {
  scheme = codes "http";
  netloc = codes "t.io";
  path = codes "/";
  query = [];
  fragment = [];
}

is_host : All IsHostChar (codes "t.io")
is_host = ground arith

hostname-normalize_url_example : hostname ascii example_parts ≡ some (codes "t.io")
unfolding urlsplit strip_controls drop_unsafe is_alpha is_scheme_char scan_scheme split_scheme
    split_netloc take_netloc cut after_last hostinfo hostname int_of port_of decimal with_netloc
    urlunsplit normalize_host fold_port netloc_of normalize_url normalize_path normpath
    initial_slashes slashes join_reversed collapse push_comp decode_repeatedly decode_rounds unquote
    scan_all scan_next decode next lead flush codes_eq split_at hex_value normalize_query urlencode
    encode_item put_all put sorted insert_item parse_qsl parse_fields split_field join_with of_codes
    char_of quote_plus quote_bytes quote_byte is_safe hex_digit encode_all encode unquote_plus
hostname-normalize_url_example =
    hostname-normalize_url ascii (codes "HTTP://evil.com@T.io:80/") (codes "t.io") example_url
      example_parts refl refl (λ e. cc e) is_host refl
