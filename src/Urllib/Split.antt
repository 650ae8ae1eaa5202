-- ===== src/Urllib/Split.antt =====
-- `urlsplit` with its `hostname` and `port`, and `urlunsplit`. Text without ASCII is left to the tables of
-- `str.lower`, IDNA and NFKC.
pub mod Scheme
pub mod Host
pub mod Hostname
use ai_agent_security_firewa.Prelude.{
  ℕ, zero, suc, ◌+◌, ◌-◌, ◌*◌, ◌/◌, ◌%◌, Bool, true, false, not, ◌&&◌, ◌||◌, Option, none, some,
  List, [], ◌∷◌, ◌++◌, map, any, ltb, leb, nat_eq, if◌then◌else◌,
}
use ai_agent_security_firewa.Prelude.Text.{codes, codes_eq, lower_code}

pub record Tables : Type 0 where
  -- str.lower
  pub lower : List ℕ → List ℕ
  -- str.encode("idna"), none where it raises
  pub idna : List ℕ → Option (List ℕ)
  -- what NFKC and the address in brackets allow of a netloc
  pub accepts : List ℕ → Bool

pub record SplitResult : Type 0 where
  pub scheme : List ℕ
  pub netloc : List ℕ
  pub path : List ℕ
  pub query : List ℕ
  pub fragment : List ℕ

-- url.lstrip(_WHATWG_C0_CONTROL_OR_SPACE)
unfoldable pub strip_controls : List ℕ → List ℕ
strip_controls [] = []
strip_controls (c ∷ s) = if leb c 32 then strip_controls s else c ∷ s

-- Tab, line feed and carriage return are dropped.
unfoldable pub drop_unsafe : List ℕ → List ℕ
drop_unsafe [] = []
drop_unsafe (c ∷ s) =
    let rest = drop_unsafe s in if nat_eq c 9 || nat_eq c 10 || nat_eq c 13 then rest else c ∷ rest

unfoldable pub is_alpha : ℕ → Bool
is_alpha c = (leb 65 c && leb c 90) || (leb 97 c && leb c 122)

unfoldable pub is_scheme_char : ℕ → Bool
unfolding is_alpha
is_scheme_char c = is_alpha c || (leb 48 c && leb c 57) || nat_eq c 43 || nat_eq c 45 || nat_eq c 46

abbrev pub add_first : ℕ → Option (List ℕ × List ℕ) → Option (List ℕ × List ℕ)
add_first c none = none
add_first c (some (scheme, url)) = some (c ∷ scheme, url)

-- What stands before the first ":", if only characters of a scheme do, and what follows.
unfoldable pub scan_scheme : List ℕ → Option (List ℕ × List ℕ)
scan_scheme [] = none
scan_scheme (c ∷ s) =
    let rest = scan_scheme s in
    if nat_eq c 58 then some ([], s) else if is_scheme_char c then add_first c rest else none

abbrev pub with_scheme : Option (List ℕ × List ℕ) → List ℕ → List ℕ × List ℕ
with_scheme none url = ([], url)
with_scheme (some (scheme, rest)) url = (map lower_code scheme, rest)

unfoldable pub split_scheme : List ℕ → List ℕ × List ℕ
split_scheme [] = ([], [])
split_scheme (c ∷ s) = if is_alpha c then with_scheme (scan_scheme (c ∷ s)) (c ∷ s) else ([], c ∷ s)

-- _splitnetloc: up to the first of "/", "?" and "#"
unfoldable pub split_netloc : List ℕ → List ℕ × List ℕ
split_netloc [] = ([], [])
split_netloc (c ∷ s) =
    let (netloc, rest) = split_netloc s in
    if nat_eq c 47 || nat_eq c 63 || nat_eq c 35 then ([], c ∷ s) else (c ∷ netloc, rest)

unfoldable pub take_netloc : List ℕ → List ℕ × List ℕ
take_netloc (c ∷ d ∷ s) = if nat_eq c 47 && nat_eq d 47 then split_netloc s else ([], c ∷ d ∷ s)
take_netloc s = ([], s)

abbrev pub has_char : ℕ → List ℕ → Bool
has_char c s = any (λ d. nat_eq d c) s

-- s.partition(sep) without the separator
unfoldable pub cut : ℕ → List ℕ → List ℕ × List ℕ
cut sep [] = ([], [])
cut sep (c ∷ s) =
    let (before, after) = cut sep s in if nat_eq c sep then ([], s) else (c ∷ before, after)

is_netloc : Tables → List ℕ → Bool
is_netloc tables netloc =
    (if has_char 91 netloc then has_char 93 netloc else not (has_char 93 netloc))
    && tables.accepts netloc

-- The rest of a URL behind its netloc.
split_rest : List ℕ → List ℕ → List ℕ → SplitResult
split_rest scheme netloc url =
    let (before, fragment) = cut 35 url in
    let (path, query) = cut 63 before in
    record { scheme = scheme; netloc = netloc; path = path; query = query; fragment = fragment }

-- urlsplit(url), none where it raises ValueError
unfoldable pub urlsplit : Tables → List ℕ → Option SplitResult
unfolding is_netloc split_rest
urlsplit tables url =
    let (scheme, url) = split_scheme (drop_unsafe (strip_controls url)) in
    let (netloc, url) = take_netloc url in
    if is_netloc tables netloc then some (split_rest scheme netloc url) else none

unfoldable pub after_last : ℕ → List ℕ → List ℕ → List ℕ
after_last sep found [] = found
after_last sep found (c ∷ s) = if nat_eq c sep then after_last sep s s else after_last sep found s

-- The host and the port of a netloc, as they are written.
unfoldable pub hostinfo : List ℕ → List ℕ × List ℕ
hostinfo netloc =
    let info = after_last 64 netloc netloc in
    let (host, behind) = cut 93 (cut 91 info).1 in
    if has_char 91 info then (host, (cut 58 behind).1) else cut 58 info

-- Lower case, but for what follows a "%".
lower_host : Tables → List ℕ → List ℕ
lower_host tables host =
    if has_char 37 host
    then tables.lower (cut 37 host).0 ++ 37 ∷ (cut 37 host).1
    else tables.lower host

some_nonempty : List ℕ → List ℕ → Option (List ℕ)
some_nonempty [] lowered = none
some_nonempty (c ∷ s) lowered = some lowered

-- SplitResult.hostname
unfoldable pub hostname : Tables → SplitResult → Option (List ℕ)
unfolding lower_host some_nonempty
hostname tables parts =
    let (host, port) = hostinfo parts.netloc in some_nonempty host (lower_host tables host)

abbrev pub is_digit : ℕ → Bool
is_digit c = leb 48 c && leb c 57

-- int(s), of ASCII digits
unfoldable pub int_of : ℕ → List ℕ → Option ℕ
int_of n [] = some n
int_of n (c ∷ s) = if is_digit c then int_of (n * 10 + (c - 48)) s else none

-- SplitResult.port: raised is a ValueError
pub data Port : Type 0 where
  raised : Port
  port : Option ℕ → Port

in_range : Option ℕ → Port
in_range none = raised
in_range (some n) = if leb n 65535 then port (some n) else raised

port_of_text : List ℕ → Port
unfolding in_range
port_of_text [] = port none
port_of_text (c ∷ s) = in_range (int_of 0 (c ∷ s))

unfoldable pub port_of : SplitResult → Port
unfolding port_of_text
port_of parts = port_of_text (hostinfo parts.netloc).1

-- str(n), for fuel above the number of digits
unfoldable pub decimal : ℕ → ℕ → List ℕ
decimal zero n = []
decimal (suc fuel) n =
    let rest = decimal fuel (n / 10) in
    if ltb n 10 then (48 + n) ∷ [] else rest ++ (48 + n % 10) ∷ []

abbrev pub uses_netloc : List (List ℕ)
uses_netloc = map codes (
    "" ∷ "ftp" ∷ "http" ∷ "gopher" ∷ "nntp" ∷ "telnet" ∷ "imap" ∷ "wais" ∷ "file" ∷ "mms" ∷ "https"
    ∷ "shttp" ∷ "snews" ∷ "prospero" ∷ "rtsp" ∷ "rtspu" ∷ "rsync" ∷ "svn" ∷ "svn+ssh" ∷ "sftp"
    ∷ "nfs" ∷ "git" ∷ "git+ssh" ∷ "ws" ∷ "wss" ∷ [])

abbrev pub rooted : List ℕ → List ℕ
rooted [] = []
rooted (c ∷ s) = if nat_eq c 47 then c ∷ s else 47 ∷ c ∷ s

two_slashes : List ℕ → Bool
two_slashes (c ∷ d ∷ s) = nat_eq c 47 && nat_eq d 47
two_slashes s = false

unfoldable pub with_netloc : List ℕ → List ℕ → List ℕ → List ℕ
unfolding two_slashes
with_netloc scheme [] url =
    if not (codes_eq scheme []) && any (λ s. codes_eq s scheme) uses_netloc && not (two_slashes url)
    then 47 ∷ 47 ∷ rooted url
    else url
with_netloc scheme (c ∷ netloc) url = 47 ∷ 47 ∷ c ∷ netloc ++ rooted url

-- url + mark + s, where s is not empty
abbrev pub add_part : ℕ → List ℕ → List ℕ
add_part mark [] = []
add_part mark (c ∷ s) = mark ∷ c ∷ s

abbrev pub add_scheme : List ℕ → List ℕ → List ℕ
add_scheme [] url = url
add_scheme (c ∷ scheme) url = c ∷ scheme ++ 58 ∷ url

-- urlunsplit((scheme, netloc, path, query, ""))
unfoldable pub urlunsplit : List ℕ → List ℕ → List ℕ → List ℕ → List ℕ
urlunsplit scheme netloc path query =
    add_scheme scheme (with_netloc scheme netloc path) ++ add_part 63 query
