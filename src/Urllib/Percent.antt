-- ===== src/Urllib/Percent.antt =====
-- `unquote`, `unquote_plus` and `quote_plus`. Runs of ASCII characters are bytes, of which `%` with two
-- hexadecimal digits is one; the bytes are decoded as UTF-8.
pub mod RoundTrip
pub mod Quoted
use ai_agent_security_firewa.Prelude.{
  ℕ, ◌+◌, ◌-◌, ◌*◌, ◌/◌, ◌%◌, Bool, true, false, ◌&&◌, ◌||◌, Option, none, some, List, [], ◌∷◌,
  ◌++◌, map, ltb, leb, nat_eq, if◌then◌else◌,
}
use ai_agent_security_firewa.Urllib.Utf8.{Pending, idle, Step, next, flush, encode}

-- A byte of an ASCII run, or a character that is not ASCII.
pub data Symbol : Type 0 where
  byte plain : ℕ → Symbol

abbrev pub symbol : ℕ → Symbol
symbol c = if ltb c 128 then byte c else plain c

-- The value of a hexadecimal digit.
unfoldable pub hex_value : ℕ → Option ℕ
hex_value c =
    if leb 48 c && leb c 57
    then some (c - 48)
    else if leb 65 c && leb c 70
    then some (c - 55)
    else if leb 97 c && leb c 102
    then some (c - 87)
    else none

-- Where a scan stands: behind nothing, behind `%`, or behind `%` and a digit with its value.
pub data Scan : Type 0 where
  start seen : Scan
  digit : (c value : ℕ) → Scan

pub record Scanned : Type 0 where
  pub symbols : List Symbol
  pub scan : Scan

from_start : ℕ → Scanned
from_start c =
    if nat_eq c 37
    then record { symbols = []; scan = seen }
    else record { symbols = symbol c ∷ []; scan = start }

-- `%` and what follows it stand for themselves, and the scan goes on at the next character.
give_up : List Symbol → ℕ → Scanned
unfolding from_start
give_up symbols c = record (from_start c) { symbols = symbols ++ (from_start c).symbols }

on_digit : ℕ → Option ℕ → Scanned
unfolding give_up
on_digit c none = give_up (byte 37 ∷ []) c
on_digit c (some value) = record { symbols = []; scan = digit c value }

on_second : ℕ → ℕ → ℕ → Option ℕ → Scanned
unfolding give_up
on_second h value c none = give_up (byte 37 ∷ byte h ∷ []) c
on_second h value c (some second) = record {
  symbols = byte (value * 16 + second) ∷ [];
  scan = start;
}

unfoldable pub scan_next : Scan → ℕ → Scanned
unfolding from_start on_digit on_second
scan_next start c = from_start c
scan_next seen c = on_digit c (hex_value c)
scan_next (digit h value) c = on_second h value c (hex_value c)

scan_end : Scan → List Symbol
scan_end start = []
scan_end seen = byte 37 ∷ []
scan_end (digit h value) = byte 37 ∷ byte h ∷ []

unfoldable pub scan_all : Scan → List ℕ → List Symbol
unfolding scan_end
scan_all p [] = scan_end p
scan_all p (c ∷ s) = let r = scan_next p c in r.symbols ++ scan_all r.scan s

-- bytes.decode("utf-8", "replace") of each run of bytes
unfoldable pub decode : Pending → List Symbol → List ℕ
decode p [] = flush p
decode p (plain c ∷ s) = flush p ++ c ∷ decode idle s
decode p (byte b ∷ s) = let r = next p b in r.output ++ decode r.pending s

unfoldable pub unquote : List ℕ → List ℕ
unquote s = decode idle (scan_all start s)

abbrev pub space_for_plus : ℕ → ℕ
space_for_plus c = if nat_eq c 43 then 32 else c

-- s.replace("+", " ")
abbrev pub plus_to_space : List ℕ → List ℕ
plus_to_space s = map space_for_plus s

unfoldable pub unquote_plus : List ℕ → List ℕ
unquote_plus s = unquote (plus_to_space s)

-- _ALWAYS_SAFE: letters, digits and `_.-~`
unfoldable pub is_safe : ℕ → Bool
is_safe b =
    (leb 65 b && leb b 90)
    || (leb 97 b && leb b 122)
    || (leb 48 b && leb b 57)
    || nat_eq b 95
    || nat_eq b 46
    || nat_eq b 45
    || nat_eq b 126

-- An upper case hexadecimal digit.
unfoldable pub hex_digit : ℕ → ℕ
hex_digit v = if ltb v 10 then 48 + v else 55 + v

unfoldable pub quote_byte : ℕ → List ℕ
quote_byte b =
    if is_safe b
    then b ∷ []
    else if nat_eq b 32
    then 43 ∷ []
    else 37 ∷ hex_digit (b / 16) ∷ hex_digit (b % 16) ∷ []

unfoldable pub quote_bytes : List ℕ → List ℕ
quote_bytes [] = []
quote_bytes (b ∷ bs) = quote_byte b ++ quote_bytes bs

-- str.encode("utf-8")
unfoldable pub encode_all : List ℕ → List ℕ
encode_all [] = []
encode_all (c ∷ s) = encode c ++ encode_all s

unfoldable pub quote_plus : List ℕ → List ℕ
quote_plus s = quote_bytes (encode_all s)
