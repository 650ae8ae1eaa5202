-- ===== src/Urllib/Percent/Quoted.antt =====
-- The characters that `quote_plus` writes.
use ai_agent_security_firewa.Prelude.{ℕ, ◌/◌, ◌%◌, ◌≢◌, List, [], ◌∷◌, All, All-append, arith}
use ai_agent_security_firewa.Urllib.Percent.{
  is_safe, hex_digit, quote_byte, quote_bytes, encode_all, quote_plus,
}

-- The characters of a quoted text: none is `&` or `=`.
abbrev pub IsQuoted : ℕ → Type 0
IsQuoted c = (c ≢ 38) × (c ≢ 61)

hex_digit-IsQuoted : (v : ℕ) → IsQuoted (hex_digit v)
unfolding hex_digit
hex_digit-IsQuoted v = ground arith

quote_byte-IsQuoted : (b : ℕ) → All IsQuoted (quote_byte b)
unfolding quote_byte is_safe
quote_byte-IsQuoted b = ground (arith, hex_digit-IsQuoted (b / 16), hex_digit-IsQuoted (b % 16))

quote_bytes-IsQuoted : (bs : List ℕ) → All IsQuoted (quote_bytes bs)
unfolding quote_bytes
quote_bytes-IsQuoted [] = tt
quote_bytes-IsQuoted (b ∷ bs) =
    All-append IsQuoted (quote_byte b) (quote_bytes bs) (quote_byte-IsQuoted b)
      (quote_bytes-IsQuoted bs)

pub quote_plus-IsQuoted : (s : List ℕ) → All IsQuoted (quote_plus s)
unfolding quote_plus
quote_plus-IsQuoted s = quote_bytes-IsQuoted (encode_all s)
