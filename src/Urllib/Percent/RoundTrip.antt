-- ===== src/Urllib/Percent/RoundTrip.antt =====
-- `unquote_plus` undoes `quote_plus`.
use mathlib.Core.List.{append-nil, append_assoc, map-append}
use ai_agent_security_firewa.Prelude.{
  ℕ, ◌+◌, ◌*◌, ◌/◌, ◌%◌, ◌<◌, ◌≡◌, ◌≢◌, refl, ap, sym, ◌∙◌, true, false, some, List, [], ◌∷◌, ◌++◌,
  map, All, All-append, ltb, nat_eq, arith, Bool-cases, inl, inr,
}
use ai_agent_security_firewa.Urllib.Utf8.{
  Pending, idle, Step, lead, next, flush, feed, encode, IsValid,
}
use ai_agent_security_firewa.Urllib.Utf8.Sequences.{feed-encode}
use ai_agent_security_firewa.Urllib.Percent.{
  Symbol, byte, symbol, space_for_plus, hex_value, start, scan_next, scan_all, from_start, on_digit,
  on_second, decode, unquote, plus_to_space, unquote_plus, is_safe, hex_digit, quote_byte,
  quote_bytes, encode_all, quote_plus,
}

hex_value-hex_digit : (v : ℕ) → v < 16 → hex_value (hex_digit v) ≡ some v
unfolding hex_value hex_digit
hex_value-hex_digit v h = ground arith

hex_digit_plain : (v : ℕ) → v < 16 → nat_eq (hex_digit v) 43 ≡ false
unfolding hex_digit
hex_digit_plain v h = ground arith

scan_escape :
    (a b : ℕ) (t : List ℕ)
    → a < 16
    → b < 16
    → scan_all start (37 ∷ hex_digit a ∷ hex_digit b ∷ t) ≡ byte (a * 16 + b) ∷ scan_all start t
unfolding scan_all scan_next from_start on_digit on_second
scan_escape a b t h k = rw (hex_value-hex_digit a h, hex_value-hex_digit b k) refl

scan_plain :
    (c : ℕ) (t : List ℕ) → c < 128 → c ≢ 37 → scan_all start (c ∷ t) ≡ byte c ∷ scan_all start t
unfolding scan_all scan_next from_start
scan_plain c t h ne = ground arith

not_plus : (b : ℕ) → is_safe b ≡ true → nat_eq b 43 ≡ false
unfolding is_safe
not_plus b s = ground arith

not_percent : (b : ℕ) → is_safe b ≡ true → b ≢ 37
unfolding is_safe
not_percent b s = ground arith

below_ascii : (b : ℕ) → is_safe b ≡ true → b < 128
unfolding is_safe
below_ascii b s = ground arith

scan-quote_byte :
    (b : ℕ) (t : List ℕ)
    → b < 256
    → scan_all start (plus_to_space (quote_byte b) ++ t) ≡ byte b ∷ scan_all start t
unfolding quote_byte
scan-quote_byte b t h = elim (Bool-cases (is_safe b)) [
  | inl s ↦ rw (s, not_plus b s) (scan_plain b t (below_ascii b s) (not_percent b s))
  | inr s ↦ rw s (elim (Bool-cases (nat_eq b 32)) [
    | inl e ↦ rw e (
        scan_plain 32 t (omega arith) (omega arith)
        ∙ ap (λ (n : ℕ). byte n ∷ scan_all start t) (ground arith))
    | inr e ↦
        rw (e, hex_digit_plain (b / 16) (omega arith), hex_digit_plain (b % 16) (omega arith))
          (scan_escape (b / 16) (b % 16) t (omega arith) (omega arith)
            ∙ ap (λ (n : ℕ). byte n ∷ scan_all start t) (omega arith))
  ])
]

decode-feed :
    (p : Pending) (bs : List ℕ) (t : List Symbol)
    → decode p (map byte bs ++ t) ≡ (feed p bs).output ++ decode (feed p bs).pending t
unfolding decode feed
decode-feed p [] t = refl
decode-feed p (b ∷ bs) t = rw (decode-feed (next p b).pending bs t) (
    sym (
      append_assoc (next p b).output (feed (next p b).pending bs).output
        (decode (feed p (b ∷ bs)).pending t)))

abbrev IsByte : ℕ → Type 0
IsByte b = b < 256

encode-IsByte : (c : ℕ) → IsValid c → All IsByte (encode c)
unfolding encode
encode-IsByte c v = elim (Bool-cases (ltb c 128)) [
  | inl e ↦ rw e (ground arith, tt)
  | inr e ↦ rw e (elim (Bool-cases (ltb c 2048)) [
    | inl f ↦ rw f (ground arith, (omega arith, tt))
    | inr f ↦ rw f (elim (Bool-cases (ltb c 65536)) [
      | inl g ↦ rw g (ground arith, (omega arith, (omega arith, tt)))
      | inr g ↦ rw g (ground arith, (omega arith, (omega arith, (omega arith, tt))))
    ])
  ])
]

scan-quote_bytes :
    (bs : List ℕ) (t : List ℕ)
    → All IsByte bs
    → scan_all start (plus_to_space (quote_bytes bs) ++ t) ≡ map byte bs ++ scan_all start t
unfolding quote_bytes
scan-quote_bytes [] t h = refl
scan-quote_bytes (b ∷ bs) t (l, h) =
    ap (λ (s : List ℕ). scan_all start (s ++ t))
      (map-append space_for_plus (quote_byte b) (quote_bytes bs))
    ∙ ap (scan_all start)
        (append_assoc (plus_to_space (quote_byte b)) (plus_to_space (quote_bytes bs)) t)
    ∙ scan-quote_byte b (plus_to_space (quote_bytes bs) ++ t) l
    ∙ ap (λ (s : List Symbol). byte b ∷ s) (scan-quote_bytes bs t h)

encode_all-IsByte : (s : List ℕ) → All IsValid s → All IsByte (encode_all s)
unfolding encode_all
encode_all-IsByte [] h = tt
encode_all-IsByte (c ∷ s) (v, h) =
    All-append IsByte (encode c) (encode_all s) (encode-IsByte c v) (encode_all-IsByte s h)

decode-encode_all : (s : List ℕ) → All IsValid s → decode idle (map byte (encode_all s)) ≡ s
unfolding encode_all decode flush
decode-encode_all [] h = refl
decode-encode_all (c ∷ s) (v, h) =
    ap (decode idle) (map-append byte (encode c) (encode_all s))
    ∙ decode-feed idle (encode c) (map byte (encode_all s))
    ∙ ap (λ (r : Step). r.output ++ decode r.pending (map byte (encode_all s))) (feed-encode c v)
    ∙ ap (λ (r : List ℕ). c ∷ r) (decode-encode_all s h)

-- A quoted text has none but ASCII characters, none of them a separator.
pub unquote_plus-quote_plus : (s : List ℕ) → All IsValid s → unquote_plus (quote_plus s) ≡ s
unfolding unquote_plus unquote quote_plus scan_all
unquote_plus-quote_plus s h =
    ap (λ (r : List ℕ). decode idle (scan_all start r))
      (sym (append-nil (plus_to_space (quote_bytes (encode_all s)))))
    ∙ ap (decode idle) (
        scan-quote_bytes (encode_all s) [] (encode_all-IsByte s h)
        ∙ append-nil (map byte (encode_all s)))
    ∙ decode-encode_all s h

scan_symbol : (c : ℕ) (t : List ℕ) → c ≢ 37 → scan_all start (c ∷ t) ≡ symbol c ∷ scan_all start t
unfolding scan_all scan_next from_start
scan_symbol c t ne = ground arith

decode-symbol : (c : ℕ) (t : List Symbol) → decode idle (symbol c ∷ t) ≡ c ∷ decode idle t
unfolding decode flush next lead
decode-symbol c t = elim (Bool-cases (ltb c 128)) [ inl e ↦ rw (e, e) refl | inr e ↦ rw e refl ]

unquote_by : (s : List ℕ) → All (λ c. c ≢ 37) s → decode idle (scan_all start s) ≡ s
unfolding decode scan_all flush
unquote_by [] h = refl
unquote_by (c ∷ s) (p, h) =
    ap (decode idle) (scan_symbol c s p)
    ∙ decode-symbol c (scan_all start s)
    ∙ ap (λ (t : List ℕ). c ∷ t) (unquote_by s h)

pub unquote-no_percent : (s : List ℕ) → All (λ c. c ≢ 37) s → unquote s ≡ s
unfolding unquote
unquote-no_percent s h = unquote_by s h
