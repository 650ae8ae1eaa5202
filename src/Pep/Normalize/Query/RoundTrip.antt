-- ===== src/Pep/Normalize/Query/RoundTrip.antt =====
-- pep/normalize.py: a query that `urlencode` wrote is parsed to the same pairs.
use ai_agent_security_firewa.Prelude.{
  ℕ, String, ◌≡◌, ◌≢◌, refl, ap, ap₂, ◌∙◌, List, [], ◌∷◌, ◌++◌, map, All, All-append, All-map,
  arith,
}
use ai_agent_security_firewa.Prelude.Text.{
  codes, split_at, split_at-none, split_at-append, join_with,
}
use ai_agent_security_firewa.Prelude.Chars.{
  of_codes, of_codes-codes, codes-IsScalar, IsScalar-bounds,
}
use ai_agent_security_firewa.Prelude.Sorting.{Item}
use ai_agent_security_firewa.Urllib.Utf8.{IsValid}
use ai_agent_security_firewa.Urllib.Percent.{quote_plus, unquote_plus}
use ai_agent_security_firewa.Urllib.Percent.RoundTrip.{unquote_plus-quote_plus}
use ai_agent_security_firewa.Urllib.Percent.Quoted.{quote_plus-IsQuoted, IsQuoted}
use ai_agent_security_firewa.Pep.Normalize.Query.{
  split_field, parse_fields, parse_qsl, encode_item, urlencode,
}

codes-IsValid : (s : List ℕ) → All Prim.Native.Char.IsScalar s → All IsValid s
codes-IsValid [] h = tt
codes-IsValid (c ∷ s) (p, h) = (IsScalar-bounds c p, codes-IsValid s h)

unquote_codes : (s : String) → of_codes (unquote_plus (quote_plus (codes s))) ≡ s
unquote_codes s =
    ap of_codes (unquote_plus-quote_plus (codes s) (codes-IsValid (codes s) (codes-IsScalar s)))
    ∙ of_codes-codes s

split_field_quoted : (s t : List ℕ) → All IsQuoted s → split_field (s ++ 61 ∷ t) ≡ (s, t)
unfolding split_field
split_field_quoted [] t h = refl
split_field_quoted (c ∷ s) t (p, h) = ground (arith, split_field_quoted s t h)

parse_fields_cons :
    (s t : List ℕ) (fields : List (List ℕ))
    → parse_fields ((s ++ 61 ∷ t) ∷ fields)
      ≡ (
        of_codes (unquote_plus (split_field (s ++ 61 ∷ t)).0),
        of_codes (unquote_plus (split_field (s ++ 61 ∷ t)).1),
      )
        ∷ parse_fields fields
unfolding parse_fields
parse_fields_cons [] t fields = refl
parse_fields_cons (c ∷ s) t fields = refl

parse_fields-encode_item :
    (item : Item) (fields : List (List ℕ))
    → parse_fields (encode_item item ∷ fields) ≡ item ∷ parse_fields fields
unfolding encode_item
parse_fields-encode_item (key, value) fields =
    parse_fields_cons (quote_plus (codes key)) (quote_plus (codes value)) fields
    ∙ ap
        (λ (p : List ℕ × List ℕ).
          (of_codes (unquote_plus p.0), of_codes (unquote_plus p.1)) ∷ parse_fields fields)
        (split_field_quoted (quote_plus (codes key)) (quote_plus (codes value))
          (quote_plus-IsQuoted (codes key)))
    ∙ ap₂ (λ (k v : String). (k, v) ∷ parse_fields fields) (unquote_codes key) (unquote_codes value)

parse_fields-map : (items : List Item) → parse_fields (map encode_item items) ≡ items
unfolding parse_fields
parse_fields-map [] = refl
parse_fields-map (item ∷ items) =
    parse_fields-encode_item item (map encode_item items)
    ∙ ap (λ (l : List Item). item ∷ l) (parse_fields-map items)

ampersand_free : (s : String) → All (λ c. c ≢ 38) (quote_plus (codes s))
ampersand_free s =
    All-map (λ c (p : IsQuoted c). p.0) (quote_plus (codes s)) (quote_plus-IsQuoted (codes s))

encode_item_no_separator : (item : Item) → All (λ c. c ≢ 38) (encode_item item)
unfolding encode_item
encode_item_no_separator (key, value) =
    All-append (λ c. c ≢ 38) (quote_plus (codes key)) (61 ∷ quote_plus (codes value))
      (ampersand_free key) (omega arith, ampersand_free value)

split-join :
    (item : Item) (items : List Item)
    → split_at 38 (join_with 38 (encode_item item) (map encode_item items))
      ≡ (encode_item item, map encode_item items)
unfolding join_with
split-join item [] = split_at-none 38 (encode_item item) (encode_item_no_separator item)
split-join item (next ∷ items) =
    rw
      (
        split_at-append 38 (encode_item item)
            (join_with 38 (encode_item next) (map encode_item items))
            (encode_item_no_separator item),
        split-join next items,
      )
      refl

-- A list of pairs of texts comes back from the query it is written as.
pub parse_qsl-urlencode : (items : List Item) → parse_qsl (urlencode items) ≡ items
unfolding parse_qsl urlencode parse_fields split_at
parse_qsl-urlencode [] = refl
parse_qsl-urlencode (item ∷ items) = rw (split-join item items) (parse_fields-map (item ∷ items))
