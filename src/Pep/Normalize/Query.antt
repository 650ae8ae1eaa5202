-- ===== src/Pep/Normalize/Query.antt =====
-- pep/normalize.py: `_normalize_query`, with `parse_qsl` and `urlencode` of the standard library.
pub mod RoundTrip
pub mod Canonical
use ai_agent_security_firewa.Prelude.{
  ℕ, String, Option, none, some, List, [], ◌∷◌, ◌++◌, map, nat_eq, if◌then◌else◌,
}
use ai_agent_security_firewa.Prelude.Dict.{Dict, put}
use ai_agent_security_firewa.Prelude.Text.{codes, split_at, join_with}
use ai_agent_security_firewa.Prelude.Chars.{of_codes}
use ai_agent_security_firewa.Prelude.Sorting.{Item, sorted}
use ai_agent_security_firewa.Urllib.Percent.{quote_plus, unquote_plus}

-- s.split("=", 1), where a missing second part is empty
unfoldable pub split_field : List ℕ → List ℕ × List ℕ
split_field [] = ([], [])
split_field (c ∷ s) =
    let (name, value) = split_field s in if nat_eq c 61 then ([], s) else (c ∷ name, value)

abbrev pub unquote_item : List ℕ × List ℕ → Item
unquote_item (name, value) = (of_codes (unquote_plus name), of_codes (unquote_plus value))

-- The fields that are not empty, each a name and a value.
unfoldable pub parse_fields : List (List ℕ) → List Item
parse_fields [] = []
parse_fields ([] ∷ fields) = parse_fields fields
parse_fields ((c ∷ s) ∷ fields) = unquote_item (split_field (c ∷ s)) ∷ parse_fields fields

-- parse_qsl(raw_query, keep_blank_values=True)
unfoldable pub parse_qsl : List ℕ → List Item
parse_qsl qs = let (field, fields) = split_at 38 qs in parse_fields (field ∷ fields)

-- for key, value in pairs: deduped[key] = value
unfoldable pub put_all : Dict String → List Item → Dict String
put_all deduped [] = deduped
put_all deduped ((key, value) ∷ pairs) = put_all (put deduped key value) pairs

unfoldable pub encode_item : Item → List ℕ
encode_item (key, value) = quote_plus (codes key) ++ 61 ∷ quote_plus (codes value)

unfoldable pub urlencode : List Item → List ℕ
urlencode [] = []
urlencode (item ∷ items) = join_with 38 (encode_item item) (map encode_item items)

-- _normalize_query
unfoldable pub normalize_query : List ℕ → List ℕ
normalize_query [] = []
normalize_query (c ∷ s) = urlencode (sorted (put_all [] (parse_qsl (c ∷ s))))
