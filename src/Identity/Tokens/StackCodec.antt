-- ===== src/Identity/Tokens/StackCodec.antt =====
-- identity/tokens.py: a codec that has what the interface asks for. Claims are
-- written as the steps of a stack machine that builds them, each a code and an argument.
use ai_agent_security_firewa.Prelude.{
  ℕ, ◌+◌, ◌-◌, String, ◌≡◌, ◌≢◌, refl, ap, ◌∙◌, true, false, Option, none, some, List, [], ◌∷◌, map,
  All, nat_eq, arith, if◌then◌else◌,
}
use ai_agent_security_firewa.Prelude.Json.{
  Json, null, bool, num, str, arr, obj, Items, nil, item, Fields, end, field, fields,
}
use ai_agent_security_firewa.Prelude.Text.{codes, codes_eq, codes_eq_iff}
use ai_agent_security_firewa.Prelude.Chars.{of_codes, of_codes-codes}
use ai_agent_security_firewa.Identity.Tokens.{Claims, Codec}

pub data Entry : Type 0 where
  json : Json → Entry
  items_entry : Items → Entry
  fields_entry : Fields → Entry
  chars : List ℕ → Entry

abbrev pub Stack : Type 0
Stack = List Entry

pub add_char : ℕ → Stack → Stack
add_char n (chars s ∷ st) = chars (n ∷ s) ∷ st
add_char n st = st

pub make_text : Stack → Stack
make_text (chars s ∷ st) = json (str (of_codes s)) ∷ st
make_text st = st

pub make_item : Stack → Stack
make_item (json v ∷ items_entry vs ∷ st) = items_entry (item v vs) ∷ st
make_item st = st

pub make_arr : Stack → Stack
make_arr (items_entry vs ∷ st) = json (arr vs) ∷ st
make_arr st = st

pub make_field : Stack → Stack
make_field (json v ∷ chars k ∷ fields_entry fs ∷ st) = fields_entry (field (of_codes k) v fs) ∷ st
make_field st = st

pub make_obj : Stack → Stack
make_obj (fields_entry fs ∷ st) = json (obj fs) ∷ st
make_obj st = st

pub build : ℕ → ℕ → Stack → Stack
unfolding add_char make_text make_item make_arr make_field make_obj
build op n st =
    if nat_eq op 0
    then json null ∷ st
    else if nat_eq op 1
    then json (bool (nat_eq n 1)) ∷ st
    else if nat_eq op 2
    then json (num n) ∷ st
    else if nat_eq op 3
    then chars [] ∷ st
    else if nat_eq op 4
    then add_char n st
    else if nat_eq op 5
    then make_text st
    else if nat_eq op 6
    then items_entry nil ∷ st
    else if nat_eq op 7
    then make_item st
    else if nat_eq op 8
    then make_arr st
    else if nat_eq op 9
    then fields_entry end ∷ st
    else if nat_eq op 10
    then make_field st
    else make_obj st

pub build_all : Stack → List ℕ → Stack
unfolding build
build_all st [] = st
build_all st (op ∷ []) = st
build_all st (op ∷ n ∷ s) = build_all (build op n st) s

pub write_chars : List ℕ → List ℕ → List ℕ
write_chars [] t = 3 ∷ 0 ∷ t
write_chars (c ∷ s) t = write_chars s (4 ∷ c ∷ t)

mutual
  unfolding write_chars

  pub write : Json → List ℕ → List ℕ
  write null t = 0 ∷ 0 ∷ t
  write (bool b) t = 1 ∷ (if b then 1 else 0) ∷ t
  write (num n) t = 2 ∷ n ∷ t
  write (str s) t = write_chars (codes s) (5 ∷ 0 ∷ t)
  write (arr vs) t = write_items vs (8 ∷ 0 ∷ t)
  write (obj fs) t = write_fields fs (11 ∷ 0 ∷ t)

  pub write_items : Items → List ℕ → List ℕ
  write_items nil t = 6 ∷ 0 ∷ t
  write_items (item v vs) t = write_items vs (write v (7 ∷ 0 ∷ t))

  pub write_fields : Fields → List ℕ → List ℕ
  write_fields end t = 9 ∷ 0 ∷ t
  write_fields (field k v fs) t = write_fields fs (write_chars (codes k) (write v (10 ∷ 0 ∷ t)))

pub build-chars :
    (s t : List ℕ) (st : Stack) → build_all st (write_chars s t) ≡ build_all (chars s ∷ st) t
unfolding build_all build write_chars add_char
build-chars [] t st = refl
build-chars (c ∷ s) t st = build-chars s (4 ∷ c ∷ t) st

pub build-text :
    (s : String) (t : List ℕ) (st : Stack)
    → build_all st (write_chars (codes s) (5 ∷ 0 ∷ t)) ≡ build_all (json (str s) ∷ st) t
unfolding build_all build make_text
build-text s t st =
    build-chars (codes s) (5 ∷ 0 ∷ t) st
    ∙ ap (λ (r : String). build_all (json (str r) ∷ st) t) (of_codes-codes s)

mutual
  unfolding build_all build write write_items write_fields make_item make_arr make_field make_obj

  pub build-json :
      (v : Json) (t : List ℕ) (st : Stack) → build_all st (write v t) ≡ build_all (json v ∷ st) t
  build-json null t st = refl
  build-json (bool false) t st = refl
  build-json (bool true) t st = refl
  build-json (num n) t st = refl
  build-json (str s) t st = build-text s t st
  build-json (arr vs) t st = build-items vs (8 ∷ 0 ∷ t) st
  build-json (obj fs) t st = build-fields fs (11 ∷ 0 ∷ t) st

  pub build-items :
      (vs : Items) (t : List ℕ) (st : Stack)
      → build_all st (write_items vs t) ≡ build_all (items_entry vs ∷ st) t
  build-items nil t st = refl
  build-items (item v vs) t st =
      build-items vs (write v (7 ∷ 0 ∷ t)) st ∙ build-json v (7 ∷ 0 ∷ t) (items_entry vs ∷ st)

  pub build-fields :
      (fs : Fields) (t : List ℕ) (st : Stack)
      → build_all st (write_fields fs t) ≡ build_all (fields_entry fs ∷ st) t
  build-fields end t st = refl
  build-fields (field k v fs) t st =
      build-fields fs (write_chars (codes k) (write v (10 ∷ 0 ∷ t))) st
      ∙ build-chars (codes k) (write v (10 ∷ 0 ∷ t)) (fields_entry fs ∷ st)
      ∙ build-json v (10 ∷ 0 ∷ t) (chars (codes k) ∷ fields_entry fs ∷ st)
      ∙ ap (λ (j : String). build_all (fields_entry (field j v fs) ∷ st) t) (of_codes-codes k)

pub to_fields : Claims → Fields
to_fields [] = end
to_fields ((k, v) ∷ claims) = field k v (to_fields claims)

pub fields-to_fields : (claims : Claims) → fields (to_fields claims) ≡ claims
unfolding to_fields
fields-to_fields [] = refl
fields-to_fields ((k, v) ∷ claims) = ap (λ (d : Claims). (k, v) ∷ d) (fields-to_fields claims)

pub claims_on : Stack → Option Claims
claims_on (fields_entry fs ∷ []) = some (fields fs)
claims_on st = none

pub dumps : Claims → List ℕ
unfolding write_fields to_fields
dumps claims = write_fields (to_fields claims) []

pub loads : List ℕ → Option Claims
unfolding claims_on build_all
loads s = claims_on (build_all [] s)

pub loads-dumps : (claims : Claims) → loads (dumps claims) ≡ some claims
unfolding claims_on build_all dumps loads
loads-dumps claims =
    ap claims_on (build-fields (to_fields claims) [] [])
    ∙ ap (λ (d : Claims). some d) (fields-to_fields claims)

pub above_dot : List ℕ → List ℕ
above_dot s = map (λ n. n + 47) s

pub from_above_dot : List ℕ → List ℕ
from_above_dot s = map (λ n. n - 47) s

pub from_above : (s : List ℕ) → some (from_above_dot (above_dot s)) ≡ some s
unfolding from_above_dot above_dot
from_above [] = refl
from_above (c ∷ s) = ground (arith, from_above s)

pub dotless : (s : List ℕ) → All (λ c. c ≢ b'.') (above_dot s)
unfolding above_dot
dotless [] = tt
dotless (c ∷ s) = (ground arith, dotless s)

-- A payload is its own signature.
unfoldable pub codec : Codec
unfolding above_dot from_above_dot claims_on build_all write_fields to_fields dumps loads
codec = record {
  sign = λ payload. payload;
  verifies = λ signature payload. codes_eq signature payload;
  verifies_sign = λ payload. (codes_eq_iff payload payload).1 refl;
  b64encode = above_dot;
  b64decode = λ s. some (from_above_dot s);
  b64decode_encode = from_above;
  b64encode_dotless = dotless;
  dumps = dumps;
  loads = loads;
  loads_dumps = λ claims. (claims, loads-dumps claims, λ k. refl);
}
