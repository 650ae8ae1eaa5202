-- ===== src/Dlp/Detectors.antt =====
-- dlp/detectors.py: the secret detectors and the worst severity of what they find. The regular
-- expression engine is an argument: what `finditer` matches, for a pattern and a text. Digits are the
-- ASCII ones. The entropy test of the source compares floats; here it is exact: the Shannon entropy of
-- a token of length L whose characters occur n times each is at least 4 if
-- 16 ^ L * product (n ^ n) ≤ L ^ L.
pub mod Luhn
pub mod Severities
mod Tests
use ai_agent_security_firewa.Prelude.{
  ℕ, zero, suc, ◌+◌, ◌-◌, ◌*◌, ◌%◌, ◌^◌, ◌≤◌, String, Bool, true, false, not, ◌&&◌, ◌||◌, List, [],
  ◌∷◌, ◌++◌, map, any, select, length, leb, nat_eq, ltb, if◌then◌else◌,
}
use ai_agent_security_firewa.Prelude.Text.{codes, is_space}

pub data Severity : Type 0 where
  block redact : Severity

abbrev pub is_block : Severity → Bool
is_block block = true
is_block redact = false

pub record Finding : Type 0 where
  pub detector : String
  pub severity : Severity

-- [int(c) for c in candidate if c.isdigit()]
abbrev pub digits : List ℕ → List ℕ
digits [] = []
digits (c ∷ s) = if leb 48 c && leb c 57 then (c - 48) ∷ digits s else digits s

-- The digit's share of the checksum, doubled where the flag says so.
abbrev pub share : Bool → ℕ → ℕ
share false d = d
share true d = if ltb 9 (d * 2) then d * 2 - 9 else d * 2

-- The sum of the shares, where every second digit is doubled.
unfoldable pub checksum : Bool → List ℕ → ℕ
checksum doubled [] = 0
checksum doubled (d ∷ ds) = share doubled d + checksum (not doubled) ds

-- i % 2 == parity at the first digit
abbrev pub doubles_first : List ℕ → Bool
doubles_first ds = nat_eq (length ds % 2) 0

unfoldable pub luhn_digits : List ℕ → Bool
luhn_digits ds =
    leb 13 (length ds) && leb (length ds) 19 && nat_eq (checksum (doubles_first ds) ds % 10) 0

-- _luhn_valid
unfoldable pub luhn_valid : String → Bool
luhn_valid candidate = luhn_digits (digits (codes candidate))

-- A row of _REGEX_DETECTORS; `checked` tells whether the validator is _luhn_valid or None.
pub record RegexDetector : Type 0 where
  pub name : String
  pub pattern : String
  pub severity : Severity
  pub checked : Bool

abbrev pub finding_of : RegexDetector → Finding
finding_of d = record { detector = d.name; severity = d.severity }

abbrev pub regex_detectors : List RegexDetector
regex_detectors =
    record {
      name = "AWS_ACCESS_KEY_ID";
      pattern = "\\bAKIA[0-9A-Z]{16}\\b";
      severity = block;
      checked = false;
    }
    ∷ record {
      name = "JWT";
      pattern = "\\beyJ[A-Za-z0-9_-]+\\.eyJ[A-Za-z0-9_-]+\\.[A-Za-z0-9_-]+\\b";
      severity = block;
      checked = false;
    }
    ∷ record {
      name = "PEM_PRIVATE_KEY";
      pattern = "-----BEGIN (RSA |EC |OPENSSH |DSA |)PRIVATE KEY-----";
      severity = block;
      checked = false;
    }
    ∷ record {
      name = "CONNECTION_STRING";
      pattern =
          "\\b(postgres(?:ql)?|mysql|mongodb(?:\\+srv)?|redis)://[^\\s:@]+:[^\\s:@]+@[^\\s/]+";
      severity = block;
      checked = false;
    }
    ∷ record {
      name = "CARD_NUMBER";
      pattern = "\\b(?:\\d[ -]?){13,19}\\b";
      severity = block;
      checked = true;
    }
    ∷ record {
      name = "AADHAAR";
      pattern = "(?<!\\d)\\d{4}\\s?\\d{4}\\s?\\d{4}(?!\\s?\\d)";
      severity = redact;
      checked = false;
    }
    ∷ []

-- text.split(): the word that the text starts with, and the words behind it
first_word : List ℕ → List ℕ × List (List ℕ)
first_word [] = ([], [])
first_word (c ∷ s) =
    let (word, words) = first_word s in if is_space c then ([], word ∷ words) else (c ∷ word, words)

is_word : List ℕ → Bool
is_word [] = false
is_word (c ∷ s) = true

unfoldable pub split_words : List ℕ → List (List ℕ)
unfolding first_word is_word
split_words s = let (word, words) = first_word s in select is_word (word ∷ words)

-- Counter(token): each character with its number of occurrences
count_in : ℕ → List (ℕ × ℕ) → List (ℕ × ℕ)
count_in c [] = (c, 1) ∷ []
count_in c ((d, n) ∷ counts) =
    if nat_eq c d then (d, suc n) ∷ counts else (d, n) ∷ count_in c counts

unfoldable pub counter : List ℕ → List (ℕ × ℕ)
unfolding count_in
counter [] = []
counter (c ∷ s) = count_in c (counter s)

product_of_powers : List (ℕ × ℕ) → ℕ
product_of_powers [] = 1
product_of_powers ((c, n) ∷ counts) = n ^ n * product_of_powers counts

-- _shannon_entropy(token) >= _ENTROPY_THRESHOLD
unfoldable pub is_high_entropy : List ℕ → Bool
unfolding product_of_powers
is_high_entropy token =
    leb (16 ^ length token * product_of_powers (counter token)) (length token ^ length token)

abbrev pub min_token_len : ℕ
min_token_len = 20

token_findings : List (List ℕ) → List Finding
token_findings [] = []
token_findings (token ∷ tokens) =
    if leb min_token_len (length token) && is_high_entropy token
    then record { detector = "HIGH_ENTROPY_TOKEN"; severity = redact } ∷ token_findings tokens
    else token_findings tokens

pub data Verdict : Type 0 where
  pass redacted blocked : Verdict

-- outcome: "PASS", "REDACT" or "BLOCK"
unfoldable pub outcome : List Finding → Verdict
outcome findings =
    if any (λ (f : Finding). is_block f.severity) findings
    then blocked
    else if nat_eq (length findings) 0
    then pass
    else redacted

module _ (finditer : String → String → List String) where
  -- The matches of a detector that its validator accepts.
  pub accepted : RegexDetector → String → List String
  accepted d blob = select (λ m. if d.checked then luhn_valid m else true) (finditer d.pattern blob)

  pub regex_findings : List RegexDetector → String → List Finding
  unfolding accepted
  regex_findings [] blob = []
  regex_findings (d ∷ ds) blob = map (λ m. finding_of d) (accepted d blob) ++ regex_findings ds blob

  unfoldable pub scan : String → List Finding
  unfolding regex_findings token_findings
  scan blob = regex_findings regex_detectors blob ++ token_findings (split_words (codes blob))
