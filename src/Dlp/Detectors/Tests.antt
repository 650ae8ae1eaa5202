-- ===== src/Dlp/Detectors/Tests.antt =====
-- The detectors on short texts, and their theorems at concrete findings.
use ai_agent_security_firewa.Prelude.{
  ◌≡◌, ◌↔◌, refl, true, false, String, List, [], ◌∷◌, ◌++◌, ◌==◌, if◌then◌else◌,
}
use ai_agent_security_firewa.Prelude.Text.{codes}
use ai_agent_security_firewa.Dlp.Detectors.{
  Finding, block, redact, blocked, checksum, luhn_digits, luhn_valid, regex_detectors, split_words,
  counter, is_high_entropy, outcome, scan,
}
use ai_agent_security_firewa.Dlp.Detectors.Severities.{Secret, scan-blocked_iff}

running : Unit {0}
unfolding checksum luhn_digits luhn_valid split_words counter is_high_entropy outcome scan
running = tt

card : luhn_valid "4111 1111 1111 1111" ≡ true
unfolding running
card = refl

short : luhn_valid "0000" ≡ false
unfolding running
short = refl

words : split_words (codes " a  bc ") ≡ codes "a" ∷ codes "bc" ∷ []
unfolding running
words = refl

-- 16 different characters have 4 bits each.
entropy : is_high_entropy (codes "0123456789abcdef") ≡ true
unfolding running
entropy = refl

low_entropy : is_high_entropy (codes "0123456789abcdee") ≡ false
unfolding running
low_entropy = refl

-- An engine that finds one key.
abbrev one_key : String → String → List String
one_key pattern blob =
    if pattern == "\\bAKIA[0-9A-Z]{16}\\b" then "AKIA0123456789ABCDEF" ∷ [] else []

key : outcome (scan one_key "AKIA0123456789ABCDEF") ≡ blocked
unfolding running
key = refl

zeros : luhn_digits ((0 ∷ []) ++ 0 ∷ (0 ∷ 0 ∷ 0 ∷ 0 ∷ 0 ∷ 0 ∷ 0 ∷ 0 ∷ 0 ∷ 0 ∷ 0 ∷ [])) ≡ true
unfolding running
zeros = refl

abbrev findings : List Finding
findings =
    record { detector = "AADHAAR"; severity = redact }
    ∷ record { detector = "JWT"; severity = block }
    ∷ []

scan-blocked_iff_example :
    (outcome (scan one_key "AKIA0123456789ABCDEF") ≡ blocked)
    ↔ Secret one_key regex_detectors "AKIA0123456789ABCDEF"
scan-blocked_iff_example = scan-blocked_iff one_key "AKIA0123456789ABCDEF"
