-- ===== src/Dlp/Detectors/Luhn.antt =====
-- dlp/detectors.py, `_luhn_valid`: the test finds every error in a single digit.
use ai_agent_security_firewa.Prelude.{
  ℕ, suc, ◌+◌, ◌%◌, ◌≤◌, ◌≡◌, ◌≢◌, refl, ap, Bool, true, false, not, List, [], ◌∷◌, ◌++◌, length,
  nat_eq, arith,
}
use ai_agent_security_firewa.Dlp.Detectors.{share, checksum, luhn_digits}

-- The part of the checksum that one digit does not touch, and whether that digit is doubled.
rest_of : Bool → List ℕ → List ℕ → ℕ
rest_of doubled [] post = checksum (not doubled) post
rest_of doubled (d ∷ pre) post = share doubled d + rest_of (not doubled) pre post

flag_at : Bool → List ℕ → Bool
flag_at doubled [] = doubled
flag_at doubled (d ∷ pre) = flag_at (not doubled) pre

checksum-append :
    (doubled : Bool) (pre post : List ℕ) (a : ℕ)
    → checksum doubled (pre ++ a ∷ post) ≡ share (flag_at doubled pre) a + rest_of doubled pre post
unfolding checksum rest_of flag_at
checksum-append doubled [] post a = refl
checksum-append doubled (d ∷ pre) post a = omega (arith, checksum-append (not doubled) pre post a)

share_differs :
    (f : Bool) (a b n : ℕ)
    → a ≤ 9
    → b ≤ 9
    → a ≢ b
    → (share f a + n) % 10 ≡ 0
    → (share f b + n) % 10 ≢ 0
share_differs true a b n h k ne e q = ground arith
share_differs false a b n h k ne e q = ground arith

length-swap : (pre post : List ℕ) (a b : ℕ) → length (pre ++ a ∷ post) ≡ length (pre ++ b ∷ post)
length-swap [] post a b = refl
length-swap (d ∷ pre) post a b = ap suc (length-swap pre post a b)

-- When one digit of a number that passes the Luhn test is replaced by another digit, the number no
-- longer passes.
pub luhn_digits-single_error :
    (pre post : List ℕ) (a b : ℕ)
    → a ≤ 9
    → b ≤ 9
    → a ≢ b
    → luhn_digits (pre ++ a ∷ post) ≡ true
    → luhn_digits (pre ++ b ∷ post) ≡ false
unfolding luhn_digits
luhn_digits-single_error pre post a b h k ne valid =
    let n = length (pre ++ a ∷ post) in
    let f = nat_eq (n % 2) 0 in
    let same = length-swap pre post b a in
    ground (
      arith,
      same,
      checksum-append f pre post a,
      checksum-append f pre post b,
      ap (λ (m : ℕ). checksum (nat_eq (m % 2) 0) (pre ++ b ∷ post)) same,
      share_differs (flag_at f pre) a b (rest_of f pre post) h k ne,
    )
