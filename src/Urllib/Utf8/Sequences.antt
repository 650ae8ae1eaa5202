-- ===== src/Urllib/Utf8/Sequences.antt =====
-- What the bytes of a character are decoded to.
use ai_agent_security_firewa.Prelude.{
  ℕ, ◌+◌, ◌*◌, ◌/◌, ◌%◌, ◌≤◌, ◌<◌, ◌≡◌, refl, ap, ◌∙◌, true, false, [], ◌∷◌, ltb, nat_eq, arith,
  if◌then◌else◌, Bool-cases, inl, inr,
}
use ai_agent_security_firewa.Urllib.Utf8.{
  idle, expects, emit, await, lead, continued, next, encode, feed, IsValid,
}

next-continued :
    (more low high n d : ℕ)
    → low ≤ 128 + d
    → 128 + d ≤ high
    → next (expects more low high n) (128 + d) ≡ continued more (n * 64 + d)
unfolding next
next-continued more low high n d l h = ground arith

lead_of_two : (q : ℕ) → 2 ≤ q → q < 32 → lead (192 + q) ≡ await 0 128 191 q
unfolding lead
lead_of_two q l h = ground arith

low_of_three : ℕ → ℕ
low_of_three q = if nat_eq q 0 then 160 else 128

high_of_three : ℕ → ℕ
high_of_three q = if nat_eq q 13 then 159 else 191

low_of_four : ℕ → ℕ
low_of_four q = if nat_eq q 0 then 144 else 128

high_of_four : ℕ → ℕ
high_of_four q = if nat_eq q 4 then 143 else 191

lead_of_three : (q : ℕ) → q < 16 → lead (224 + q) ≡ await 1 (low_of_three q) (high_of_three q) q
unfolding lead low_of_three high_of_three
lead_of_three q h = ground arith

lead_of_four : (q : ℕ) → q < 5 → lead (240 + q) ≡ await 2 (low_of_four q) (high_of_four q) q
unfolding lead low_of_four high_of_four
lead_of_four q h = ground arith

feed_two :
    (q r : ℕ)
    → 2 ≤ q
    → q < 32
    → r < 64
    → feed idle ((192 + q) ∷ (128 + r) ∷ []) ≡ emit ((q * 64 + r) ∷ [])
unfolding feed next continued
feed_two q r l h k =
    rw (lead_of_two q l h, next-continued 0 128 191 q r (omega arith) (omega arith)) refl

feed_three :
    (q r t : ℕ)
    → q < 16
    → low_of_three q ≤ 128 + r
    → 128 + r ≤ high_of_three q
    → t < 64
    → feed idle ((224 + q) ∷ (128 + r) ∷ (128 + t) ∷ []) ≡ emit (((q * 64 + r) * 64 + t) ∷ [])
unfolding feed next continued
feed_three q r t h low high k =
    rw
      (
        lead_of_three q h,
        next-continued 1 (low_of_three q) (high_of_three q) q r low high,
        next-continued 0 128 191 (q * 64 + r) t (omega arith) (omega arith),
      )
      refl

feed_four :
    (q r t u : ℕ)
    → q < 5
    → low_of_four q ≤ 128 + r
    → 128 + r ≤ high_of_four q
    → t < 64
    → u < 64
    → feed idle ((240 + q) ∷ (128 + r) ∷ (128 + t) ∷ (128 + u) ∷ [])
      ≡ emit ((((q * 64 + r) * 64 + t) * 64 + u) ∷ [])
unfolding feed next continued
feed_four q r t u h low high k m =
    rw
      (
        lead_of_four q h,
        next-continued 2 (low_of_four q) (high_of_four q) q r low high,
        next-continued 1 128 191 (q * 64 + r) t (omega arith) (omega arith),
        next-continued 0 128 191 ((q * 64 + r) * 64 + t) u (omega arith) (omega arith),
      )
      refl

one : (c : ℕ) → c < 128 → feed idle (c ∷ []) ≡ emit (c ∷ [])
unfolding feed next lead
one c h = ground arith

low_three :
    (c : ℕ)
    → IsValid c
    → ltb c 128 ≡ false
    → ltb c 2048 ≡ false
    → ltb c 65536 ≡ true
    → low_of_three (c / 4096) ≤ 128 + c / 64 % 64
unfolding low_of_three
low_three c v e f g = ground arith

high_three : (c : ℕ) → IsValid c → ltb c 65536 ≡ true → 128 + c / 64 % 64 ≤ high_of_three (c / 4096)
unfolding high_of_three
high_three c v g = ground arith

low_four : (c : ℕ) → ltb c 65536 ≡ false → low_of_four (c / 262144) ≤ 128 + c / 4096 % 64
unfolding low_of_four
low_four c g = ground arith

high_four : (c : ℕ) → IsValid c → 128 + c / 4096 % 64 ≤ high_of_four (c / 262144)
unfolding high_of_four
high_four c v = ground arith

-- The bytes of a character decode to it.
pub feed-encode : (c : ℕ) → IsValid c → feed idle (encode c) ≡ emit (c ∷ [])
unfolding encode
feed-encode c v = elim (Bool-cases (ltb c 128)) [
  | inl e ↦ rw e (one c (ground arith))
  | inr e ↦ rw e (elim (Bool-cases (ltb c 2048)) [
    | inl f ↦ rw f (
        feed_two (c / 64) (c % 64) (ground arith) (ground arith) (omega arith)
        ∙ ap (λ (n : ℕ). emit (n ∷ [])) (omega arith))
    | inr f ↦ rw f (elim (Bool-cases (ltb c 65536)) [
      | inl g ↦ rw g (
          feed_three (c / 4096) (c / 64 % 64) (c % 64) (ground arith) (low_three c v e f g)
            (high_three c v g) (omega arith)
          ∙ ap (λ (n : ℕ). emit (n ∷ [])) (omega arith))
      | inr g ↦ rw g (
          feed_four (c / 262144) (c / 4096 % 64) (c / 64 % 64) (c % 64) (ground arith)
            (low_four c g) (high_four c v) (omega arith) (omega arith)
          ∙ ap (λ (n : ℕ). emit (n ∷ [])) (omega arith))
    ])
  ])
]
