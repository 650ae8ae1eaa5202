-- ===== src/Urllib/Utf8.antt =====
-- UTF-8, as `bytes.decode("utf-8", "replace")` and `str.encode` have it: a sequence that breaks off
-- gives one U+FFFD for what was read of it.
pub mod Sequences
use ai_agent_security_firewa.Prelude.{
  ℕ, zero, suc, ◌+◌, ◌-◌, ◌*◌, ◌/◌, ◌%◌, ◌≤◌, ◌<◌, ◌≡◌, refl, ap, ◌∙◌, ◌⊎◌, true, false, ◌&&◌, List,
  [], ◌∷◌, ◌++◌, ltb, leb, nat_eq, arith, if◌then◌else◌, Bool-cases, inl, inr,
}

-- What is read of a sequence: how many bytes are missing, the bounds of the next one, and the number
-- so far.
pub data Pending : Type 0 where
  idle : Pending
  expects : (more low high so_far : ℕ) → Pending

pub record Step : Type 0 where
  pub output : List ℕ
  pub pending : Pending

abbrev pub emit : List ℕ → Step
emit output = record { output = output; pending = idle }

abbrev pub await : ℕ → ℕ → ℕ → ℕ → Step
await more low high so_far = record { output = []; pending = expects more low high so_far }

-- The first byte of a sequence.
unfoldable pub lead : ℕ → Step
lead c =
    if ltb c 128
    then emit (c ∷ [])
    else if ltb c 194
    then emit (65533 ∷ [])
    else if ltb c 224
    then await 0 128 191 (c - 192)
    else if nat_eq c 224
    then await 1 160 191 0
    else if nat_eq c 237
    then await 1 128 159 13
    else if ltb c 240
    then await 1 128 191 (c - 224)
    else if nat_eq c 240
    then await 2 144 191 0
    else if ltb c 244
    then await 2 128 191 (c - 240)
    else if nat_eq c 244
    then await 2 128 143 4
    else emit (65533 ∷ [])

abbrev pub add_output : List ℕ → Step → Step
add_output output s = record s { output = output ++ s.output }

pub continued : ℕ → ℕ → Step
continued zero n = emit (n ∷ [])
continued (suc more) n = await more 128 191 n

-- The next byte.
unfoldable pub next : Pending → ℕ → Step
unfolding continued
next idle c = lead c
next (expects more low high so_far) c =
    if leb low c && leb c high
    then continued more (so_far * 64 + (c - 128))
    else add_output (65533 ∷ []) (lead c)

-- The end of the bytes.
unfoldable pub flush : Pending → List ℕ
flush idle = []
flush (expects more low high so_far) = 65533 ∷ []

-- A character's bytes.
unfoldable pub encode : ℕ → List ℕ
encode c =
    if ltb c 128
    then c ∷ []
    else if ltb c 2048
    then (192 + c / 64) ∷ (128 + c % 64) ∷ []
    else if ltb c 65536
    then (224 + c / 4096) ∷ (128 + c / 64 % 64) ∷ (128 + c % 64) ∷ []
    else (240 + c / 262144) ∷ (128 + c / 4096 % 64) ∷ (128 + c / 64 % 64) ∷ (128 + c % 64) ∷ []

-- Steps in a row: the output, and what is pending.
unfoldable pub feed : Pending → List ℕ → Step
feed p [] = record { output = []; pending = p }
feed p (c ∷ s) = let r = next p c in add_output r.output (feed r.pending s)

-- A scalar value, in numbers.
abbrev pub IsValid : ℕ → Type 0
IsValid c = (c < 1114112) × ((c < 55296) ⊎ (57343 < c))
