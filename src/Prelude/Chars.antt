-- ===== src/Prelude/Chars.antt =====
-- Texts from code points and back. A number that is no character stands for U+FFFD.
use Prim.Native.Nat.{ℕ, ◌<◌, Ordering, compare}
use Prim.Native.Char.{Char, char, code, IsScalar}
use Prim.Native.String.{String}
use mathlib.Core.Path.{◌≡◌, refl, ap₂}
use mathlib.Core.Logic.{◌≢◌, ◌⊎◌}
use mathlib.Core.List.{List, [], ◌∷◌}
use native.Mathlib.Omega.{arith}
use text.Mathlib.TextEquality.{Char-path}
use ai_agent_security_firewa.Prelude.Text.{codes}
use ai_agent_security_firewa.Prelude.Lists.{All}

replacement : Char
replacement = char 65533 tt

pub low : (n : ℕ) → compare n 55296 ≡ Ordering.lt → IsScalar n
low n e = rw e tt

high_at :
    (n : ℕ) (o : Ordering)
    → compare n 55296 ≡ o
    → compare 57343 n ≡ Ordering.lt
    → compare n 1114112 ≡ Ordering.lt
    → IsScalar n
high_at n Ordering.lt c d e = rw c tt
high_at n Ordering.eq c d e = rw (c, d, e) tt
high_at n Ordering.gt c d e = rw (c, d, e) tt

pub high : (n : ℕ) → compare 57343 n ≡ Ordering.lt → compare n 1114112 ≡ Ordering.lt → IsScalar n
high n d e = high_at n (compare n 55296) refl d e

up_to_top : (n : ℕ) (o : Ordering) → compare 57343 n ≡ Ordering.lt → compare n 1114112 ≡ o → Char
unfolding replacement
up_to_top n Ordering.lt d e = char n (high n d e)
up_to_top n Ordering.eq d e = replacement
up_to_top n Ordering.gt d e = replacement

above : (n : ℕ) (o : Ordering) → compare 57343 n ≡ o → Char
unfolding up_to_top replacement
above n Ordering.lt d = up_to_top n (compare n 1114112) d refl
above n Ordering.eq d = replacement
above n Ordering.gt d = replacement

from_low : (n : ℕ) (o : Ordering) → compare n 55296 ≡ o → Char
unfolding above
from_low n Ordering.lt e = char n (low n e)
from_low n Ordering.eq e = above n (compare 57343 n) refl
from_low n Ordering.gt e = above n (compare 57343 n) refl

-- chr(n)
unfoldable pub char_of : ℕ → Char
unfolding from_low
char_of n = from_low n (compare n 55296) refl

unfoldable pub of_codes : List ℕ → String
of_codes [] = ""
of_codes (c ∷ s) = String.◌∷◌ (char_of c) (of_codes s)

code-up_to_top :
    (n : ℕ) (b : Ordering) (o : Ordering) (d : compare 57343 n ≡ Ordering.lt)
    (e : compare n 1114112 ≡ o)
    → compare n 55296 ≡ b
    → b ≢ Ordering.lt
    → IsScalar n
    → code (up_to_top n o d e) ≡ n
unfolding up_to_top
code-up_to_top n b Ordering.lt d e c ne s = refl
code-up_to_top n Ordering.lt Ordering.eq d e c ne s = absurd (ne refl)
code-up_to_top n Ordering.eq Ordering.eq d e c ne s = absurd (rw (c, d, e) at s)
code-up_to_top n Ordering.gt Ordering.eq d e c ne s = absurd (rw (c, d, e) at s)
code-up_to_top n Ordering.lt Ordering.gt d e c ne s = absurd (ne refl)
code-up_to_top n Ordering.eq Ordering.gt d e c ne s = absurd (rw (c, d, e) at s)
code-up_to_top n Ordering.gt Ordering.gt d e c ne s = absurd (rw (c, d, e) at s)

code-above :
    (n : ℕ) (b : Ordering) (o : Ordering) (d : compare 57343 n ≡ o)
    → compare n 55296 ≡ b
    → b ≢ Ordering.lt
    → IsScalar n
    → code (above n o d) ≡ n
unfolding above
code-above n b Ordering.lt d c ne s = code-up_to_top n b (compare n 1114112) d refl c ne s
code-above n Ordering.lt Ordering.eq d c ne s = absurd (ne refl)
code-above n Ordering.eq Ordering.eq d c ne s = absurd (rw (c, d) at s)
code-above n Ordering.gt Ordering.eq d c ne s = absurd (rw (c, d) at s)
code-above n Ordering.lt Ordering.gt d c ne s = absurd (ne refl)
code-above n Ordering.eq Ordering.gt d c ne s = absurd (rw (c, d) at s)
code-above n Ordering.gt Ordering.gt d c ne s = absurd (rw (c, d) at s)

code-from_low :
    (n : ℕ) (o : Ordering) (e : compare n 55296 ≡ o) → IsScalar n → code (from_low n o e) ≡ n
unfolding from_low
code-from_low n Ordering.lt e s = refl
code-from_low n Ordering.eq e s = code-above n Ordering.eq (compare 57343 n) refl e (λ q. cc q) s
code-from_low n Ordering.gt e s = code-above n Ordering.gt (compare 57343 n) refl e (λ q. cc q) s

code-char_of : (n : ℕ) → IsScalar n → code (char_of n) ≡ n
unfolding char_of
code-char_of n s = code-from_low n (compare n 55296) refl s

scalar_of : (c : Char) → IsScalar (code c)
scalar_of (char n p) = p

pub of_codes-codes : (s : String) → of_codes (codes s) ≡ s
unfolding of_codes
of_codes-codes String.[] = refl
of_codes-codes (String.◌∷◌ c s) =
    ap₂ String.◌∷◌ (Char-path (char_of (code c)) c (code-char_of (code c) (scalar_of c)))
      (of_codes-codes s)

pub codes-of_codes : (s : List ℕ) → All IsScalar s → codes (of_codes s) ≡ s
unfolding of_codes
codes-of_codes [] h = refl
codes-of_codes (c ∷ s) (p, h) =
    ap₂ (λ (a : ℕ) (t : List ℕ). a ∷ t) (code-char_of c p) (codes-of_codes s h)

pub codes-IsScalar : (s : String) → All IsScalar (codes s)
codes-IsScalar String.[] = tt
codes-IsScalar (String.◌∷◌ c s) = (scalar_of c, codes-IsScalar s)

pub IsScalar-bounds : (n : ℕ) → IsScalar n → (n < 1114112) × ((n < 55296) ⊎ (57343 < n))
IsScalar-bounds n h = ground arith
