-- ===== src/Urllib/Split/Hostname.antt =====
-- The host of a netloc.
use ai_agent_security_firewa.Prelude.{
  ℕ, ◌≡◌, ◌≢◌, refl, false, some, List, [], ◌∷◌, ◌++◌, All, All-map, arith,
}
use ai_agent_security_firewa.Urllib.Split.{
  Tables, SplitResult, has_char, cut, after_last, hostinfo, lower_host, some_nonempty, hostname,
}
use ai_agent_security_firewa.Urllib.Split.Scheme.{IsHostChar, IsNetlocChar}

after_last-none :
    (sep : ℕ) (found s : List ℕ) → All (λ c. c ≢ sep) s → after_last sep found s ≡ found
unfolding after_last
after_last-none sep found [] h = refl
after_last-none sep found (c ∷ s) (p, h) = ground (arith, after_last-none sep found s h)

has_char-none : (sep : ℕ) (s : List ℕ) → All (λ c. c ≢ sep) s → has_char sep s ≡ false
has_char-none sep [] h = refl
has_char-none sep (c ∷ s) (p, h) = ground (arith, has_char-none sep s h)

-- A text with a ":" and more behind it, or nothing.
abbrev pub IsPort : List ℕ → Type 0
IsPort [] = Unit
IsPort (c ∷ s) = c ≡ 58

cut-host :
    (host port : List ℕ) → All IsHostChar host → IsPort port → (cut 58 (host ++ port)).0 ≡ host
unfolding cut
cut-host [] [] h k = refl
cut-host [] (c ∷ port) h k = ground arith
cut-host (c ∷ host) port (p, h) k = ground (arith, cut-host host port h k)

hostinfo-host :
    (host port : List ℕ)
    → All IsHostChar host
    → IsPort port
    → All IsNetlocChar (host ++ port)
    → (hostinfo (host ++ port)).0 ≡ host
unfolding hostinfo
hostinfo-host host port h k n =
    rw
      (
        after_last-none 64 (host ++ port) (host ++ port)
            (All-map (λ c (p : IsNetlocChar c). p.6) (host ++ port) n),
        has_char-none 91 (host ++ port) (All-map (λ c (p : IsNetlocChar c). p.7) (host ++ port) n),
      )
      (cut-host host port h k)

some_nonempty-host : (host lowered : List ℕ) → host ≢ [] → some_nonempty host lowered ≡ some lowered
unfolding some_nonempty
some_nonempty-host [] lowered ne = absurd (ne refl)
some_nonempty-host (c ∷ host) lowered ne = refl

-- The host of a netloc made of a host and a port.
pub hostname-netloc :
    (tables : Tables) (parts : SplitResult) (host port : List ℕ)
    → parts.netloc ≡ host ++ port
    → host ≢ []
    → All IsHostChar host
    → IsPort port
    → All IsNetlocChar (host ++ port)
    → hostname tables parts ≡ some (tables.lower host)
unfolding hostname lower_host
hostname-netloc tables parts host port e ne h k n =
    rw
      (
        e,
        hostinfo-host host port h k n,
        some_nonempty-host host (lower_host tables host) ne,
        has_char-none 37 host (All-map (λ c (p : IsHostChar c). p.4) host h),
      )
      refl
