-- ===== src/Pep/BypassProxy/Tests.antt =====
-- pep/bypass_proxy.py: a tunnel that is asked for, a line above the limit, and the theorem.
use ai_agent_security_firewa.Prelude.{
  ℕ, ◌≡◌, ◌≢◌, refl, true, false, not, none, List, [], ◌∷◌, ◌++◌, All, all, nat_eq, arith,
}
use ai_agent_security_firewa.Prelude.Text.{codes, split_at, strip}
use ai_agent_security_firewa.Prelude.Chars.{of_codes, char_of}
use ai_agent_security_firewa.Events.Store.{empty}
use ai_agent_security_firewa.Pep.BypassProxy.{line, too_long, Stamp, destination, handle}
use ai_agent_security_firewa.Pep.BypassProxy.Denial.{IsDenied, handle-IsDenied}

abbrev stamp : Stamp
stamp = record { timestamp = "2026-01-01T00:00:00+00:00"; trace_id = "t" }

tunnel : destination (codes "CONNECT evil.example.com:443 HTTP/1.1") ≡ "evil.example.com:443"
unfolding destination split_at of_codes char_of
tunnel = refl

no_destination : destination (codes "CONNECT") ≡ "unknown"
unfolding destination split_at of_codes
no_destination = refl

-- A request line above the reader's limit is neither logged nor answered.
unlogged : (handle too_long stamp true false empty).logged ≡ none
unfolding handle
unlogged = refl

abbrev request_line : List ℕ
request_line = codes "CONNECT evil.example.com:443 HTTP/1.1"

no_space : (s : List ℕ) → all (λ c. not (nat_eq c 32)) s ≡ true → All (λ c. c ≢ 32) s
no_space [] e = tt
no_space (c ∷ s) e = ground (arith, no_space s)

handle-IsDenied_example :
    IsDenied "evil.example.com:443" true false empty
      (handle (line (request_line ++ 13 ∷ 10 ∷ [])) stamp true false empty)
unfolding strip of_codes char_of
handle-IsDenied_example =
    handle-IsDenied (request_line ++ 13 ∷ 10 ∷ []) (codes "CONNECT") (codes "evil.example.com:443")
      (codes "HTTP/1.1") stamp true false empty refl (no_space (codes "CONNECT") refl)
      (no_space (codes "evil.example.com:443") refl)
