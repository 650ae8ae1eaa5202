-- ===== src/Dlp/Detectors/Severities.antt =====
-- dlp/detectors.py: what blocks a text, and what lets it pass.
use ai_agent_security_firewa.Prelude.{
  ℕ, String, ◌≡◌, ◌↔◌, inl, inr, refl, ap, sym, ◌∙◌, Bool, true, false, List, [], ◌∷◌, map, any, In,
  In-select, select-In, In-append, append-In, any-In, In-any, arith, Bool-cases, if◌then◌else◌,
  subst,
}
use ai_agent_security_firewa.Prelude.Text.{codes}
use ai_agent_security_firewa.Dlp.Detectors.{
  Severity, block, redact, is_block, Finding, RegexDetector, finding_of, regex_detectors, pass,
  blocked, outcome, luhn_valid, accepted, regex_findings, scan, token_findings, split_words,
}

is_block-eq : (s : Severity) → is_block s ≡ true → s ≡ block
is_block-eq block h = refl
is_block-eq redact h = cc

abbrev blocks : List Finding → Bool
blocks findings = any (λ (f : Finding). is_block f.severity) findings

blocks_iff :
    (findings : List Finding)
    → (blocks findings ≡ true) ↔ ((f : Finding) × In f findings × (f.severity ≡ block))
blocks_iff findings = (
  (λ h.
      let (f, m, q) = any-In (λ (f : Finding). is_block f.severity) findings h in
      (f, m, is_block-eq f.severity q)),
  λ (f, m, q). In-any (λ (f : Finding). is_block f.severity) findings f m (ap is_block q),
)

outcome-cases :
    (findings : List Finding)
    → ((outcome findings ≡ blocked) ↔ (blocks findings ≡ true))
      × ((outcome findings ≡ pass) ↔ (findings ≡ []))
unfolding outcome
outcome-cases [] = (((λ h. cc), (λ h. cc)), ((λ h. refl), (λ h. refl)))
outcome-cases (f ∷ fs) = elim (Bool-cases (blocks (f ∷ fs))) [
  | inl e ↦ rw e (((λ h. refl), (λ h. refl)), ((λ h. cc), (λ h. cc)))
  | inr e ↦ rw e (((λ h. ground arith), (λ h. cc)), ((λ h. ground arith), (λ h. cc)))
]

-- The outcome is BLOCK exactly if some finding has that severity, and PASS exactly if there is no
-- finding: the worst severity decides, whatever the order of the findings.
pub outcome-worst :
    (findings : List Finding)
    → ((outcome findings ≡ blocked) ↔ ((f : Finding) × In f findings × (f.severity ≡ block)))
      × ((outcome findings ≡ pass) ↔ (findings ≡ []))
outcome-worst findings = ground (arith, outcome-cases findings, blocks_iff findings)

In-map_accepted :
    (d : RegexDetector) (ms : List String) (f : Finding)
    → In f (map (λ m. finding_of d) ms)
    → (f.severity ≡ d.severity) × ((m : String) × In m ms)
In-map_accepted d [] f i = absurd i
In-map_accepted d (m ∷ ms) f (inl e) = (ap (λ (g : Finding). g.severity) e, (m, inl refl))
In-map_accepted d (m ∷ ms) f (inr i) = let (q, (k, j)) = In-map_accepted d ms f i in (q, (k, inr j))

map_accepted-In :
    (d : RegexDetector) (ms : List String) (m : String)
    → In m ms
    → In (finding_of d) (map (λ n. finding_of d) ms)
map_accepted-In d [] m i = absurd i
map_accepted-In d (k ∷ ms) m i = inl refl

token_findings-redact : (tokens : List (List ℕ)) → blocks (token_findings tokens) ≡ false
unfolding token_findings
token_findings-redact [] = refl
token_findings-redact (t ∷ ts) = ground (arith, token_findings-redact ts)

module _ (finditer : String → String → List String) where
  -- A detector of the severity BLOCK matches the text, and its validator, where it has one, accepts
  -- the match.
  pub record Secret (ds : List RegexDetector) (blob : String) : Type 0 where
    pub detector : RegexDetector
    pub listed : In detector ds
    pub blocking : detector.severity ≡ block
    pub found : String
    pub matched : In found (finditer detector.pattern blob)
    pub checked : detector.checked ≡ true → luhn_valid found ≡ true

  weaken :
      (d : RegexDetector) (ds : List RegexDetector) (blob : String)
      → Secret ds blob
      → Secret (d ∷ ds) blob
  weaken d ds blob s = record {
    detector = s.detector;
    listed = inr s.listed;
    blocking = s.blocking;
    found = s.found;
    matched = s.matched;
    checked = s.checked;
  }

  accepted_iff :
      (d : RegexDetector) (blob m : String)
      → In m (accepted finditer d blob)
        ↔ (In m (finditer d.pattern blob) × (d.checked ≡ true → luhn_valid m ≡ true))
  unfolding accepted
  accepted_iff d blob m = (
    (λ i.
        let (j, q) =
          In-select (λ n. if d.checked then luhn_valid n else true) (finditer d.pattern blob) m i in
        (j, λ c. ground arith)),
    λ (j, q).
        select-In (λ n. if d.checked then luhn_valid n else true) (finditer d.pattern blob) m j
          (ground arith),
  )

  Finding-Secret :
      (ds : List RegexDetector) (blob : String) (f : Finding)
      → In f (regex_findings finditer ds blob)
      → f.severity ≡ block
      → Secret ds blob
  unfolding regex_findings
  Finding-Secret [] blob f i e = absurd i
  Finding-Secret (d ∷ ds) blob f i e =
      elim (In-append (map (λ n. finding_of d) (accepted finditer d blob))
        (regex_findings finditer ds blob) f i) [
          | inl here ↦
              let (q, (m, j)) = In-map_accepted d (accepted finditer d blob) f here in
              let (k, c) = (accepted_iff d blob m).0 j in
              record {
                detector = d;
                listed = inl refl;
                blocking = sym q ∙ e;
                found = m;
                matched = k;
                checked = c;
              }
          | inr there ↦ weaken d ds blob (Finding-Secret ds blob f there e)
        ]

  detector-Finding :
      (ds : List RegexDetector) (blob : String) (d : RegexDetector) (m : String)
      → In d ds
      → In m (accepted finditer d blob)
      → In (finding_of d) (regex_findings finditer ds blob)
  unfolding regex_findings
  detector-Finding [] blob d m i j = absurd i
  detector-Finding (c ∷ ds) blob d m (inl e) j =
      append-In (map (λ n. finding_of c) (accepted finditer c blob))
        (regex_findings finditer ds blob) (finding_of d)
        (inl (
          subst
            (λ (x : RegexDetector).
              In (finding_of d) (map (λ n. finding_of x) (accepted finditer x blob)))
            e (map_accepted-In d (accepted finditer d blob) m j)))
  detector-Finding (c ∷ ds) blob d m (inr i) j =
      append-In (map (λ n. finding_of c) (accepted finditer c blob))
        (regex_findings finditer ds blob) (finding_of d) (inr (detector-Finding ds blob d m i j))

  -- Whatever the regular expressions match, a text is blocked exactly if a detector of the severity
  -- BLOCK has a match in it that its validator, where it has one, accepts: a long token of high
  -- entropy alone never blocks.
  pub scan-blocked_iff :
      (blob : String) → (outcome (scan finditer blob) ≡ blocked) ↔ Secret regex_detectors blob
  unfolding scan
  scan-blocked_iff blob = (to, from)
    where
      tokens : List Finding
      tokens = token_findings (split_words (codes blob))

      to : outcome (scan finditer blob) ≡ blocked → Secret regex_detectors blob
      to h =
          let (f, i, q) = (outcome-worst (scan finditer blob)).0.0 h in
          elim (In-append (regex_findings finditer regex_detectors blob) tokens f i) [
            | inl j ↦ Finding-Secret regex_detectors blob f j q
            | inr j ↦
                cc (
                  token_findings-redact (split_words (codes blob)),
                  (blocks_iff tokens).1 (f, j, q),
                )
          ]

      from : Secret regex_detectors blob → outcome (scan finditer blob) ≡ blocked
      from s = (outcome-worst (scan finditer blob)).0.1 (
        finding_of s.detector,
        append-In (regex_findings finditer regex_detectors blob) tokens (finding_of s.detector) (
            inl (
              detector-Finding regex_detectors blob s.detector s.found s.listed
                ((accepted_iff s.detector blob s.found).1 (s.matched, s.checked)))),
        s.blocking,
      )
