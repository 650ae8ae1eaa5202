-- ===== src/Policy/Compiler/Tests.antt =====
-- The compiler on the shipped bundle, and its theorems at concrete bundles.
use ai_agent_security_firewa.Prelude.{
  ◌≡◌, ◌≢◌, ◌↔◌, refl, sym, ap, ◌∙◌, inl, inr, true, false, none, some, List, [], ◌∷◌, In, arith,
  eq_iff,
}
use mathlib.Core.Bool.{false≢true}
use ai_agent_security_firewa.Prelude.Order.{pos}
use ai_agent_security_firewa.Prelude.Dict.{get, put}
use ai_agent_security_firewa.Policy.Decision.{allow}
use ai_agent_security_firewa.Policy.Rules.{Rule, Bundle}
use ai_agent_security_firewa.Policy.Glob.{fnmatch}
use ai_agent_security_firewa.Policy.Engine.{Request, applies, evaluate}
use ai_agent_security_firewa.Policy.Engine.Resolution.{HasUniqueIds}
use ai_agent_security_firewa.Policy.DefaultBundle.{default_bundle}
use ai_agent_security_firewa.Policy.Compiler.{
  CompileWarning, compiled, compile_bundle, find_shadowed,
}
use ai_agent_security_firewa.Policy.Compiler.Valid.{IsValid, compile_bundle-IsValid_iff}
use ai_agent_security_firewa.Policy.Compiler.Shadow.{HasParsedEffects, find_shadowed_sound}

running : Unit {0}
unfolding compile_bundle find_shadowed get put applies fnmatch
running = tt

default_compiles : compile_bundle default_bundle ≡ compiled default_bundle []
unfolding running
default_compiles = refl

compile_bundle-IsValid_iff_example :
    ((ws : List CompileWarning) × (compile_bundle default_bundle ≡ compiled default_bundle ws))
    ↔ (IsValid default_bundle × (default_bundle ≡ default_bundle))
compile_bundle-IsValid_iff_example = compile_bundle-IsValid_iff default_bundle default_bundle

abbrev broad : Rule
broad = record {
  id = "A";
  priority = pos 9;
  role = "admin_agent";
  tool = "db.query" ∷ [];
  effect = allow;
  critical_path = false;
  destination = none;
  resource = none;
  max_data_class = none;
  session_taint = none;
  inspect = false;
  reason = "";
}

abbrev narrow : Rule
narrow = record broad { id = "B"; priority = pos 1; resource = some ("ledger" ∷ []) }

abbrev bundle : Bundle
bundle = record default_bundle { rules = broad ∷ narrow ∷ [] }

abbrev request : Request
request = record {
  role = "admin_agent";
  tool = "db.query";
  fqdn = none;
  resource = some "ledger";
  session_taint = "clean";
}

abbrev warning : CompileWarning
warning = record { shadowed = "B"; shadower = "A" }

warned : find_shadowed bundle.rules ≡ warning ∷ []
unfolding running
warned = refl

HasUniqueIds-bundle : HasUniqueIds bundle
HasUniqueIds-bundle r s (inl p) (inl q) e = p ∙ sym q
HasUniqueIds-bundle r s (inl p) (inr (inl q)) e = absurd (
    false≢true (
      (eq_iff broad.id narrow.id).1
        (sym (ap (λ (t : Rule). t.id) p) ∙ e ∙ ap (λ (t : Rule). t.id) q)))
HasUniqueIds-bundle r s (inl p) (inr (inr q)) e = absurd q
HasUniqueIds-bundle r s (inr (inl p)) (inl q) e = absurd (
    false≢true (
      (eq_iff narrow.id broad.id).1
        (sym (ap (λ (t : Rule). t.id) p) ∙ e ∙ ap (λ (t : Rule). t.id) q)))
HasUniqueIds-bundle r s (inr (inl p)) (inr (inl q)) e = p ∙ sym q
HasUniqueIds-bundle r s (inr (inl p)) (inr (inr q)) e = absurd q
HasUniqueIds-bundle r s (inr (inr p)) m e = absurd p

HasParsedEffects-bundle : HasParsedEffects bundle
HasParsedEffects-bundle r m = ground arith

untainted : (s : Rule) → In s bundle.rules → s.id ≡ "A" → s.session_taint ≡ none
untainted s m e = ground arith

warning-In : In warning (find_shadowed bundle.rules)
unfolding running
warning-In = inl refl

request-applies : applies request narrow ≡ true
unfolding running
request-applies = refl

find_shadowed_sound_example : (evaluate bundle request).policy_id ≢ "B"
find_shadowed_sound_example =
    find_shadowed_sound bundle request warning narrow HasUniqueIds-bundle HasParsedEffects-bundle
      warning-In untainted (inr (inl refl)) refl request-applies
