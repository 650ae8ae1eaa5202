-- ===== src/Attacks/Injection/Replays.antt =====
-- attacks/a6.py: what the loop over the provider replays.
use ai_agent_security_firewa.Prelude.{
  ℕ, zero, suc, ◌+◌, ◌<◌, String, ◌≡◌, refl, ap, ◌∙◌, Option, none, some, List, [], ◌∷◌, length,
  arith,
}
use ai_agent_security_firewa.Prelude.Dict.{get}
use ai_agent_security_firewa.Pep.Pipeline.State.{Pep}
use ai_agent_security_firewa.Agent.Tools.{RequestedCall}
use ai_agent_security_firewa.Agent.Providers.{MockProvider, mock_provider, nth, scripts}
use ai_agent_security_firewa.Agent.Providers.Script.{
  drop, drop-none, drop-some, next_calls-none, next_calls-some,
}
use ai_agent_security_firewa.Attacks.Scenario.{Process, Replayed, replay}
use ai_agent_security_firewa.Attacks.Injection.{
  Turns, turns, join, prepend, after_call, replay_calls, then_turns, in_turn, replay_script,
  scripted_call, turn_of_call, run_locally_full_script, scenario_name,
}

-- One call in a turn of its own, and the rest after it.
one_call :
    (call : RequestedCall) (again rest : Pep → Pep × Turns) (q : Replayed)
    → ((pep : Pep) → again pep ≡ rest pep)
    → then_turns again (after_call call (λ pep. (pep, turns [])) q) ≡ after_call call rest q
unfolding then_turns after_call prepend join turn_of_call
one_call call again rest (pep, none) h = refl
one_call call again rest (pep, some pair) h = ap (prepend (turn_of_call call pair)) (h pep)

in_turn-one :
    (again : ℕ → Pep → Pep × Turns) (p : Process) (i : ℕ) (call : RequestedCall)
    (calls : List RequestedCall) (pep : Pep)
    → ((pep : Pep) → again (suc i) pep ≡ replay_calls p (suc i) calls pep)
    → in_turn again p i (call ∷ []) pep ≡ replay_calls p i (call ∷ calls) pep
unfolding in_turn replay_calls
in_turn-one again p i call calls pep h =
    one_call call (again (i + 1)) (replay_calls p (suc i) calls)
      (replay p i (scripted_call call) pep) (λ q. ap (λ (j : ℕ). again j q) (omega arith) ∙ h q)

-- The calls that the provider has left.
abbrev left : MockProvider → List RequestedCall
left self = drop self.step self.script

step-replay_script :
    (p : Process) (fuel : ℕ) (self : MockProvider) (i : ℕ) (pep : Pep) (o : Option RequestedCall)
    → ((next : MockProvider) (j : ℕ) (q : Pep)
        → length (left next) < fuel
        → replay_script p fuel next j q ≡ replay_calls p j (left next) q)
    → nth self.script self.step ≡ o
    → length (left self) < suc fuel
    → replay_script p (suc fuel) self i pep ≡ replay_calls p i (left self) pep
unfolding replay_script
step-replay_script p fuel self i pep none again e h =
    rw (next_calls-none self e, drop-none self.script self.step e)
      (unfold in_turn replay_calls in refl)
step-replay_script p fuel self i pep (some call) again e h =
    let same = drop-some self.script self.step call e in
    let lt : length (drop (suc self.step) self.script) < fuel = omega (arith, ap length same, h) in
    let next = record self { step = suc self.step } in
    rw (next_calls-some self call e, same)
      (in_turn-one (replay_script p fuel next) p i call (left next) pep
        (λ q. again next (suc i) q lt))

-- The loop over the provider, with more iterations than it has calls left, replays just those, in order.
replay_script-left :
    (p : Process) (fuel : ℕ) (self : MockProvider) (i : ℕ) (pep : Pep)
    → length (left self) < fuel
    → replay_script p fuel self i pep ≡ replay_calls p i (left self) pep
replay_script-left p zero self i pep h = absurd (omega arith)
replay_script-left p (suc fuel) self i pep h =
    step-replay_script p fuel self i pep (nth self.script self.step)
      (λ next j q lt. replay_script-left p fuel next j q lt) refl h

abbrev injected : Option String → List RequestedCall
injected variable = (mock_provider (some scenario_name) variable).script

-- Whatever the environment names as scenario, four iterations of the loop over the provider are enough: the
-- replay is that of the script's calls in order, in one session of one process.
pub run_locally_full_script-replay_calls :
    (p : Process) (variable : Option String) (pep : Pep)
    → run_locally_full_script p variable pep ≡ replay_calls p 0 (injected variable) pep
unfolding run_locally_full_script mock_provider scripts get
run_locally_full_script-replay_calls p variable pep =
    replay_script-left p 4 (mock_provider (some scenario_name) variable) 0 pep (omega arith)
