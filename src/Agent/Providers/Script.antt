-- ===== src/Agent/Providers/Script.antt =====
-- agent/providers.py: a run of the loop over the scripted provider.
use ai_agent_security_firewa.Prelude.{
  ℕ, zero, suc, String, ◌≡◌, refl, ap, ap₂, ◌∙◌, Option, none, some, List, [], ◌∷◌, map,
}
use ai_agent_security_firewa.Prelude.Dict.{Dict}
use ai_agent_security_firewa.Prelude.Json.{Json}
use ai_agent_security_firewa.Agent.Tools.{RequestedCall, Services}
use ai_agent_security_firewa.Agent.Loop.{TurnLog, max_iterations, finished, loop, run}
use ai_agent_security_firewa.Agent.Loop.Progress.{IsReliable, loop-none, loop-one}
use ai_agent_security_firewa.Agent.Providers.{MockProvider, nth, turn_of, next_turn, next_calls}

-- xs[n:]
abbrev pub drop : ℕ → List RequestedCall → List RequestedCall
drop zero xs = xs
drop (suc n) [] = []
drop (suc n) (x ∷ xs) = drop n xs

-- xs[:n]
abbrev pub take : ℕ → List RequestedCall → List RequestedCall
take zero xs = []
take (suc n) [] = []
take (suc n) (x ∷ xs) = x ∷ take n xs

-- A tool and its arguments.
abbrev pub Request : Type 0
Request = String × Dict Json

abbrev pub requested : List RequestedCall → List Request
requested xs = map (λ (x : RequestedCall). (x.name, x.arguments)) xs

abbrev pub attempted : List TurnLog → List Request
attempted log = map (λ (e : TurnLog). (e.tool, e.arguments)) log

pub drop-none : (xs : List RequestedCall) (i : ℕ) → nth xs i ≡ none → drop i xs ≡ []
unfolding nth
drop-none [] zero e = refl
drop-none [] (suc i) e = refl
drop-none (x ∷ xs) zero e = absurd (cc e)
drop-none (x ∷ xs) (suc i) e = drop-none xs i e

pub drop-some :
    (xs : List RequestedCall) (i : ℕ) (x : RequestedCall)
    → nth xs i ≡ some x
    → drop i xs ≡ x ∷ drop (suc i) xs
unfolding nth
drop-some [] i x e = absurd (cc e)
drop-some (y ∷ xs) zero x e = cc e
drop-some (y ∷ xs) (suc i) x e = drop-some xs i x e

-- A turn at the script's end, and before it.
pub next_calls-none :
    (self : MockProvider) → nth self.script self.step ≡ none → next_calls self ≡ (self, [])
unfolding next_calls next_turn turn_of
next_calls-none self e = rw e refl

pub next_calls-some :
    (self : MockProvider) (call : RequestedCall)
    → nth self.script self.step ≡ some call
    → next_calls self ≡ (record self { step = suc self.step }, call ∷ [])
unfolding next_calls next_turn turn_of
next_calls-some self call e = rw e refl

module _ {W : Type 0} (services : Services W) (reliable : IsReliable services) where
  -- The log has the tools and the arguments of the next n calls of the script.
  Follows : ℕ → MockProvider → W × Option String → Type 0
  Follows n self state =
      (last : W × Option String) × (log : List TurnLog) × (loop services next_calls n self state
        ≡ finished last log)
      × (attempted log ≡ requested (take n (drop self.step self.script)))

  step-Follows :
      (n : ℕ) (self : MockProvider) (state : W × Option String) (o : Option RequestedCall)
      → ((self : MockProvider) (state : W × Option String) → Follows n self state)
      → nth self.script self.step ≡ o
      → Follows (suc n) self state
  unfolding Follows next_calls next_turn turn_of
  step-Follows n self state none again e = (
    state,
    [],
    loop-none services reliable next_calls n self self state (rw e refl),
    rw (drop-none self.script self.step e) refl,
  )
  step-Follows n self state (some call) again e =
      let next = record self { step = suc self.step } in
      let (state', entry, named, more) =
        loop-one services reliable next_calls n self next state call (rw e refl) in
      let (last, log, is_log, same) = again next state' in
      (
        last,
        entry ∷ log,
        more last log is_log,
        rw (drop-some self.script self.step call e)
            (ap₂ (λ (a : Request) (l : List Request). a ∷ l) named same),
      )

  loop-Follows : (n : ℕ) (self : MockProvider) (state : W × Option String) → Follows n self state
  unfolding Follows loop
  loop-Follows zero self state = (state, [], refl, refl)
  loop-Follows (suc n) self state =
      step-Follows n self state (nth self.script self.step) (loop-Follows n) refl

  -- Where the services answer, a run over a script finishes, and its log has the tools and the arguments
  -- of the first ten calls of the script, in order.
  pub run-script :
      (self : MockProvider) (w : W) (cache : Option String)
      → self.step ≡ 0
      → (last : W × Option String) × (log : List TurnLog) × (run services next_calls self w cache
          ≡ finished last log)
        × (attempted log ≡ requested (take max_iterations self.script))
  unfolding Follows run
  run-script self w cache e =
      let (last, log, is_log, same) = loop-Follows max_iterations self (w, cache) in
      (
        last,
        log,
        is_log,
        same ∙ ap (λ (i : ℕ). requested (take max_iterations (drop i self.script))) e,
      )
