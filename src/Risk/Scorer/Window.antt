-- ===== src/Risk/Scorer/Window.antt =====
-- risk/scorer.py: the rate window. The pruned times of `record_outcome` answer as a full history would.
use mathlib.Core.List.{append-nil, append_assoc}
use native.Mathlib.Nat.{le_trans}
use ai_agent_security_firewa.Prelude.{
  ℕ, ◌≤◌, String, ◌≡◌, ◌↔◌, refl, ap, ◌∙◌, true, false, List, [], ◌∷◌, ◌++◌, length, ◌==◌, eq_iff,
  eq_refl, ◌⊎◌, inl, inr, Bool-cases, arith, if◌then◌else◌,
}
use ai_agent_security_firewa.Prelude.Dict.{Dict, get, get_default, put, get_default-put}
use ai_agent_security_firewa.Risk.Outcomes.{Outcome, record_outcome, note_time, record_all}
use ai_agent_security_firewa.Risk.Behavior.{Behavior, recent, is_rate_anomalous, cold}

recent-append : (now : ℕ) (xs ys : List ℕ) → recent now (xs ++ ys) ≡ recent now xs ++ recent now ys
unfolding recent
recent-append now [] ys = refl
recent-append now (x ∷ xs) ys = ground (arith, recent-append now xs ys)

-- Pruning at an earlier time loses nothing that a later look would keep.
pub recent-recent :
    (before now : ℕ) (xs : List ℕ) → before ≤ now → recent now (recent before xs) ≡ recent now xs
unfolding recent
recent-recent before now [] h = refl
recent-recent before now (x ∷ xs) h = ground (arith, recent-recent before now xs h)

-- A history of calls: agent and time, oldest first.
abbrev pub History : Type 0
History = List (String × ℕ)

abbrev pub times_of : String → History → List ℕ
times_of agent [] = []
times_of agent ((a, t) ∷ h) = if a == agent then t ∷ times_of agent h else times_of agent h

times_of-append :
    (agent : String) (g h : History)
    → times_of agent (g ++ h) ≡ times_of agent g ++ times_of agent h
times_of-append agent [] h = refl
times_of-append agent ((a, t) ∷ g) h = ground (arith, times_of-append agent g h)

-- The scorer's pruned times stand for the history: from a time on, both show the same recent calls.
pub record Tracks (b : Behavior) (h : History) (since : ℕ) : Type 0 where
  pub same :
      (now : ℕ) (agent : String)
      → since ≤ now
      → recent now (get_default b.call_times agent []) ≡ recent now (times_of agent h)

note_time-get :
    (times : Dict (List ℕ)) (now : ℕ) (agent k : String)
    → get_default (note_time times now agent) k [] ≡ (
        if agent == k
        then recent now (get_default times agent [] ++ now ∷ [])
        else get_default times k [])
unfolding note_time
note_time-get times now agent k =
    let appended = put times agent (get_default times agent [] ++ now ∷ []) in
    let all_times = get_default times agent [] ++ now ∷ [] in
    elim (Bool-cases (agent == k)) [
      | inl e ↦ rw (
        get_default-put appended agent k (recent now (get_default appended agent [])) [],
        get_default-put times agent agent all_times [],
        eq_refl agent,
        e,
      )
      | inr e ↦ rw (
        get_default-put appended agent k (recent now (get_default appended agent [])) [],
        get_default-put times agent k all_times [],
        e,
      )
    ]

-- A call that is recorded keeps the pruned times in step with the history.
pub Tracks-record_outcome :
    (b : Behavior) (h : History) (since now : ℕ) (o : Outcome)
    → since ≤ now
    → Tracks b h since
    → Tracks (record_outcome b now o) (h ++ (o.agent_id, now) ∷ []) now
unfolding record_outcome
Tracks-record_outcome b h since now o le t = record {
  same = λ later k l. step later k l (Bool-cases (o.agent_id == k));
}
  where
    step :
        (later : ℕ) (k : String)
        → now ≤ later
        → (o.agent_id == k ≡ true) ⊎ (o.agent_id == k ≡ false)
        → recent later (get_default (note_time b.call_times now o.agent_id) k [])
          ≡ recent later (times_of k (h ++ (o.agent_id, now) ∷ []))
    step later k l (inl e) =
        rw
          (
            note_time-get b.call_times now o.agent_id k,
            times_of-append k h ((o.agent_id, now) ∷ []),
            e,
            recent-recent now later (get_default b.call_times o.agent_id [] ++ now ∷ []) l,
            recent-append later (get_default b.call_times o.agent_id []) (now ∷ []),
            recent-append later (times_of k h) (now ∷ []),
          )
          (ap (λ (xs : List ℕ). xs ++ recent later (now ∷ []))
            (t.same later o.agent_id (le_trans le l)
              ∙ ap (λ (j : String). recent later (times_of j h)) ((eq_iff o.agent_id k).0 e)))
    step later k l (inr e) =
        rw
          (
            note_time-get b.call_times now o.agent_id k,
            times_of-append k h ((o.agent_id, now) ∷ []),
            e,
            append-nil (times_of k h),
          )
          (t.same later k (le_trans le l))

abbrev pub history : List (ℕ × Outcome) → History
history [] = []
history ((t, o) ∷ os) = (o.agent_id, t) ∷ history os

-- The times do not decrease from `since` on, and `now` is no earlier than the last.
abbrev pub IsOrdered : ℕ → List (ℕ × Outcome) → ℕ → Type 0
IsOrdered since [] now = since ≤ now
IsOrdered since ((t, o) ∷ os) now = (since ≤ t) × IsOrdered t os now

record_all-Tracks :
    (b : Behavior) (h : History) (since now : ℕ) (os : List (ℕ × Outcome))
    → IsOrdered since os now
    → Tracks b h since
    → (agent : String)
    → recent now (get_default (record_all b os).call_times agent [])
      ≡ recent now (times_of agent (h ++ history os))
unfolding record_all
record_all-Tracks b h since now [] le t agent = rw (append-nil h) (t.same now agent le)
record_all-Tracks b h since now ((s, o) ∷ os) (le, rest) t agent =
    record_all-Tracks (record_outcome b s o) (h ++ (o.agent_id, s) ∷ []) s now os rest
      (Tracks-record_outcome b h since s o le t) agent
    ∙ ap (λ (g : History). recent now (times_of agent g))
        (append_assoc h ((o.agent_id, s) ∷ []) (history os))

Tracks-cold : Tracks cold [] 0
unfolding get
Tracks-cold = record { same = λ now agent le. refl }

-- Whatever outcomes a cold scorer has recorded, at times that do not decrease, it finds an agent's
-- rate anomalous exactly if at least 5 of all the calls recorded for that agent lie in the last
-- 60 seconds, although it keeps only recent times.
pub is_rate_anomalous-history :
    (os : List (ℕ × Outcome)) (now : ℕ) (agent : String)
    → IsOrdered 0 os now
    → (is_rate_anomalous (record_all cold os) now agent ≡ true)
      ↔ (5 ≤ length (recent now (times_of agent (history os))))
unfolding is_rate_anomalous
is_rate_anomalous-history os now agent ordered =
    rw (record_all-Tracks cold [] 0 now os ordered Tracks-cold agent) (ground arith)
