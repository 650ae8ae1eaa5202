-- ===== src/Evals/Score/Percentile.antt =====
-- evals/score.py: a percentile is a value that was measured, and grows with the percentage.
use ai_agent_security_firewa.Prelude.{
  ℕ, zero, suc, ◌+◌, ◌*◌, ◌/◌, ◌%◌, ◌≤◌, ◌<◌, min, ◌≡◌, refl, subst, ◌↔◌, List, [], ◌∷◌, In, All,
  All-map, length, ltb, nat_eq, arith, if◌then◌else◌, Bool-cases, inl, inr,
}
use ai_agent_security_firewa.Evals.Score.{
  insert_value, sorted_values, round_hundredths, value_at, percentile,
}

In-insert_value : (v : ℕ) (ws : List ℕ) (a : ℕ) → In a (insert_value v ws) ↔ In a (v ∷ ws)
unfolding insert_value
In-insert_value v [] a = ((λ h. h), (λ h. h))
In-insert_value v (w ∷ ws) a = ground (arith, In-insert_value v ws a)

In-sorted_values : (vs : List ℕ) (a : ℕ) → In a (sorted_values vs) → In a vs
unfolding sorted_values
In-sorted_values [] a h = h
In-sorted_values (v ∷ vs) a h =
    ground (arith, In-sorted_values vs a, In-insert_value v (sorted_values vs) a)

length-insert_value : (v : ℕ) (ws : List ℕ) → length (insert_value v ws) ≡ suc (length ws)
unfolding insert_value
length-insert_value v [] = refl
length-insert_value v (w ∷ ws) = ground (arith, length-insert_value v ws)

length-sorted_values : (vs : List ℕ) → length (sorted_values vs) ≡ length vs
unfolding sorted_values
length-sorted_values [] = refl
length-sorted_values (v ∷ vs) =
    ground (arith, length-sorted_values vs, length-insert_value v (sorted_values vs))

abbrev IsAscending : List ℕ → Type 0
IsAscending [] = Unit
IsAscending (v ∷ vs) = All (λ w. v ≤ w) vs × IsAscending vs

insert-All :
    (v b : ℕ) (ws : List ℕ) → b ≤ v → All (λ w. b ≤ w) ws → All (λ w. b ≤ w) (insert_value v ws)
unfolding insert_value
insert-All v b [] l h = (l, tt)
insert-All v b (w ∷ ws) l (p, h) = ground (arith, insert-All v b ws l h)

insert_value-IsAscending : (v : ℕ) (ws : List ℕ) → IsAscending ws → IsAscending (insert_value v ws)
unfolding insert_value
insert_value-IsAscending v [] h = (tt, tt)
insert_value-IsAscending v (w ∷ ws) (p, h) = elim (Bool-cases (ltb w v)) [
  | inl e ↦ rw e (insert-All v w ws (ground arith) p, insert_value-IsAscending v ws h)
  | inr e ↦ rw e ((ground arith, All-map (λ u (l : w ≤ u). ground arith) ws p), (p, h))
]

sorted_values-IsAscending : (vs : List ℕ) → IsAscending (sorted_values vs)
unfolding sorted_values
sorted_values-IsAscending [] = tt
sorted_values-IsAscending (v ∷ vs) =
    insert_value-IsAscending v (sorted_values vs) (sorted_values-IsAscending vs)

value_at-In : (vs : List ℕ) (k : ℕ) → k < length vs → In (value_at vs k) vs
unfolding value_at
value_at-In [] k l = absurd (omega arith)
value_at-In (v ∷ vs) zero l = inl refl
value_at-In (v ∷ vs) (suc k) l = inr (value_at-In vs k (omega arith))

value_at-above :
    (b : ℕ) (vs : List ℕ) (k : ℕ) → All (λ w. b ≤ w) vs → k < length vs → b ≤ value_at vs k
unfolding value_at
value_at-above b [] k h l = absurd (omega arith)
value_at-above b (v ∷ vs) zero (p, h) l = p
value_at-above b (v ∷ vs) (suc k) (p, h) l = value_at-above b vs k h (omega arith)

value_at_ascending :
    (vs : List ℕ) (i k : ℕ) → IsAscending vs → i ≤ k → k < length vs → value_at vs i ≤ value_at vs k
unfolding value_at
value_at_ascending [] i k h l m = absurd (omega arith)
value_at_ascending (v ∷ vs) zero zero h l m = omega arith
value_at_ascending (v ∷ vs) zero (suc k) (p, h) l m = value_at-above v vs k p (omega arith)
value_at_ascending (v ∷ vs) (suc i) zero h l m = absurd (omega arith)
value_at_ascending (v ∷ vs) (suc i) (suc k) (p, h) l m =
    value_at_ascending vs i k h (omega arith) (omega arith)

round_hundredths-bounds :
    (n : ℕ) → (n / 100 ≤ round_hundredths n) × (round_hundredths n ≤ n / 100 + 1)
unfolding round_hundredths
round_hundredths-bounds n = ground arith

quotient_below : (n m : ℕ) → n / 100 < m / 100 → round_hundredths n ≤ round_hundredths m
quotient_below n m l =
    let (_, below) = round_hundredths-bounds n in
    let (above, _) = round_hundredths-bounds m in omega arith

round_with : ℕ → ℕ → ℕ
round_with q r = if ltb r 50 then q else if nat_eq r 50 then q + q % 2 else q + 1

round_with_ascending : (q r s : ℕ) → r ≤ s → round_with q r ≤ round_with q s
unfolding round_with
round_with_ascending q r s l = ground arith

round_hundredths_ascending : (n m : ℕ) → n ≤ m → round_hundredths n ≤ round_hundredths m
unfolding round_hundredths round_with
round_hundredths_ascending n m l = elim (Bool-cases (ltb (n / 100) (m / 100))) [
  | inl e ↦ quotient_below n m (ground arith)
  | inr e ↦
      let same : n / 100 ≡ m / 100 = ground arith in
      subst (λ q. round_hundredths n ≤ round_with q (m % 100)) same
        (round_with_ascending (n / 100) (n % 100) (m % 100) (omega arith))
]

min_ascending : (k n m : ℕ) → n ≤ m → min k n ≤ min k m
min_ascending k n m l = omega arith

times_ascending : (low high last : ℕ) → low ≤ high → low * last ≤ high * last
times_ascending low high last l = grind arith

-- A percentile of values is one of them, and a higher percentage, up to 100, gives no lower value.
pub percentile-In :
    (v : ℕ) (vs : List ℕ) (low high : ℕ)
    → low ≤ high
    → In (percentile (v ∷ vs) low) (v ∷ vs) × (percentile (v ∷ vs) low ≤ percentile (v ∷ vs) high)
unfolding percentile
percentile-In v vs low high l =
    let last = length vs in
    let rank = λ (pct : ℕ). min last (round_hundredths (pct * last)) in
    let inside : (pct : ℕ) → rank pct < length (sorted_values (v ∷ vs)) =
      λ pct. rw (length-sorted_values (v ∷ vs)) (omega arith) in
    let ranks : rank low ≤ rank high =
      min_ascending last (round_hundredths (low * last)) (round_hundredths (high * last))
        (round_hundredths_ascending (low * last) (high * last) (times_ascending low high last l)) in
    (
      In-sorted_values (v ∷ vs) (value_at (sorted_values (v ∷ vs)) (rank low))
          (value_at-In (sorted_values (v ∷ vs)) (rank low) (inside low)),
      value_at_ascending (sorted_values (v ∷ vs)) (rank low) (rank high)
          (sorted_values-IsAscending (v ∷ vs)) ranks (inside high),
    )
