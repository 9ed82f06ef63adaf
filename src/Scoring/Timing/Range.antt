-- ===== src/Scoring/Timing/Range.antt =====
-- src/scoring/timing_rules.py: the scores that signals can give.
use cmo_agent.Common.{
  ℕ, ◌+◌, ◌*◌, ◌≤◌, ◌<◌, ◌≡◌, ◌⊎◌, refl, Option, none, some, List, [], ◌∷◌, take, ltb, leb, arith,
  Bool-cases, inl, inr, All, ltb→lt,
}
use cmo_agent.Common.Int.{ℤ, pos, negsuc}
use cmo_agent.Scoring.Round.{round-le, le-round}
use cmo_agent.Scoring.Timing.{
  DatedSignal, recency_unit, recency_score, Weighted, scored, sort_by_weight, total_weight,
  weighted_sum, base_score, timing_of, score_timing,
}

recency-le : (o : Option ℤ) → recency_score o ≤ recency_unit
unfolding recency_score
recency-le none = omega arith
recency-le (some (negsuc n)) = omega arith
recency-le (some (pos age)) = ground arith

-- an average of recencies is at most 1
weighted_sum-le : (xs : List Weighted) → weighted_sum xs ≤ total_weight xs * recency_unit
weighted_sum-le [] = omega arith
weighted_sum-le (x ∷ xs) = grind (arith, weighted_sum-le xs, recency-le x.signal.age_days)

base_range : (top : List Weighted) → (20 ≤ base_score top) × (base_score top ≤ 100)
base_range top = elim (Bool-cases (ltb 0 (total_weight top))) [
  | inl positive ↦
      let d : ℕ = total_weight top * recency_unit in
      let n : ℕ = 80 * weighted_sum top + 20 * d in
      let some_weight : 0 < d = omega (arith, ltb→lt 0 (total_weight top) positive) in
      rw positive (
        le-round n d 20 some_weight (omega arith),
        round-le n d 100 some_weight (omega (arith, weighted_sum-le top)),
      )
  | inr empty ↦ rw empty (omega arith, omega arith)
]

scored-none : (ss : List DatedSignal) → scored ss ≡ [] → All (λ s. recency_score s.age_days ≡ 0) ss
scored-none [] e = tt
scored-none (s ∷ ss) e = elim (Bool-cases (leb (recency_score s.age_days) 0)) [
  | inl expired ↦ (ground (arith, expired), scored-none ss (rw expired at e))
  | inr counts ↦ absurd (cc (rw counts at e))
]

timing_range :
    (xs : List Weighted)
    → ((xs ≡ []) × ((timing_of xs).0 ≡ 20)) ⊎ ((23 ≤ (timing_of xs).0) × ((timing_of xs).0 ≤ 100))
timing_range [] = inl (refl, refl)
timing_range (x ∷ xs) =
    let base = base_range (take 5 (sort_by_weight (x ∷ xs))) in
    inr (omega (arith, base.0), omega arith)

pub score_timing-range :
    (ss : List DatedSignal)
    → ((ss ≡ []) × ((score_timing ss).0 ≡ 30))
      ⊎ ((All (λ s. recency_score s.age_days ≡ 0) ss) × ((score_timing ss).0 ≡ 20))
      ⊎ ((23 ≤ (score_timing ss).0) × ((score_timing ss).0 ≤ 100))
unfolding score_timing
score_timing-range [] = inl (refl, refl)
score_timing-range (s ∷ ss) = elim (timing_range (scored (s ∷ ss))) [
  | inl expired ↦ inr (inl (scored-none (s ∷ ss) expired.0, expired.1))
  | inr live ↦ inr (inr live)
]
