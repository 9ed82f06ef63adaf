-- ===== src/Evaluation/Metrics/Bounds.antt =====
-- src/evaluation/metrics.py: the bins of confidence_calibration.
use cmo_agent.Common.{
  ℕ, ◌+◌, ◌≤◌, Bool, ◌≡◌, refl, List, [], ◌∷◌, length, map, ◌==◌, if◌then◌else◌, arith, Bool-cases,
  inl, inr, All,
}
use cmo_agent.Evaluation.Metrics.{
  Fraction, how_many, clamped, bin_of, bin, BinResult, bin_result, confidence_calibration, sum_of,
}

-- a fraction of 0 to 1 that is not divided by 0
pub AtMostOne : Fraction → Type 0
AtMostOne f = (f.over ≤ f.under) × (1 ≤ f.under)

how_many-le-length : {A : Type 0} (p : A → Bool) (xs : List A) → how_many p xs ≤ length xs
how_many-le-length p [] = omega arith
how_many-le-length p (x ∷ xs) = elim (Bool-cases (p x)) [
  | inl holds ↦ rw holds (omega (arith, how_many-le-length p xs))
  | inr other ↦ rw other (omega (arith, how_many-le-length p xs))
]

bin_of-le : (c : ℕ) → bin_of c ≤ 4
bin_of-le c = ground arith

-- one bin more for a prediction, the one it is in
bin-length :
    (n : ℕ) (p : ℕ × Bool) (ps : List (ℕ × Bool))
    → length (bin n (p ∷ ps)) ≡ (if bin_of (clamped p).0 == n then 1 else 0) + length (bin n ps)
bin-length n p ps = elim (Bool-cases (bin_of (clamped p).0 == n)) [
  | inl holds ↦ rw holds (omega arith)
  | inr other ↦ rw other (omega arith)
]

one_bin :
    (b : ℕ)
    → b ≤ 4
    → (if b == 0 then 1 else 0)
        + ((if b == 1 then 1 else 0)
            + ((if b == 2 then 1 else 0) + ((if b == 3 then 1 else 0) + (if b == 4 then 1 else 0))))
      ≡ 1
one_bin b h = ground (arith, h)

bins_cover :
    (ps : List (ℕ × Bool))
    → length (bin 0 ps)
        + (length (bin 1 ps) + (length (bin 2 ps) + (length (bin 3 ps) + length (bin 4 ps))))
      ≡ length ps
bins_cover [] = refl
bins_cover (p ∷ ps) = omega (
  arith,
  bin-length 0 p ps,
  bin-length 1 p ps,
  bin-length 2 p ps,
  bin-length 3 p ps,
  bin-length 4 p ps,
  one_bin (bin_of (clamped p).0) (bin_of-le (clamped p).0),
  bins_cover ps,
)

accuracy : (ps : List (ℕ × Bool)) → AtMostOne (bin_result ps).actual_accuracy
unfolding AtMostOne
accuracy [] = (omega arith, omega arith)
accuracy (p ∷ ps) = (how_many-le-length (λ q. q.1) (p ∷ ps), omega arith)

bin_result-count : (ps : List (ℕ × Bool)) → (bin_result ps).count_of ≡ length ps
bin_result-count [] = refl
bin_result-count (p ∷ ps) = refl

-- The counts of the five bins of confidence_calibration add up to the number of predictions, and the accuracy of each
-- is from 0 to 1.
pub confidence_calibration-cover :
    (predictions : List (ℕ × Bool))
    → (sum_of (map BinResult.count_of (confidence_calibration predictions)) ≡ length predictions)
      × All (λ r. AtMostOne r.actual_accuracy) (confidence_calibration predictions)
unfolding confidence_calibration
confidence_calibration-cover ps = (
  omega (
    arith,
    bins_cover ps,
    bin_result-count (bin 0 ps),
    bin_result-count (bin 1 ps),
    bin_result-count (bin 2 ps),
    bin_result-count (bin 3 ps),
    bin_result-count (bin 4 ps),
  ),
  (
    accuracy (bin 0 ps),
    (accuracy (bin 1 ps), (accuracy (bin 2 ps), (accuracy (bin 3 ps), (accuracy (bin 4 ps), tt)))),
  ),
)
