-- ===== src/Scoring/Timing.antt =====
-- src/scoring/timing_rules.py with SIGNAL_DECAY of src/config/action_thresholds.py. A recency is counted in units of
-- 1 / 9200, in which both slopes of the decay are whole; a reliability in hundredths; a weight in units of their product.
pub mod Range
use cmo_agent.Common.{
  ℕ, suc, ◌+◌, ◌-◌, ◌*◌, Bool, Option, none, some, List, [], ◌∷◌, map, length, take, max, min, ltb,
  leb, if◌then◌else◌,
}
use cmo_agent.Common.Int.{ℤ, pos, negsuc}
use cmo_agent.Scoring.Round.{round}

-- a signal: the days since its date, which is missing or may lie ahead, and its reliability
pub record DatedSignal : Type 0 where
  pub age_days : Option ℤ
  pub reliability : ℕ

abbrev pub recency_unit : ℕ
recency_unit = 9200

abbrev pub fresh_days : ℕ
fresh_days = 14

abbrev pub stale_days : ℕ
stale_days = 60

abbrev pub expired_days : ℕ
expired_days = 180

-- 1 when fresh, from 1 to 0.3 until stale, from 0.3 to 0 until expired
abbrev pub recency_at : ℕ → ℕ
recency_at age =
    if leb age fresh_days
    then recency_unit
    else if leb age stale_days
    then 2760 + 140 * (stale_days - age)
    else if leb age expired_days
    then 23 * (expired_days - age)
    else 0

unfoldable pub recency_score : Option ℤ → ℕ
recency_score none = 2760
recency_score (some (negsuc n)) = recency_unit
recency_score (some (pos age)) = recency_at age

pub record Weighted : Type 0 where
  pub weight : ℕ
  pub signal : DatedSignal

-- the signals that count, with their weights
abbrev pub scored : List DatedSignal → List Weighted
scored [] = []
scored (s ∷ ss) =
    let rest : List Weighted = scored ss in
    if leb (recency_score s.age_days) 0
    then rest
    else record { weight = recency_score s.age_days * max s.reliability 30; signal = s } ∷ rest

-- `sort(key=weight, reverse=True)`, which keeps the order of equal weights
abbrev pub insert_by_weight : Weighted → List Weighted → List Weighted
insert_by_weight x [] = x ∷ []
insert_by_weight x (y ∷ ys) =
    let rest : List Weighted = insert_by_weight x ys in
    if ltb x.weight y.weight then y ∷ rest else x ∷ y ∷ ys

abbrev pub sort_by_weight : List Weighted → List Weighted
sort_by_weight [] = []
sort_by_weight (x ∷ xs) = insert_by_weight x (sort_by_weight xs)

abbrev pub total_weight : List Weighted → ℕ
total_weight [] = 0
total_weight (x ∷ xs) = x.weight + total_weight xs

abbrev pub weighted_sum : List Weighted → ℕ
weighted_sum [] = 0
weighted_sum (x ∷ xs) = x.weight * recency_score x.signal.age_days + weighted_sum xs

abbrev pub total_reliability : List Weighted → ℕ
total_reliability [] = 0
total_reliability (x ∷ xs) = x.signal.reliability + total_reliability xs

-- `round(avg_recency * 80 + 20)`, for an average that is a quotient of two sums
abbrev pub base_score : List Weighted → ℕ
base_score top =
    if ltb 0 (total_weight top)
    then round (80 * weighted_sum top + 20 * (total_weight top * recency_unit))
        (total_weight top * recency_unit)
    else 20

-- the score, and the confidence as a fraction
abbrev pub timing_of : List Weighted → ℕ × ℕ × ℕ
timing_of [] = (20, 2, 10)
timing_of (x ∷ xs) =
    let top = take 5 (sort_by_weight (x ∷ xs)) in
    let n = length (x ∷ xs) in
    let k = length top in
    (
      min 100 (min 100 (base_score top) + min 15 (n * 3)),
      min (1000 * k) (300 * k + 100 * n * k + 3 * total_reliability top),
      1000 * k,
    )

unfoldable pub score_timing : List DatedSignal → ℕ × ℕ × ℕ
score_timing [] = (30, 2, 10)
score_timing (s ∷ ss) = timing_of (scored (s ∷ ss))
