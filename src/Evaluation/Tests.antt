-- ===== src/Evaluation/Tests.antt =====
-- src/evaluation/metrics.py: runs of its functions.
use cmo_agent.Common.{ℕ, String, Bool, true, false, ◌≡◌, refl, none, some, List, [], ◌∷◌, map, All}
use cmo_agent.Common.Text.{lower}
use cmo_agent.Evaluation.Metrics.{
  RatedAccount, FeedbackEvent, precision_at_k, contact_ranking_precision, BinResult,
  confidence_calibration, sum_of, Recommendation, action_override_rate, brief_usefulness_score,
}
use cmo_agent.Evaluation.Metrics.Bounds.{AtMostOne, confidence_calibration-cover}

abbrev accounts : List RatedAccount
accounts =
    record { account_id = "a1"; overall_priority_score = 40 }
    ∷ record { account_id = "a2"; overall_priority_score = 90 }
    ∷ record { account_id = "a3"; overall_priority_score = 70 }
    ∷ []

-- of a2 and a3
one_of_two : precision_at_k accounts ("a1" ∷ "a3" ∷ []) 2 ≡ record { over = 1; under = 2 }
unfolding precision_at_k
one_of_two = refl

abbrev event : String → String → FeedbackEvent
event i action = record {
  recommendation_id = some i;
  action_taken = action;
  correction = none;
  rating = none;
}

abbrev events : List FeedbackEvent
events = event "r1" "Accepted" ∷ event "r2" "rejected" ∷ event "r9" "neutral" ∷ []

abbrev recommendations : List Recommendation
recommendations =
    record { id = "r1"; action = "pursue" } ∷ record { id = "r2"; action = "nurture" } ∷ []

half_overridden : action_override_rate recommendations events ≡ record { over = 1; under = 2 }
unfolding action_override_rate lower
half_overridden = refl

-- 4, 2 and 3
usefulness : brief_usefulness_score events ≡ record { over = 9; under = 3 }
unfolding brief_usefulness_score lower
usefulness = refl

-- a contact without a function has the empty text for it, which is part of every text
anyone_found :
    contact_ranking_precision
      (record { title = "Janitor"; normalized_function = ""; relevance_score = 1 } ∷ [])
      "CFO"
      3
    ≡ 1
unfolding contact_ranking_precision lower
anyone_found = refl

abbrev predictions : List (ℕ × Bool)
predictions = (20, true) ∷ (100, true) ∷ (85, false) ∷ []

confidence_calibration-cover_example :
    (sum_of (map BinResult.count_of (confidence_calibration predictions)) ≡ 3)
    × All (λ r. AtMostOne r.actual_accuracy) (confidence_calibration predictions)
confidence_calibration-cover_example = confidence_calibration-cover predictions
