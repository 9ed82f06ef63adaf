-- ===== src/Scoring/Tests.antt =====
-- Runs of the scorers.
use cmo_agent.Common.{◌≤◌, ◌≡◌, refl, true, false, Option, none, some, List, [], ◌∷◌, ltb}
use cmo_agent.Common.Text.{lower}
use cmo_agent.Common.Int.{pos}
use cmo_agent.Scoring.Round.{round}
use cmo_agent.Scoring.Icp.{
  IcpAccount, IcpCriteria, icp_weights, score_industry, score_company_size, score_revenue,
  score_geography, score_metadata_signals, within_score,
}
use cmo_agent.Scoring.Icp.Fit.{IcpFit, score_icp_fit, check_disqualify, fit_score}
use cmo_agent.Scoring.Icp.Results.{score_icp_fit-range}
use cmo_agent.Scoring.Timing.{DatedSignal, recency_score, score_timing}
use cmo_agent.Scoring.Priority.{icp_scorer, answered, Scored, overall_priority, icp_scorer-range}

abbrev criteria : IcpCriteria
criteria = record {
  industries = "SaaS" ∷ [];
  company_size = record { min_value = some 50; max_value = some 5000 };
  revenue_range = record { min_value = some 5000000; max_value = some 500000000 };
  geographies = "US" ∷ [];
  positive_signals = "expansion" ∷ [];
  negative_signals = "recent_layoffs" ∷ [];
  disqualify_rules = "employee_count_below_20" ∷ "existing_customer" ∷ [];
}

abbrev ada : IcpAccount
ada = record {
  industry = some "B2B saas";
  employee_count = some 2525;
  revenue = none;
  geography = none;
  country = some "us";
  signals = record { text = "expansion to DE"; is_text = true } ∷ [];
  is_customer = false;
}

abbrev no_fit : IcpFit
no_fit = record {
  icp_fit_score = 0;
  fit_reasons = [];
  non_fit_reasons = [];
  is_disqualified = false;
  disqualify_reason = none;
  confidence = (0, 0);
}

abbrev fit_or_none : Option IcpFit → IcpFit
fit_or_none none = no_fit
fit_or_none (some r) = r

abbrev ada_fit : IcpFit
ada_fit = fit_or_none (score_icp_fit ada criteria icp_weights)

ada_kept : check_disqualify ada criteria ≡ none
unfolding check_disqualify
ada_kept = refl

ada_scored : score_icp_fit ada criteria icp_weights ≡ some ada_fit
unfolding score_icp_fit check_disqualify score_industry score_company_size score_revenue
    score_geography score_metadata_signals within_score fit_score round lower
ada_scored = refl

-- 15 + 10 + 5 + 5 for the dimensions, 22.75 for the signals and 12.5 for the rest
ada_score : ada_fit.icp_fit_score ≡ 70
unfolding score_icp_fit check_disqualify score_industry score_company_size score_revenue
    score_geography score_metadata_signals within_score fit_score round lower
ada_score = refl

score_icp_fit-range_example : (16 ≤ ada_fit.icp_fit_score) × (ada_fit.icp_fit_score ≤ 88)
score_icp_fit-range_example = score_icp_fit-range ada criteria ada_fit ada_kept ada_scored

abbrev open_ended : IcpCriteria
open_ended = record criteria { company_size = record { min_value = some 50; max_value = none } }

open_kept : check_disqualify ada open_ended ≡ none
unfolding check_disqualify
open_kept = refl

abbrev old_signals : List DatedSignal
old_signals = record { age_days = some (pos 200); reliability = 90 } ∷ []

-- an expired signal scores less than none at all
old_below_none : ltb (score_timing old_signals).0 (score_timing []).0 ≡ true
unfolding score_timing recency_score
old_below_none = refl

abbrev no_scores : Scored
no_scores = record {
  icp_fit_score = 0;
  pain_fit_score = 0;
  timing_score = 0;
  overall_priority_score = 0;
  fit_reasons = [];
  non_fit_reasons = [];
  icp_confidence = (0, 0);
  pain_confidence = 0;
  timing_confidence = (0, 0);
  is_disqualified = false;
  disqualify_reason = none;
}

abbrev scored_or_none : Option Scored → Scored
scored_or_none none = no_scores
scored_or_none (some s) = s

abbrev ada_priority : Scored
ada_priority = scored_or_none (icp_scorer ada criteria old_signals (answered (pos 90) 80 []))

ada_prioritised : icp_scorer ada criteria old_signals (answered (pos 90) 80 []) ≡ some ada_priority
unfolding icp_scorer score_icp_fit check_disqualify score_industry score_company_size score_revenue
    score_geography score_metadata_signals within_score fit_score round lower overall_priority
    score_timing recency_score
ada_prioritised = refl

icp_scorer-range_example :
    (11 ≤ ada_priority.overall_priority_score) × (ada_priority.overall_priority_score ≤ 96)
icp_scorer-range_example =
    icp_scorer-range ada criteria old_signals (answered (pos 90) 80 []) ada_priority ada_kept
      ada_prioritised
