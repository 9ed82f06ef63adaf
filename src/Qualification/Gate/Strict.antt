-- ===== src/Qualification/Gate/Strict.antt =====
-- The thresholds of the gate against those of the recommendation, which a person acts on.
use cmo_agent.Common.{ℕ, ◌<◌, ◌≡◌, true, false, Bool-cases, inl, inr, none, some, first, arith}
use cmo_agent.Float.{Float}
use cmo_agent.Qualification.State.{pursue_now, AccountScore, QualificationState}
use cmo_agent.Qualification.ActionRules.{recommend_action, top_pain_confidence}
use cmo_agent.Qualification.ActionRules.Decisions.{pursue_iff}
use cmo_agent.Qualification.Gate.{brief_meets_thresholds, contact_shortfall}

module _ (fl : Float) where
  open fl use {F, lt, ge, nan, hundredths, lt_trans, hundredths-lt, hundredths-nan, ge-eq-not-lt}

  -- A value that is not below a bound is not below a smaller one.
  not_below : (x : F) (m n : ℕ) → m < n → lt x (hundredths n) ≡ false → lt x (hundredths m) ≡ false
  not_below x m n le h = elim (Bool-cases (lt x (hundredths m))) [
    | inr e ↦ e
    | inl e ↦ ground (arith, lt_trans x (hundredths m) (hundredths n) e (hundredths-lt m n le))
  ]

  -- A value that is not below a bound, and is a number, reaches every smaller one.
  reaches :
      (x : F) (m n : ℕ)
      → m < n
      → nan x ≡ false
      → lt x (hundredths n) ≡ false
      → ge x (hundredths m) ≡ true
  reaches x m n le number h =
      rw (ge-eq-not-lt x (hundredths m) number (hundredths-nan m), not_below x m n le h)

  -- The gate is stricter than the recommendation: a brief that meets the gate's thresholds, with a
  -- score that the ICP scorer has not disqualified and a best pain confidence that is a number, is
  -- recommended for pursuit.
  pub gate_stricter :
      (s : QualificationState fl) (score : AccountScore fl)
      → s.account_score ≡ some score
      → score.is_disqualified ≡ false
      → nan (top_pain_confidence fl s.pain_hypotheses) ≡ false
      → brief_meets_thresholds fl s ≡ none
      → (recommend_action fl score (first s.ranked_contacts) s.pain_hypotheses none).action
        ≡ pursue_now
  unfolding brief_meets_thresholds contact_shortfall
  gate_stricter s score e fit number h =
      (pursue_iff fl score (first s.ranked_contacts) s.pain_hypotheses none).1 ground (
        arith,
        not_below score.confidence_score 50 80 (omega arith),
        reaches (top_pain_confidence fl s.pain_hypotheses) 50 70 (omega arith) number,
      )
