-- ===== src/Qualification/ActionRules/Decisions.antt =====
-- When recommend_action decides for each of the four actions.
use cmo_agent.Common.{◌<◌, ◌≡◌, ◌↔◌, ◌⊎◌, Bool, true, false, ◌&&◌, Option, List, leb, arith}
use cmo_agent.Float.{Float}
use cmo_agent.Qualification.State.{
  ActionType, pursue_now, disqualify, AccountScore, RankedContact, PainHypothesis,
}
use cmo_agent.Qualification.ActionRules.{
  Thresholds, or_thresholds, top_pain_confidence, relevance_of, recommend_action,
}

module _ (fl : Float) (score : AccountScore fl) (contact : Option (RankedContact fl))
    (pains : List (PainHypothesis fl)) (thresholds : Option (Thresholds fl)) where
  open fl use {F, lt, ge}

  -- the account has not been disqualified, and the confidence in its scores is not too low
  abbrev pub IsJudged : Type 0
  IsJudged =
      (score.is_disqualified ≡ false)
      × (lt score.confidence_score (or_thresholds fl thresholds).confidence_min ≡ false)

  -- priority, contact and pain all reach their thresholds
  abbrev pub is_strong : Bool
  is_strong =
      leb (or_thresholds fl thresholds).overall_priority_min score.overall_priority_score
      && leb (or_thresholds fl thresholds).top_contact_relevance_min (relevance_of fl contact)
      && ge (top_pain_confidence fl pains) (or_thresholds fl thresholds).pain_confidence_min

  abbrev pub chosen : ActionType
  chosen = (recommend_action fl score contact pains thresholds).action

  -- An account is pursued exactly if it has not been disqualified, the confidence in its scores is not
  -- below the minimum, and its priority, the relevance of its top contact and its best pain confidence
  -- all reach their thresholds.
  pub pursue_iff : (chosen ≡ pursue_now) ↔ (IsJudged × (is_strong ≡ true))
  unfolding recommend_action
  pursue_iff = ground arith

  -- An account is disqualified only by the ICP scorer or for a fit below the lower bound.
  pub disqualify_reasons :
      chosen ≡ disqualify
      → (score.is_disqualified ≡ true)
        ⊎ (IsJudged
            × (is_strong ≡ false)
            × (score.icp_fit_score < (or_thresholds fl thresholds).icp_fit_max))
  unfolding recommend_action
  disqualify_reasons h = ground arith
