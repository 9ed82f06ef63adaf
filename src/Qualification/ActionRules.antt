-- ===== src/Qualification/ActionRules.antt =====
-- src/scoring/action_rules.py, and the node action_recommender that calls it. The dict
-- `threshold_details`, which is only shown, is left out.
pub mod Decisions
use cmo_agent.Common.{
  ℕ, String, Bool, true, false, not, ◌&&◌, ◌||◌, Option, none, some, List, [], ◌∷◌, length, first,
  ltb, leb, if◌then◌else◌,
}
use cmo_agent.Float.{Float}
use cmo_agent.Qualification.State.{
  ActionType, pursue_now, nurture, disqualify, human_review_required, Explanation,
  disqualified_by_icp, low_confidence, strong_fit, weak_fit, unclear, no_score, decent_fit,
  AccountScore, RankedContact, PainHypothesis, ActionRecommendation, QualificationState,
}

module _ (fl : Float) where
  open fl use {F, lt, ge, hundredths, mul}

  pub record Thresholds : Type 0 where
    pub overall_priority_min : ℕ
    pub top_contact_relevance_min : ℕ
    pub pain_confidence_min : F
    pub icp_fit_min : ℕ
    pub timing_max : ℕ
    pub pain_confidence_max : F
    pub icp_fit_max : ℕ
    pub confidence_min : F

  -- ACTION_THRESHOLDS of src/config/action_thresholds.py
  abbrev pub action_thresholds : Thresholds
  action_thresholds = record {
    overall_priority_min = 60;
    top_contact_relevance_min = 70;
    pain_confidence_min = hundredths 50;
    icp_fit_min = 50;
    timing_max = 50;
    pain_confidence_max = hundredths 50;
    icp_fit_max = 30;
    confidence_min = hundredths 50;
  }

  -- `thresholds or ACTION_THRESHOLDS`
  abbrev pub or_thresholds : Option Thresholds → Thresholds
  or_thresholds none = action_thresholds
  or_thresholds (some t) = t

  -- `max` of an iterable: a later item takes the place of the best so far if it is greater
  unfoldable pub max_from : F → List (PainHypothesis fl) → F
  max_from best [] = best
  max_from best (h ∷ hs) =
      max_from (if lt best h.confidence_score then h.confidence_score else best) hs

  -- `max((ph.confidence_score for ph in pain_hypotheses), default=0.0)`
  unfoldable pub top_pain_confidence : List (PainHypothesis fl) → F
  unfolding max_from
  top_pain_confidence [] = hundredths 0
  top_pain_confidence (h ∷ hs) = max_from h.confidence_score hs

  -- `min(a, b)`
  abbrev min_F : F → F → F
  min_F a b = if lt b a then b else a

  abbrev pub relevance_of : Option (RankedContact fl) → ℕ
  relevance_of none = 0
  relevance_of (some c) = c.relevance_score

  abbrev pub is_some {ℓ} : {A : Type ℓ} → Option A → Bool
  is_some none = false
  is_some (some a) = true

  abbrev plain : ActionType → Explanation → Option (RankedContact fl) → F → ActionRecommendation fl
  plain action explanation contact confidence = record {
    action = action;
    explanation = explanation;
    best_first_contact = contact;
    best_channel = none;
    multi_threading_recommended = false;
    manager_approval_required = false;
    confidence_score = confidence;
  }

  unfoldable pub recommend_action :
      AccountScore fl
      → Option (RankedContact fl)
      → List (PainHypothesis fl)
      → Option Thresholds
      → ActionRecommendation fl
  recommend_action score top_contact pain_hypotheses thresholds =
      let t : Thresholds = or_thresholds thresholds in
      let pain : F = top_pain_confidence pain_hypotheses in
      let relevance : ℕ = relevance_of top_contact in
      let meets_priority : Bool = leb t.overall_priority_min score.overall_priority_score in
      let meets_contact : Bool = leb t.top_contact_relevance_min relevance in
      let meets_pain : Bool = ge pain t.pain_confidence_min in
      let weak_timing : Bool = ltb score.timing_score t.timing_max in
      let weak_pain : Bool = lt pain t.pain_confidence_max in
      if score.is_disqualified
      then plain disqualify (disqualified_by_icp score.disqualify_reason) none (hundredths 95)
      else if lt score.confidence_score t.confidence_min
      then plain human_review_required low_confidence top_contact score.confidence_score
      else if meets_priority && meets_contact && meets_pain
      then record {
        action = pursue_now;
        explanation = strong_fit;
        best_first_contact = top_contact;
        best_channel = some "email";
        multi_threading_recommended =
            is_some top_contact && ltb 1 (length pain_hypotheses) && leb 70 relevance;
        manager_approval_required = false;
        confidence_score = min_F score.confidence_score pain;
      }
      else if leb t.icp_fit_min score.icp_fit_score && (weak_timing || weak_pain)
      then plain nurture (decent_fit weak_timing weak_pain) top_contact
          (mul score.confidence_score (hundredths 80))
      else if ltb score.icp_fit_score t.icp_fit_max
      then plain disqualify weak_fit none score.confidence_score
      else plain human_review_required unclear top_contact
          (mul score.confidence_score (hundredths 70))

  abbrev pub recommend : QualificationState fl → Option (AccountScore fl) → ActionRecommendation fl
  recommend s none = plain human_review_required no_score none (hundredths 0)
  recommend s (some score) = recommend_action score (first s.ranked_contacts) s.pain_hypotheses none

  -- src/agent/nodes/action_recommender.py
  unfoldable pub action_recommender : QualificationState fl → QualificationState fl
  action_recommender s = elim s.current_account [
    | none ↦ record s { error = some "No current_account set" }
    | some account ↦ record s { action_recommendation = some (recommend s s.account_score) }
  ]
