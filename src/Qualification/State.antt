-- ===== src/Qualification/State.antt =====
-- src/agent/state.py: what flows through the qualification pipeline. Scores from 0 to 100 are natural
-- numbers, confidences are floats. Texts and lists that the rules do not read are left out.
use cmo_agent.Common.{ℕ, String, Bool, Option, List}
use cmo_agent.Float.{Float}
use cmo_agent.State.{Account, Contact, Campaign}

pub data ActionType : Type 0 where
  pursue_now nurture disqualify human_review_required : ActionType

pub data BuyingRole : Type 0 where
  economic_buyer pain_owner operator technical_evaluator executive_sponsor blocker unknown :
      BuyingRole

-- the f-strings of the field `explanation`, with what they show of the decision
pub data Explanation : Type 0 where
  disqualified_by_icp : Option String → Explanation
  low_confidence strong_fit weak_fit unclear no_score : Explanation
  -- the timing is weak, the pain is weak
  decent_fit : Bool → Bool → Explanation

module _ (fl : Float) where
  open fl use {F}

  pub record AccountScore : Type 0 where
    pub account_id : String
    pub icp_fit_score : ℕ
    pub pain_fit_score : ℕ
    pub timing_score : ℕ
    pub overall_priority_score : ℕ
    pub confidence_score : F
    pub is_disqualified : Bool
    pub disqualify_reason : Option String

  pub record RankedContact : Type 0 where
    pub contact_id : String
    pub name : String
    pub relevance_score : ℕ
    pub likely_role : BuyingRole
    pub confidence_score : F

  pub record PainHypothesis : Type 0 where
    pub score : ℕ
    pub confidence_score : F

  pub record Signal : Type 0 where
    pub id : String
    pub reliability_score : F

  pub record ActionRecommendation : Type 0 where
    pub action : ActionType
    pub explanation : Explanation
    pub best_first_contact : Option RankedContact
    pub best_channel : Option String
    pub multi_threading_recommended : Bool
    pub manager_approval_required : Bool
    pub confidence_score : F

  pub record SellerBrief : Type 0 where
    pub id : String
    pub account_id : String
    pub risks_and_unknowns : List String

  -- A missing list is read as the empty one, a missing object as None, a missing flag as False.
  pub record QualificationState : Type 0 where
    pub thread_id : String
    pub workspace_id : String
    pub campaign : Option Campaign
    pub accounts : List Account
    pub current_account : Option Account
    pub contacts : List Contact
    pub ranked_contacts : List RankedContact
    pub signals : List Signal
    pub pain_hypotheses : List PainHypothesis
    pub account_score : Option AccountScore
    pub seller_brief : Option SellerBrief
    pub action_recommendation : Option ActionRecommendation
    pub approval_status : Option String
    pub error : Option String
    pub should_continue : Bool
    pub auto_outbound_triggered : Bool
