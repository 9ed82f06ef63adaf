-- ===== src/Qualification/Graph.antt =====
-- src/agent/qualification_graph.py: the edges of the qualification pipeline and its selection of accounts,
-- and src/agent/nodes/brief_reviewer.py, whose status decides on the way on.
pub mod Review
pub mod Visits
use cmo_agent.Common.{
  ℕ, String, Bool, true, false, ◌&&◌, ◌||◌, not, Option, none, some, List, [], ◌∷◌, length,
  get_elem?, str_eq, if◌then◌else◌,
}
use cmo_agent.Float.{Float}
use cmo_agent.State.{Account}
use cmo_agent.Outbound.Nodes.{index_of, next_index}
use cmo_agent.Outbound.Graph.{has_next, is_status}
use cmo_agent.Qualification.State.{
  ActionType, pursue_now, nurture, disqualify, human_review_required, ActionRecommendation,
  AccountScore, QualificationState,
}

pub data QualificationNode : Type 0 where
  data_ingester entity_resolver select_next icp_scorer signal_detector contact_ranker :
      QualificationNode
  pain_inferrer value_prop_matcher recommender brief_builder reviewer crm_writer : QualificationNode
  zoho_writer task_creator outbound_gate draft_email_generator finish : QualificationNode

module _ (fl : Float) where
  abbrev pub Q : Type 0
  Q = QualificationState fl

  abbrev pub is_pursue_now : Option (ActionRecommendation fl) → Bool
  is_pursue_now none = false
  is_pursue_now (some r) = elim r.action [ pursue_now ↦ true | other ↦ false ]

  -- `_after_draft_email`: `current_idx < len(accounts) - 1`
  unfoldable pub after_draft_email : Q → QualificationNode
  after_draft_email s = elim s.current_account [
    | none ↦ finish
    | some current ↦
        if has_next (index_of current.id s.accounts) (length s.accounts)
        then select_next
        else finish
  ]

  unfoldable pub after_auto_outbound : Q → QualificationNode
  unfolding after_draft_email
  after_auto_outbound s =
      if s.auto_outbound_triggered || is_pursue_now s.action_recommendation
      then draft_email_generator
      else after_draft_email s

  abbrev pub is_disqualified_score : Option (AccountScore fl) → Bool
  is_disqualified_score none = false
  is_disqualified_score (some score) = score.is_disqualified

  unfoldable pub after_icp_scorer : Q → QualificationNode
  after_icp_scorer s =
      if is_disqualified_score s.account_score then recommender else signal_detector

  unfoldable pub after_brief_reviewer : Q → QualificationNode
  after_brief_reviewer s =
      if is_status "pending_review" s.approval_status then finish else crm_writer

  abbrev pub select_account : Q → Option Account → Q
  select_account s none = record s { should_continue = false }
  select_account s (some account) = record s {
    current_account = some account;
    signals = [];
    pain_hypotheses = [];
    ranked_contacts = [];
    account_score = none;
    seller_brief = none;
    action_recommendation = none;
    error = none;
  }

  -- the account after the current one, or the first; none is left at the end of the list
  unfoldable pub select_next_account : Q → Q
  select_next_account s =
      select_account s (get_elem? s.accounts (next_index s.current_account s.accounts))

  -- the edges of `build_qualification_graph`
  unfoldable pub qualification_edge : QualificationNode → Q → QualificationNode
  unfolding after_icp_scorer after_brief_reviewer after_auto_outbound after_draft_email
  qualification_edge data_ingester s = entity_resolver
  qualification_edge entity_resolver s = select_next
  qualification_edge select_next s = icp_scorer
  qualification_edge icp_scorer s = after_icp_scorer s
  qualification_edge signal_detector s = contact_ranker
  qualification_edge contact_ranker s = pain_inferrer
  qualification_edge pain_inferrer s = value_prop_matcher
  qualification_edge value_prop_matcher s = recommender
  qualification_edge recommender s = brief_builder
  qualification_edge brief_builder s = reviewer
  qualification_edge reviewer s = after_brief_reviewer s
  qualification_edge crm_writer s = zoho_writer
  qualification_edge zoho_writer s = task_creator
  qualification_edge task_creator s = outbound_gate
  qualification_edge outbound_gate s = after_auto_outbound s
  qualification_edge draft_email_generator s = after_draft_email s
  qualification_edge finish s = finish

  abbrev pub is_auto_approved : Option (ActionRecommendation fl) → Bool
  is_auto_approved none = false
  is_auto_approved (some r) = is_pursue_now (some r) && not r.manager_approval_required

  -- The node asks in Slack and answers "pending_review" whatever the tool returns; `posted` is false
  -- if the tool raises.
  unfoldable pub brief_reviewer : Bool → Q → Option Q
  brief_reviewer posted s =
      if is_auto_approved s.action_recommendation
      then some (record s { approval_status = some "auto_approved" })
      else if posted
      then some (record s { approval_status = some "pending_review" })
      else none
