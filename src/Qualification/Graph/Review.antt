-- ===== src/Qualification/Graph/Review.antt =====
-- What the review of a brief does to the rest of the batch.
use cmo_agent.Common.{Bool, true, ◌≡◌, refl, some, arith, if◌then◌else◌}
use cmo_agent.Float.{Float}
use cmo_agent.State.{Account}
use cmo_agent.Qualification.State.{AccountScore, SellerBrief, QualificationState}
use cmo_agent.Qualification.ActionRules.{action_recommender, recommend_action}
use cmo_agent.Qualification.Graph.{
  icp_scorer, recommender, reviewer, crm_writer, finish, qualification_edge, after_icp_scorer,
  after_brief_reviewer, brief_reviewer, is_auto_approved,
}

module _ (fl : Float) where
  after-pending :
      (t : QualificationState fl)
      → t.approval_status ≡ some "pending_review"
      → after_brief_reviewer fl t ≡ finish
  unfolding after_brief_reviewer
  after-pending t e = rw e refl

  after-approved :
      (t : QualificationState fl)
      → t.approval_status ≡ some "auto_approved"
      → after_brief_reviewer fl t ≡ crm_writer
  unfolding after_brief_reviewer
  after-approved t e = rw e refl

  -- The reviewer goes on to the CRM exactly for a recommendation to pursue the account that needs no
  -- manager; for every other one that reaches Slack the graph ends, and the accounts that are left in
  -- the batch with it.
  pub review_routes :
      (posted : Bool) (s t : QualificationState fl)
      → brief_reviewer fl posted s ≡ some t
      → qualification_edge fl reviewer t
        ≡ (if is_auto_approved fl s.action_recommendation then crm_writer else finish)
  unfolding brief_reviewer qualification_edge
  review_routes posted s t h = ground (arith, after-pending t, after-approved t)

  -- A disqualified account skips the signals, but not the review: whatever brief is built for it, the
  -- review then ends the graph, so no later account of the batch is scored.
  pub disqualified_ends_batch :
      (s t : QualificationState fl) (account : Account) (score : AccountScore fl)
      (brief : SellerBrief fl)
      → s.current_account ≡ some account
      → s.account_score ≡ some score
      → score.is_disqualified ≡ true
      → brief_reviewer fl true (record (action_recommender fl s) { seller_brief = some brief })
        ≡ some t
      → (qualification_edge fl icp_scorer s ≡ recommender)
        × (qualification_edge fl reviewer t ≡ finish)
  unfolding qualification_edge after_icp_scorer brief_reviewer action_recommender recommend_action
  disqualified_ends_batch s t account score brief current scored out h =
      ground (arith, after-pending t, after-approved t)
