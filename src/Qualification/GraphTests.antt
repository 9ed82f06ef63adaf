-- ===== src/Qualification/GraphTests.antt =====
-- The qualification graph on a batch of two accounts.
use cmo_agent.Common.{arith, ◌≡◌, refl, String, true, none, some, [], ◌∷◌}
use cmo_agent.Float.{cents}
use cmo_agent.State.{no_metadata, Account}
use cmo_agent.Outbound.Nodes.{index_of}
use cmo_agent.Qualification.State.{AccountScore, SellerBrief, QualificationState}
use cmo_agent.Qualification.ActionRules.{action_recommender, recommend_action}
use cmo_agent.Qualification.Graph.{
  icp_scorer, recommender, reviewer, finish, qualification_edge, select_next_account,
  brief_reviewer,
}
use cmo_agent.Qualification.Graph.Review.{disqualified_ends_batch}
use cmo_agent.Qualification.Graph.Visits.{visits, every_account_once}
use cmo_agent.Qualification.Tests.{score, strong}

abbrev account : String → Account
account id = record {
  id = id;
  workspace_id = "w";
  company_name = id;
  domain = none;
  industry = none;
  employee_count = none;
  metadata = no_metadata;
}

abbrev batch : QualificationState cents
batch = record strong { accounts = account "acme" ∷ account "bolt" ∷ [] }

abbrev unfit : AccountScore cents
unfit = record score { is_disqualified = true }

abbrev turned_down : QualificationState cents
turned_down = record batch { current_account = some (account "acme"); account_score = some unfit }

abbrev brief : SellerBrief cents
brief = record { id = "b1"; account_id = "acme"; risks_and_unknowns = [] }

-- what the reviewer makes of the disqualified account
abbrev reviewed : QualificationState cents
reviewed = record (action_recommender cents turned_down) {
  seller_brief = some brief;
  approval_status = some "pending_review";
}

disqualified_ends_batch_example :
    (qualification_edge cents icp_scorer turned_down ≡ recommender)
    × (qualification_edge cents reviewer reviewed ≡ finish)
unfolding action_recommender recommend_action brief_reviewer
disqualified_ends_batch_example =
    disqualified_ends_batch cents turned_down reviewed (account "acme") unfit brief refl refl refl
      refl

every_account_once_example :
    let s = select_next_account cents batch in
    (s.current_account ≡ some (account "acme")) × (visits cents 20 s ≡ some (account "bolt") ∷ [])
unfolding index_of
every_account_once_example =
    every_account_once cents 20 batch (account "acme") (account "bolt" ∷ []) (omega arith) refl refl
      (refl, (refl, tt))
