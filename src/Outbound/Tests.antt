-- ===== src/Outbound/Tests.antt =====
-- A run of the outbound graph over one account, step by step.
use cmo_agent.Common.{ℕ, zero, suc, ◌*◌, ◌≡◌, refl, true, none, some, [], ◌∷◌}
use cmo_agent.State.{
  no_metadata, Account, Contact, EnrichmentResult, PersonalizedEmail, OutboundState,
}
use cmo_agent.Outbound.World.{found, failed, intent, Answers, posted, asked}
use cmo_agent.Outbound.Nodes.{
  account_selector, researcher, personaliser, approval_gate, sender, next_index, index_of,
  contact_of, template_for,
}
use cmo_agent.Outbound.Graph.{
  Node, account_selector_node, reply_monitor_node, end_node, run_node, edge, Reaches, begin, step,
  after_researcher, after_approval_gate, step_once, advance_by,
}
use cmo_agent.Outbound.Graph.Approval.{OnlyApproved, sent-OnlyApproved}
use cmo_agent.Outbound.Graph.Stages.{SentInSequence, sent_in_sequence}
use cmo_agent.Ratelimit.{passed}
use cmo_agent.Outbound.Slack.{slack_run, FromSlack, NothingPosted, nothing_sent}
use cmo_agent.Outbound.Graph.Termination.{per_account, run_ends}

abbrev acme : Account
acme = record {
  id = "acme";
  workspace_id = "w";
  company_name = "Acme";
  domain = some "acme.com";
  industry = none;
  employee_count = none;
  metadata = no_metadata;
}

abbrev ann : Contact
ann = record {
  id = "ann";
  workspace_id = "w";
  account_id = "acme";
  email = "ann@acme.com";
  role = none;
}

abbrev start : OutboundState
start = record {
  thread_id = "t";
  workspace_id = "w";
  campaign = none;
  accounts = acme ∷ [];
  current_account = none;
  has_current_account = true;
  contacts = ann ∷ [];
  current_contact = none;
  enrichment = none;
  draft_email = none;
  approval_status = none;
  sent_messages = [];
  reply_analysis = none;
  current_stage = none;
  max_stages = some 2;
  error = none;
  should_continue = none;
}

abbrev hello : PersonalizedEmail
hello = record { subject_line = "Hello"; body = "..." }

abbrev summary : EnrichmentResult
summary = record { company_summary = "Anvils"; pain_points = []; personalization_hooks = [] }

-- everything works, the draft is approved, and the reply says neither yes nor no
abbrev smooth : Answers
smooth = record {
  research = found summary;
  write = λ template. some hello;
  slack_status = some "approved";
  post_status = some 200;
  saved_id = some "m1";
  check_status = some 200;
  reply_text = "Maybe.";
  classification = some (intent (some "neutral"));
  update_ok = true;
}

abbrev broken : Answers
broken = record smooth { research = failed "timeout" }

abbrev Any : Answers → Type 0
Any a = Unit

-- the state that `n` steps with these answers lead to
abbrev after : ℕ → OutboundState
after zero = start
after (suc n) =
    let c : Node × OutboundState =
      advance_by (suc n) (λ i. smooth) (account_selector_node, start) in
    c.1

five_steps :
    Reaches Any start reply_monitor_node
      (after 5)
      (posted "ann" 1 hello ∷ asked "approvals" hello "approved" ∷ [])
unfolding advance_by step_once run_node edge account_selector researcher personaliser approval_gate
    sender next_index index_of contact_of template_for after_researcher after_approval_gate
five_steps =
    step smooth (after 5)
      (step smooth (after 4)
        (step smooth (after 3) (step smooth (after 2) (step smooth (after 1) begin tt refl) tt refl)
          tt refl)
        tt refl)
      tt refl

sent-OnlyApproved_example :
    OnlyApproved (posted "ann" 1 hello ∷ asked "approvals" hello "approved" ∷ [])
sent-OnlyApproved_example = sent-OnlyApproved five_steps

sent_in_sequence_example :
    SentInSequence 2 (posted "ann" 1 hello ∷ asked "approvals" hello "approved" ∷ [])
sent_in_sequence_example = sent_in_sequence refl five_steps

-- the account is selected
abbrev selected : OutboundState
selected = record start { current_account = some acme; current_stage = some 1 }

run_ends_example :
    (advance_by (1 * per_account 2) (λ i. smooth) (account_selector_node, start)).0 ≡ end_node
unfolding index_of
run_ends_example = run_ends (λ i. smooth) start (λ i. (summary, refl)) (refl, tt) (λ e. cc e) refl

-- as above, but with the tool's own answer to the request for approval
abbrev pending : Answers
pending = record smooth { slack_status = some "pending" }

abbrev pending_after : ℕ → OutboundState
pending_after n =
    let c : Node × OutboundState = advance_by n (λ i. pending) (account_selector_node, start) in c.1

from_slack : FromSlack pending
unfolding slack_run
from_slack = (passed, some (record { status_code = 200; ok = true }), refl)

four_steps :
    Reaches FromSlack start end_node (pending_after 4) (asked "approvals" hello "pending" ∷ [])
unfolding advance_by step_once run_node edge account_selector researcher personaliser approval_gate
    next_index index_of contact_of template_for after_researcher after_approval_gate
four_steps =
    step pending (pending_after 4)
      (step pending (pending_after 3)
        (step pending (pending_after 2) (step pending (pending_after 1) begin from_slack refl)
          from_slack refl)
        from_slack refl)
      from_slack refl

nothing_sent_example : NothingPosted (asked "approvals" hello "pending" ∷ [])
nothing_sent_example = nothing_sent four_steps
