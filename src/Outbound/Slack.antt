-- ===== src/Outbound/Slack.antt =====
-- src/tools/slack_approval.py, SlackApprovalTool.run: the status that the approval gate gets from it. The
-- texts and the time stamp of the message are left out.
use cmo_agent.Common.{
  ℕ, String, ◌≡◌, ◌≢◌, Bool, true, false, ◌&&◌, Option, none, some, List, [], ◌∷◌, ◌++◌, leb, ltb,
  if◌then◌else◌, arith, sym, ◌∙◌,
}
use cmo_agent.State.{OutboundState, PersonalizedEmail}
use cmo_agent.Ratelimit.{Verdict, passed, limited}
use cmo_agent.Outbound.World.{
  Answers, Effect, posted, asked, notified_sales, logged_activity, marked_unsubscribed,
}
use cmo_agent.Outbound.Nodes.{
  account_selector, researcher, enrichment_retry, personaliser, approval_gate, sender,
  reply_monitor, router, notify_sales, unsubscribe_handler, memory_updater,
}
use cmo_agent.Outbound.Graph.{
  Node, account_selector_node, researcher_node, personaliser_node, approval_gate_node, sender_node,
  reply_monitor_node, router_node, memory_updater_node, notify_sales_node, enrichment_retry_node,
  unsubscribe_handler_node, end_node, run_node, Reaches, begin, step, fail,
}
use cmo_agent.Outbound.Graph.Approval.{last_asked, OnlyApproved, sent-OnlyApproved}

-- the reply of chat.postMessage: its HTTP status, and the field `ok` of its body
pub record SlackResponse : Type 0 where
  pub status_code : ℕ
  pub ok : Bool

-- what `run` returns by the success of the request and the field `ok`
abbrev pub slack_status_for : Bool → Bool → Option String
slack_status_for success ok =
    if success then (if ok then some "pending" else some "error") else none

-- `raise_for_status` raises unless the status is one of success
abbrev pub slack_status_of : SlackResponse → Option String
slack_status_of r = slack_status_for (leb 200 r.status_code && ltb r.status_code 300) r.ok

-- `none` is an exception: of the rate limiter, of the connection, or for the status
unfoldable pub slack_run : Verdict → Option SlackResponse → Option String
slack_run (limited retry_after) response = none
slack_run passed none = none
slack_run passed (some r) = slack_status_of r

-- the answers that the gate gets with this tool
abbrev pub FromSlack : Answers → Type 0
FromSlack a = (v : Verdict) × (r : Option SlackResponse) × (a.slack_status ≡ slack_run v r)

no_approval : (b c : Bool) → slack_status_for b c ≢ some "approved"
no_approval false c h = cc h
no_approval true false h = cc h
no_approval true true h = cc h

slack_run-unapproved : (v : Verdict) (r : Option SlackResponse) → slack_run v r ≢ some "approved"
unfolding slack_run
slack_run-unapproved (limited n) r h = cc h
slack_run-unapproved passed none h = cc h
slack_run-unapproved passed (some r) h =
    no_approval (leb 200 r.status_code && ltb r.status_code 300) r.ok h

abbrev NoApproval : List Effect → Type 0
NoApproval [] = Unit
NoApproval (asked channel draft status ∷ es) = (status ≢ "approved") × NoApproval es
NoApproval (_ ∷ es) = NoApproval es

-- no e-mail was handed to the webhook
abbrev pub NothingPosted : List Effect → Type 0
NothingPosted [] = Unit
NothingPosted (posted contact stage draft ∷ es) = ⊥
NothingPosted (_ ∷ es) = NothingPosted es

node-NoApproval :
    (a : Answers) (n : Node) (s : OutboundState) (es : List Effect)
    → a.slack_status ≢ some "approved"
    → NoApproval es
    → NoApproval ((run_node a n s).1 ++ es)
node-NoApproval a sender_node s es u v = unfold run_node sender in ground arith
node-NoApproval a approval_gate_node s es u v = unfold run_node approval_gate in ground arith
node-NoApproval a notify_sales_node s es u v = unfold run_node notify_sales in ground arith
node-NoApproval a unsubscribe_handler_node s es u v =
    unfold run_node unsubscribe_handler in ground arith
node-NoApproval a account_selector_node s es u v = unfold run_node account_selector in v
node-NoApproval a researcher_node s es u v = unfold run_node researcher in ground arith
node-NoApproval a personaliser_node s es u v = unfold run_node personaliser in ground arith
node-NoApproval a reply_monitor_node s es u v = unfold run_node reply_monitor in ground arith
node-NoApproval a router_node s es u v = unfold run_node router in ground arith
node-NoApproval a memory_updater_node s es u v = unfold run_node memory_updater in ground arith
node-NoApproval a enrichment_retry_node s es u v = unfold run_node enrichment_retry in ground arith
node-NoApproval a end_node s es u v = unfold run_node in v

unapproved : (a : Answers) → FromSlack a → a.slack_status ≢ some "approved"
unapproved a (v, r, e) h = slack_run-unapproved v r (sym e ∙ h)

last-unapproved :
    (es : List Effect) (draft : PersonalizedEmail)
    → NoApproval es
    → last_asked es ≢ some (draft, "approved")
last-unapproved [] draft v h = cc h
last-unapproved (asked channel d status ∷ es) draft v h = ground arith
last-unapproved (posted c n d ∷ es) draft v h = last-unapproved es draft v h
last-unapproved (notified_sales c ∷ es) draft v h = last-unapproved es draft v h
last-unapproved (logged_activity c ∷ es) draft v h = last-unapproved es draft v h
last-unapproved (marked_unsubscribed ids ∷ es) draft v h = last-unapproved es draft v h

none-posted : (es : List Effect) → NoApproval es → OnlyApproved es → NothingPosted es
none-posted [] v o = tt
none-posted (asked channel d status ∷ es) v o = none-posted es v.1 o
none-posted (posted c n d ∷ es) v o = last-unapproved es d v o.0
none-posted (notified_sales c ∷ es) v o = none-posted es v o
none-posted (logged_activity c ∷ es) v o = none-posted es v o
none-posted (marked_unsubscribed ids ∷ es) v o = none-posted es v o

module _ {start : OutboundState} where
  Reaches-NoApproval :
      {n : Node} {s : OutboundState} {es : List Effect}
      → Reaches FromSlack start n s es
      → NoApproval es
  Reaches-NoApproval begin = tt
  Reaches-NoApproval (step {n} {s} {es} a t r ok h) =
      node-NoApproval a n s es (unapproved a ok) (Reaches-NoApproval r)
  Reaches-NoApproval (fail {n} {s} {es} a r ok h) =
      node-NoApproval a n s es (unapproved a ok) (Reaches-NoApproval r)

  -- With the tool that the repository has for the approval in Slack, no run of the outbound graph hands
  -- an e-mail to the webhook: the tool answers "pending" or "error", and the gate ends the run on both.
  pub nothing_sent :
      {n : Node} {s : OutboundState} {es : List Effect}
      → Reaches FromSlack start n s es
      → NothingPosted es
  nothing_sent {n} {s} {es} r = none-posted es (Reaches-NoApproval r) (sent-OnlyApproved r)
