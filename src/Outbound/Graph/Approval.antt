-- ===== src/Outbound/Graph/Approval.antt =====
-- What a run has sent: only drafts that were approved.
use cmo_agent.Common.{
  String, ◌≡◌, Option, none, some, List, [], ◌∷◌, ◌++◌, Option-cases, inl, inr, arith, eq_iff,
}
use cmo_agent.State.{OutboundState, PersonalizedEmail}
use cmo_agent.Outbound.World.{Answers, Effect, posted, asked}
use cmo_agent.Outbound.Nodes.{
  account_selector, researcher, enrichment_retry, personaliser, approval_gate, sender,
  reply_monitor, router, notify_sales, unsubscribe_handler, memory_updater,
}
use cmo_agent.Outbound.Graph.{
  Node, account_selector_node, researcher_node, personaliser_node, approval_gate_node, sender_node,
  reply_monitor_node, router_node, memory_updater_node, notify_sales_node, enrichment_retry_node,
  unsubscribe_handler_node, end_node, run_node, edge, Reaches, begin, step, fail, after_researcher,
  after_approval_gate, after_router, after_memory_updater,
}

-- the draft last shown for approval, and what came back
abbrev pub last_asked : List Effect → Option (PersonalizedEmail × String)
last_asked [] = none
last_asked (asked channel draft status ∷ es) = some (draft, status)
last_asked (_ ∷ es) = last_asked es

-- every e-mail that was handed to the webhook is the draft last shown, and that was approved
abbrev pub OnlyApproved : List Effect → Type 0
OnlyApproved [] = Unit
OnlyApproved (posted contact stage draft ∷ es) =
    (last_asked es ≡ some (draft, "approved")) × OnlyApproved es
OnlyApproved (_ ∷ es) = OnlyApproved es

abbrev approved_draft : Option PersonalizedEmail → Option (PersonalizedEmail × String)
approved_draft none = none
approved_draft (some d) = some (d, "approved")

-- At the sender the draft of the state was the last one shown, and it was approved.
record Approved (n : Node) (s : OutboundState) (es : List Effect) : Type 0 where
  so_far : OnlyApproved es
  at_sender : n ≡ sender_node → last_asked es ≡ approved_draft s.draft_email

after-rejected :
    (t : OutboundState) → t.approval_status ≡ some "rejected" → after_approval_gate t ≡ end_node
unfolding after_approval_gate
after-rejected t e = rw e

gate-not-sender :
    (t : OutboundState)
    → t.approval_status ≡ some "rejected"
    → edge approval_gate_node t ≡ sender_node
    → ⊥
unfolding edge
gate-not-sender t e h = cc (after-rejected t e)

approved_status :
    (t : OutboundState) (status : String)
    → edge approval_gate_node t ≡ sender_node
    → t.approval_status ≡ some status
    → status ≡ "approved"
unfolding edge after_approval_gate
approved_status t status e h = ground (arith, eq_iff status "approved")

gate-Approved :
    (a : Answers) (s t : OutboundState) (es : List Effect)
    → Approved approval_gate_node s es
    → (run_node a approval_gate_node s).0 ≡ some t
    → Approved (edge approval_gate_node t) t ((run_node a approval_gate_node s).1 ++ es)
unfolding run_node approval_gate
gate-Approved a s t es v h = record {
  so_far = ground arith;
  at_sender = λ e. elim (Option-cases a.slack_status) [
    | inl raised ↦ ground (arith, gate-not-sender t)
    | inr (status, q) ↦ ground (arith, gate-not-sender t, approved_status t status e)
  ];
}

step-Approved :
    (a : Answers) (n : Node) (s t : OutboundState) (es : List Effect)
    → Approved n s es
    → (run_node a n s).0 ≡ some t
    → Approved (edge n t) t ((run_node a n s).1 ++ es)
step-Approved a account_selector_node s t es v h =
    unfold run_node edge account_selector in ground arith
step-Approved a researcher_node s t es v h =
    unfold run_node edge researcher after_researcher in ground arith
step-Approved a personaliser_node s t es v h = unfold run_node edge personaliser in ground arith
step-Approved a approval_gate_node s t es v h = gate-Approved a s t es v h
step-Approved a sender_node s t es v h = unfold run_node edge sender in ground arith
step-Approved a reply_monitor_node s t es v h = unfold run_node edge reply_monitor in ground arith
step-Approved a router_node s t es v h = unfold run_node edge router after_router in ground arith
step-Approved a memory_updater_node s t es v h =
    unfold run_node edge memory_updater after_memory_updater in ground arith
step-Approved a notify_sales_node s t es v h = unfold run_node edge notify_sales in ground arith
step-Approved a enrichment_retry_node s t es v h =
    unfold run_node edge enrichment_retry in ground arith
step-Approved a unsubscribe_handler_node s t es v h =
    unfold run_node edge unsubscribe_handler in ground arith
step-Approved a end_node s t es v h = unfold run_node edge in ground arith

fail-OnlyApproved :
    (a : Answers) (n : Node) (s : OutboundState) (es : List Effect)
    → Approved n s es
    → OnlyApproved ((run_node a n s).1 ++ es)
fail-OnlyApproved a sender_node s es v = unfold run_node sender in ground arith
fail-OnlyApproved a approval_gate_node s es v = unfold run_node approval_gate in ground arith
fail-OnlyApproved a notify_sales_node s es v = unfold run_node notify_sales in ground arith
fail-OnlyApproved a unsubscribe_handler_node s es v =
    unfold run_node unsubscribe_handler in ground arith
fail-OnlyApproved a account_selector_node s es v = unfold run_node account_selector in v.so_far
fail-OnlyApproved a researcher_node s es v = unfold run_node researcher in ground arith
fail-OnlyApproved a personaliser_node s es v = unfold run_node personaliser in ground arith
fail-OnlyApproved a reply_monitor_node s es v = unfold run_node reply_monitor in ground arith
fail-OnlyApproved a router_node s es v = unfold run_node router in ground arith
fail-OnlyApproved a memory_updater_node s es v = unfold run_node memory_updater in ground arith
fail-OnlyApproved a enrichment_retry_node s es v = unfold run_node enrichment_retry in ground arith
fail-OnlyApproved a end_node s es v = unfold run_node in v.so_far

module _ {Allowed : Answers → Type 0} {start : OutboundState} where
  Reaches-Approved :
      {n : Node} {s : OutboundState} {es : List Effect}
      → Reaches Allowed start n s es
      → Approved n s es
  Reaches-Approved begin = record { so_far = tt; at_sender = λ e. cc }
  Reaches-Approved (step {n} {s} {es} a t r ok h) = step-Approved a n s t es (Reaches-Approved r) h
  Reaches-Approved (fail {n} {s} {es} a r ok h) = record {
    so_far = fail-OnlyApproved a n s es (Reaches-Approved r);
    at_sender = λ e. cc;
  }

  -- Whatever the outside answers and however far the graph has run, every e-mail that it has handed to
  -- the webhook is the draft that it had last shown in Slack, and the answer to that was "approved".
  pub sent-OnlyApproved :
      {n : Node} {s : OutboundState} {es : List Effect}
      → Reaches Allowed start n s es
      → OnlyApproved es
  sent-OnlyApproved r = (Reaches-Approved r).so_far
