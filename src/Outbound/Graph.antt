-- ===== src/Outbound/Graph.antt =====
-- src/agent/graph.py: the edges of the outbound pipeline, its steps and its runs. The children have the
-- proofs: `Approval` on what a run has sent, `Stages` on its stages, `Livelock` and `Termination` on
-- when a run ends.
pub mod Approval
pub mod Stages
pub mod Livelock
pub mod Termination
use cmo_agent.Common.{
  ℕ, zero, suc, String, ◌≡◌, Bool, true, false, not, ◌&&◌, Option, none, some, List, [], ◌∷◌, ◌++◌,
  length, str_eq, ltb, if◌then◌else◌,
}
use cmo_agent.State.{
  Account, Intent, positive, negative, neutral, unsubscribe, ReplyAnalysis, OutboundState,
}
use cmo_agent.Outbound.World.{Answers, Effect}
use cmo_agent.Outbound.Nodes.{
  Outcome, or_default, stage_of, index_of, account_selector, researcher, enrichment_retry,
  personaliser, approval_gate, sender, reply_monitor, router, notify_sales, unsubscribe_handler,
  memory_updater,
}

pub data Node : Type 0 where
  account_selector_node researcher_node personaliser_node approval_gate_node sender_node : Node
  reply_monitor_node router_node memory_updater_node notify_sales_node : Node
  enrichment_retry_node unsubscribe_handler_node end_node : Node

abbrev pub is_none {ℓ} : {A : Type ℓ} → Option A → Bool
is_none none = true
is_none (some a) = false

-- `state.get("error")` is true for a text that is not empty
abbrev pub has_error : Option String → Bool
has_error none = false
has_error (some e) = not (str_eq e "")

unfoldable pub after_researcher : OutboundState → Node
after_researcher s =
    if has_error s.error && is_none s.enrichment then enrichment_retry_node else personaliser_node

abbrev pub is_status : String → Option String → Bool
is_status t none = false
is_status t (some u) = str_eq u t

unfoldable pub after_approval_gate : OutboundState → Node
after_approval_gate s = if is_status "approved" s.approval_status then sender_node else end_node

abbrev pub next_stage : OutboundState → Node
next_stage s =
    if ltb (stage_of s) (or_default 3 s.max_stages) && or_default false s.should_continue
    then personaliser_node
    else memory_updater_node

abbrev pub after_intent : OutboundState → Intent → Node
after_intent s positive = notify_sales_node
after_intent s unsubscribe = unsubscribe_handler_node
after_intent s negative = next_stage s
after_intent s neutral = next_stage s

unfoldable pub after_router : OutboundState → Node
after_router s = elim s.reply_analysis [
  | none ↦ next_stage s
  | some reply ↦ after_intent s reply.intent
]

-- `current_idx < len(accounts) - 1`, with the index -1 for an account that is not in the list
abbrev pub has_next : Option ℕ → ℕ → Bool
has_next none n = ltb 0 n
has_next (some i) n = ltb (suc i) n

unfoldable pub after_memory_updater : OutboundState → Node
unfolding index_of
after_memory_updater s = elim s.current_account [
  | none ↦ end_node
  | some current ↦
      if has_next (index_of current.id s.accounts) (length s.accounts)
      then account_selector_node
      else end_node
]

-- what a node does
unfoldable pub run_node : Answers → Node → OutboundState → Outcome
run_node a account_selector_node s = account_selector s
run_node a researcher_node s = researcher a s
run_node a personaliser_node s = personaliser a s
run_node a approval_gate_node s = approval_gate a s
run_node a sender_node s = sender a s
run_node a reply_monitor_node s = reply_monitor a s
run_node a router_node s = router s
run_node a memory_updater_node s = memory_updater s
run_node a notify_sales_node s = notify_sales s
run_node a enrichment_retry_node s = enrichment_retry s
run_node a unsubscribe_handler_node s = unsubscribe_handler a s
run_node a end_node s = (some s, [])

-- the edge that is taken after a node
unfoldable pub edge : Node → OutboundState → Node
edge account_selector_node s = researcher_node
edge researcher_node s = after_researcher s
edge personaliser_node s = approval_gate_node
edge approval_gate_node s = after_approval_gate s
edge sender_node s = reply_monitor_node
edge reply_monitor_node s = router_node
edge router_node s = after_router s
edge memory_updater_node s = after_memory_updater s
edge enrichment_retry_node s = researcher_node
edge notify_sales_node s = memory_updater_node
edge unsubscribe_handler_node s = memory_updater_node
edge end_node s = end_node

-- The graph from its start: the node that is due, the state, and the effects so far, the last one
-- first. Each step has its own answers, any that `Allowed` admits; where a node raises the run is over,
-- but its effects have happened.
pub data Reaches (Allowed : Answers → Type 0) (start : OutboundState)
    : Node → OutboundState → List Effect → Type 0 where
  begin : Reaches Allowed start account_selector_node start []
  step :
      {n : Node} {s : OutboundState} {es : List Effect} (a : Answers) (t : OutboundState)
      → Reaches Allowed start n s es
      → Allowed a
      → (run_node a n s).0 ≡ some t
      → Reaches Allowed start (edge n t) t ((run_node a n s).1 ++ es)
  fail :
      {n : Node} {s : OutboundState} {es : List Effect} (a : Answers)
      → Reaches Allowed start n s es
      → Allowed a
      → (run_node a n s).0 ≡ none
      → Reaches Allowed start end_node s ((run_node a n s).1 ++ es)

-- The same as a function: one step, and `n` steps with the answers of each.
unfoldable pub step_once : Answers → Node × OutboundState → Node × OutboundState
step_once a (node, s) = elim (run_node a node s).0 [
  | none ↦ (end_node, s)
  | some t ↦ (edge node t, t)
]

unfoldable pub advance_by : ℕ → (ℕ → Answers) → Node × OutboundState → Node × OutboundState
advance_by zero answers c = c
advance_by (suc n) answers c = advance_by n (λ i. answers (suc i)) (step_once (answers 0) c)
