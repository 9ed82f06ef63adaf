-- ===== src/Outbound/Graph/Stages.antt =====
-- At which stages of its sequence a run sends.
use cmo_agent.Common.{
  ℕ, zero, suc, ◌<◌, ◌≡◌, ◌≢◌, refl, ◌⊎◌, inl, inr, none, some, List, [], ◌∷◌, ◌++◌, length,
  get_elem?, Option-cases, arith,
}
use cmo_agent.State.{OutboundState}
use cmo_agent.Outbound.World.{Answers, Effect, posted}
use cmo_agent.Outbound.Nodes.{
  or_default, stage_of, next_index, account_selector, researcher, enrichment_retry, personaliser,
  approval_gate, sender, reply_monitor, router, notify_sales, unsubscribe_handler, memory_updater,
}
use cmo_agent.Outbound.Graph.{
  Node, account_selector_node, researcher_node, personaliser_node, approval_gate_node, sender_node,
  reply_monitor_node, router_node, memory_updater_node, notify_sales_node, enrichment_retry_node,
  unsubscribe_handler_node, end_node, run_node, edge, Reaches, begin, step, fail, after_researcher,
  after_approval_gate, after_router, after_memory_updater,
}

module _ {ℓ} {A : Type ℓ} where
  get_elem?-lt : (xs : List A) (i : ℕ) → i < length xs → get_elem? xs i ≢ none
  get_elem?-lt [] i h e = absurd (omega arith)
  get_elem?-lt (x ∷ xs) zero h e = cc
  get_elem?-lt (x ∷ xs) (suc i) h e = get_elem?-lt xs i (omega arith) e

-- Where memory_updater goes back to account_selector, a next account is in the list.
pub next-lt :
    (s : OutboundState)
    → after_memory_updater s ≡ account_selector_node
    → next_index s.current_account s.accounts < length s.accounts
unfolding after_memory_updater next_index
next-lt s h = elim (Option-cases s.current_account) [
  | inl no_account ↦ ground arith
  | inr (current, e) ↦ rw e (ground arith)
]

next-selects :
    (s : OutboundState)
    → after_memory_updater s ≡ account_selector_node
    → get_elem? s.accounts (next_index s.current_account s.accounts) ≢ none
next-selects s h = get_elem?-lt s.accounts (next_index s.current_account s.accounts) (next-lt s h)

-- the first stage, or one below the number of stages
abbrev pub InSequence : ℕ → ℕ → Type 0
InSequence max stage = (stage ≡ 1) ⊎ (stage < max)

-- every e-mail that was handed to the webhook is for such a stage
abbrev pub SentInSequence : ℕ → List Effect → Type 0
SentInSequence max [] = Unit
SentInSequence max (posted contact stage draft ∷ es) = InSequence max stage × SentInSequence max es
SentInSequence max (_ ∷ es) = SentInSequence max es

abbrev StageOk : ℕ → OutboundState → Type 0
StageOk max s = (s.current_account ≡ none) ⊎ InSequence max (stage_of s)

abbrev AtNode : ℕ → Node → OutboundState → Type 0
AtNode max account_selector_node s =
    (s.current_account ≡ none)
    ⊎ (get_elem? s.accounts (next_index s.current_account s.accounts) ≢ none)
AtNode max researcher_node s = StageOk max s
AtNode max enrichment_retry_node s = StageOk max s
AtNode max personaliser_node s = StageOk max s
AtNode max approval_gate_node s = StageOk max s
AtNode max sender_node s = StageOk max s
AtNode max reply_monitor_node s = StageOk max s
AtNode max router_node s = StageOk max s
AtNode max _ s = Unit

record Staged (max : ℕ) (n : Node) (s : OutboundState) (es : List Effect) : Type 0 where
  so_far : SentInSequence max es
  same : or_default 3 s.max_stages ≡ max
  here : AtNode max n s

module _ (max : ℕ) where
  selected :
      (a : Answers) (s t : OutboundState)
      → AtNode max account_selector_node s
      → (run_node a account_selector_node s).0 ≡ some t
      → StageOk max t
  unfolding run_node account_selector
  selected a s t here h =
      elim (Option-cases (get_elem? s.accounts (next_index s.current_account s.accounts))) [
        | inl nothing ↦ ground arith
        | inr (account, e) ↦ ground arith
      ]

  updated : (t : OutboundState) (n : Node) → after_memory_updater t ≡ n → AtNode max n t
  updated t account_selector_node e = inr (next-selects t e)
  updated t end_node e = tt
  updated t memory_updater_node e = tt
  updated t notify_sales_node e = tt
  updated t unsubscribe_handler_node e = tt
  updated t n e = absurd (unfold after_memory_updater in ground arith)

  step-Staged :
      (a : Answers) (n : Node) (s t : OutboundState) (es : List Effect)
      → Staged max n s es
      → (run_node a n s).0 ≡ some t
      → Staged max (edge n t) t ((run_node a n s).1 ++ es)
  step-Staged a account_selector_node s t es v h =
      unfold run_node edge account_selector in
      record { so_far = v.so_far; same = ground arith; here = selected a s t v.here h }
  step-Staged a researcher_node s t es v h =
      unfold run_node edge researcher after_researcher in ground arith
  step-Staged a personaliser_node s t es v h = unfold run_node edge personaliser in ground arith
  step-Staged a approval_gate_node s t es v h =
      unfold run_node edge approval_gate after_approval_gate in ground arith
  step-Staged a sender_node s t es v h = unfold run_node edge sender in ground arith
  step-Staged a reply_monitor_node s t es v h = unfold run_node edge reply_monitor in ground arith
  step-Staged a router_node s t es v h = unfold run_node edge router after_router in ground arith
  step-Staged a memory_updater_node s t es v h =
      unfold run_node edge memory_updater in
      record { so_far = ground arith; same = ground arith; here = updated t _ refl }
  step-Staged a notify_sales_node s t es v h = unfold run_node edge notify_sales in ground arith
  step-Staged a enrichment_retry_node s t es v h =
      unfold run_node edge enrichment_retry in ground arith
  step-Staged a unsubscribe_handler_node s t es v h =
      unfold run_node edge unsubscribe_handler in ground arith
  step-Staged a end_node s t es v h = unfold run_node edge in ground arith

  fail-SentInSequence :
      (a : Answers) (n : Node) (s : OutboundState) (es : List Effect)
      → Staged max n s es
      → SentInSequence max ((run_node a n s).1 ++ es)
  fail-SentInSequence a sender_node s es v = unfold run_node sender in ground arith
  fail-SentInSequence a approval_gate_node s es v = unfold run_node approval_gate in ground arith
  fail-SentInSequence a notify_sales_node s es v = unfold run_node notify_sales in ground arith
  fail-SentInSequence a unsubscribe_handler_node s es v =
      unfold run_node unsubscribe_handler in ground arith
  fail-SentInSequence a account_selector_node s es v = unfold run_node account_selector in v.so_far
  fail-SentInSequence a researcher_node s es v = unfold run_node researcher in ground arith
  fail-SentInSequence a personaliser_node s es v = unfold run_node personaliser in ground arith
  fail-SentInSequence a reply_monitor_node s es v = unfold run_node reply_monitor in ground arith
  fail-SentInSequence a router_node s es v = unfold run_node router in ground arith
  fail-SentInSequence a memory_updater_node s es v = unfold run_node memory_updater in ground arith
  fail-SentInSequence a enrichment_retry_node s es v =
      unfold run_node enrichment_retry in ground arith
  fail-SentInSequence a end_node s es v = unfold run_node in v.so_far

module _ {Allowed : Answers → Type 0} {start : OutboundState}
    (fresh : start.current_account ≡ none) where
  Reaches-Staged :
      {n : Node} {s : OutboundState} {es : List Effect}
      → Reaches Allowed start n s es
      → Staged (or_default 3 start.max_stages) n s es
  Reaches-Staged begin = record { so_far = tt; same = refl; here = inl fresh }
  Reaches-Staged (step {n} {s} {es} a t r ok h) =
      step-Staged (or_default 3 start.max_stages) a n s t es (Reaches-Staged r) h
  Reaches-Staged (fail {n} {s} {es} a r ok h) =
      let v = Reaches-Staged r in
      record {
        so_far = fail-SentInSequence (or_default 3 start.max_stages) a n s es v;
        same = v.same;
        here = tt;
      }

  -- From a start with no current account, every e-mail that is handed to the webhook is for stage 1 or
  -- for a stage below `max_stages`. So of a sequence of two stages or more the last is never sent: the
  -- router has counted up before its edge compares the stage with `max_stages`.
  pub sent_in_sequence :
      {n : Node} {s : OutboundState} {es : List Effect}
      → Reaches Allowed start n s es
      → SentInSequence (or_default 3 start.max_stages) es
  sent_in_sequence r = (Reaches-Staged r).so_far
