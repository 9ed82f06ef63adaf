-- ===== src/Outbound/Graph/Termination.antt =====
-- Where research succeeds, every run ends, within a number of steps that is known in advance.
use cmo_agent.Common.{
  ℕ, zero, suc, ◌+◌, ◌-◌, ◌*◌, ◌<◌, ◌≤◌, ◌≡◌, ◌≢◌, refl, ap, sym, subst, inl, inr, none, some, List,
  [], ◌∷◌, length, get_elem?, eq_iff, Option-cases, arith,
}
use cmo_agent.Common.Text.{str_eq_refl}
use cmo_agent.State.{Account, EnrichmentResult, OutboundState}
use cmo_agent.Outbound.World.{Answers, found}
use cmo_agent.Outbound.Nodes.{
  or_default, stage_of, index_of, next_index, select, account_selector, researcher, personaliser,
  approval_gate, sender, reply_monitor, router, notify_sales, unsubscribe_handler, memory_updater,
}
use cmo_agent.Outbound.Graph.{
  Node, account_selector_node, researcher_node, personaliser_node, approval_gate_node, sender_node,
  reply_monitor_node, router_node, memory_updater_node, notify_sales_node, enrichment_retry_node,
  unsubscribe_handler_node, end_node, run_node, edge, step_once, advance_by, after_researcher,
  after_approval_gate, after_router, after_memory_updater,
}
use cmo_agent.Outbound.Graph.Stages.{next-lt}

-- no two accounts of the batch have one id
abbrev pub Distinct : List Account → Type 0
Distinct [] = Unit
Distinct (a ∷ accounts) = (index_of a.id accounts ≡ none) × Distinct accounts

pub index_of-get_elem? :
    (accounts : List Account) (i : ℕ) (a : Account)
    → Distinct accounts
    → get_elem? accounts i ≡ some a
    → index_of a.id accounts ≡ some i
unfolding index_of
index_of-get_elem? [] i a d h = cc
index_of-get_elem? (x ∷ accounts) zero a d h = ground (arith, str_eq_refl a.id)
index_of-get_elem? (x ∷ accounts) (suc i) a d h =
    ground (arith, eq_iff x.id a.id, index_of-get_elem? accounts i a d.1 h)

-- the accounts after the current one
abbrev rest : OutboundState → ℕ
rest s = length s.accounts - next_index s.current_account s.accounts

-- a bound on the steps for one account, where its sequence has `max` stages
abbrev pub per_account : ℕ → ℕ
per_account max = 5 * max + 9

abbrev measure : ℕ → Node → OutboundState → ℕ
measure max account_selector_node s = rest s * per_account max
measure max researcher_node s = rest s * per_account max + (5 * max + 8)
measure max personaliser_node s = rest s * per_account max + 5 * (max - stage_of s) + 7
measure max approval_gate_node s = rest s * per_account max + 5 * (max - stage_of s) + 6
measure max sender_node s = rest s * per_account max + 5 * (max - stage_of s) + 5
measure max reply_monitor_node s = rest s * per_account max + 5 * (max - stage_of s) + 4
measure max router_node s = rest s * per_account max + 5 * (max - stage_of s) + 3
measure max notify_sales_node s = rest s * per_account max + 2
measure max unsubscribe_handler_node s = rest s * per_account max + 2
measure max memory_updater_node s = rest s * per_account max + 1
measure max enrichment_retry_node s = 0
measure max end_node s = 0

abbrev AtNode : Node → OutboundState → Type 0
AtNode account_selector_node s = next_index s.current_account s.accounts < length s.accounts
AtNode researcher_node s = s.current_account ≢ none
AtNode enrichment_retry_node s = ⊥
AtNode _ s = Unit

record Steady (max : ℕ) (n : Node) (s : OutboundState) : Type 0 where
  distinct : Distinct s.accounts
  same : or_default 3 s.max_stages ≡ max
  here : AtNode n s

-- the research of these answers finds something
abbrev pub Finds : Answers → Type 0
Finds a = (e : EnrichmentResult) × (a.research ≡ found e)

get_elem?-some {ℓ} :
    {A : Type ℓ} (xs : List A) (i : ℕ) → i < length xs → (a : A) × (get_elem? xs i ≡ some a)
get_elem?-some [] i h = absurd (omega arith)
get_elem?-some (x ∷ xs) zero h = (x, refl)
get_elem?-some (x ∷ xs) (suc i) h = get_elem?-some xs i (omega arith)

per_account-suc :
    (x y max : ℕ) → x ≡ suc y → x * per_account max ≡ y * per_account max + per_account max
per_account-suc x y max e = rw e (omega arith)

next-selected :
    (account : Account) (s : OutboundState) (i : ℕ)
    → index_of account.id s.accounts ≡ some i
    → next_index (some account) s.accounts ≡ suc i
unfolding next_index
next-selected account s i e = rw e

no_room : (x max : ℕ) → 0 < x → x * per_account max ≤ 0 → ⊥
no_room zero max p h = omega arith
no_room (suc x) max p h = omega arith

Node-discrete : Discrete Node
Node-discrete = hlevel

minus_zero : (n : ℕ) → n - 0 ≡ n
minus_zero n = omega arith

first-index :
    (s : OutboundState) → s.current_account ≡ none → next_index s.current_account s.accounts ≡ 0
unfolding next_index
first-index s e = rw e

length-pos {ℓ} : {A : Type ℓ} (xs : List A) → xs ≢ [] → 0 < length xs
length-pos [] h = absurd (h refl)
length-pos (x ∷ xs) h = omega arith

first-lt :
    (s : OutboundState)
    → s.accounts ≢ []
    → s.current_account ≡ none
    → next_index s.current_account s.accounts < length s.accounts
first-lt s h e = rw (first-index s e) (length-pos s.accounts h)

module _ (max : ℕ) where
  updated :
      (t : OutboundState) (n : Node)
      → after_memory_updater t ≡ n
      → AtNode n t × (measure max n t ≤ rest t * per_account max)
  updated t account_selector_node e = (next-lt t e, omega arith)
  updated t end_node e = (tt, omega arith)
  updated t n e = absurd (unfold after_memory_updater in ground arith)

  step-Steady :
      (a : Answers) (n : Node) (s t : OutboundState)
      → Finds a
      → n ≢ end_node
      → Steady max n s
      → (run_node a n s).0 ≡ some t
      → Steady max (edge n t) t × (measure max (edge n t) t < measure max n s)
  step-Steady a account_selector_node s t f go v h =
      unfold run_node edge account_selector in
      (let (account, e) =
          get_elem?-some s.accounts (next_index s.current_account s.accounts) v.here in
        let i : ℕ = next_index s.current_account s.accounts in
        ground (
          arith,
          e,
          next-selected account s i (index_of-get_elem? s.accounts i account v.distinct e),
          per_account-suc (rest s) (rest (select s (some account))) max,
        ))
  step-Steady a researcher_node s t f go v h =
      unfold run_node edge researcher after_researcher in ground arith
  step-Steady a personaliser_node s t f go v h = unfold run_node edge personaliser in ground arith
  step-Steady a approval_gate_node s t f go v h =
      unfold run_node edge approval_gate after_approval_gate in ground arith
  step-Steady a sender_node s t f go v h = unfold run_node edge sender in ground arith
  step-Steady a reply_monitor_node s t f go v h = unfold run_node edge reply_monitor in ground arith
  step-Steady a router_node s t f go v h = unfold run_node edge router after_router in ground arith
  step-Steady a memory_updater_node s t f go v h =
      let u = updated t _ refl in unfold run_node edge memory_updater in ground (arith, u.0, u.1)
  step-Steady a notify_sales_node s t f go v h = unfold run_node edge notify_sales in ground arith
  step-Steady a enrichment_retry_node s t f go v h = absurd v.here
  step-Steady a unsubscribe_handler_node s t f go v h =
      unfold run_node edge unsubscribe_handler in ground arith
  step-Steady a end_node s t f go v h = absurd (go refl)

  measure-zero :
      (n : Node) (s : OutboundState) → Steady max n s → measure max n s ≤ 0 → n ≡ end_node
  measure-zero account_selector_node s v h =
      absurd (no_room (rest s) (max) (omega (arith, v.here)) h)
  measure-zero enrichment_retry_node s v h = absurd v.here
  measure-zero end_node s v h = refl
  measure-zero n s v h = absurd (omega arith)

  step_once-none :
      (a : Answers) (n : Node) (s : OutboundState)
      → (run_node a n s).0 ≡ none
      → step_once a (n, s) ≡ (end_node, s)
  unfolding step_once
  step_once-none a n s e = rw (e, step_once)

  step_once-some :
      (a : Answers) (n : Node) (s t : OutboundState)
      → (run_node a n s).0 ≡ some t
      → step_once a (n, s) ≡ (edge n t, t)
  unfolding step_once
  step_once-some a n s t e = rw (e, step_once)

  stays :
      (k : ℕ) (answers : ℕ → Answers) (s : OutboundState)
      → (advance_by k answers (end_node, s)).0 ≡ end_node
  unfolding advance_by step_once run_node edge
  stays zero answers s = refl
  stays (suc k) answers s = stays k (λ i. answers (suc i)) s

  advance_by-suc :
      (k : ℕ) (answers : ℕ → Answers) (c d : Node × OutboundState)
      → step_once (answers 0) c ≡ d
      → (advance_by k (λ i. answers (suc i)) d).0 ≡ end_node
      → (advance_by (suc k) answers c).0 ≡ end_node
  unfolding advance_by
  advance_by-suc k answers c d e h =
      subst (λ x. (advance_by k (λ i. answers (suc i)) x).0 ≡ end_node) (sym e) h

  ends_within :
      (k : ℕ) (answers : ℕ → Answers) (n : Node) (s : OutboundState)
      → ((i : ℕ) → Finds (answers i))
      → Steady max n s
      → measure max n s ≤ k
      → (advance_by k answers (n, s)).0 ≡ end_node
  unfolding advance_by
  ends_within zero answers n s f v h = measure-zero n s v h
  ends_within (suc k) answers n s f v h = elim (Node-discrete n end_node) [
    | yes e ↦ rw e (stays (suc k) answers s)
    | no go ↦ elim (Option-cases (run_node (answers 0) n s).0) [
      | inl raised ↦
          advance_by-suc k answers (n, s) (end_node, s) (step_once-none (answers 0) n s raised)
            (stays k (λ i. answers (suc i)) s)
      | inr (t, e) ↦
          let u = step-Steady (answers 0) n s t (f 0) go v e in
          advance_by-suc k answers (n, s) (edge n t, t) (step_once-some (answers 0) n s t e)
            (ends_within k (λ i. answers (suc i)) (edge n t) t (λ i. f (suc i)) u.0
              (omega (arith, u.1, h)))
    ]
  ]

-- A run over a batch of accounts with distinct ids, of which research finds something about each, is
-- over after `5 * max_stages + 9` steps for each account at most, whatever else the outside answers.
pub run_ends :
    (answers : ℕ → Answers) (s : OutboundState)
    → ((i : ℕ) → Finds (answers i))
    → Distinct s.accounts
    → s.accounts ≢ []
    → s.current_account ≡ none
    → (advance_by
        (length s.accounts * per_account (or_default 3 s.max_stages))
        answers
        (account_selector_node, s)).0
      ≡ end_node
run_ends answers s f d some_account fresh =
    ends_within (or_default 3 s.max_stages)
      (length s.accounts * per_account (or_default 3 s.max_stages)) answers account_selector_node s
      f (record { distinct = d; same = refl; here = first-lt s some_account fresh })
      (rw (first-index s fresh) (
        omega (
          arith,
          ap (λ (x : ℕ). x * per_account (or_default 3 s.max_stages))
              (minus_zero (length s.accounts)),
        )))
