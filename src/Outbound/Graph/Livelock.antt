-- ===== src/Outbound/Graph/Livelock.antt =====
-- Runs of enrichment that fails, which do not end.
use cmo_agent.Common.{ℕ, zero, suc, String, Bool, false, ◌≡◌, ◌≢◌, none, some}
use cmo_agent.State.{OutboundState}
use cmo_agent.Outbound.World.{Answers, failed}
use cmo_agent.Outbound.Graph.{Node, researcher_node, enrichment_retry_node}

-- the research of these answers fails, with a message that is not empty
abbrev pub Fails : Answers → Type 0
Fails a = (m : String) × (a.research ≡ failed m) × (m ≢ "")

-- whether an account is selected: the key is there and is not None
abbrev pub is_selected : OutboundState → Bool
is_selected s = elim s.current_account [ none ↦ false | some account ↦ s.has_current_account ]

-- even numbers: researcher; odd ones: enrichment_retry
abbrev pub node_at : ℕ → Node
node_at zero = researcher_node
node_at (suc zero) = enrichment_retry_node
node_at (suc (suc n)) = node_at n
