-- ===== src/Outbound/Nodes/Outcomes.antt =====
-- What a node of src/agent/nodes returns, and the defaults of a missing key.
use cmo_agent.Common.{ℕ, Option, none, some, List, [], if◌then◌else◌}
use cmo_agent.State.{OutboundState}
use cmo_agent.Outbound.World.{Effect}

abbrev pub Outcome : Type 0
Outcome = Option OutboundState × List Effect

-- a plain update, with no effect
abbrev pub done : OutboundState → Outcome
done s = (some s, [])

-- what a node does that reads `state["current_account"]` first, which raises if the key is missing
abbrev pub with_account : OutboundState → Outcome → Outcome
with_account s o = if s.has_current_account then o else (none, [])

abbrev pub or_default {ℓ} : {A : Type ℓ} → A → Option A → A
or_default d none = d
or_default d (some a) = a

abbrev pub stage_of : OutboundState → ℕ
stage_of s = or_default 1 s.current_stage
