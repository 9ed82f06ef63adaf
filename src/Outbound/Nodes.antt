-- ===== src/Outbound/Nodes.antt =====
-- src/agent/nodes/: the nodes of the outbound pipeline. A node takes the answers of the outside and
-- the state, and returns the state after its update (`none` if it raises) and its effects, the last
-- one first. The tools have been injected. Log lines, the text of prompts and the memory that
-- memory_updater stores are left out.
mod Outcomes
mod Selection
mod Sending
mod Replies
pub use Outcomes.*
unfoldable pub use Selection.*
unfoldable pub use Sending.*
unfoldable pub use Replies.*
