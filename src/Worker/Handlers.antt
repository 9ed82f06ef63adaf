-- ===== src/Worker/Handlers.antt =====
-- src/worker/handlers.py: handle_brief_approval. handle_brief_to_outbound is left out: it imports
-- get_seller_brief_by_id, which src/db/queries.py does not have at this commit, and raises before any branch.
use cmo_agent.Common.{String, ◌⊎◌, inl, inr, Bool, Option, none, some, if◌then◌else◌}
use cmo_agent.Worker.Queues.{QueueError, QueuedJob, enqueue_by_event}

-- `{"thread_id", "approved", "brief_id"}`, with the defaults of the handler for a missing key
pub record ApprovalPayload : Type 0 where
  pub thread_id : String
  pub approved : Bool
  pub brief_id : Option String

abbrev pub brief_of : ApprovalPayload → String
brief_of p = elim p.brief_id [ none ↦ p.thread_id | some id ↦ id ]

pub data ApprovalResult : Type 0 where
  rejection_logged : String → ApprovalResult
  enqueued : QueuedJob String → ApprovalResult
  refused : QueueError → ApprovalResult

abbrev pub enqueued_as : QueueError ⊎ QueuedJob String → ApprovalResult
enqueued_as (inl e) = refused e
enqueued_as (inr job) = enqueued job

unfoldable pub handle_brief_approval : String → String → ApprovalPayload → ApprovalResult
handle_brief_approval ws uid p =
    if p.approved
    then enqueued_as (enqueue_by_event String "brief_to_outbound" (brief_of p) ws uid)
    else rejection_logged p.thread_id
