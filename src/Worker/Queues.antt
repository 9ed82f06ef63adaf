-- ===== src/Worker/Queues.antt =====
-- src/worker/queues.py: the queues, the routing of events, and the job that is put on a queue. BullMQ
-- takes every job; `uid` is the hexadecimal text of the UUID.
use cmo_agent.Common.{
  ℕ, String, ◌≡◌, ◌≢◌, ◌⊎◌, inl, inr, refl, Bool, true, false, Option, none, some, str_eq,
  if◌then◌else◌, Option-cases, sym,
}
use cmo_agent.Common.Text.{◌<>◌}

-- QUEUE_CONFIG: the concurrency of each queue
unfoldable pub queue_config : String → Option ℕ
queue_config name =
    if str_eq name "critical"
    then some 10
    else if str_eq name "interactive"
    then some 5
    else if str_eq name "batch"
    then some 20
    else if str_eq name "background"
    then some 50
    else none

abbrev critical_events : String → Bool
critical_events e =
    if str_eq e "approval_response"
    then true
    else if str_eq e "positive_reply"
    then true
    else if str_eq e "unsubscribe_request"
    then true
    else if str_eq e "brief_approval"
    then true
    else str_eq e "brief_review"

abbrev interactive_events : String → Bool
interactive_events e =
    if str_eq e "manual_trigger"
    then true
    else if str_eq e "report_request"
    then true
    else str_eq e "brief_to_outbound"

abbrev batch_events : String → Bool
batch_events e =
    if str_eq e "daily_batch"
    then true
    else if str_eq e "check_replies"
    then true
    else if str_eq e "qualification_batch"
    then true
    else if str_eq e "daily_rescore"
    then true
    else str_eq e "signal_refresh"

abbrev background_events : String → Bool
background_events e =
    if str_eq e "memory_update"
    then true
    else if str_eq e "crm_sync"
    then true
    else str_eq e "brief_refresh"

abbrev route : Bool → Bool → Bool → Bool → Option String
route critical interactive batch background =
    if critical
    then some "critical"
    else if interactive
    then some "interactive"
    else if batch
    then some "batch"
    else if background
    then some "background"
    else none

-- EVENT_ROUTING, its sixteen keys by their queue
unfoldable pub event_routing : String → Option String
event_routing e =
    route (critical_events e) (interactive_events e) (batch_events e) (background_events e)

some-inj {ℓ} : {A : Type ℓ} {a b : A} → some a ≡ some b → a ≡ b
some-inj h = cc h

route-configured :
    (c i b g : Bool) (q : String) → route c i b g ≡ some q → (n : ℕ) × (queue_config q ≡ some n)
unfolding queue_config
route-configured true i b g q h = rw (sym (some-inj h)) (10, refl)
route-configured false true b g q h = rw (sym (some-inj h)) (5, refl)
route-configured false false true g q h = rw (sym (some-inj h)) (20, refl)
route-configured false false false true q h = rw (sym (some-inj h)) (50, refl)
route-configured false false false false q h = absurd (cc h)

routing-configured : (e q : String) → event_routing e ≡ some q → (n : ℕ) × (queue_config q ≡ some n)
unfolding event_routing
routing-configured e q h =
    route-configured (critical_events e) (interactive_events e) (batch_events e)
      (background_events e) q h

pub data QueueError : Type 0 where
  unknown_event unknown_queue : String → QueueError

module _ (Payload : Type 0) where
  pub record QueuedJob : Type 0 where
    pub queue : String
    pub name : String
    pub job_id : String
    pub workspace_id : String
    pub job_type : String
    pub payload : Payload

  abbrev pub job_for : String → String → Payload → String → String → QueuedJob
  job_for queue_name job_type payload ws uid = record {
    queue = queue_name;
    name = job_type;
    job_id = ws <> ":" <> job_type <> ":" <> uid;
    workspace_id = ws;
    job_type = job_type;
    payload = payload;
  }

  abbrev put : String → String → Payload → String → String → Option ℕ → QueueError ⊎ QueuedJob
  put queue_name job_type payload ws uid none = inl (unknown_queue queue_name)
  put queue_name job_type payload ws uid (some concurrency) =
      inr (job_for queue_name job_type payload ws uid)

  unfoldable pub enqueue : String → String → Payload → String → String → QueueError ⊎ QueuedJob
  unfolding queue_config
  enqueue queue_name job_type payload ws uid =
      put queue_name job_type payload ws uid (queue_config queue_name)

  unfoldable pub enqueue_by_event : String → Payload → String → String → QueueError ⊎ QueuedJob
  enqueue_by_event event payload ws uid = elim (event_routing event) [
    | none ↦ inl (unknown_event event)
    | some queue_name ↦ enqueue queue_name event payload ws uid
  ]

  enqueue_by_event-unrouted :
      (event : String) (payload : Payload) (ws uid : String)
      → event_routing event ≡ none
      → enqueue_by_event event payload ws uid ≡ inl (unknown_event event)
  unfolding enqueue_by_event
  enqueue_by_event-unrouted event payload ws uid e = rw (e, enqueue_by_event)

  pub enqueue_by_event-routed :
      (event q : String) (n : ℕ) (payload : Payload) (ws uid : String)
      → event_routing event ≡ some q
      → queue_config q ≡ some n
      → enqueue_by_event event payload ws uid ≡ inr (job_for q event payload ws uid)
  unfolding enqueue_by_event enqueue
  enqueue_by_event-routed event q n payload ws uid e h = rw (e, enqueue_by_event) (rw (h, enqueue))

  -- An event is either unknown, and then the error names it, or it becomes a job for its handler in the
  -- workspace given, on the queue that the table routes it to, which is one that a worker serves. No
  -- routed event is refused for its queue.
  pub enqueue_by_event_lem :
      (event : String) (payload : Payload) (ws uid : String)
      → ((event_routing event ≡ none)
          × (enqueue_by_event event payload ws uid ≡ inl (unknown_event event)))
        ⊎ ((job : QueuedJob) × (enqueue_by_event event payload ws uid ≡ inr job)
            × (event_routing event ≡ some job.queue)
            × (queue_config job.queue ≢ none)
            × (job.job_type ≡ event)
            × (job.workspace_id ≡ ws)
            × (job.payload ≡ payload))
  enqueue_by_event_lem event payload ws uid = elim (Option-cases (event_routing event)) [
    | inl unrouted ↦ inl (unrouted, enqueue_by_event-unrouted event payload ws uid unrouted)
    | inr (q, routed) ↦
        let (n, e) = routing-configured event q routed in
        inr (
          job_for q event payload ws uid,
          enqueue_by_event-routed event q n payload ws uid routed e,
          routed,
          λ h. cc (e, h),
          refl,
          refl,
          refl,
        )
  ]
