-- ===== src/Outbound/Nodes/Replies.antt =====
-- src/agent/nodes/: reply_monitor, router, notify_sales, unsubscribe_handler and memory_updater.
use cmo_agent.Common.{
  ℕ, ◌+◌, String, true, false, ◌&&◌, Option, none, some, List, [], ◌∷◌, length, str_eq, ltb, ◌==◌,
  if◌then◌else◌,
}
use cmo_agent.State.{Message, Intent, positive, negative, neutral, unsubscribe, OutboundState}
use cmo_agent.Outbound.World.{
  Classification, unparsable, intent, Answers, notified_sales, logged_activity, marked_unsubscribed,
}
use cmo_agent.Outbound.Nodes.Outcomes.{Outcome, done, with_account, or_default, stage_of}

-- `ReplyAnalysis(intent=…)` accepts four texts only
abbrev pub intent_of : String → Option Intent
intent_of t =
    if str_eq t "positive"
    then some positive
    else if str_eq t "negative"
    then some negative
    else if str_eq t "neutral"
    then some neutral
    else if str_eq t "unsubscribe"
    then some unsubscribe
    else none

abbrev pub classified : OutboundState → Option Classification → Option OutboundState
classified s none = none
classified s (some unparsable) =
    some (record s { reply_analysis = some (record { intent = neutral }) })
classified s (some (intent text)) = elim (intent_of (or_default "neutral" text)) [
  | none ↦ none
  | some i ↦ some (record s { reply_analysis = some (record { intent = i }) })
]

abbrev pub check_reply : Answers → OutboundState → Option ℕ → Option OutboundState
check_reply a s none = none
check_reply a s (some status) =
    if status == 200
    then (if str_eq a.reply_text "" then some s else classified s a.classification)
    else some s

unfoldable pub reply_monitor : Answers → OutboundState → Outcome
reply_monitor a s = with_account s (elim s.current_account [
  | none ↦ done s
  | some account ↦ elim s.current_contact [
    | none ↦ done s
    | some contact ↦ (check_reply a s a.check_status, [])
  ]
])

-- no reply, or a neutral one: on to the next stage, if there is one
abbrev pub advance : OutboundState → OutboundState
advance s =
    let stage : ℕ = stage_of s in
    if ltb stage (or_default 3 s.max_stages)
    then record s {
      should_continue = some true;
      current_stage = some (stage + 1);
      reply_analysis = none;
    }
    else record s { should_continue = some false; current_stage = some stage }

abbrev pub route_intent : OutboundState → Intent → OutboundState
route_intent s positive = record s { should_continue = some false }
route_intent s unsubscribe = record s { should_continue = some false }
route_intent s negative = record s { should_continue = some false }
route_intent s neutral = advance s

unfoldable pub router : OutboundState → Outcome
router s = with_account s (elim s.reply_analysis [
  | none ↦ done (advance s)
  | some reply ↦ done (route_intent s reply.intent)
])

-- both calls are tried, and what they raise is only logged
unfoldable pub notify_sales : OutboundState → Outcome
notify_sales s = with_account s (elim s.current_account [
  | none ↦ done s
  | some account ↦ elim s.current_contact [
    | none ↦ (some s, notified_sales account.id ∷ [])
    | some contact ↦ (some s, logged_activity contact.id ∷ notified_sales account.id ∷ [])
  ]
])

-- the messages of one contact, in order
unfoldable pub ids_to : String → List Message → List String
ids_to contact [] = []
ids_to contact (m ∷ messages) =
    let rest = ids_to contact messages in if str_eq m.contact_id contact then m.id ∷ rest else rest

-- The statuses are changed in one transaction; an error of the database is only logged.
unfoldable pub unsubscribe_handler : Answers → OutboundState → Outcome
unfolding ids_to
unsubscribe_handler a s = with_account s (elim s.current_contact [
  | none ↦ done (record s { should_continue = some false })
  | some contact ↦ (
    some (record s { should_continue = some false }),
    if a.update_ok && ltb 0 (length s.sent_messages)
        then marked_unsubscribed (ids_to contact.id s.sent_messages) ∷ []
        else [],
  )
])

unfoldable pub memory_updater : OutboundState → Outcome
memory_updater s = with_account s (
    done (record s {
      current_contact = none;
      enrichment = none;
      draft_email = none;
      approval_status = none;
      reply_analysis = none;
      error = none;
      should_continue = some true;
    }))
