-- ===== src/Outbound/Nodes/Sending.antt =====
-- src/agent/nodes/: personaliser, approval_gate and sender.
use cmo_agent.Common.{
  ℕ, zero, suc, String, Option, none, some, List, [], ◌∷◌, ◌++◌, length, get_elem?, str_eq, leb,
  if◌then◌else◌,
}
use cmo_agent.Common.Text.{◌<>◌, show}
use cmo_agent.State.{Account, Contact, Campaign, PersonalizedEmail, OutboundState}
use cmo_agent.Outbound.World.{Answers, posted, asked}
use cmo_agent.Outbound.Nodes.Outcomes.{Outcome, done, with_account, or_default, stage_of}

-- `stages[current_stage - 1]`, where index -1 is the last element
abbrev last_of : List String → String
last_of [] = ""
last_of (t ∷ []) = t
last_of (t ∷ u ∷ ts) = last_of (u ∷ ts)

abbrev stage_template : List String → ℕ → String
stage_template stages zero = last_of stages
stage_template stages (suc n) = or_default "" (get_elem? stages n)

unfoldable pub template_for : Option Campaign → ℕ → String
template_for campaign stage =
    let stages : List String = elim campaign [ none ↦ [] | some c ↦ c.sequence_config.stages ] in
    let t : String = if leb stage (length stages) then stage_template stages stage else "" in
    if str_eq t ""
    then "Stage "
      <> show stage
      <> " outbound email to {contact_name} at {company_name}. Keep it concise and personalized."
    else t

abbrev pub drafted : OutboundState → Option PersonalizedEmail → Outcome
drafted s none = (none, [])
drafted s (some email) = done (record s { draft_email = some email })

unfoldable pub personaliser : Answers → OutboundState → Outcome
unfolding template_for
personaliser a s = with_account s (elim s.current_account [
  | none ↦ done (record s { error = some "No current_account set" })
  | some account ↦ drafted s (a.write (template_for s.campaign (stage_of s)))
])

-- `sequence_config.get("slack_channel", "")`, or the default channel
abbrev slack_channel : Option Campaign → String
slack_channel none = "approvals"
slack_channel (some c) =
    let channel : String = or_default "" c.sequence_config.slack_channel in
    if str_eq channel "" then "approvals" else channel

abbrev pub rejected : OutboundState → String → OutboundState
rejected s message = record s { approval_status = some "rejected"; error = some message }

abbrev pub approve : OutboundState → PersonalizedEmail → Option String → Outcome
approve s draft none = (none, [])
approve s draft (some status) = (
  some (record s { approval_status = some status }),
  asked (slack_channel s.campaign) draft status ∷ [],
)

unfoldable pub approval_gate : Answers → OutboundState → Outcome
approval_gate a s = with_account s (elim s.current_account [
  | none ↦ done (rejected s "No current_account set")
  | some account ↦ elim s.draft_email [
    | none ↦ done (rejected s "No draft email to approve")
    | some draft ↦ approve s draft a.slack_status
  ]
])

abbrev campaign_id : Option Campaign → String
campaign_id none = ""
campaign_id (some c) = c.id

-- the insert of the message, after the webhook has taken the e-mail
abbrev pub record_sent :
    OutboundState → Account → Contact → PersonalizedEmail → Option String → Option OutboundState
record_sent s account contact draft none = none
record_sent s account contact draft (some id) = some (record s {
  sent_messages =
      s.sent_messages
      ++ record {
        id = id;
        workspace_id = account.workspace_id;
        contact_id = contact.id;
        campaign_id = campaign_id s.campaign;
        subject = draft.subject_line;
        body = draft.body;
        stage = stage_of s;
        status = "sent";
      }
        ∷ [];
})

-- the request to the webhook; a status of 400 or more means that it was refused
abbrev pub send :
    Answers → OutboundState → Account → Contact → PersonalizedEmail → Option ℕ → Outcome
send a s account contact draft none = (none, [])
send a s account contact draft (some status) =
    if leb 400 status
    then done (record s { error = some ("Email send failed with status " <> show status) })
    else (record_sent s account contact draft a.saved_id, posted contact.id (stage_of s) draft ∷ [])

unfoldable pub sender : Answers → OutboundState → Outcome
sender a s = with_account s (elim s.current_account [
  | none ↦ done (record s { error = some "No current_account set" })
  | some account ↦ elim s.draft_email [
    | none ↦ done (record s { error = some "Missing draft or contact for sending" })
    | some draft ↦ elim s.current_contact [
      | none ↦ done (record s { error = some "Missing draft or contact for sending" })
      | some contact ↦ send a s account contact draft a.post_status
    ]
  ]
])
