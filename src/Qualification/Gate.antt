-- ===== src/Qualification/Gate.antt =====
-- src/agent/nodes/auto_outbound_gate.py. A call that fails raises at its start: the schedule `faults` says
-- which calls do, with the text of the exception, and the handlers of the exceptions are written out.
pub mod Flow
pub mod Laws
pub mod Runs
pub mod Strict
use cmo_agent.Common.{
  ℕ, String, Bool, true, false, not, ◌&&◌, ◌||◌, Option, none, some, List, [], ◌∷◌, length, first,
  ltb, leb, str_eq, if◌then◌else◌,
}
use cmo_agent.Float.{Float}
use cmo_agent.Redis.{Redis}
use cmo_agent.State.{Account, Contact, Campaign, SequenceConfig}
use cmo_agent.Guardrails.KillSwitch.{is_paused}
use cmo_agent.Guardrails.Blocklist.{is_blocked}
use cmo_agent.Guardrails.SendCaps.{Dates, SendCapError, check_and_increment}
use cmo_agent.Qualification.State.{
  ActionType, pursue_now, nurture, disqualify, human_review_required, AccountScore, RankedContact,
  Signal, SellerBrief, PainHypothesis, ActionRecommendation, QualificationState,
}
use cmo_agent.Qualification.ActionRules.{top_pain_confidence}

-- AUTOMATION_DEFAULTS["enabled"] of src/config/automation.py
abbrev pub enabled_default : Bool
enabled_default = false

-- the calls that the gate guards with `try`
pub data Call : Type 0 where
  automation kill_switch thresholds blocklist send_caps enqueue : Call

-- the texts that `_brief_meets_thresholds` returns, without the numbers they show
pub data Shortfall : Type 0 where
  no_account_score overall_priority account_confidence no_ranked_contacts top_relevance pain_count
        pain_confidence signal_count unknowns_count :
      Shortfall

-- `auto_outbound_skip_reason`
pub data SkipReason : Type 0 where
  automation_disabled : SkipReason
  kill_switch_active : String → SkipReason
  action_not_pursue_now : Option ActionType → SkipReason
  threshold_not_met : Shortfall → SkipReason
  blocklisted : Option String → SkipReason
  send_cap_exceeded : SendCapError → SkipReason
  call_error : Call → String → SkipReason

-- A job `brief_to_outbound` on its queue.
pub record Job : Type 0 where
  pub workspace_id : String
  pub brief_id : String
  pub account_id : String
  pub thread_id : String
  pub auto_triggered : Bool

pub data DecisionReason : Type 0 where
  refused : SkipReason → DecisionReason
  draft_only_mode all_checks_passed : DecisionReason

-- a row that `_log_decision` writes, without the scores that it copies
pub record Decision : Type 0 where
  pub workspace_id : String
  pub account_id : String
  pub auto_triggered : Bool
  pub reason : DecisionReason

-- what the node returns: `auto_outbound_triggered`, and the reason with it when that is False
pub data Outcome : Type 0 where
  triggered : Outcome
  skipped : SkipReason → Outcome

-- `campaign.sequence_config["automation"]["enabled"]`, or the default
unfoldable pub is_automation_enabled : Option Campaign → Bool
is_automation_enabled none = enabled_default
is_automation_enabled (some c) = elim c.sequence_config.automation_enabled [
  | none ↦ enabled_default
  | some enabled ↦ enabled
]

-- `try: ... except Exception`: what the call decides, or the reason that the exception gives
abbrev pub attempt : Option String → Call → Option SkipReason → Option SkipReason
attempt none call decided = decided
attempt (some exc) call decided = some (call_error call exc)

-- the checks are made in order, and the first that refuses ends them
abbrev pub or_else {ℓ} : {A : Type ℓ} → Option A → Option A → Option A
or_else none later = later
or_else (some reason) later = some reason

-- the email of the first contact with this id
unfoldable pub email_of : List Contact → String → Option String
email_of [] contact_id = none
email_of (c ∷ cs) contact_id =
    let rest : Option String = email_of cs contact_id in
    if str_eq c.id contact_id then some c.email else rest

abbrev pub account_id_of : Option Account → String
account_id_of none = ""
account_id_of (some a) = a.id

abbrev pub domain_of : Option Account → Option String
domain_of none = none
domain_of (some a) = a.domain

abbrev pub company_name_of : Option Account → Option String
company_name_of none = none
company_name_of (some a) = some a.company_name

module _ (fl : Float) where
  open fl use {F, lt, hundredths}

  pub record AutoThresholds : Type 0 where
    pub overall_priority_min : ℕ
    pub top_contact_relevance_min : ℕ
    pub pain_confidence_min : F
    pub account_score_confidence_min : F
    pub min_signals : ℕ
    pub min_pain_hypotheses : ℕ
    pub max_unknowns : ℕ

  -- AUTO_OUTBOUND_THRESHOLDS of src/config/automation.py
  abbrev pub auto_outbound_thresholds : AutoThresholds
  auto_outbound_thresholds = record {
    overall_priority_min = 80;
    top_contact_relevance_min = 85;
    pain_confidence_min = hundredths 70;
    account_score_confidence_min = hundredths 80;
    min_signals = 2;
    min_pain_hypotheses = 1;
    max_unknowns = 3;
  }

  abbrev pub unknowns_of : Option (SellerBrief fl) → ℕ
  unknowns_of none = 0
  unknowns_of (some b) = length b.risks_and_unknowns

  abbrev pub brief_id_of : Option (SellerBrief fl) → String
  brief_id_of none = ""
  brief_id_of (some b) = b.id

  -- the tests below the score and its confidence
  unfoldable pub contact_shortfall : QualificationState fl → RankedContact fl → Option Shortfall
  contact_shortfall s top =
      let t : AutoThresholds = auto_outbound_thresholds in
      if ltb top.relevance_score t.top_contact_relevance_min
      then some top_relevance
      else if ltb (length s.pain_hypotheses) t.min_pain_hypotheses
      then some pain_count
      else if lt (top_pain_confidence fl s.pain_hypotheses) t.pain_confidence_min
      then some pain_confidence
      else if ltb (length s.signals) t.min_signals
      then some signal_count
      else if ltb t.max_unknowns (unknowns_of s.seller_brief)
      then some unknowns_count
      else none

  -- `none` if the brief passes; `0` is not a score, since the object is tested, never the number
  unfoldable pub brief_meets_thresholds : QualificationState fl → Option Shortfall
  brief_meets_thresholds s = elim s.account_score [
    | none ↦ some no_account_score
    | some score ↦
        if ltb score.overall_priority_score auto_outbound_thresholds.overall_priority_min
        then some overall_priority
        else if lt score.confidence_score auto_outbound_thresholds.account_score_confidence_min
        then some account_confidence
        else elim (first s.ranked_contacts) [
          | none ↦ some no_ranked_contacts
          | some top ↦ contact_shortfall s top
        ]
  ]

  abbrev pub top_email : QualificationState fl → Option String
  top_email s = elim (first s.ranked_contacts) [
    | none ↦ none
    | some top ↦ email_of s.contacts top.contact_id
  ]

  abbrev pub check_action : Option (ActionRecommendation fl) → Option SkipReason
  check_action none = some (action_not_pursue_now none)
  check_action (some r) = elim r.action [
    | pursue_now ↦ none
    | other ↦ some (action_not_pursue_now (some other))
  ]

  abbrev pub check_thresholds : QualificationState fl → Option SkipReason
  check_thresholds s = elim (brief_meets_thresholds s) [
    | none ↦ none
    | some why ↦ some (threshold_not_met why)
  ]
