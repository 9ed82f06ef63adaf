-- ===== src/Qualification/Gate/Flow.antt =====
-- src/agent/nodes/auto_outbound_gate.py: the order of the checks in `auto_outbound_gate`, and what the
-- node leaves in Redis, on the queue and in the log of decisions. `clickhouse` tells that the log is
-- configured and takes the row, `draft_only` is settings.OUTBOUND_DRAFT_ONLY, and `initialised` tells that
-- init_guardrails has been called.
use cmo_agent.Common.{
  String, ◌⊎◌, inl, inr, Bool, true, false, Option, none, some, List, ◌∷◌, if◌then◌else◌,
}
use cmo_agent.Float.{Float}
use cmo_agent.Redis.{Redis}
use cmo_agent.Guardrails.KillSwitch.{is_paused}
use cmo_agent.Guardrails.Blocklist.{is_blocked}
use cmo_agent.Guardrails.SendCaps.{Dates, SendCapError, check_and_increment}
use cmo_agent.Qualification.State.{QualificationState}
use cmo_agent.Qualification.Gate.{
  Call, automation, kill_switch, thresholds, blocklist, send_caps, enqueue, SkipReason,
  automation_disabled, kill_switch_active, blocklisted, send_cap_exceeded, call_error, Job,
  Decision, DecisionReason, refused, draft_only_mode, all_checks_passed, Outcome, triggered,
  skipped, is_automation_enabled, attempt, or_else, account_id_of, domain_of, company_name_of,
  top_email, check_action, check_thresholds, brief_id_of,
}

pub data GateError : Type 0 where
  guardrails_not_initialised : GateError

module _ (fl : Float) (R : Redis) (prefix : String) (now : Dates) where
  open R use {Store}

  pub record World : Type 0 where
    pub store : Store
    pub jobs : List Job
    pub decisions : List Decision

  pub record Setup : Type 0 where
    pub initialised : Bool
    pub draft_only : Bool
    pub clickhouse : Bool
    pub faults : Call → Option String

  abbrev pub check_automation : QualificationState fl → Option SkipReason
  check_automation s = if is_automation_enabled s.campaign then none else some automation_disabled

  abbrev pub check_kill_switch : QualificationState fl → Store → Option SkipReason
  check_kill_switch s store =
      let (paused, reason) = is_paused R prefix s.workspace_id store in
      if paused then some (kill_switch_active reason) else none

  abbrev pub check_blocklist : QualificationState fl → Store → Option SkipReason
  check_blocklist s store =
      let (blocked, reason) =
        is_blocked R prefix s.workspace_id (top_email fl s) (domain_of s.current_account)
          (company_name_of s.current_account) store in
      if blocked then some (blocklisted reason) else none

  -- checks 1 to 5, which only read
  unfoldable pub read_checks : Setup → QualificationState fl → Store → Option SkipReason
  read_checks u s store = or_else (attempt (u.faults automation) automation (check_automation s)) (
      or_else (attempt (u.faults kill_switch) kill_switch (check_kill_switch s store)) (
        or_else (check_action fl s.action_recommendation) (
          or_else (attempt (u.faults thresholds) thresholds (check_thresholds fl s))
            (attempt (u.faults blocklist) blocklist (check_blocklist s store)))))

  -- `_log_decision`, best effort
  abbrev pub log_decision : Setup → QualificationState fl → DecisionReason → World → World
  log_decision u s reason w =
      if u.clickhouse
      then record w {
        decisions =
            record {
              workspace_id = s.workspace_id;
              account_id = account_id_of s.current_account;
              auto_triggered = elim reason [ refused r ↦ false | other ↦ true ];
              reason = reason;
            }
            ∷ w.decisions;
      }
      else w

  unfoldable pub skip : Setup → QualificationState fl → SkipReason → World → Outcome × World
  skip u s reason w = (skipped reason, log_decision u s (refused reason) w)

  abbrev pub job_of : QualificationState fl → Job
  job_of s = record {
    workspace_id = s.workspace_id;
    brief_id = brief_id_of fl s.seller_brief;
    account_id = account_id_of s.current_account;
    thread_id = s.thread_id;
    auto_triggered = true;
  }

  -- `enqueue_by_event`, and the handler of its exception
  unfoldable pub enqueue_outbound :
      Setup → QualificationState fl → Option String → World → Outcome × World
  unfolding skip
  enqueue_outbound u s none w =
      (triggered, log_decision u s all_checks_passed (record w { jobs = job_of s ∷ w.jobs }))
  enqueue_outbound u s (some exc) w = skip u s (call_error enqueue exc) w

  -- what follows when all checks have passed
  unfoldable pub release : Setup → QualificationState fl → World → Outcome × World
  unfolding enqueue_outbound skip
  release u s w =
      if u.draft_only
      then (triggered, log_decision u s draft_only_mode w)
      else enqueue_outbound u s (u.faults enqueue) w

  -- check 6, by its reply
  unfoldable pub after_caps :
      Setup → QualificationState fl → World → Option SendCapError × Store → Outcome × World
  unfolding release skip enqueue_outbound
  after_caps u s w (none, store) = release u s (record w { store = store })
  after_caps u s w (some e, store) = skip u s (send_cap_exceeded e) (record w { store = store })

  unfoldable pub check_caps :
      Setup → QualificationState fl → Option String → World → Outcome × World
  unfolding after_caps release skip enqueue_outbound
  check_caps u s none w = after_caps u s w (
      check_and_increment R prefix now s.workspace_id (some (account_id_of s.current_account)) none
        w.store)
  check_caps u s (some exc) w = skip u s (call_error send_caps exc) w

  unfoldable pub after_reads :
      Setup → QualificationState fl → World → Option SkipReason → Outcome × World
  unfolding check_caps after_caps release skip enqueue_outbound
  after_reads u s w (some reason) = skip u s reason w
  after_reads u s w none = check_caps u s (u.faults send_caps) w

  -- `_get_guardrails` raises outside every `try`
  unfoldable pub auto_outbound_gate :
      Setup → QualificationState fl → World → (GateError ⊎ Outcome) × World
  auto_outbound_gate u s w =
      if u.initialised
      then (let (outcome, w') = after_reads u s w (read_checks u s w.store) in (inr outcome, w'))
      else (inl guardrails_not_initialised, w)
