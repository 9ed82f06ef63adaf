-- ===== src/Qualification/Gate/Laws.antt =====
-- What the gate of automatic sending does on each branch.
use cmo_agent.Common.{String, ◌≡◌, ◌≢◌, ◌⊎◌, inr, true, false, Option, none, some, ◌∷◌, arith}
use cmo_agent.Float.{Float}
use cmo_agent.Redis.{Redis}
use cmo_agent.Guardrails.KillSwitch.{is_paused, pause_workspace}
use cmo_agent.Guardrails.KillSwitch.Laws.{pause_workspace-paused}
use cmo_agent.Guardrails.Blocklist.{is_blocked}
use cmo_agent.Guardrails.SendCaps.{Dates, SendCapError, check_and_increment}
use cmo_agent.Qualification.State.{ActionType, pursue_now, ActionRecommendation, QualificationState}
use cmo_agent.Qualification.Gate.{
  automation, kill_switch, thresholds, blocklist, send_caps, Outcome, triggered,
  is_automation_enabled, account_id_of, domain_of, company_name_of, top_email,
  brief_meets_thresholds,
}
use cmo_agent.Qualification.Gate.Flow.{
  GateError, World, Setup, read_checks, after_reads, check_caps, after_caps, release,
  enqueue_outbound, skip, job_of, auto_outbound_gate,
}

module _ (fl : Float) (R : Redis) (prefix : String) (now : Dates) where
  open R use {Store}

  abbrev action_of : Option (ActionRecommendation fl) → Option ActionType
  action_of none = none
  action_of (some r) = some r.action

  -- what the five checks that only read look for
  abbrev pub ReadsPassed : Setup fl R prefix now → QualificationState fl → Store → Type 0
  ReadsPassed u s store =
      (u.faults automation ≡ none)
      × (is_automation_enabled s.campaign ≡ true)
      × (u.faults kill_switch ≡ none)
      × ((is_paused R prefix s.workspace_id store).0 ≡ false)
      × (action_of s.action_recommendation ≡ some pursue_now)
      × (u.faults thresholds ≡ none)
      × (brief_meets_thresholds fl s ≡ none)
      × (u.faults blocklist ≡ none)
      × ((is_blocked R prefix s.workspace_id (top_email fl s) (domain_of s.current_account)
            (company_name_of s.current_account) store).0
          ≡ false)

  -- the reply of the enforcer of the caps to the gate's call
  abbrev pub caps_reply : QualificationState fl → Store → Option SendCapError × Store
  caps_reply s store =
      check_and_increment R prefix now s.workspace_id (some (account_id_of s.current_account)) none
        store

  pub read_checks_lem :
      (u : Setup fl R prefix now) (s : QualificationState fl) (store : Store)
      → read_checks fl R prefix now u s store ≡ none
      → ReadsPassed u s store
  unfolding read_checks
  read_checks_lem u s store h = ground arith

  module _ (u : Setup fl R prefix now) (s : QualificationState fl) (w : World fl R prefix now) where
    abbrev pub outcome : GateError ⊎ Outcome
    outcome = (auto_outbound_gate fl R prefix now u s w).0

    abbrev pub after : World fl R prefix now
    after = (auto_outbound_gate fl R prefix now u s w).1

    pub triggered-reads :
        outcome ≡ inr triggered
        → (read_checks fl R prefix now u s w.store ≡ none)
          × (u.faults send_caps ≡ none)
          × ((caps_reply s w.store).0 ≡ none)
          × (after.store ≡ (caps_reply s w.store).1)
    unfolding auto_outbound_gate after_reads check_caps after_caps release enqueue_outbound skip
    triggered-reads h = ground arith

    pub skipped-store :
        outcome ≢ inr triggered → (after.store ≡ w.store) ⊎ (after.store ≡ (caps_reply s w.store).1)
    unfolding auto_outbound_gate after_reads check_caps after_caps release enqueue_outbound skip
    skipped-store h = ground arith

    -- The gate fails closed: it lets an account through only if none of its checks raised, automation
    -- is on for the campaign, neither pause is set, the recommendation is to pursue the account, the
    -- brief meets the thresholds, the contact, the domain and the company are on no blocklist, and the
    -- caps had room for the send, which they have then counted.
    pub triggered_only_if_passed :
        outcome ≡ inr triggered
        → ReadsPassed u s w.store
          × (u.faults send_caps ≡ none)
          × ((caps_reply s w.store).0 ≡ none)
          × (after.store ≡ (caps_reply s w.store).1)
    triggered_only_if_passed h =
        let t = triggered-reads h in (read_checks_lem u s w.store t.0, t.1, t.2, t.3)

    -- One job is put on the queue when the gate lets an account through outside draft-only mode, and
    -- none in draft-only mode or when it lets nothing through.
    pub jobs_of_gate :
        (outcome ≡ inr triggered
          → u.draft_only ≡ false
          → after.jobs ≡ job_of fl R prefix now s ∷ w.jobs)
        × (outcome ≡ inr triggered → u.draft_only ≡ true → after.jobs ≡ w.jobs)
        × (outcome ≢ inr triggered → after.jobs ≡ w.jobs)
    unfolding auto_outbound_gate after_reads check_caps after_caps release enqueue_outbound skip
    jobs_of_gate = ground arith

    -- While the workspace is paused the gate lets nothing through, whatever the rest of the state is.
    pub paused_never_triggers :
        (reason : String) (store : Store)
        → w.store ≡ pause_workspace R prefix s.workspace_id reason store
        → outcome ≢ inr triggered
    paused_never_triggers reason store e h = ground (
      arith,
      triggered_only_if_passed h,
      pause_workspace-paused R prefix s.workspace_id reason store,
    )
