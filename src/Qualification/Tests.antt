-- ===== src/Qualification/Tests.antt =====
-- The rules and the gate on one account that passes, in an empty database.
use cmo_agent.Common.{
  ◌+◌, ◌≤◌, max, ◌≡◌, ◌↔◌, inr, refl, String, true, false, Option, none, some, List, [], ◌∷◌,
}
use cmo_agent.Float.{cents}
use cmo_agent.Redis.Memory.{blank, memory}
use cmo_agent.State.{Campaign}
use cmo_agent.Guardrails.KillSwitch.{is_paused, pause_workspace}
use cmo_agent.Guardrails.Blocklist.{is_blocked, on_list}
use cmo_agent.Guardrails.SendCaps.{
  Dates, check, check_account, check_and_increment, daily_ws_key, weekly_ws_key,
}
use cmo_agent.Qualification.State.{
  pursue_now, operator, AccountScore, RankedContact, PainHypothesis, Signal, QualificationState,
}
use cmo_agent.Qualification.ActionRules.{recommend_action, max_from, top_pain_confidence}
use cmo_agent.Qualification.ActionRules.Decisions.{chosen, IsJudged, is_strong, pursue_iff}
use cmo_agent.Qualification.Gate.{
  Call, send_caps, enqueue, is_automation_enabled, email_of, contact_shortfall,
  brief_meets_thresholds, triggered,
}
use cmo_agent.Qualification.Gate.Flow.{
  World, Setup, read_checks, auto_outbound_gate, after_reads, check_caps, after_caps, release,
  enqueue_outbound, skip,
}
use cmo_agent.Qualification.Gate.Laws.{
  outcome, after, ReadsPassed, caps_reply, triggered_only_if_passed,
}
use cmo_agent.Qualification.Gate.Strict.{gate_stricter}
use cmo_agent.Qualification.Gate.Runs.{gates, gates-le-caps}

abbrev pub score : AccountScore cents
score = record {
  account_id = "acme";
  icp_fit_score = 90;
  pain_fit_score = 80;
  timing_score = 70;
  overall_priority_score = 85;
  confidence_score = some 90;
  is_disqualified = false;
  disqualify_reason = none;
}

abbrev weak : AccountScore cents
weak = record score { icp_fit_score = 20; overall_priority_score = 30 }

abbrev ann : RankedContact cents
ann = record {
  contact_id = "ann";
  name = "Ann";
  relevance_score = 88;
  likely_role = operator;
  confidence_score = some 90;
}

abbrev pains : List (PainHypothesis cents)
pains =
    record { score = 60; confidence_score = some 40 }
    ∷ record { score = 70; confidence_score = some 75 }
    ∷ []

abbrev signal : Signal cents
signal = record { id = "funding"; reliability_score = some 80 }

abbrev pub campaign : Campaign
campaign = record {
  id = "c";
  workspace_id = "w";
  sequence_config = record {
    slack_channel = none;
    sales_channel = none;
    automation_enabled = some true;
    stages = [];
  };
}

abbrev pub strong : QualificationState cents
strong = record {
  thread_id = "t";
  workspace_id = "w";
  campaign = some campaign;
  accounts = [];
  current_account = none;
  contacts = [];
  ranked_contacts = ann ∷ [];
  signals = signal ∷ signal ∷ [];
  pain_hypotheses = pains;
  account_score = some score;
  seller_brief = none;
  action_recommendation = some (recommend_action cents score (some ann) pains none);
  approval_status = none;
  error = none;
  should_continue = true;
  auto_outbound_triggered = false;
}

abbrev monday : Dates
monday = record { today = "2025-03-03"; week = "2025-W09" }

abbrev quiet : World cents memory "cmo:" monday
quiet = record { store = blank; jobs = []; decisions = [] }

abbrev held : World cents memory "cmo:" monday
held = record quiet { store = pause_workspace memory "cmo:" "w" "Complaints" blank }

abbrev setup : Setup cents memory "cmo:" monday
setup = record { initialised = true; draft_only = false; clickhouse = true; faults = λ call. none }

abbrev queue_down : Call → Option String
queue_down enqueue = some "connection refused"
queue_down call = none

abbrev no_queue : Setup cents memory "cmo:" monday
no_queue = record setup { faults = queue_down }

pursue_iff_example : (chosen cents score (some ann) pains none ≡ pursue_now) ↔ (
    IsJudged cents score (some ann) pains none
    × (is_strong cents score (some ann) pains none ≡ true))
pursue_iff_example = pursue_iff cents score (some ann) pains none

gate_stricter_example : (recommend_action cents score (some ann) pains none).action ≡ pursue_now
unfolding brief_meets_thresholds contact_shortfall top_pain_confidence max_from
gate_stricter_example = gate_stricter cents strong score refl refl refl refl

all_pass : outcome cents memory "cmo:" monday setup strong quiet ≡ inr triggered
unfolding auto_outbound_gate read_checks after_reads check_caps after_caps release enqueue_outbound
    skip is_automation_enabled is_paused recommend_action brief_meets_thresholds contact_shortfall
    top_pain_confidence max_from email_of is_blocked on_list check_and_increment check check_account
all_pass = refl

triggered_only_if_passed_example :
    ReadsPassed cents memory "cmo:" monday setup strong blank
    × (setup.faults send_caps ≡ none)
    × ((caps_reply cents memory "cmo:" monday strong blank).0 ≡ none)
    × ((after cents memory "cmo:" monday setup strong quiet).store
        ≡ (caps_reply cents memory "cmo:" monday strong blank).1)
triggered_only_if_passed_example =
    triggered_only_if_passed cents memory "cmo:" monday setup strong quiet all_pass

gates-le-caps_example :
    let (n, w') = gates cents memory "cmo:" monday setup (strong ∷ strong ∷ []) quiet in
    (n + 0 ≤ w'.store.counts (daily_ws_key memory "cmo:" monday "w"))
    × (w'.store.counts (daily_ws_key memory "cmo:" monday "w") ≤ max 25 0)
    × (n + 0 ≤ w'.store.counts (weekly_ws_key memory "cmo:" monday "w"))
    × (w'.store.counts (weekly_ws_key memory "cmo:" monday "w") ≤ max 100 0)
gates-le-caps_example =
    gates-le-caps cents memory "cmo:" monday setup "w" (strong ∷ strong ∷ []) quiet
      (refl, (refl, tt))
