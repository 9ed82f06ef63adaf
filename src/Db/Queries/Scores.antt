-- ===== src/Db/Queries/Scores.antt =====
-- src/db/queries.py, the queries on scores, signals, briefs, feedback and outcomes.
use cmo_agent.Common.{ℕ, String, Bool, Option, List, str_eq, take}
use cmo_agent.Db.Tables.{Sql, Scalar, select, insert, scalar, scoped}
use cmo_agent.Db.Rows.{ScoreRow, SignalRow, BriefRow, FeedbackRow, OutcomeRow, Db}

abbrev pub save_account_score :
    String
    → ℕ
    → String
    → String
    → ℕ
    → ℕ
    → ℕ
    → ℕ
    → String
    → Option String
    → Option String
    → Bool
    → Option String
    → Db
    → ScoreRow × Db
save_account_score id now w account_id icp_fit pain_fit timing overall confidence fit_reasons
      non_fit_reasons is_disqualified disqualify_reason db =
    let score : ScoreRow = record {
      id = id;
      workspace_id = w;
      account_id = account_id;
      icp_fit_score = icp_fit;
      pain_fit_score = pain_fit;
      timing_score = timing;
      overall_priority_score = overall;
      fit_reasons = fit_reasons;
      non_fit_reasons = non_fit_reasons;
      confidence_score = confidence;
      is_disqualified = is_disqualified;
      disqualify_reason = disqualify_reason;
      scored_at = now;
    } in
    (score, record db { account_scores = insert score db.account_scores })

abbrev pub get_account_score : Sql → String → String → Db → Scalar ScoreRow
get_account_score S account_id w db = scalar (
    take 1 (
      S.order_desc ScoreRow.scored_at (
        select (scoped ScoreRow.workspace_id w (λ r. str_eq r.account_id account_id))
          db.account_scores)))

abbrev pub save_signal :
    String
    → ℕ
    → String
    → String
    → String
    → String
    → String
    → String
    → String
    → String
    → String
    → Option ℕ
    → Option String
    → Db
    → SignalRow × Db
save_signal id now w account_id signal_type source fact implication confidence reliability recency
      event_date source_url db =
    let signal : SignalRow = record {
      id = id;
      workspace_id = w;
      account_id = account_id;
      signal_type = signal_type;
      source = source;
      observed_fact = fact;
      possible_implication = implication;
      event_date = event_date;
      recency_score = recency;
      reliability_score = reliability;
      confidence = confidence;
      source_url = source_url;
      created_at = now;
    } in
    (signal, record db { signals = insert signal db.signals })

abbrev pub get_signals_for_account : Sql → String → String → Db → List SignalRow
get_signals_for_account S account_id w db =
    S.order_desc SignalRow.created_at
      (select (scoped SignalRow.workspace_id w (λ r. str_eq r.account_id account_id)) db.signals)

abbrev pub save_seller_brief :
    String → ℕ → String → String → Option String → String → ℕ → String → ℕ → Db → BriefRow × Db
save_seller_brief id now w account_id brief_json action_type overall_score confidence version db =
    let brief : BriefRow = record {
      id = id;
      workspace_id = w;
      account_id = account_id;
      version = version;
      brief_json = brief_json;
      action_type = action_type;
      overall_score = overall_score;
      confidence_score = confidence;
      generated_at = now;
    } in
    (brief, record db { briefs = insert brief db.briefs })

abbrev pub get_seller_brief : Sql → String → String → Db → Scalar BriefRow
get_seller_brief S account_id w db = scalar (
    take 1 (
      S.order_desc BriefRow.generated_at
        (select (scoped BriefRow.workspace_id w (λ r. str_eq r.account_id account_id)) db.briefs)))

abbrev pub save_feedback_event :
    String → ℕ → String → String → String → String → String → Option String → Db → FeedbackRow × Db
save_feedback_event id now w rec_id rec_type user_id action_taken correction db =
    let event : FeedbackRow = record {
      id = id;
      workspace_id = w;
      recommendation_id = rec_id;
      recommendation_type = rec_type;
      user_id = user_id;
      action_taken = action_taken;
      correction = correction;
      created_at = now;
    } in
    (event, record db { feedback = insert event db.feedback })

abbrev pub save_outcome_event :
    String → ℕ → String → String → String → Option String → Option String → Db → OutcomeRow × Db
save_outcome_event id now w account_id event_type opportunity_id details db =
    let event : OutcomeRow = record {
      id = id;
      workspace_id = w;
      account_id = account_id;
      opportunity_id = opportunity_id;
      event_type = event_type;
      details = details;
      created_at = now;
    } in
    (event, record db { outcomes = insert event db.outcomes })

abbrev pub list_seller_briefs_by_action : Sql → String → String → ℕ → Db → List BriefRow
list_seller_briefs_by_action S w action_type limit db = take limit (
    S.order_desc BriefRow.overall_score
      (select (scoped BriefRow.workspace_id w (λ r. str_eq r.action_type action_type)) db.briefs))
