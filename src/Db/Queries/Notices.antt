-- ===== src/Db/Queries/Notices.antt =====
-- src/db/queries.py, the queries on notifications and draft emails.
use cmo_agent.Common.{
  ℕ, suc, String, Bool, true, not, Option, List, [], ◌∷◌, ◌++◌, str_eq, ltb, take, if◌then◌else◌,
}
use cmo_agent.Db.Tables.{Sql, select, insert, update, count, scoped}
use cmo_agent.Db.Rows.{NotificationRow, DraftRow, Db}

abbrev pub save_notification :
    String
    → ℕ
    → String
    → String
    → String
    → String
    → String
    → Option String
    → Db
    → NotificationRow × Db
save_notification id now w notification_type priority title message metadata db =
    let notification : NotificationRow = record {
      id = id;
      workspace_id = w;
      notification_type = notification_type;
      priority = priority;
      title = title;
      message = message;
      metadata = metadata;
      read = Bool.false;
      created_at = now;
    } in
    (notification, record db { notifications = insert notification db.notifications })

abbrev pub is_unread : NotificationRow → Bool
is_unread r = not r.read

abbrev pub list_notifications : Sql → String → Bool → ℕ → Db → List NotificationRow
list_notifications S w unread_only limit db =
    let chosen : NotificationRow → Bool = λ r. if unread_only then is_unread r else true in
    take limit (
      S.order_desc NotificationRow.created_at
        (select (scoped NotificationRow.workspace_id w chosen) db.notifications))

abbrev pub mark_notification_read : String → String → Db → Bool × Db
mark_notification_read notification_id w db =
    let mine = scoped NotificationRow.workspace_id w (λ r. str_eq r.id notification_id) in
    (
      ltb 0 (count mine db.notifications),
      record db { notifications = update mine (λ r. record r { read = true }) db.notifications },
    )

abbrev pub count_unread_notifications : String → Db → ℕ
count_unread_notifications w db =
    count (scoped NotificationRow.workspace_id w is_unread) db.notifications

-- one item of `drafts`
pub record Draft : Type 0 where
  pub contact_id : String
  pub contact_name : String
  pub contact_email : String
  pub subject_line : String
  pub body : String
  pub personalization_score : String
  pub value_prop_used : Option String
  pub stage : ℕ

-- `uuid n` is the id that the server makes for its n-th row
abbrev pub draft_records :
    (ℕ → String) → ℕ → ℕ → String → String → String → List Draft → List DraftRow
draft_records uuid n now w campaign_id account_id [] = []
draft_records uuid n now w campaign_id account_id (d ∷ drafts) =
    record {
      id = uuid n;
      workspace_id = w;
      campaign_id = campaign_id;
      account_id = account_id;
      contact_id = d.contact_id;
      contact_name = d.contact_name;
      contact_email = d.contact_email;
      subject_line = d.subject_line;
      body = d.body;
      personalization_score = d.personalization_score;
      value_prop_used = d.value_prop_used;
      stage = d.stage;
      created_at = now;
    }
    ∷ draft_records uuid (suc n) now w campaign_id account_id drafts

abbrev pub save_draft_emails :
    (ℕ → String) → ℕ → ℕ → String → String → String → List Draft → Db → List DraftRow × Db
save_draft_emails uuid n now w campaign_id account_id drafts db =
    let records = draft_records uuid n now w campaign_id account_id drafts in
    (records, record db { drafts = db.drafts ++ records })

abbrev pub get_draft_emails_for_account : Sql → String → String → Db → List DraftRow
get_draft_emails_for_account S account_id w db =
    S.order_desc DraftRow.created_at
      (select (scoped DraftRow.workspace_id w (λ r. str_eq r.account_id account_id)) db.drafts)

abbrev pub get_draft_emails_for_campaign : Sql → String → String → Db → List DraftRow
get_draft_emails_for_campaign S campaign_id w db =
    S.order_desc DraftRow.created_at
      (select (scoped DraftRow.workspace_id w (λ r. str_eq r.campaign_id campaign_id)) db.drafts)
