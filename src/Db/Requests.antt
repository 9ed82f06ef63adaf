-- ===== src/Db/Requests.antt =====
-- src/db/queries.py: the queries that take a workspace as one data type, and a database that several
-- workspaces use in turn.
use cmo_agent.Common.{ℕ, String, Bool, Option, none, some, List, [], ◌∷◌, str_eq, if◌then◌else◌}
use cmo_agent.Db.Tables.{Sql, Scalar, one_row, select, scoped, any_row}
use cmo_agent.Db.Rows.{
  CampaignRow, UploadMetadata, AccountRow, ContactRow, MessageRow, SettingsRow, ApiKeyRow, UserRow,
  InvitationRow, ScoreRow, SignalRow, BriefRow, FeedbackRow, OutcomeRow, NotificationRow, LinkRow,
  DraftRow, Db,
}
use cmo_agent.Db.Queries.Campaigns.{
  get_campaign, create_campaign, list_campaigns, get_account, create_account,
  get_contacts_for_account, update_message_status, get_workspace_settings,
}
use cmo_agent.Db.Queries.Keys.{deactivate_api_key}
use cmo_agent.Db.Queries.Users.{
  create_user, get_user, get_user_by_email, list_users, update_user_role, deactivate_user,
  list_invitations,
}
use cmo_agent.Db.Queries.Scores.{
  save_account_score, get_account_score, save_signal, get_signals_for_account, save_seller_brief,
  get_seller_brief, save_feedback_event, save_outcome_event, list_seller_briefs_by_action,
}
use cmo_agent.Db.Queries.Notices.{
  save_notification, list_notifications, mark_notification_read, count_unread_notifications,
  save_draft_emails, get_draft_emails_for_account, get_draft_emails_for_campaign, Draft,
}
use cmo_agent.Db.Queries.Uploads.{
  Upload, CampaignAccount, create_campaign_accounts, get_campaign_accounts,
}

-- The queries whose outcome no constraint ties to rows of other workspaces: left out are create_contact, save_message
-- and create_invitation, which refer to rows by id, and create_api_key, whose hash is unique over all workspaces.
-- A constructor has the arguments beside the session and the
-- workspace, in the order of the query.
pub data Request : Type 0 where
  get_campaign_of get_account_of get_contacts_of : String → Request
  create_campaign_of : String → Option String → Option String → Request
  list_campaigns_of : ℕ → ℕ → Request
  create_account_of : String → Option String → Option UploadMetadata → Request
  update_message_of : String → String → Request
  get_settings_of list_users_of list_invitations_of count_unread_of : Request
  deactivate_api_key_of : String → Request
  create_user_of : String → String → String → Request
  get_user_of get_user_by_email_of deactivate_user_of : String → Request
  update_user_role_of : String → String → Request
  save_score_of :
      String
      → ℕ
      → ℕ
      → ℕ
      → ℕ
      → String
      → Option String
      → Option String
      → Bool
      → Option String
      → Request
  get_score_of get_signals_of get_brief_of : String → Request
  save_signal_of :
      String
      → String
      → String
      → String
      → String
      → String
      → String
      → String
      → Option ℕ
      → Option String
      → Request
  save_brief_of : String → Option String → String → ℕ → String → ℕ → Request
  list_briefs_of : String → ℕ → Request
  save_feedback_of : String → String → String → String → Option String → Request
  save_outcome_of : String → String → Option String → Option String → Request
  save_notification_of : String → String → String → String → Option String → Request
  list_notifications_of : Bool → ℕ → Request
  mark_read_of : String → Request
  create_accounts_of : String → List Upload → Request
  get_accounts_of : String → Request
  save_drafts_of : String → String → List Draft → Request
  get_drafts_of_account get_drafts_of_campaign : String → Request

pub data Reply : Type 0 where
  a_campaign : Scalar CampaignRow → Reply
  campaign_page : List CampaignRow × ℕ → Reply
  an_account : Scalar AccountRow → Reply
  account_list : List AccountRow → Reply
  campaign_accounts : List CampaignAccount → Reply
  contact_list : List ContactRow → Reply
  settings : Scalar SettingsRow → Reply
  a_user : Scalar UserRow → Reply
  user_list : List UserRow → Reply
  invitation_list : List InvitationRow → Reply
  a_score : Scalar ScoreRow → Reply
  a_signal : SignalRow → Reply
  signal_list : List SignalRow → Reply
  a_brief : Scalar BriefRow → Reply
  brief_list : List BriefRow → Reply
  a_feedback : FeedbackRow → Reply
  an_outcome : OutcomeRow → Reply
  a_notification : NotificationRow → Reply
  notification_list : List NotificationRow → Reply
  draft_list : List DraftRow → Reply
  is_found : Bool → Reply
  a_number : ℕ → Reply
  no_reply : Reply
  -- the server refuses the insert, and the request is rolled back
  raised : Reply

-- the reply and the database after
abbrev pub answer : {A : Type 0} → (A → Reply) → A × Db → Reply × Db
answer f (a, db) = (f a, db)

abbrev pub answer_or_raise : {A : Type 0} → (A → Reply) → Option (A × Db) → Db → Reply × Db
answer_or_raise f none db = (raised, db)
answer_or_raise f (some (a, db')) db = (f a, db')

-- `n` numbers the ids that the server makes for the request, `now` is its time
module _ (S : Sql) (uuid : ℕ → String) (n now : ℕ) (w : String) where
  abbrev pub perform : Request → Db → Reply × Db
  perform (get_campaign_of id) db = (a_campaign (get_campaign id w db), db)
  perform (get_account_of id) db = (an_account (get_account id w db), db)
  perform (get_contacts_of id) db = (contact_list (get_contacts_for_account S id w db), db)
  perform (create_campaign_of name icp seq) db =
      answer (λ c. a_campaign (one_row c)) (create_campaign (uuid n) now w name icp seq db)
  perform (list_campaigns_of offset limit) db =
      (campaign_page (list_campaigns S w offset limit db), db)
  perform (create_account_of name domain m) db =
      answer (λ a. an_account (one_row a)) (create_account (uuid n) now w name domain m db)
  perform (update_message_of id status) db = (no_reply, update_message_status id w status db)
  perform get_settings_of db = (settings (get_workspace_settings w db), db)
  perform list_users_of db = (user_list (list_users S w db), db)
  perform list_invitations_of db = (invitation_list (list_invitations S w db), db)
  perform count_unread_of db = (a_number (count_unread_notifications w db), db)
  perform (deactivate_api_key_of id) db = answer is_found (deactivate_api_key id w db)
  perform (create_user_of email name role) db =
      answer_or_raise (λ u. a_user (one_row u)) (create_user (uuid n) now w email name role db) db
  perform (get_user_of id) db = (a_user (get_user id w db), db)
  perform (get_user_by_email_of email) db = (a_user (get_user_by_email email w db), db)
  perform (deactivate_user_of id) db = answer is_found (deactivate_user id w db)
  perform (update_user_role_of id role) db = answer is_found (update_user_role id w role db)
  perform (save_score_of a icp pain time all conf fit non dis why) db =
      answer (λ s. a_score (one_row s))
        (save_account_score (uuid n) now w a icp pain time all conf fit non dis why db)
  perform (get_score_of a) db = (a_score (get_account_score S a w db), db)
  perform (get_signals_of a) db = (signal_list (get_signals_for_account S a w db), db)
  perform (get_brief_of a) db = (a_brief (get_seller_brief S a w db), db)
  perform (save_signal_of a type source fact impl conf rel rec date url) db =
      answer a_signal (save_signal (uuid n) now w a type source fact impl conf rel rec date url db)
  perform (save_brief_of a json action score conf version) db =
      answer (λ b. a_brief (one_row b))
        (save_seller_brief (uuid n) now w a json action score conf version db)
  perform (list_briefs_of action limit) db =
      (brief_list (list_seller_briefs_by_action S w action limit db), db)
  perform (save_feedback_of rec type user action corr) db =
      answer a_feedback (save_feedback_event (uuid n) now w rec type user action corr db)
  perform (save_outcome_of a event opp details) db =
      answer an_outcome (save_outcome_event (uuid n) now w a event opp details db)
  perform (save_notification_of type priority title message m) db =
      answer a_notification (save_notification (uuid n) now w type priority title message m db)
  perform (list_notifications_of unread limit) db =
      (notification_list (list_notifications S w unread limit db), db)
  perform (mark_read_of id) db = answer is_found (mark_notification_read id w db)
  perform (create_accounts_of c uploads) db =
      answer account_list (create_campaign_accounts uuid now c w n uploads db)
  perform (get_accounts_of c) db = (campaign_accounts (get_campaign_accounts S c w db), db)
  perform (save_drafts_of c a drafts) db =
      answer draft_list (save_draft_emails uuid n now w c a drafts db)
  perform (get_drafts_of_account a) db = (draft_list (get_draft_emails_for_account S a w db), db)
  perform (get_drafts_of_campaign c) db = (draft_list (get_draft_emails_for_campaign S c w db), db)

-- the rows of one workspace
abbrev pub own : {Row : Type 0} → (Row → String) → String → List Row → List Row
own ws w rows = select (scoped ws w any_row) rows

-- What a workspace sees: its rows of each table. The table of the workspaces belongs to none.
abbrev pub view : String → Db → Db
view w db = record {
  campaigns = own CampaignRow.workspace_id w db.campaigns;
  accounts = own AccountRow.workspace_id w db.accounts;
  contacts = own ContactRow.workspace_id w db.contacts;
  messages = own MessageRow.workspace_id w db.messages;
  workspace_settings = own SettingsRow.workspace_id w db.workspace_settings;
  workspaces = db.workspaces;
  api_keys = own ApiKeyRow.workspace_id w db.api_keys;
  users = own UserRow.workspace_id w db.users;
  invitations = own InvitationRow.workspace_id w db.invitations;
  account_scores = own ScoreRow.workspace_id w db.account_scores;
  signals = own SignalRow.workspace_id w db.signals;
  briefs = own BriefRow.workspace_id w db.briefs;
  feedback = own FeedbackRow.workspace_id w db.feedback;
  outcomes = own OutcomeRow.workspace_id w db.outcomes;
  notifications = own NotificationRow.workspace_id w db.notifications;
  links = own LinkRow.workspace_id w db.links;
  drafts = own DraftRow.workspace_id w db.drafts;
}

-- one request of a workspace, with what the server makes for it
pub record Call : Type 0 where
  pub workspace : String
  pub number : ℕ
  pub time : ℕ
  pub request : Request

-- the orders that the server gives rows in for the n-th request
module _ (S : ℕ → Sql) (uuid : ℕ → String) where
  abbrev pub call : Call → Db → Reply × Db
  call c = perform (S c.number) uuid c.number c.time c.workspace c.request

  -- Requests in the order in which the server commits them; the database after.
  abbrev pub run : List Call → Db → Db
  run [] db = db
  run (c ∷ calls) db = run calls (call c db).1

  -- the replies to one workspace
  abbrev pub replies : String → List Call → Db → List Reply
  replies w [] db = []
  replies w (c ∷ calls) db =
      let rest : List Reply = replies w calls (call c db).1 in
      if str_eq c.workspace w then (call c db).0 ∷ rest else rest

-- the requests of one workspace, in their order
abbrev pub calls_of : String → List Call → List Call
calls_of w [] = []
calls_of w (c ∷ calls) =
    let rest : List Call = calls_of w calls in if str_eq c.workspace w then c ∷ rest else rest
