-- ===== src/Db/Rows.antt =====
-- src/db/queries.py, the classes of the tables. A column of JSON or of floats, which the queries only hand
-- on, is kept as its text; a time is a number. Of `accounts.metadata` the keys that are read are fields.
use cmo_agent.Common.{ℕ, String, Bool, Option, List}

pub record CampaignRow : Type 0 where
  pub id : String
  pub workspace_id : String
  pub name : String
  pub icp_criteria : Option String
  pub sequence_config : Option String
  pub created_at : ℕ

pub record UploadMetadata : Type 0 where
  pub source : String
  pub campaign_id : String
  pub industry : Option String
  pub employee_count : Option ℕ
  pub revenue : Option String

pub record AccountRow : Type 0 where
  pub id : String
  pub workspace_id : String
  pub company_name : String
  pub domain : Option String
  pub metadata : Option UploadMetadata
  pub created_at : ℕ

pub record ContactRow : Type 0 where
  pub id : String
  pub workspace_id : String
  pub account_id : String
  pub email : String
  pub first_name : Option String
  pub last_name : Option String
  pub role : Option String
  pub created_at : ℕ

pub record MessageRow : Type 0 where
  pub id : String
  pub workspace_id : String
  pub contact_id : String
  pub campaign_id : String
  pub subject : Option String
  pub body : String
  pub stage : String
  pub status : String
  pub created_at : ℕ

pub record SettingsRow : Type 0 where
  pub id : String
  pub workspace_id : String
  pub settings_data : Option String

pub record WorkspaceRow : Type 0 where
  pub id : String
  pub name : String
  pub plan : String
  pub created_at : ℕ

pub record ApiKeyRow : Type 0 where
  pub id : String
  pub workspace_id : String
  pub key_hash : String
  pub name : String
  pub is_active : Bool
  pub created_at : ℕ
  pub last_used_at : Option ℕ

pub record UserRow : Type 0 where
  pub id : String
  pub workspace_id : String
  pub email : String
  pub name : String
  pub role : String
  pub is_active : Bool
  pub created_at : ℕ

pub record InvitationRow : Type 0 where
  pub id : String
  pub workspace_id : String
  pub email : String
  pub role : String
  pub invited_by : String
  pub status : String
  pub created_at : ℕ

pub record ScoreRow : Type 0 where
  pub id : String
  pub workspace_id : String
  pub account_id : String
  pub icp_fit_score : ℕ
  pub pain_fit_score : ℕ
  pub timing_score : ℕ
  pub overall_priority_score : ℕ
  pub fit_reasons : Option String
  pub non_fit_reasons : Option String
  pub confidence_score : String
  pub is_disqualified : Bool
  pub disqualify_reason : Option String
  pub scored_at : ℕ

pub record SignalRow : Type 0 where
  pub id : String
  pub workspace_id : String
  pub account_id : String
  pub signal_type : String
  pub source : String
  pub observed_fact : String
  pub possible_implication : String
  pub event_date : Option ℕ
  pub recency_score : String
  pub reliability_score : String
  pub confidence : String
  pub source_url : Option String
  pub created_at : ℕ

pub record BriefRow : Type 0 where
  pub id : String
  pub workspace_id : String
  pub account_id : String
  pub version : ℕ
  pub brief_json : Option String
  pub action_type : String
  pub overall_score : ℕ
  pub confidence_score : String
  pub generated_at : ℕ

pub record FeedbackRow : Type 0 where
  pub id : String
  pub workspace_id : String
  pub recommendation_id : String
  pub recommendation_type : String
  pub user_id : String
  pub action_taken : String
  pub correction : Option String
  pub created_at : ℕ

pub record OutcomeRow : Type 0 where
  pub id : String
  pub workspace_id : String
  pub account_id : String
  pub opportunity_id : Option String
  pub event_type : String
  pub details : Option String
  pub created_at : ℕ

pub record NotificationRow : Type 0 where
  pub id : String
  pub workspace_id : String
  pub notification_type : String
  pub priority : String
  pub title : String
  pub message : String
  pub metadata : Option String
  pub read : Bool
  pub created_at : ℕ

pub record LinkRow : Type 0 where
  pub id : String
  pub workspace_id : String
  pub campaign_id : String
  pub account_id : String
  pub source : String

pub record DraftRow : Type 0 where
  pub id : String
  pub workspace_id : String
  pub campaign_id : String
  pub account_id : String
  pub contact_id : String
  pub contact_name : String
  pub contact_email : String
  pub subject_line : String
  pub body : String
  pub personalization_score : String
  pub value_prop_used : Option String
  pub stage : ℕ
  pub created_at : ℕ

-- the database
pub record Db : Type 0 where
  pub campaigns : List CampaignRow
  pub accounts : List AccountRow
  pub contacts : List ContactRow
  pub messages : List MessageRow
  pub workspace_settings : List SettingsRow
  pub workspaces : List WorkspaceRow
  pub api_keys : List ApiKeyRow
  pub users : List UserRow
  pub invitations : List InvitationRow
  pub account_scores : List ScoreRow
  pub signals : List SignalRow
  pub briefs : List BriefRow
  pub feedback : List FeedbackRow
  pub outcomes : List OutcomeRow
  pub notifications : List NotificationRow
  pub links : List LinkRow
  pub drafts : List DraftRow
