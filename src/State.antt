-- ===== src/State.antt =====
-- src/agent/state.py: the shapes of the data that flow through the outbound graph. Fields that the
-- nodes only hand on to a prompt or a log line (names, scores, reasoning texts) are left out. Of a
-- dict of free form the keys that the nodes read are fields.
use cmo_agent.Common.{ℕ, String, Bool, Option, none, List, []}

-- the keys of `Account.metadata` that the program reads
pub record Metadata : Type 0 where
  pub enrichment_retries : Option ℕ
  pub geography : Option String
  pub country : Option String
  pub signals : List String
  pub is_customer : Bool

abbrev pub no_metadata : Metadata
no_metadata = record {
  enrichment_retries = none;
  geography = none;
  country = none;
  signals = [];
  is_customer = Bool.false;
}

pub record Account : Type 0 where
  pub id : String
  pub workspace_id : String
  pub company_name : String
  pub domain : Option String
  pub industry : Option String
  pub employee_count : Option ℕ
  pub metadata : Metadata

pub record Contact : Type 0 where
  pub id : String
  pub workspace_id : String
  pub account_id : String
  pub email : String
  pub role : Option String

-- the keys of `Campaign.sequence_config` that the nodes read; `automation_enabled` is
-- `sequence_config["automation"]["enabled"]`, and `stages` holds each stage's template
pub record SequenceConfig : Type 0 where
  pub slack_channel : Option String
  pub sales_channel : Option String
  pub automation_enabled : Option Bool
  pub stages : List String

pub record Campaign : Type 0 where
  pub id : String
  pub workspace_id : String
  pub sequence_config : SequenceConfig

pub record Message : Type 0 where
  pub id : String
  pub workspace_id : String
  pub contact_id : String
  pub campaign_id : String
  pub subject : String
  pub body : String
  pub stage : ℕ
  pub status : String

pub record EnrichmentResult : Type 0 where
  pub company_summary : String
  pub pain_points : List String
  pub personalization_hooks : List String

pub record PersonalizedEmail : Type 0 where
  pub subject_line : String
  pub body : String

pub data Intent : Type 0 where
  positive negative neutral unsubscribe : Intent

pub record ReplyAnalysis : Type 0 where
  pub intent : Intent

-- A TypedDict with `total=False`: the integers and the flag may be missing, and then each reader has
-- its own default. A missing list is read as the empty one, and a missing object as None, except where a node
-- reads `state["current_account"]`.
pub record OutboundState : Type 0 where
  pub thread_id : String
  pub workspace_id : String
  pub campaign : Option Campaign
  pub accounts : List Account
  pub current_account : Option Account
  -- whether that key is there
  pub has_current_account : Bool
  pub contacts : List Contact
  pub current_contact : Option Contact
  pub enrichment : Option EnrichmentResult
  pub draft_email : Option PersonalizedEmail
  pub approval_status : Option String
  pub sent_messages : List Message
  pub reply_analysis : Option ReplyAnalysis
  pub current_stage : Option ℕ
  pub max_stages : Option ℕ
  pub error : Option String
  pub should_continue : Option Bool
