-- ===== src/Outbound/World.antt =====
-- What the nodes of the outbound pipeline ask of the outside in one step (tools, the webhooks of n8n,
-- the model, the database), as one record of answers, and what they do to it, as effects. `none` is a
-- call that raises.
use cmo_agent.Common.{ℕ, String, Bool, Option, List}
use cmo_agent.State.{EnrichmentResult, PersonalizedEmail}

pub data Research : Type 0 where
  found : EnrichmentResult → Research
  failed : String → Research

-- the model's classification of a reply: text that is no JSON, or the value under "intent"
pub data Classification : Type 0 where
  unparsable : Classification
  intent : Option String → Classification

pub record Answers : Type 0 where
  pub research : Research
  pub write : String → Option PersonalizedEmail
  pub slack_status : Option String
  pub post_status : Option ℕ
  pub saved_id : Option String
  pub check_status : Option ℕ
  pub reply_text : String
  pub classification : Option Classification
  pub update_ok : Bool

pub data Effect : Type 0 where
  -- the e-mail handed to the webhook: contact, stage and text
  posted : String → ℕ → PersonalizedEmail → Effect
  -- the draft shown in Slack for approval: channel, draft, and the status that came back
  asked : String → PersonalizedEmail → String → Effect
  notified_sales : String → Effect
  logged_activity : String → Effect
  marked_unsubscribed : List String → Effect
