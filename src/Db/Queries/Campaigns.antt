-- ===== src/Db/Queries/Campaigns.antt =====
-- src/db/queries.py, the queries on campaigns, accounts, contacts, messages and settings.
use cmo_agent.Common.{ℕ, String, Option, none, some, List, str_eq, take, ◌&&◌, if◌then◌else◌}
use cmo_agent.Db.Tables.{
  Sql, Scalar, select, insert, update, count, exists, scalar, scoped, any_row, drop,
}
use cmo_agent.Db.Rows.{
  CampaignRow, AccountRow, UploadMetadata, ContactRow, MessageRow, SettingsRow, Db,
}

abbrev pub get_campaign : String → String → Db → Scalar CampaignRow
get_campaign campaign_id w db =
    scalar (select (scoped CampaignRow.workspace_id w (λ r. str_eq r.id campaign_id)) db.campaigns)

abbrev pub create_campaign :
    String → ℕ → String → String → Option String → Option String → Db → CampaignRow × Db
create_campaign id now w name icp_criteria sequence_config db =
    let campaign : CampaignRow = record {
      id = id;
      workspace_id = w;
      name = name;
      icp_criteria = icp_criteria;
      sequence_config = sequence_config;
      created_at = now;
    } in
    (campaign, record db { campaigns = insert campaign db.campaigns })

abbrev pub list_campaigns : Sql → String → ℕ → ℕ → Db → List CampaignRow × ℕ
list_campaigns S w offset limit db =
    let total = count (scoped CampaignRow.workspace_id w any_row) db.campaigns in
    let rows = select (scoped CampaignRow.workspace_id w any_row) db.campaigns in
    (take limit (drop offset (S.order_desc CampaignRow.created_at rows)), total)

abbrev pub get_account : String → String → Db → Scalar AccountRow
get_account account_id w db =
    scalar (select (scoped AccountRow.workspace_id w (λ r. str_eq r.id account_id)) db.accounts)

abbrev pub create_account :
    String → ℕ → String → String → Option String → Option UploadMetadata → Db → AccountRow × Db
create_account id now w company_name domain metadata db =
    let account : AccountRow = record {
      id = id;
      workspace_id = w;
      company_name = company_name;
      domain = domain;
      metadata = metadata;
      created_at = now;
    } in
    (account, record db { accounts = insert account db.accounts })

abbrev pub get_contacts_for_account : Sql → String → String → Db → List ContactRow
get_contacts_for_account S account_id w db =
    S.unordered
      (select (scoped ContactRow.workspace_id w (λ r. str_eq r.account_id account_id)) db.contacts)

-- The account must be there, in whichever workspace: `account_id UUID NOT NULL REFERENCES accounts(id)`.
abbrev pub create_contact :
    String
    → ℕ
    → String
    → String
    → String
    → Option String
    → Option String
    → Option String
    → Db
    → Option (ContactRow × Db)
create_contact id now w account_id email first_name last_name role db =
    let contact : ContactRow = record {
      id = id;
      workspace_id = w;
      account_id = account_id;
      email = email;
      first_name = first_name;
      last_name = last_name;
      role = role;
      created_at = now;
    } in
    if exists (λ r. str_eq r.id account_id) db.accounts
    then some (contact, record db { contacts = insert contact db.contacts })
    else none

-- So must the contact and the campaign.
abbrev pub save_message :
    String
    → ℕ
    → String
    → String
    → String
    → Option String
    → String
    → String
    → Db
    → Option (MessageRow × Db)
save_message id now w contact_id campaign_id subject body stage db =
    let message : MessageRow = record {
      id = id;
      workspace_id = w;
      contact_id = contact_id;
      campaign_id = campaign_id;
      subject = subject;
      body = body;
      stage = stage;
      status = "draft";
      created_at = now;
    } in
    if exists (λ r. str_eq r.id contact_id) db.contacts
      && exists (λ r. str_eq r.id campaign_id) db.campaigns
    then some (message, record db { messages = insert message db.messages })
    else none

abbrev pub update_message_status : String → String → String → Db → Db
update_message_status message_id w status db = record db {
  messages =
      update (scoped MessageRow.workspace_id w (λ r. str_eq r.id message_id))
        (λ r. record r { status = status }) db.messages;
}

abbrev pub get_workspace_settings : String → Db → Scalar SettingsRow
get_workspace_settings w db =
    scalar (select (scoped SettingsRow.workspace_id w any_row) db.workspace_settings)
