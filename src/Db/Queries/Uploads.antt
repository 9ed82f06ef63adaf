-- ===== src/Db/Queries/Uploads.antt =====
-- src/db/queries.py, create_campaign_accounts and get_campaign_accounts.
use cmo_agent.Common.{
  ℕ, suc, ◌+◌, String, Bool, true, false, Option, none, some, List, [], ◌∷◌, ◌++◌, map, length,
  str_eq, if◌then◌else◌,
}
use cmo_agent.Db.Tables.{Sql, select, insert, scoped}
use cmo_agent.Db.Rows.{AccountRow, UploadMetadata, ContactRow, LinkRow, Db}

-- one contact, and one item of `accounts`
pub record UploadContact : Type 0 where
  pub email : String
  pub first_name : Option String
  pub last_name : Option String
  pub role : Option String

pub record Upload : Type 0 where
  pub company_name : String
  pub domain : Option String
  pub industry : Option String
  pub employee_count : Option ℕ
  pub revenue : Option String
  pub contacts : List UploadContact

-- `uuid n` is the id that the server makes for its n-th row
module _ (uuid : ℕ → String) (now : ℕ) (campaign_id w : String) where
  abbrev pub uploaded_account : ℕ → Upload → AccountRow
  uploaded_account n u = record {
    id = uuid n;
    workspace_id = w;
    company_name = u.company_name;
    domain = u.domain;
    metadata = some (record {
      source = "manual_upload";
      campaign_id = campaign_id;
      industry = u.industry;
      employee_count = u.employee_count;
      revenue = u.revenue;
    });
    created_at = now;
  }

  abbrev pub uploaded_link : ℕ → LinkRow
  uploaded_link n = record {
    id = uuid (suc n);
    workspace_id = w;
    campaign_id = campaign_id;
    account_id = uuid n;
    source = "manual_upload";
  }

  -- the contacts of the account `n`, the first with the id number `m`
  abbrev pub uploaded_contacts : ℕ → ℕ → List UploadContact → List ContactRow
  uploaded_contacts n m [] = []
  uploaded_contacts n m (ct ∷ contacts) =
      record {
        id = uuid m;
        workspace_id = w;
        account_id = uuid n;
        email = ct.email;
        first_name = ct.first_name;
        last_name = ct.last_name;
        role = ct.role;
        created_at = now;
      }
      ∷ uploaded_contacts n (suc m) contacts

  -- the number of the id after those of an item
  abbrev pub next_number : ℕ → Upload → ℕ
  next_number n u = length u.contacts + suc (suc n)

  abbrev pub create_campaign_accounts : ℕ → List Upload → Db → List AccountRow × Db
  create_campaign_accounts n [] db = ([], db)
  create_campaign_accounts n (u ∷ uploads) db =
      let account = uploaded_account n u in
      let (created, db') = create_campaign_accounts (next_number n u) uploads (record db {
        accounts = insert account db.accounts;
        links = insert (uploaded_link n) db.links;
        contacts = db.contacts ++ uploaded_contacts n (suc (suc n)) u.contacts;
      }) in
      (account ∷ created, db')

-- `x in xs`
abbrev pub is_in : String → List String → Bool
is_in x [] = false
is_in x (y ∷ ys) = let rest : Bool = is_in x ys in if str_eq x y then true else rest

pub record CampaignContact : Type 0 where
  pub id : String
  pub email : String
  pub first_name : Option String
  pub last_name : Option String
  pub role : Option String

pub record CampaignAccount : Type 0 where
  pub id : String
  pub company_name : String
  pub domain : Option String
  pub industry : Option String
  pub employee_count : Option ℕ
  pub revenue : Option String
  pub contacts : List CampaignContact

abbrev pub contact_entry : ContactRow → CampaignContact
contact_entry ct = record {
  id = ct.id;
  email = ct.email;
  first_name = ct.first_name;
  last_name = ct.last_name;
  role = ct.role;
}

-- `contacts_by_account.get(id, [])`: setdefault and append keep the order of the rows
abbrev pub contacts_of : String → List ContactRow → List CampaignContact
contacts_of id [] = []
contacts_of id (ct ∷ contacts) =
    let rest : List CampaignContact = contacts_of id contacts in
    if str_eq ct.account_id id then contact_entry ct ∷ rest else rest

abbrev pub industry_of : Option UploadMetadata → Option String
industry_of none = none
industry_of (some m) = m.industry

abbrev pub employee_count_of : Option UploadMetadata → Option ℕ
employee_count_of none = none
employee_count_of (some m) = m.employee_count

abbrev pub revenue_of : Option UploadMetadata → Option String
revenue_of none = none
revenue_of (some m) = m.revenue

abbrev pub account_entry : List ContactRow → AccountRow → CampaignAccount
account_entry contacts acct = record {
  id = acct.id;
  company_name = acct.company_name;
  domain = acct.domain;
  industry = industry_of acct.metadata;
  employee_count = employee_count_of acct.metadata;
  revenue = revenue_of acct.metadata;
  contacts = contacts_of acct.id contacts;
}

abbrev pub linked_ids : String → String → Db → List String
linked_ids campaign_id w db =
    map LinkRow.account_id
      (select (scoped LinkRow.workspace_id w (λ r. str_eq r.campaign_id campaign_id)) db.links)

-- the accounts of some ids, with their contacts
abbrev pub matched : Sql → String → List String → Db → List CampaignAccount
matched S w ids db =
    let accounts = select (scoped AccountRow.workspace_id w (λ r. is_in r.id ids)) db.accounts in
    let contacts =
      select (scoped ContactRow.workspace_id w (λ r. is_in r.account_id ids)) db.contacts in
    map (account_entry (S.unordered contacts)) (S.unordered accounts)

-- No ids, no rows: the early return for no link is the general case. The order of the ids does not matter.
abbrev pub get_campaign_accounts : Sql → String → String → Db → List CampaignAccount
get_campaign_accounts S campaign_id w db = matched S w (linked_ids campaign_id w db) db
