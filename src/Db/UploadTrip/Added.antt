-- ===== src/Db/UploadTrip/Added.antt =====
-- src/db/queries.py: the rows that create_campaign_accounts adds.
use cmo_agent.Common.{
  ℕ, suc, ◌≤◌, String, ◌≡◌, refl, ap, ◌∙◌, All, List, [], ◌∷◌, ◌++◌, map, true, false, str_eq,
  arith, eq_refl, append_nil, append_assoc, All-weaken, All-append,
}
use mathlib.Core.List.{map-append}
use cmo_agent.Db.Tables.{select, scoped}
use cmo_agent.Db.Rows.{AccountRow, ContactRow, LinkRow, Db}
use cmo_agent.Db.Own.{select-append}
use cmo_agent.Db.Queries.Uploads.{
  UploadContact, Upload, uploaded_account, uploaded_link, uploaded_contacts, next_number,
  create_campaign_accounts, is_in, CampaignContact, CampaignAccount, linked_ids,
}

module _ (uuid : ℕ → String) (now : ℕ) (c w : String) where
  -- The rows that an upload adds, and what it lists: the specification that the query is compared with.
  abbrev pub accounts_from : ℕ → List Upload → List AccountRow
  accounts_from n [] = []
  accounts_from n (u ∷ us) =
      uploaded_account uuid now c w n u ∷ accounts_from (next_number uuid now c w n u) us

  abbrev links_from : ℕ → List Upload → List LinkRow
  links_from n [] = []
  links_from n (u ∷ us) =
      uploaded_link uuid now c w n ∷ links_from (next_number uuid now c w n u) us

  abbrev pub contacts_from : ℕ → List Upload → List ContactRow
  contacts_from n [] = []
  contacts_from n (u ∷ us) =
      uploaded_contacts uuid now c w n (suc (suc n)) u.contacts
      ++ contacts_from (next_number uuid now c w n u) us

  abbrev pub ids_from : ℕ → List Upload → List String
  ids_from n [] = []
  ids_from n (u ∷ us) = uuid n ∷ ids_from (next_number uuid now c w n u) us

  abbrev pub listed_contacts : ℕ → List UploadContact → List CampaignContact
  listed_contacts m [] = []
  listed_contacts m (ct ∷ cts) =
      record {
        id = uuid m;
        email = ct.email;
        first_name = ct.first_name;
        last_name = ct.last_name;
        role = ct.role;
      }
      ∷ listed_contacts (suc m) cts

  abbrev pub listed_account : ℕ → Upload → CampaignAccount
  listed_account n u = record {
    id = uuid n;
    company_name = u.company_name;
    domain = u.domain;
    industry = u.industry;
    employee_count = u.employee_count;
    revenue = u.revenue;
    contacts = listed_contacts (suc (suc n)) u.contacts;
  }

  abbrev pub listed : ℕ → List Upload → List CampaignAccount
  listed n [] = []
  listed n (u ∷ us) = listed_account n u ∷ listed (next_number uuid now c w n u) us

  pub create-effect :
      (n : ℕ) (us : List Upload) (db : Db)
      → (create_campaign_accounts uuid now c w n us db).1 ≡ record db {
        accounts = db.accounts ++ accounts_from n us;
        links = db.links ++ links_from n us;
        contacts = db.contacts ++ contacts_from n us;
      }
  create-effect n [] db = rw (append_nil db.accounts, append_nil db.links, append_nil db.contacts)
  create-effect n (u ∷ us) db =
      let m : ℕ = next_number uuid now c w n u in
      let cts : List ContactRow = uploaded_contacts uuid now c w n (suc (suc n)) u.contacts in
      create-effect m us (record db {
        accounts = db.accounts ++ uploaded_account uuid now c w n u ∷ [];
        links = db.links ++ uploaded_link uuid now c w n ∷ [];
        contacts = db.contacts ++ cts;
      })
      ∙ rw (
        append_assoc db.accounts (uploaded_account uuid now c w n u ∷ []) (accounts_from m us),
        append_assoc db.links (uploaded_link uuid now c w n ∷ []) (links_from m us),
        append_assoc db.contacts cts (contacts_from m us),
      )

  links-ids :
      (n : ℕ) (us : List Upload)
      → map LinkRow.account_id
          (select (scoped LinkRow.workspace_id w (λ r. str_eq r.campaign_id c)) (links_from n us))
        ≡ ids_from n us
  links-ids n [] = refl
  links-ids n (u ∷ us) = rw (eq_refl w, eq_refl c, links-ids (next_number uuid now c w n u) us)

  pub linked_ids-create :
      (n : ℕ) (us : List Upload) (db : Db)
      → linked_ids c w db ≡ []
      → linked_ids c w (create_campaign_accounts uuid now c w n us db).1 ≡ ids_from n us
  linked_ids-create n us db none_yet =
      ap (linked_ids c w) (create-effect n us db)
      ∙ rw (
        select-append (scoped LinkRow.workspace_id w (λ r. str_eq r.campaign_id c)) db.links
            (links_from n us),
        map-append LinkRow.account_id
            (select (scoped LinkRow.workspace_id w (λ r. str_eq r.campaign_id c)) db.links)
            (select (scoped LinkRow.workspace_id w (λ r. str_eq r.campaign_id c))
              (links_from n us)),
        none_yet,
        links-ids n us,
      )

  pub is_in-later :
      (x : String) (n : ℕ) (us : List Upload)
      → ((k : ℕ) → n ≤ k → str_eq x (uuid k) ≡ false)
      → is_in x (ids_from n us) ≡ false
  is_in-later x n [] fresh = refl
  is_in-later x n (u ∷ us) fresh =
      let m : ℕ = next_number uuid now c w n u in
      rw (fresh n (omega arith), is_in-later x m us (λ k h. fresh k (omega (arith, h))))

  is_in-tail : (x y : String) (ids : List String) → is_in x ids ≡ true → is_in x (y ∷ ids) ≡ true
  is_in-tail x y ids h = ground (arith, h)

  pub accounts-in :
      (n : ℕ) (us : List Upload)
      → All
          (λ r. scoped AccountRow.workspace_id w (λ a. is_in a.id (ids_from n us)) r ≡ true)
          (accounts_from n us)
  accounts-in n [] = tt
  accounts-in n (u ∷ us) =
      let m : ℕ = next_number uuid now c w n u in
      (
        ground (arith, eq_refl w, eq_refl (uuid n)),
        All-weaken _ _ (accounts_from m us)
            (λ r h. ground (arith, h, is_in-tail r.id (uuid n) (ids_from m us))) (accounts-in m us),
      )

  block-in :
      (n m : ℕ) (cts : List UploadContact) (ids : List String)
      → All
          (λ r. scoped ContactRow.workspace_id w (λ a. is_in a.account_id (uuid n ∷ ids)) r ≡ true)
          (uploaded_contacts uuid now c w n m cts)
  block-in n m [] ids = tt
  block-in n m (ct ∷ cts) ids =
      (ground (arith, eq_refl w, eq_refl (uuid n)), block-in n (suc m) cts ids)

  pub contacts-in :
      (n : ℕ) (us : List Upload)
      → All
          (λ r. scoped ContactRow.workspace_id w (λ a. is_in a.account_id (ids_from n us)) r ≡ true)
          (contacts_from n us)
  contacts-in n [] = tt
  contacts-in n (u ∷ us) =
      let m : ℕ = next_number uuid now c w n u in
      All-append _ (uploaded_contacts uuid now c w n (suc (suc n)) u.contacts) (contacts_from m us)
        (block-in n (suc (suc n)) u.contacts (ids_from m us))
        (All-weaken _ _ (contacts_from m us)
          (λ r h. ground (arith, h, is_in-tail r.account_id (uuid n) (ids_from m us)))
          (contacts-in m us))
