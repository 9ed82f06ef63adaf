-- ===== src/Db/UploadTrip.antt =====
-- src/db/queries.py: what get_campaign_accounts gives after create_campaign_accounts.
pub mod Added
pub mod Unordered
use cmo_agent.Common.{
  ℕ, suc, ◌+◌, ◌≤◌, String, Bool, ◌≡◌, ◌≢◌, refl, ap, ◌∙◌, All, List, [], ◌∷◌, ◌++◌, map, true,
  false, Bool-cases, inl, inr, str_eq, if◌then◌else◌, arith, sym, eq_refl, length, append_nil,
  append_assoc, All-weaken, All-append, subst,
}
use mathlib.Core.List.{map-append}
use cmo_agent.Db.Tables.{Sql, select, scoped}
use cmo_agent.Db.Rows.{AccountRow, ContactRow, LinkRow, Db}
use cmo_agent.Db.Own.{select-append, select-every, select-none}
use cmo_agent.Db.Queries.Uploads.{
  UploadContact, Upload, uploaded_account, uploaded_link, uploaded_contacts, next_number,
  create_campaign_accounts, is_in, CampaignContact, CampaignAccount, contact_entry, contacts_of,
  account_entry, linked_ids, get_campaign_accounts,
}
use cmo_agent.Db.UploadTrip.Unordered.{SameAccounts, matched-SameAccounts}
use cmo_agent.Db.UploadTrip.Added.{
  accounts_from, contacts_from, ids_from, listed_contacts, listed_account, listed, create-effect,
  linked_ids-create, is_in-later, accounts-in, contacts-in,
}

module _ (uuid : ℕ → String) (now : ℕ) (c w : String) where
  -- no id from the number `n` on is `x`
  abbrev Unused : ℕ → String → Type 0
  Unused n x = (k : ℕ) → n ≤ k → str_eq x (uuid k) ≡ false

  contacts_of-append :
      (id : String) (xs ys : List ContactRow)
      → contacts_of id (xs ++ ys) ≡ contacts_of id xs ++ contacts_of id ys
  contacts_of-append id [] ys = refl
  contacts_of-append id (x ∷ xs) ys = ground (arith, contacts_of-append id xs ys)

  contacts_of-none :
      (id : String) (xs : List ContactRow)
      → All (λ r. str_eq r.account_id id ≡ false) xs
      → contacts_of id xs ≡ []
  contacts_of-none id [] h = refl
  contacts_of-none id (x ∷ xs) h = ground (arith, contacts_of-none id xs h.1)

  contacts_of-block :
      (n m : ℕ) (cts : List UploadContact)
      → contacts_of (uuid n) (uploaded_contacts uuid now c w n m cts)
        ≡ listed_contacts uuid now c w m cts
  contacts_of-block n m [] = refl
  contacts_of-block n m (ct ∷ cts) = rw (eq_refl (uuid n), contacts_of-block n (suc m) cts)

  block-All :
      (P : String → Type 0) (n m : ℕ) (cts : List UploadContact)
      → P (uuid n)
      → All (λ r. P r.account_id) (uploaded_contacts uuid now c w n m cts)
  block-All P n m [] h = tt
  block-All P n m (ct ∷ cts) h = (h, block-All P n (suc m) cts h)

  later-All :
      (P : String → Type 0) (n : ℕ) (us : List Upload)
      → ((k : ℕ) → n ≤ k → P (uuid k))
      → All (λ r. P r.account_id) (contacts_from uuid now c w n us)
  later-All P n [] h = tt
  later-All P n (u ∷ us) h =
      All-append _ (uploaded_contacts uuid now c w n (suc (suc n)) u.contacts)
        (contacts_from uuid now c w (next_number uuid now c w n u) us)
        (block-All P n (suc (suc n)) u.contacts (h n (omega arith)))
        (later-All P (next_number uuid now c w n u) us (λ k le. h k (omega (arith, le))))

  own_contacts :
      ((i k : ℕ) → i ≢ k → str_eq (uuid i) (uuid k) ≡ false)
      → (n : ℕ) (u : Upload) (us : List Upload) (before : List ContactRow)
      → All (λ r. Unused n r.account_id) before
      → contacts_of (uuid n) (
          before
          ++ (uploaded_contacts uuid now c w n (suc (suc n)) u.contacts
              ++ contacts_from uuid now c w (next_number uuid now c w n u) us))
        ≡ listed_contacts uuid now c w (suc (suc n)) u.contacts
  own_contacts distinct n u us before unused =
      let m : ℕ = next_number uuid now c w n u in
      let block = uploaded_contacts uuid now c w n (suc (suc n)) u.contacts in
      rw (
        contacts_of-append (uuid n) before (block ++ contacts_from uuid now c w m us),
        contacts_of-append (uuid n) block (contacts_from uuid now c w m us),
        contacts_of-none (uuid n) before (All-weaken _ _ before (λ r h. h n (omega arith)) unused),
        contacts_of-none (uuid n) (contacts_from uuid now c w m us) (
            later-All (λ x. str_eq x (uuid n) ≡ false) m us
              (λ k le. distinct k n (λ e. omega (arith, le, e)))),
        contacts_of-block n (suc (suc n)) u.contacts,
        append_nil (listed_contacts uuid now c w (suc (suc n)) u.contacts),
      )

  entries :
      ((i k : ℕ) → i ≢ k → str_eq (uuid i) (uuid k) ≡ false)
      → (n : ℕ) (us : List Upload) (before : List ContactRow)
      → All (λ r. Unused n r.account_id) before
      → map
          (account_entry (before ++ contacts_from uuid now c w n us))
          (accounts_from uuid now c w n us)
        ≡ listed uuid now c w n us
  entries distinct n [] before unused = refl
  entries distinct n (u ∷ us) before unused =
      let m : ℕ = next_number uuid now c w n u in
      let block : List ContactRow = uploaded_contacts uuid now c w n (suc (suc n)) u.contacts in
      let unused' : All (λ r. Unused m r.account_id) (before ++ block) =
        All-append _ before block
          (All-weaken _ _ before (λ r h k le. h k (omega (arith, le))) unused)
          (block-All (Unused m) n (suc (suc n)) u.contacts
            (λ k le. distinct n k (λ e. omega (arith, le, e)))) in
      rw (own_contacts distinct n u us before unused) (
        ap (λ rest. listed_account uuid now c w n u ∷ rest)
          (ap (λ all. map (account_entry all) (accounts_from uuid now c w m us))
              (sym (append_assoc before block (contacts_from uuid now c w m us)))
            ∙ entries distinct m us (before ++ block) unused'))

  -- the accounts and contacts of some ids, in the order of the tables
  abbrev in_order : List String → Db → List CampaignAccount
  in_order ids db =
      map
        (account_entry
          (select (scoped ContactRow.workspace_id w (λ r. is_in r.account_id ids)) db.contacts))
        (select (scoped AccountRow.workspace_id w (λ r. is_in r.id ids)) db.accounts)

  in_table_order :
      (n : ℕ) (us : List Upload) (db : Db)
      → ((i k : ℕ) → i ≢ k → str_eq (uuid i) (uuid k) ≡ false)
      → All (λ r. Unused n r.id) db.accounts
      → All (λ r. Unused n r.account_id) db.contacts
      → linked_ids c w db ≡ []
      → let after = (create_campaign_accounts uuid now c w n us db).1 in
        in_order (linked_ids c w after) after ≡ listed uuid now c w n us
  in_table_order n us db distinct fresh_accounts fresh_contacts first_upload =
      let ids : List String = ids_from uuid now c w n us in
      let is_account : AccountRow → Bool = scoped AccountRow.workspace_id w (λ r. is_in r.id ids) in
      let is_contact : ContactRow → Bool =
        scoped ContactRow.workspace_id w (λ r. is_in r.account_id ids) in
      ap (λ xs. in_order xs (create_campaign_accounts uuid now c w n us db).1)
        (linked_ids-create uuid now c w n us db first_upload)
      ∙ ap (in_order ids) (create-effect uuid now c w n us db)
      ∙ rw
          (
            select-append is_contact db.contacts (contacts_from uuid now c w n us),
            select-append is_account db.accounts (accounts_from uuid now c w n us),
            select-none is_contact db.contacts (
                All-weaken _ _ db.contacts
                  (λ r h. ground (arith, is_in-later uuid now c w r.account_id n us h))
                  fresh_contacts),
            select-none is_account db.accounts (
                All-weaken _ _ db.accounts
                  (λ r h. ground (arith, is_in-later uuid now c w r.id n us h)) fresh_accounts),
            select-every is_contact (contacts_from uuid now c w n us)
                (contacts-in uuid now c w n us),
            select-every is_account (accounts_from uuid now c w n us)
                (accounts-in uuid now c w n us),
          )
          (entries distinct n us [] tt)

  -- After a first upload to a campaign, get_campaign_accounts gives the uploaded accounts, each once and with its data
  -- and its contacts, in some order of the accounts and of the contacts of each, if the ids that the server makes are
  -- distinct and no older row has one of them.
  pub upload_trip :
      (S : Sql) (n : ℕ) (us : List Upload) (db : Db)
      → ((i k : ℕ) → i ≢ k → str_eq (uuid i) (uuid k) ≡ false)
      → All (λ r. Unused n r.id) db.accounts
      → All (λ r. Unused n r.account_id) db.contacts
      → linked_ids c w db ≡ []
      → SameAccounts
          (get_campaign_accounts S c w (create_campaign_accounts uuid now c w n us db).1)
          (listed uuid now c w n us)
  upload_trip S n us db distinct fresh_accounts fresh_contacts first_upload =
      let after : Db = (create_campaign_accounts uuid now c w n us db).1 in
      subst (λ es. SameAccounts (get_campaign_accounts S c w after) es)
        (in_table_order n us db distinct fresh_accounts fresh_contacts first_upload)
        (matched-SameAccounts S w (linked_ids c w after) after)
