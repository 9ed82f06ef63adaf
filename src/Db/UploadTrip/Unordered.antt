-- ===== src/Db/UploadTrip/Unordered.antt =====
-- src/db/queries.py: get_campaign_accounts, whose SELECTs have no ORDER BY, and the same in the order of the tables.
use cmo_agent.Common.{String, ◌≡◌, refl, List, [], ◌∷◌, map, str_eq, Bool-cases, inl, inr, sym}
use mathlib.Core.List.{Permᴰ}
use mathlib.Core.List.Permᴰ
use cmo_agent.Db.Tables.{Sql, select, scoped}
use cmo_agent.Db.Rows.{AccountRow, ContactRow, Db}
use cmo_agent.Db.Queries.Uploads.{CampaignAccount, contacts_of, account_entry, is_in, matched}

-- the same data, and the same contacts in some order
pub record SameAccount (a b : CampaignAccount) : Type 0 where
  pub same_id : a.id ≡ b.id
  pub same_name : a.company_name ≡ b.company_name
  pub same_domain : a.domain ≡ b.domain
  pub same_industry : a.industry ≡ b.industry
  pub same_employee_count : a.employee_count ≡ b.employee_count
  pub same_revenue : a.revenue ≡ b.revenue
  pub same_contacts : Permᴰ a.contacts b.contacts

-- one by one
pub data Pairs : List CampaignAccount → List CampaignAccount → Type 0 where
  none_left : Pairs [] []
  pair :
      {a b : CampaignAccount} {as' bs : List CampaignAccount}
      → SameAccount a b
      → Pairs as' bs
      → Pairs (a ∷ as') (b ∷ bs)

-- the same accounts, in some order
pub SameAccounts : List CampaignAccount → List CampaignAccount → Type 0
SameAccounts xs ys = (zs : List CampaignAccount) × Permᴰ xs zs × Pairs zs ys

contacts_of-Perm :
    (id : String) {xs ys : List ContactRow}
    → Permᴰ xs ys
    → Permᴰ (contacts_of id xs) (contacts_of id ys)
contacts_of-Perm id Permᴰ.nil = Permᴰ.nil
contacts_of-Perm id (Permᴰ.cons {a} {b} e p) = elim (Bool-cases (str_eq a.account_id id)) [
  | inl mine ↦ rw (sym e) (rw mine (Permᴰ.cons refl (contacts_of-Perm id p)))
  | inr other ↦ rw (sym e) (rw other (contacts_of-Perm id p))
]
contacts_of-Perm id (Permᴰ.swap {a} {b} {l = l} e f) =
    rw (sym e, sym f)
      (elim (Bool-cases (str_eq a.account_id id)) [
        | inl mine ↦ elim (Bool-cases (str_eq b.account_id id)) [
          | inl too ↦ rw (mine, too) (Permᴰ.swap refl refl)
          | inr not_too ↦ rw (mine, not_too) (Permᴰ.refl _)
        ]
        | inr other ↦ rw other (Permᴰ.refl _)
      ])
contacts_of-Perm id (Permᴰ.trans p q) = Permᴰ.trans (contacts_of-Perm id p) (contacts_of-Perm id q)

entries-Pairs :
    {xs ys : List ContactRow} (rows : List AccountRow)
    → Permᴰ xs ys
    → Pairs (map (account_entry xs) rows) (map (account_entry ys) rows)
entries-Pairs [] p = none_left
entries-Pairs (r ∷ rows) p =
    pair
      (record {
        same_id = refl;
        same_name = refl;
        same_domain = refl;
        same_industry = refl;
        same_employee_count = refl;
        same_revenue = refl;
        same_contacts = contacts_of-Perm r.id p;
      })
      (entries-Pairs rows p)

-- Whatever the orders, the accounts of some ids are those that the tables have in theirs.
pub matched-SameAccounts :
    (S : Sql) (w : String) (ids : List String) (db : Db)
    → SameAccounts (matched S w ids db) (
        map
          (account_entry
            (select (scoped ContactRow.workspace_id w (λ r. is_in r.account_id ids)) db.contacts))
          (select (scoped AccountRow.workspace_id w (λ r. is_in r.id ids)) db.accounts))
unfolding SameAccounts
matched-SameAccounts S w ids db =
    let accounts : List AccountRow =
      select (scoped AccountRow.workspace_id w (λ r. is_in r.id ids)) db.accounts in
    let contacts : List ContactRow =
      select (scoped ContactRow.workspace_id w (λ r. is_in r.account_id ids)) db.contacts in
    (
      map (account_entry (S.unordered contacts)) accounts,
      Permᴰ.map (account_entry (S.unordered contacts)) (S.unordered-Perm accounts),
      entries-Pairs accounts (S.unordered-Perm contacts),
    )
