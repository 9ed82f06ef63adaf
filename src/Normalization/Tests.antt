-- ===== src/Normalization/Tests.antt =====
-- src/normalization: runs of its functions on a few accounts, contacts and titles.
use cmo_agent.Common.{ℕ, String, true, ◌≡◌, refl, Option, none, some, List, [], ◌∷◌, map}
use cmo_agent.Common.Text.{lower}
use mathlib.Core.List.{Perm, Sublistᴰ}
use cmo_agent.Normalization.Domains.{normalize_domain}
use cmo_agent.Normalization.Contacts.{
  LinkedContact, LinkedAccount, email_key, link_confidence, link_contacts_to_account,
  deduplicate_contacts,
}
use cmo_agent.Normalization.Contacts.Distinct.{first_seen, deduplicate_contacts-first_seen}
use cmo_agent.Normalization.Contacts.Links.{
  Descending, reaching, link_contacts_to_account-Descending,
}
use cmo_agent.Normalization.Companies.{
  AccountDict, clean_company_name, company_names_similar, deduplicate_accounts,
}
use cmo_agent.Normalization.Companies.Survivors.{Apart, deduplicate_accounts-Apart}
use cmo_agent.Normalization.Titles.{
  NormalizedTitle, BatchAnswer, items, rule_based_normalize, normalize_titles,
}
use cmo_agent.Normalization.Titles.Order.{normalize_titles-original}

abbrev contact : String → String → Option String → LinkedContact
contact id email role = record {
  id = id;
  account_id = "a1";
  email = email;
  first_name = none;
  last_name = none;
  role = role;
  linkedin_url = none;
  phone = none;
}

abbrev contacts : List LinkedContact
contacts =
    contact "c1" "ann@acme.com" none
    ∷ contact "c2" "bob@acme.com" (some "CFO")
    ∷ contact "c3" " Ann@ACME.com" (some "VP Sales")
    ∷ []

-- two records of one address are one contact
one_ann : map LinkedContact.role (deduplicate_contacts contacts) ≡ some "VP Sales" ∷ some "CFO" ∷ []
unfolding deduplicate_contacts lower
one_ann = refl

deduplicate_contacts-first_seen_example :
    map email_key (deduplicate_contacts contacts) ≡ first_seen [] (map email_key contacts)
deduplicate_contacts-first_seen_example = deduplicate_contacts-first_seen contacts

abbrev acme : LinkedAccount
acme = record { id = "a1"; company_name = "Acme Inc."; domain = some "www.acme.com" }

abbrev outsider : LinkedContact
outsider = record {
  id = "c4";
  account_id = "a2";
  email = "eve@gmail.com";
  first_name = none;
  last_name = none;
  role = none;
  linkedin_url = none;
  phone = none;
}

abbrev freelancer : LinkedContact
freelancer = contact "c5" "dan@gmail.com" none

linked_ids :
    map {B = String × ℕ}
      (λ e. (e.0.id, e.1))
      (link_contacts_to_account (freelancer ∷ outsider ∷ contacts) acme 50)
    ≡ ("c1", 95) ∷ ("c2", 95) ∷ ("c3", 95) ∷ ("c5", 80) ∷ []
unfolding link_contacts_to_account link_confidence normalize_domain lower
linked_ids = refl

link_contacts_to_account-Descending_example :
    Perm
      (link_contacts_to_account (freelancer ∷ outsider ∷ contacts) acme 50)
      (map (λ c. (c, link_confidence c acme)) (reaching (freelancer ∷ outsider ∷ contacts) acme 50))
    × Descending (link_contacts_to_account (freelancer ∷ outsider ∷ contacts) acme 50)
link_contacts_to_account-Descending_example =
    link_contacts_to_account-Descending (freelancer ∷ outsider ∷ contacts) acme 50

abbrev account : String → String → Option String → AccountDict
account id name domain = record {
  id = id;
  company_name = name;
  domain = domain;
  industry = none;
  employee_count = none;
  revenue = none;
  metadata = [];
}

abbrev accounts : List AccountDict
accounts =
    account "a1" "Acme Inc." none
    ∷ account "a2" "ACME, Corp" (some "acme.io")
    ∷ account "a3" "Acme" (some "acme.com")
    ∷ account "a4" "Widgets" (some "https://www.acme.io/x")
    ∷ []

-- the domain that a1 gets by a merge is not among those seen
left_over :
    map {B = String × Option String} (λ a. (a.id, a.domain)) (deduplicate_accounts accounts)
    ≡ ("a1", some "acme.io") ∷ ("a4", some "https://www.acme.io/x") ∷ []
unfolding deduplicate_accounts company_names_similar clean_company_name normalize_domain lower
left_over = refl

deduplicate_accounts-Apart_example :
    Sublistᴰ (map AccountDict.id (deduplicate_accounts accounts)) (map AccountDict.id accounts)
    × Apart (map AccountDict.company_name (deduplicate_accounts accounts))
deduplicate_accounts-Apart_example = deduplicate_accounts-Apart accounts

-- a first call that answers one item of two
abbrev ask : ℕ → List String → BatchAnswer
ask n batch =
    items (some (record { normalized_function = some "Sales"; normalized_seniority = none }) ∷ [])

two_titles :
    map NormalizedTitle.normalized_function (normalize_titles ask true ("AE" ∷ "VP Finance" ∷ []))
    ≡ "Sales" ∷ "Finance" ∷ []
unfolding normalize_titles rule_based_normalize lower
two_titles = refl

normalize_titles-original_example :
    map NormalizedTitle.original_title (normalize_titles ask true ("AE" ∷ "VP Finance" ∷ []))
    ≡ "AE" ∷ "VP Finance" ∷ []
normalize_titles-original_example = normalize_titles-original ask true ("AE" ∷ "VP Finance" ∷ [])
