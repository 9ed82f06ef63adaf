-- ===== src/Normalization/Contacts.antt =====
-- src/normalization/contact_linker.py. Confidences are hundredths.
pub mod Distinct
pub mod Links
use Prim.Native.Char.{Char, code}
use cmo_agent.Common.{
  ℕ, String, Bool, true, false, not, Option, none, some, List, [], ◌∷◌, ◌++◌, map, str_eq, ltb, leb,
  max, ◌==◌, if◌then◌else◌,
}
use cmo_agent.Common.Text.{lower, strip, contains, one_of}
use cmo_agent.Normalization.Domains.{normalize_domain}

pub record LinkedContact : Type 0 where
  pub id : String
  pub account_id : String
  pub email : String
  pub first_name : Option String
  pub last_name : Option String
  pub role : Option String
  pub linkedin_url : Option String
  pub phone : Option String

pub record LinkedAccount : Type 0 where
  pub id : String
  pub company_name : String
  pub domain : Option String

-- the text after the first "@"
abbrev after_first_at : String → Option String
after_first_at String.[] = none
after_first_at (String.◌∷◌ c s) =
    let rest : Option String = after_first_at s in if code c == 64 then some s else rest

abbrev domain_after : Option String → String
domain_after none = ""
domain_after (some d) = normalize_domain d

abbrev pub extract_domain_from_email : String → String
extract_domain_from_email email = domain_after (after_first_at email)

abbrev pub generic_domains : List String
generic_domains =
    "gmail.com" ∷ "yahoo.com" ∷ "hotmail.com" ∷ "outlook.com" ∷ "aol.com" ∷ "icloud.com"
    ∷ "mail.com" ∷ "protonmail.com" ∷ "zoho.com" ∷ "yandex.com" ∷ []

abbrev pub is_generic_email : String → Bool
is_generic_email email = one_of (extract_domain_from_email email) generic_domains

abbrev text_or_empty : Option String → String
text_or_empty none = ""
text_or_empty (some t) = t

-- `re.sub(r"[^a-z0-9]", "", s)`
abbrev is_slug_char : ℕ → Bool
is_slug_char n = if ltb n 58 then ltb 47 n else if ltb n 123 then ltb 96 n else false

abbrev pub slug : String → String
slug String.[] = String.[]
slug (String.◌∷◌ c s) =
    let rest : String = slug s in if is_slug_char (code c) then String.◌∷◌ c rest else rest

abbrev pub domain_signal : LinkedContact → LinkedAccount → ℕ → ℕ
domain_signal contact account n =
    let domain = extract_domain_from_email contact.email in
    if (if str_eq domain ""
      then false
      else str_eq domain (normalize_domain (text_or_empty account.domain)))
    then max n (if is_generic_email contact.email then 20 else 95)
    else n

abbrev pub linkedin_signal : LinkedContact → LinkedAccount → ℕ → ℕ
linkedin_signal contact account n =
    let company = slug (lower account.company_name) in
    if (if str_eq company ""
      then false
      else contains (lower (text_or_empty contact.linkedin_url)) company)
    then max n 40
    else n

unfoldable pub link_confidence : LinkedContact → LinkedAccount → ℕ
link_confidence contact account =
    let same_id = str_eq contact.account_id account.id in
    if str_eq contact.email ""
    then (if same_id then 80 else 10)
    else (let n = domain_signal contact account 10 in
        linkedin_signal contact account (if same_id then max n 80 else n))

-- `sort(key=confidence, reverse=True)`, which keeps the order of equal ones
abbrev pub insert_link : LinkedContact × ℕ → List (LinkedContact × ℕ) → List (LinkedContact × ℕ)
insert_link x [] = x ∷ []
insert_link x (y ∷ ys) =
    let rest : List (LinkedContact × ℕ) = insert_link x ys in
    if ltb x.1 y.1 then y ∷ rest else x ∷ y ∷ ys

abbrev pub sort_links : List (LinkedContact × ℕ) → List (LinkedContact × ℕ)
sort_links [] = []
sort_links (x ∷ xs) = insert_link x (sort_links xs)

abbrev pub strong_links : List LinkedContact → LinkedAccount → ℕ → List (LinkedContact × ℕ)
strong_links [] account min_confidence = []
strong_links (c ∷ cs) account min_confidence =
    let rest : List (LinkedContact × ℕ) = strong_links cs account min_confidence in
    if leb min_confidence (link_confidence c account)
    then (c, link_confidence c account) ∷ rest
    else rest

unfoldable pub link_contacts_to_account :
    List LinkedContact → LinkedAccount → ℕ → List (LinkedContact × ℕ)
link_contacts_to_account contacts account min_confidence =
    sort_links (strong_links contacts account min_confidence)

abbrev pub email_key : LinkedContact → String
email_key c = strip (lower c.email)

abbrev fill : Option String → Option String → Option String
fill none new = new
fill (some old) new = some old

-- the fields that are None in the first record, from the newer one
abbrev pub merge_contact : LinkedContact → LinkedContact → LinkedContact
merge_contact old new = record old {
  first_name = fill old.first_name new.first_name;
  last_name = fill old.last_name new.last_name;
  role = fill old.role new.role;
  linkedin_url = fill old.linkedin_url new.linkedin_url;
  phone = fill old.phone new.phone;
}

-- `seen_emails`, a dict in the order in which its keys came in
abbrev pub see_contact :
    LinkedContact → List (String × LinkedContact) → List (String × LinkedContact)
see_contact c [] = (email_key c, c) ∷ []
see_contact c ((k, old) ∷ seen) =
    let rest : List (String × LinkedContact) = see_contact c seen in
    if str_eq k (email_key c) then (k, merge_contact old c) ∷ seen else (k, old) ∷ rest

abbrev pub see_all :
    List LinkedContact → List (String × LinkedContact) → List (String × LinkedContact)
see_all [] seen = seen
see_all (c ∷ cs) seen = see_all cs (see_contact c seen)

unfoldable pub deduplicate_contacts : List LinkedContact → List LinkedContact
deduplicate_contacts contacts = map (λ e. e.1) (see_all contacts [])
