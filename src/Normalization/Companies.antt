-- ===== src/Normalization/Companies.antt =====
-- src/normalization/domain_resolver.py, company names and deduplicate_accounts, on the dicts that
-- src/agent/nodes/entity_resolver.py makes of accounts; the revenue is a whole number. Of `metadata` the
-- keys are texts, and so are the values.
pub mod Survivors
use Prim.Native.Char.{Char, code}
use cmo_agent.Common.{
  ℕ, zero, suc, ◌+◌, ◌*◌, String, Bool, true, false, not, ◌≡◌, refl, Option, none, some, List, [],
  ◌∷◌, ◌++◌, map, length, str_eq, ltb, leb, ◌==◌, if◌then◌else◌,
}
use cmo_agent.Common.Text.{lower, strip, ◌<>◌, one_of, is_word_char, is_space}
use cmo_agent.Normalization.Domains.{normalize_domain}

abbrev pub suffixes : List String
suffixes =
    "inc" ∷ "incorporated" ∷ "corp" ∷ "corporation" ∷ "co" ∷ "company" ∷ "ltd" ∷ "limited" ∷ "llc"
    ∷ "llp" ∷ "gmbh" ∷ "ag" ∷ "sa" ∷ "bv" ∷ "pty" ∷ "plc" ∷ "se" ∷ []

-- the word that a text begins with, and what follows it
abbrev split_word : String → String × String
split_word String.[] = ("", "")
split_word (String.◌∷◌ c s) =
    let (w, rest) = split_word s in
    if is_word_char (code c) then (String.◌∷◌ c w, rest) else ("", String.◌∷◌ c s)

-- `\.?`
abbrev skip_dot : String → String
skip_dot String.[] = String.[]
skip_dot (String.◌∷◌ c s) = if code c == 46 then s else String.◌∷◌ c s

abbrev pub string_length : String → ℕ
string_length String.[] = 0
string_length (String.◌∷◌ c s) = suc (string_length s)

-- The suffixes are words of their own, wherever they stand, with a dot after them. One step takes a word or one
-- other character, so the length is enough fuel.
abbrev pub drop_suffixes : ℕ → String → String
drop_suffixes zero s = ""
drop_suffixes (suc fuel) String.[] = ""
drop_suffixes (suc fuel) (String.◌∷◌ c s) =
    let (w, rest) = split_word (String.◌∷◌ c s) in
    let dropped : String = drop_suffixes fuel (skip_dot rest) in
    let kept : String = drop_suffixes fuel rest in
    let other : String = drop_suffixes fuel s in
    if is_word_char (code c)
    then (if one_of w suffixes then dropped else w <> kept)
    else String.◌∷◌ c other

-- `re.sub(r"\s+", " ", s)`, after a space or not
abbrev collapse : Bool → String → String
collapse after String.[] = String.[]
collapse after (String.◌∷◌ c s) =
    let spaced : String = collapse true s in
    let plain : String = collapse false s in
    if is_space (code c) then (if after then spaced else " " <> spaced) else String.◌∷◌ c plain

abbrev stripped_name : String → String
stripped_name s = strip (collapse false (drop_suffixes (string_length s) s))

unfoldable pub clean_company_name : String → String
clean_company_name name = stripped_name (lower (strip name))

abbrev one_char : Char → String
one_char c = String.◌∷◌ c String.[]

-- the set of the pairs of neighbours, each kept once
abbrev add_once : String → List String → List String
add_once t ts = if one_of t ts then ts else t ∷ ts

abbrev pub bigrams : String → List String
bigrams String.[] = []
bigrams (String.◌∷◌ c String.[]) = []
bigrams (String.◌∷◌ c (String.◌∷◌ d s)) =
    add_once (one_char c <> one_char d) (bigrams (String.◌∷◌ d s))

abbrev pub overlap : List String → List String → ℕ
overlap [] ys = 0
overlap (x ∷ xs) ys = (if one_of x ys then 1 else 0) + overlap xs ys

abbrev is_empty : List String → Bool
is_empty [] = true
is_empty (x ∷ xs) = false

-- Dice's coefficient against 0.85
abbrev pub dice_reaches : List String → List String → Bool
dice_reaches xs ys =
    if is_empty xs
    then false
    else if is_empty ys
    then false
    else leb (85 * (length xs + length ys)) (200 * overlap xs ys)

abbrev clean_similar : String → String → Bool
clean_similar a b =
    if str_eq a b
    then true
    else if str_eq a ""
    then false
    else if str_eq b ""
    then false
    else dice_reaches (bigrams a) (bigrams b)

unfoldable pub company_names_similar : String → String → Bool
company_names_similar a b = clean_similar (clean_company_name a) (clean_company_name b)

pub record AccountDict : Type 0 where
  pub id : String
  pub company_name : String
  pub domain : Option String
  pub industry : Option String
  pub employee_count : Option ℕ
  pub revenue : Option ℕ
  pub metadata : List (String × String)

abbrev pub filled : {A : Type 0} → Option A → Option A → Option A
filled none new = new
filled (some old) new = some old

abbrev has_key : String → List (String × String) → Bool
has_key k [] = false
has_key k ((j, v) ∷ rest) = let later : Bool = has_key k rest in if str_eq k j then true else later

abbrev pub merge_keys : List (String × String) → List (String × String) → List (String × String)
merge_keys target [] = target
merge_keys target ((k, v) ∷ rest) =
    merge_keys (if has_key k target then target else target ++ (k, v) ∷ []) rest

-- fields that are None, and keys of `metadata` that are missing
abbrev pub merge_metadata : AccountDict → AccountDict → AccountDict
merge_metadata target source = record target {
  domain = filled target.domain source.domain;
  industry = filled target.industry source.industry;
  employee_count = filled target.employee_count source.employee_count;
  revenue = filled target.revenue source.revenue;
  metadata = merge_keys target.metadata source.metadata;
}

abbrev text_or_empty : Option String → String
text_or_empty none = ""
text_or_empty (some t) = t

abbrev pub normalized_domain : AccountDict → String
normalized_domain a = normalize_domain (text_or_empty a.domain)

-- the account of a place in `result`, replaced
abbrev pub merge_at : ℕ → AccountDict → List AccountDict → List AccountDict
merge_at n source [] = []
merge_at zero source (a ∷ more) = merge_metadata a source ∷ more
merge_at (suc n) source (a ∷ more) = a ∷ merge_at n source more

-- `seen_domains`
abbrev pub place_of : String → List (String × ℕ) → Option ℕ
place_of d [] = none
place_of d ((k, n) ∷ seen) =
    let later : Option ℕ = place_of d seen in if str_eq d k then some n else later

abbrev pub alike : String → String → Bool
alike name existing_name =
    if str_eq name ""
    then false
    else if str_eq existing_name ""
    then false
    else company_names_similar name existing_name

abbrev next_place : Option ℕ → Option ℕ
next_place none = none
next_place (some n) = some (suc n)

abbrev pub similar_place : AccountDict → List AccountDict → Option ℕ
similar_place a [] = none
similar_place a (x ∷ xs) =
    let later : Option ℕ = next_place (similar_place a xs) in
    if alike a.company_name x.company_name then some 0 else later

pub record Deduplicated : Type 0 where
  pub seen_domains : List (String × ℕ)
  pub result : List AccountDict

abbrev pub known_place : AccountDict → Deduplicated → Option ℕ
known_place a d =
    if str_eq (normalized_domain a) "" then none else place_of (normalized_domain a) d.seen_domains

abbrev pub append_account : AccountDict → Deduplicated → Deduplicated
append_account a d = record {
  seen_domains =
      (if str_eq (normalized_domain a) ""
        then d.seen_domains
        else (normalized_domain a, length d.result) ∷ d.seen_domains);
  result = d.result ++ a ∷ [];
}

abbrev merge_or : Option ℕ → AccountDict → Deduplicated → Deduplicated → Deduplicated
merge_or none a d otherwise = otherwise
merge_or (some n) a d otherwise = record d { result = merge_at n a d.result }

-- by its domain, else by a similar name, else a new account
abbrev pub take_account : AccountDict → Deduplicated → Deduplicated
take_account a d =
    merge_or (known_place a d) a d (merge_or (similar_place a d.result) a d (append_account a d))

abbrev pub take_accounts : List AccountDict → Deduplicated → Deduplicated
take_accounts [] d = d
take_accounts (a ∷ more) d = take_accounts more (take_account a d)

unfoldable pub deduplicate_accounts : List AccountDict → List AccountDict
deduplicate_accounts accounts =
    (take_accounts accounts (record { seen_domains = []; result = [] })).result

cleaned : clean_company_name " Acme  Inc. Holdings Co" ≡ "acme holdings"
unfolding clean_company_name lower
cleaned = refl
