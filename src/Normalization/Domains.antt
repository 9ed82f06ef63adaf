-- ===== src/Normalization/Domains.antt =====
-- src/normalization/domain_resolver.py, normalize_domain and domains_match, with what they use of urlparse: the host is
-- what stands between "//", or the last "@" before the path, and a port; an address in brackets is left out.
use Prim.Native.Char.{Char, code}
use cmo_agent.Common.{
  ℕ, String, Bool, true, false, Option, none, some, List, [], ◌∷◌, ◌≡◌, refl, str_eq, ltb, ◌==◌,
  if◌then◌else◌,
}
use cmo_agent.Common.Text.{lower, strip, contains, after_prefix, remove_prefix}

-- the text before the first of some characters
abbrev pub before_any : (ℕ → Bool) → String → String
before_any p String.[] = ""
before_any p (String.◌∷◌ c s) =
    let rest : String = before_any p s in if p (code c) then "" else String.◌∷◌ c rest

-- the text after the last "@", or all of it
abbrev after_at : String → Option String
after_at String.[] = none
after_at (String.◌∷◌ c s) = elim (after_at s) [
  | some rest ↦ some rest
  | none ↦ if code c == 64 then some s else none
]

abbrev or_all : String → Option String → String
or_all s none = s
or_all s (some rest) = rest

abbrev is_letter : ℕ → Bool
is_letter n = if ltb 96 n then ltb n 123 else false

abbrev is_scheme_char : ℕ → Bool
is_scheme_char n =
    if is_letter n
    then true
    else if ltb 47 n
    then ltb n 58
    else if n == 43
    then true
    else if n == 45
    then true
    else n == 46

-- what follows the scheme: letters, digits and "+-.", then ":"
abbrev after_scheme : String → Option String
after_scheme String.[] = none
after_scheme (String.◌∷◌ c s) =
    let rest : Option String = after_scheme s in
    if code c == 58 then some s else if is_scheme_char (code c) then rest else none

abbrev starts_with_letter : String → Bool
starts_with_letter String.[] = false
starts_with_letter (String.◌∷◌ c s) = is_letter (code c)

abbrev pub without_scheme : String → String
without_scheme url = if starts_with_letter url then or_all url (after_scheme url) else url

-- "/", "?" and "#" end the part with the host
abbrev ends_netloc : ℕ → Bool
ends_netloc n = if n == 47 then true else if n == 63 then true else n == 35

abbrev host_in : Option String → String
host_in none = ""
host_in (some rest) =
    let netloc = before_any ends_netloc rest in
    before_any (λ n. n == 58) (or_all netloc (after_at netloc))

-- `urlparse(url).hostname or url`
abbrev pub host_or_url : String → String
host_or_url url =
    let host = host_in (after_prefix "//" (without_scheme url)) in
    if str_eq host "" then url else host

-- `rstrip(".")`
abbrev keep_unless_dot : Char → String → String
keep_unless_dot c String.[] = if code c == 46 then String.[] else String.◌∷◌ c String.[]
keep_unless_dot c (String.◌∷◌ d s) = String.◌∷◌ c (String.◌∷◌ d s)

abbrev pub strip_dots : String → String
strip_dots String.[] = String.[]
strip_dots (String.◌∷◌ c s) = keep_unless_dot c (strip_dots s)

abbrev pub google : String
google = "google.com"

abbrev pub microsoft : String
microsoft = "microsoft.com"

abbrev pub meta : String
meta = "meta.com"

abbrev pub salesforce : String
salesforce = "salesforce.com"

-- DOMAIN_ALIASES
abbrev pub domain_aliases : List (String × String)
domain_aliases =
    ("google.com", google)
    ∷ ("alphabet.com", google)
    ∷ ("googleapis.com", google)
    ∷ ("microsoft.com", microsoft)
    ∷ ("azure.com", microsoft)
    ∷ ("github.com", microsoft)
    ∷ ("linkedin.com", microsoft)
    ∷ ("meta.com", meta)
    ∷ ("facebook.com", meta)
    ∷ ("instagram.com", meta)
    ∷ ("salesforce.com", salesforce)
    ∷ ("heroku.com", salesforce)
    ∷ ("slack.com", salesforce)
    ∷ ("mulesoft.com", salesforce)
    ∷ []

-- `get(d, d)`
abbrev pub alias_or_self : List (String × String) → String → String
alias_or_self [] d = d
alias_or_self ((a, b) ∷ rest) d =
    let other : String = alias_or_self rest d in if str_eq a d then b else other

-- `domain`, with its host taken out of a URL or of a path
abbrev pub host_of : String → String
host_of domain =
    if contains domain "://"
    then host_or_url domain
    else if contains domain "/"
    then before_any (λ n. n == 47) domain
    else domain

unfoldable pub normalize_domain : String → String
normalize_domain raw =
    if str_eq raw ""
    then ""
    else alias_or_self domain_aliases
        (strip_dots (remove_prefix (host_of (lower (strip raw))) "www."))

abbrev pub domains_match : String → String → Bool
domains_match a b = str_eq (normalize_domain a) (normalize_domain b)

full_url : normalize_domain "https://www.acme.com/pricing" ≡ "acme.com"
unfolding normalize_domain lower
full_url = refl

upper_case : normalize_domain "WWW.Acme.COM" ≡ "acme.com"
unfolding normalize_domain lower
upper_case = refl

-- one call strips one prefix
twice_www : normalize_domain "www.www.acme.com" ≡ "www.acme.com"
unfolding normalize_domain lower
twice_www = refl

aliased : domains_match "http://bob@GitHub.com:443/x" "azure.com." ≡ true
unfolding normalize_domain lower
aliased = refl
