-- ===== src/Normalization/Titles.antt =====
-- src/normalization/title_normalizer.py. The regular expressions are lists of phrases: parts with any spaces between, at
-- the bounds of words or not, and with texts that may not follow. A title has one line.
pub mod Order
use Prim.Native.Char.{Char, code}
use cmo_agent.Common.{
  ℕ, zero, suc, ◌+◌, ◌≤◌, String, Bool, true, false, not, ◌&&◌, Option, none, some, List, [], ◌∷◌,
  ◌++◌, map, length, take, ◌≡◌, refl, ap, ◌∙◌, sym, ltb, ◌==◌, if◌then◌else◌, arith,
}
use cmo_agent.Common.Text.{lower, strip, contains, after_prefix, is_word_char, is_space}
use cmo_agent.Db.Tables.{drop}

pub record Phrase : Type 0 where
  pub parts : List String
  -- `\b` on both sides
  pub bounded : Bool
  -- `(?!.*(?:...))`
  pub not_before : List String

abbrev word : String → Phrase
word t = record { parts = t ∷ []; bounded = true; not_before = [] }

abbrev anywhere : String → Phrase
anywhere t = record { parts = t ∷ []; bounded = false; not_before = [] }

abbrev word_without : String → List String → Phrase
word_without t banned = record { parts = t ∷ []; bounded = true; not_before = banned }

abbrev starts_word : String → Bool
starts_word String.[] = false
starts_word (String.◌∷◌ c s) = is_word_char (code c)

-- `\s*`
abbrev skip_spaces : String → String
skip_spaces String.[] = String.[]
skip_spaces (String.◌∷◌ c s) =
    let rest : String = skip_spaces s in if is_space (code c) then rest else String.◌∷◌ c s

-- what follows the parts, if the text starts with them
abbrev skip_some : Option String → Option String
skip_some none = none
skip_some (some s) = some (skip_spaces s)

abbrev and_then : Option String → (String → Option String) → Option String
and_then none f = none
and_then (some s) f = f s

abbrev after_parts : List String → String → Option String
after_parts [] s = some s
after_parts (p ∷ []) s = after_prefix p s
after_parts (p ∷ q ∷ ps) s = and_then (skip_some (after_prefix p s)) (after_parts (q ∷ ps))

abbrev contains_any : String → List String → Bool
contains_any s [] = false
contains_any s (p ∷ ps) = if contains s p then true else contains_any s ps

abbrev accepts_rest : Phrase → Option String → Bool
accepts_rest ph none = false
accepts_rest ph (some rest) =
    not (ph.bounded && starts_word rest) && not (contains_any rest ph.not_before)

-- a match at or after the place, with whether a word character stands before it
abbrev found_from : Phrase → Bool → String → Bool
found_from ph in_word String.[] = false
found_from ph in_word (String.◌∷◌ c s) =
    let here =
      not (ph.bounded && in_word) && accepts_rest ph (after_parts ph.parts (String.◌∷◌ c s)) in
    let later : Bool = found_from ph (is_word_char (code c)) s in if here then true else later

-- `re.search` of the alternatives
abbrev pub search : List Phrase → String → Bool
search [] t = false
search (ph ∷ phs) t = let rest : Bool = search phs t in if found_from ph false t then true else rest

abbrev words : List String → List Phrase
words ts = map word ts

abbrev pub seniority_patterns : List (List Phrase × String)
seniority_patterns =
    (
      words ("chief" ∷ "c-suite" ∷ "ceo" ∷ "cfo" ∷ "cto" ∷ "coo" ∷ "cro" ∷ "cmo" ∷ "cpo" ∷ []),
      "C-Suite",
    )
    ∷ (word "svp" ∷ anywhere "senior vice president" ∷ [], "SVP")
    ∷ (word "vp" ∷ anywhere "vice president" ∷ [], "VP")
    ∷ (words ("senior director" ∷ []), "Senior Director")
    ∷ (words ("director" ∷ "head of" ∷ []), "Director")
    ∷ (words ("senior manager" ∷ []), "Senior Manager")
    ∷ (words ("manager" ∷ []), "Manager")
    ∷ (word_without "senior" ("director" ∷ "manager" ∷ "vice" ∷ []) ∷ [], "Senior IC")
    ∷ (words ("lead" ∷ "principal" ∷ "staff" ∷ []), "Senior IC")
    ∷ []

abbrev pub function_patterns : List (List Phrase × String)
function_patterns =
    (
      record { parts = "rev" ∷ "ops" ∷ []; bounded = true; not_before = [] }
          ∷ words ("revenue operations" ∷ []),
      "Revenue Operations",
    )
    ∷ (words ("pricing" ∷ []), "Pricing")
    ∷ (words ("finance" ∷ "controller" ∷ "accounting" ∷ "treasury" ∷ []), "Finance")
    ∷ (
      words (
          "engineering" ∷ "developer" ∷ "software" ∷ "sre" ∷ "devops" ∷ "platform" ∷ "engineer"
          ∷ []),
      "Engineering",
    )
    ∷ (words ("billing" ∷ "payments" ∷ "subscriptions" ∷ []), "Finance")
    ∷ (word_without "product" ("marketing" ∷ []) ∷ [], "Product")
    ∷ (words ("marketing" ∷ "demand gen" ∷ "growth" ∷ "content" ∷ "brand" ∷ []), "Marketing")
    ∷ (words ("sales" ∷ "business development" ∷ "account executive" ∷ "sdr" ∷ "bdr" ∷ []), "Sales")
    ∷ (
      word_without "operations" ("revenue" ∷ []) ∷ word_without "ops" ("revenue" ∷ []) ∷ [],
      "Operations",
    )
    ∷ (
      words ("ceo" ∷ "cfo" ∷ "cto" ∷ "coo" ∷ "cro" ∷ "cmo" ∷ "cpo" ∷ "president" ∷ "founder" ∷ []),
      "Executive",
    )
    ∷ []

-- the first pattern that is found
abbrev pub first_match : String → List (List Phrase × String) → String → String
first_match default [] t = default
first_match default ((phs, level) ∷ rest) t =
    let other : String = first_match default rest t in if search phs t then level else other

pub record NormalizedTitle : Type 0 where
  pub original_title : String
  pub normalized_function : String
  pub normalized_seniority : String

unfoldable pub rule_based_normalize : String → NormalizedTitle
rule_based_normalize title = record {
  original_title = title;
  normalized_function = first_match "Other" function_patterns (strip (lower title));
  normalized_seniority = first_match "Unknown" seniority_patterns (strip (lower title));
}

-- an item of the model's list, if it is an object
pub record TitleItem : Type 0 where
  pub normalized_function : Option String
  pub normalized_seniority : Option String

-- The call raised or its text was no JSON; or a list, where an answer that is none is a list of itself.
pub data BatchAnswer : Type 0 where
  no_answer : BatchAnswer
  items : List (Option TitleItem) → BatchAnswer

abbrev or_default_text : String → Option String → String
or_default_text d none = d
or_default_text d (some t) = t

abbrev pub title_from : String → Option TitleItem → NormalizedTitle
title_from title none = rule_based_normalize title
title_from title (some i) = record {
  original_title = title;
  normalized_function = or_default_text "Other" i.normalized_function;
  normalized_seniority = or_default_text "Unknown" i.normalized_seniority;
}

-- the titles against the items, which may be fewer or more
abbrev pub fill_gaps : List String → List (Option TitleItem) → List NormalizedTitle
fill_gaps [] is = []
fill_gaps (t ∷ ts) [] = rule_based_normalize t ∷ fill_gaps ts []
fill_gaps (t ∷ ts) (i ∷ is) = title_from t i ∷ fill_gaps ts is

abbrev pub batch_results : List String → BatchAnswer → List NormalizedTitle
batch_results batch no_answer = map rule_based_normalize batch
batch_results batch (items is) = fill_gaps batch is

-- `ask n batch` is the answer to the n-th call
module _ (ask : ℕ → List String → BatchAnswer) where
  -- one batch of 20 after the other; the number of titles is enough fuel
  abbrev pub normalize_batches : ℕ → ℕ → List String → List NormalizedTitle
  normalize_batches zero n titles = []
  normalize_batches (suc fuel) n [] = []
  normalize_batches (suc fuel) n (t ∷ ts) =
      batch_results (take 20 (t ∷ ts)) (ask n (take 20 (t ∷ ts)))
      ++ normalize_batches fuel (suc n) (drop 20 (t ∷ ts))

  unfoldable pub normalize_titles : Bool → List String → List NormalizedTitle
  normalize_titles use_llm titles =
      if use_llm
      then normalize_batches (length titles) 0 titles
      else map rule_based_normalize titles

some_titles : first_match "Other" function_patterns "senior product marketing manager" ≡ "Marketing"
some_titles = refl

spaced : first_match "Other" function_patterns "head of rev  ops" ≡ "Revenue Operations"
spaced = refl

a_senior : first_match "Unknown" seniority_patterns "senior analyst" ≡ "Senior IC"
a_senior = refl
