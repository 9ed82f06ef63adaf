-- ===== src/Evaluation/Metrics.antt =====
-- src/evaluation/metrics.py, without scoring_distribution. A fraction is kept as its two numbers and is not rounded;
-- scores and ratings are natural numbers, confidences hundredths, and a field that is missing is empty or none.
pub mod Bounds
use cmo_agent.Common.{
  ℕ, zero, suc, ◌+◌, min, String, Bool, true, false, not, Option, none, some, List, [], ◌∷◌, length,
  take, str_eq, ltb, ◌==◌, if◌then◌else◌,
}
use cmo_agent.Common.Text.{lower, contains, one_of}

pub record Fraction : Type 0 where
  pub over : ℕ
  pub under : ℕ

abbrev pub nothing : Fraction
nothing = record { over = 0; under = 1 }

-- `sum(1 for x in xs if p(x))`
abbrev pub how_many : {A : Type 0} → (A → Bool) → List A → ℕ
how_many p [] = 0
how_many p (x ∷ xs) = (if p x then 1 else 0) + how_many p xs

abbrev pub kept : {A : Type 0} → (A → Bool) → List A → List A
kept p [] = []
kept p (x ∷ xs) = let rest = kept p xs in if p x then x ∷ rest else rest

-- `sorted(xs, key=key, reverse=True)`
abbrev pub insert_by : {A : Type 0} → (A → ℕ) → A → List A → List A
insert_by key x [] = x ∷ []
insert_by key x (y ∷ ys) =
    let rest = insert_by key x ys in if ltb (key x) (key y) then y ∷ rest else x ∷ y ∷ ys

abbrev pub sorted_by : {A : Type 0} → (A → ℕ) → List A → List A
sorted_by key [] = []
sorted_by key (x ∷ xs) = insert_by key x (sorted_by key xs)

pub record RatedAccount : Type 0 where
  pub account_id : String
  pub overall_priority_score : ℕ

abbrev pub hits : List RatedAccount → List String → ℕ → ℕ
hits accounts good k =
    how_many (λ x. one_of x.account_id good)
      (take k (sorted_by RatedAccount.overall_priority_score accounts))

unfoldable pub precision_at_k : List RatedAccount → List String → ℕ → Fraction
precision_at_k accounts good zero = nothing
precision_at_k [] good (suc k) = nothing
precision_at_k (a ∷ more) good (suc k) = record {
  over = hits (a ∷ more) good (suc k);
  under = suc k;
}

pub record FeedbackEvent : Type 0 where
  pub recommendation_id : Option String
  pub action_taken : String
  pub correction : Option String
  pub rating : Option ℕ

abbrev pub accepted_actions : List String
accepted_actions = "thumbs_up" ∷ "accepted" ∷ "approved" ∷ []

unfoldable pub acceptance_rate : List FeedbackEvent → Fraction
acceptance_rate [] = nothing
acceptance_rate (e ∷ es) = record {
  over = how_many (λ x. one_of (lower x.action_taken) accepted_actions) (e ∷ es);
  under = length (e ∷ es);
}

pub record TitledContact : Type 0 where
  pub title : String
  pub normalized_function : String
  pub relevance_score : ℕ

abbrev pub is_expected : String → TitledContact → Bool
is_expected expected c =
    if contains (lower c.title) expected
    then true
    else if contains (lower c.normalized_function) expected
    then true
    else if contains expected (lower c.title)
    then true
    else contains expected (lower c.normalized_function)

abbrev has_any : {A : Type 0} → (A → Bool) → List A → Bool
has_any p [] = false
has_any p (x ∷ xs) = let rest : Bool = has_any p xs in if p x then true else rest

unfoldable pub contact_ranking_precision : List TitledContact → String → ℕ → ℕ
contact_ranking_precision contacts expected k =
    if str_eq expected ""
    then 0
    else if has_any (is_expected (lower expected))
        (take k (sorted_by TitledContact.relevance_score contacts))
    then 1
    else 0

-- a confidence, and whether the prediction was correct
abbrev pub clamped : ℕ × Bool → ℕ × Bool
clamped (c, correct) = (min 100 c, correct)

-- the bin of a confidence, from the lowest
abbrev pub bin_of : ℕ → ℕ
bin_of c =
    if ltb c 20
    then 0
    else if ltb c 40
    then 1
    else if ltb c 60
    then 2
    else if ltb c 80
    then 3
    else 4

abbrev pub bin : ℕ → List (ℕ × Bool) → List (ℕ × Bool)
bin n [] = []
bin n (p ∷ ps) =
    let rest : List (ℕ × Bool) = bin n ps in
    if bin_of (clamped p).0 == n then clamped p ∷ rest else rest

pub record BinResult : Type 0 where
  pub predicted_confidence : Fraction
  pub actual_accuracy : Fraction
  pub count_of : ℕ

abbrev pub sum_of : List ℕ → ℕ
sum_of [] = 0
sum_of (n ∷ ns) = n + sum_of ns

abbrev pub confidences : List (ℕ × Bool) → List ℕ
confidences [] = []
confidences (p ∷ ps) = p.0 ∷ confidences ps

abbrev pub bin_result : List (ℕ × Bool) → BinResult
bin_result [] = record { predicted_confidence = nothing; actual_accuracy = nothing; count_of = 0 }
bin_result (p ∷ ps) = record {
  predicted_confidence = record { over = sum_of (confidences (p ∷ ps)); under = length (p ∷ ps) };
  actual_accuracy = record { over = how_many (λ q. q.1) (p ∷ ps); under = length (p ∷ ps) };
  count_of = length (p ∷ ps);
}

unfoldable pub confidence_calibration : List (ℕ × Bool) → List BinResult
confidence_calibration ps =
    bin_result (bin 0 ps)
    ∷ bin_result (bin 1 ps)
    ∷ bin_result (bin 2 ps)
    ∷ bin_result (bin 3 ps)
    ∷ bin_result (bin 4 ps)
    ∷ []

pub record Recommendation : Type 0 where
  pub id : String
  pub action : String

-- `rec_map`, where the last recommendation of an id counts
abbrev pub action_for : String → List Recommendation → Option String
action_for i [] = none
action_for i (r ∷ rs) = elim (action_for i rs) [
  | some a ↦ some a
  | none ↦ if str_eq i r.id then some r.action else none
]

abbrev action_of : List Recommendation → Option String → Option String
action_of rs none = none
action_of rs (some i) = action_for i rs

abbrev is_given : Option String → Bool
is_given none = false
is_given (some t) = not (str_eq t "")

abbrev pub is_matched : List Recommendation → FeedbackEvent → Bool
is_matched rs e = elim (action_of rs e.recommendation_id) [ none ↦ false | some a ↦ true ]

abbrev pub is_overridden : List Recommendation → FeedbackEvent → Bool
is_overridden rs e = elim (action_of rs e.recommendation_id) [
  | none ↦ false
  | some a ↦
      if is_given e.correction
      then true
      else not
          (one_of (lower e.action_taken) ("accepted" ∷ "approved" ∷ "thumbs_up" ∷ lower a ∷ []))
]

unfoldable pub action_override_rate : List Recommendation → List FeedbackEvent → Fraction
action_override_rate [] events = nothing
action_override_rate (r ∷ rs) [] = nothing
action_override_rate (r ∷ rs) (e ∷ es) =
    let matched = kept (is_matched (r ∷ rs)) (e ∷ es) in
    if ltb 0 (length matched)
    then record { over = how_many (is_overridden (r ∷ rs)) matched; under = length matched }
    else nothing

abbrev pub false_positive_actions : List String
false_positive_actions = "irrelevant" ∷ "false_positive" ∷ "rejected" ∷ []

abbrev pub is_about : List String → Option String → Bool
is_about ids none = false
is_about ids (some i) = one_of i ids

unfoldable pub signal_false_positive_rate : List String → List FeedbackEvent → Fraction
signal_false_positive_rate [] events = nothing
signal_false_positive_rate (i ∷ is) [] = nothing
signal_false_positive_rate (i ∷ is) (e ∷ es) =
    let matched = kept (λ x. is_about (i ∷ is) x.recommendation_id) (e ∷ es) in
    if ltb 0 (length matched)
    then record {
      over = how_many (λ x. one_of (lower x.action_taken) false_positive_actions) matched;
      under = length matched;
    }
    else nothing

abbrev pub action_to_score : List (String × ℕ)
action_to_score =
    ("very_useful", 5)
    ∷ ("thumbs_up", 5)
    ∷ ("useful", 4)
    ∷ ("accepted", 4)
    ∷ ("approved", 4)
    ∷ ("neutral", 3)
    ∷ ("not_useful", 2)
    ∷ ("rejected", 2)
    ∷ ("misleading", 1)
    ∷ ("false_positive", 1)
    ∷ []

abbrev score_for : List (String × ℕ) → String → Option ℕ
score_for [] t = none
score_for ((k, n) ∷ rest) t =
    let other : Option ℕ = score_for rest t in if str_eq k t then some n else other

abbrev pub rating_of : FeedbackEvent → Option ℕ
rating_of e = elim e.rating [
  | some n ↦ some n
  | none ↦ score_for action_to_score (lower e.action_taken)
]

abbrev and_more : Option ℕ → List ℕ → List ℕ
and_more none ns = ns
and_more (some n) ns = n ∷ ns

abbrev pub ratings : List FeedbackEvent → List ℕ
ratings [] = []
ratings (e ∷ es) = and_more (rating_of e) (ratings es)

-- `statistics.mean`, unless there is no rating
abbrev pub mean_or_nothing : List ℕ → Fraction
mean_or_nothing [] = nothing
mean_or_nothing (n ∷ ns) = record { over = sum_of (n ∷ ns); under = length (n ∷ ns) }

unfoldable pub brief_usefulness_score : List FeedbackEvent → Fraction
brief_usefulness_score [] = nothing
brief_usefulness_score (e ∷ es) = mean_or_nothing (ratings (e ∷ es))
