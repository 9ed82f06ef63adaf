-- ===== src/Scoring/Icp.antt =====
-- src/scoring/icp_rules.py with src/config/icp.py. Revenues are whole and, like counts, not negative. Weights and
-- confidences are hundredths. `none` is the ValueError of `int` on a number that is not one.
pub mod Fit
pub mod Bounds
pub mod Results
use cmo_agent.Common.{
  ℕ, ◌+◌, ◌-◌, ◌*◌, ◌/◌, ◌≤◌, String, Bool, true, false, not, Option, none, some, List, [], ◌∷◌,
  ◌++◌, map, max, min, ltb, leb, ◌==◌, str_eq, if◌then◌else◌,
}
use cmo_agent.Common.Text.{lower, upper, contains, ◌<>◌}
use cmo_agent.Scoring.Round.{round}

-- what the statement of an evidence says; that of a signal is kept as its text
pub data Statement : Type 0 where
  industry_listed industry_not_listed size_within size_below size_above : Statement
  revenue_within revenue_outside geography_listed geography_not_listed : Statement
  disqualified_for : String → Statement
  detected : String → Statement

pub record Evidence : Type 0 where
  pub statement : Statement
  pub confidence : ℕ

-- an entry of `metadata["signals"]`: its text, and whether it is a string
pub record SignalEntry : Type 0 where
  pub text : String
  pub is_text : Bool

-- an account, with the keys of its metadata that are read
pub record IcpAccount : Type 0 where
  pub industry : Option String
  pub employee_count : Option ℕ
  pub revenue : Option ℕ
  pub geography : Option String
  pub country : Option String
  pub signals : List SignalEntry
  pub is_customer : Bool

-- a range, of which a missing `min` is 0 and a missing `max` is infinite
pub record Range : Type 0 where
  pub min_value : Option ℕ
  pub max_value : Option ℕ

pub record IcpCriteria : Type 0 where
  pub industries : List String
  pub company_size : Range
  pub revenue_range : Range
  pub geographies : List String
  pub positive_signals : List String
  pub negative_signals : List String
  pub disqualify_rules : List String

pub record IcpWeights : Type 0 where
  pub industry : ℕ
  pub company_size : ℕ
  pub revenue : ℕ
  pub geography : ℕ
  pub growth_stage : ℕ
  pub monetization_complexity : ℕ
  pub enterprise_sales_motion : ℕ

-- ICP_WEIGHTS, those that the scorer reads
abbrev pub icp_weights : IcpWeights
icp_weights = record {
  industry = 15;
  company_size = 10;
  revenue = 10;
  geography = 5;
  growth_stage = 10;
  monetization_complexity = 15;
  enterprise_sales_motion = 10;
}

abbrev pub evidence : Statement → ℕ → Option Evidence
evidence statement confidence = some (record { statement = statement; confidence = confidence })

abbrev any_target : (String → Bool) → List String → Bool
any_target p [] = false
any_target p (t ∷ ts) = if p t then true else any_target p ts

-- `a in b or b in a`, in lower case
abbrev pub overlaps : String → String → Bool
overlaps a b = if contains (lower a) (lower b) then true else contains (lower b) (lower a)

-- a text or a number that may be missing
abbrev pub given : Option String → Option String
given none = none
given (some t) = if str_eq t "" then none else some t

abbrev pub industry_of : List String → Option String → ℕ × Option Evidence
industry_of targets none = (50, none)
industry_of [] (some industry) = (50, none)
industry_of (t ∷ ts) (some industry) =
    if any_target (overlaps industry) (t ∷ ts)
    then (100, evidence industry_listed 95)
    else (10, evidence industry_not_listed 90)

unfoldable pub score_industry : IcpAccount → IcpCriteria → ℕ × Option Evidence
score_industry account icp = industry_of icp.industries (given account.industry)

abbrev pub or_zero : Option ℕ → ℕ
or_zero none = 0
or_zero (some n) = n

abbrev pub distance : ℕ → ℕ → ℕ
distance a b = if leb a b then b - a else a - b

-- `int(100 - distance * 40)`, where the distance to the midpoint is a share of the width. With no `max` the
-- midpoint and the width are infinite, and the share is no number.
unfoldable pub within_score : ℕ → Option ℕ → ℕ → Option ℕ
within_score lo none c = none
within_score lo (some hi) c =
    if ltb lo hi
    then some ((200 * (hi - lo) - 40 * distance (2 * c) (lo + hi)) / (2 * (hi - lo)))
    else some 100

abbrev pub is_at_most : ℕ → Option ℕ → Bool
is_at_most c none = true
is_at_most c (some hi) = leb c hi

abbrev pub with_evidence : Option Evidence → Option ℕ → Option (ℕ × Option Evidence)
with_evidence e none = none
with_evidence e (some n) = some (n, e)

-- `int(max(0, a / b * 40))`
unfoldable pub partial_credit : ℕ → ℕ → ℕ
partial_credit a b = if ltb 0 b then 40 * a / b else 0

abbrev pub size_of : ℕ → Option ℕ → Option ℕ → Option (ℕ × Option Evidence)
size_of lo hi none = some (50, none)
size_of lo hi (some c) =
    if (if leb lo c then is_at_most c hi else false)
    then with_evidence (evidence size_within 95) (within_score lo hi c)
    else if ltb c lo
    then some (partial_credit c lo, evidence size_below 90)
    else some (partial_credit (or_zero hi) c, evidence size_above 90)

unfoldable pub score_company_size : IcpAccount → IcpCriteria → Option (ℕ × Option Evidence)
score_company_size account icp =
    size_of (or_zero icp.company_size.min_value) icp.company_size.max_value account.employee_count

abbrev pub revenue_of : ℕ → Option ℕ → Option ℕ → Option (ℕ × Option Evidence)
revenue_of lo hi none = some (50, none)
revenue_of lo hi (some c) =
    if (if leb lo c then is_at_most c hi else false)
    then with_evidence (evidence revenue_within 85) (within_score lo hi c)
    else some (15, evidence revenue_outside 85)

unfoldable pub score_revenue : IcpAccount → IcpCriteria → Option (ℕ × Option Evidence)
score_revenue account icp =
    revenue_of (or_zero icp.revenue_range.min_value) icp.revenue_range.max_value account.revenue

abbrev either : Option String → Option String → Option String
either none b = b
either (some a) b = some a

abbrev pub geography_of : List String → Option String → ℕ × Option Evidence
geography_of targets none = (50, none)
geography_of [] (some geo) = (50, none)
geography_of (t ∷ ts) (some geo) =
    if any_target (λ g. str_eq (upper geo) (upper g)) (t ∷ ts)
    then (100, evidence geography_listed 95)
    else (20, evidence geography_not_listed 85)

unfoldable pub score_geography : IcpAccount → IcpCriteria → ℕ × Option Evidence
score_geography account icp =
    geography_of icp.geographies (either (given account.geography) (given account.country))

-- the text that is compared: that of an entry which is no string is empty
abbrev pub signal_text : SignalEntry → String
signal_text s = if s.is_text then s.text else ""

abbrev pub found : String → SignalEntry → List Evidence → List Evidence
found prefix s evs = evs ++ record { statement = detected (prefix <> s.text); confidence = 80 } ∷ []

abbrev pub add_signal : IcpCriteria → SignalEntry → ℕ × List Evidence → ℕ × List Evidence
add_signal icp s (score, evs) =
    let up = any_target (overlaps (signal_text s)) icp.positive_signals in
    let down = any_target (overlaps (signal_text s)) icp.negative_signals in
    let score' = if up then min 100 (score + 15) else score in
    let evs' = if up then found "Positive signal detected: " s evs else evs in
    (
      (if down then score' - 25 else score'),
      (if down then found "Negative signal detected: " s evs' else evs'),
    )

-- the loop over the signals
abbrev pub add_signals : IcpCriteria → List SignalEntry → ℕ × List Evidence → ℕ × List Evidence
add_signals icp [] acc = acc
add_signals icp (s ∷ ss) acc = add_signals icp ss (add_signal icp s acc)

unfoldable pub score_metadata_signals : IcpAccount → IcpCriteria → ℕ × List Evidence
score_metadata_signals account icp = add_signals icp account.signals (50, [])
