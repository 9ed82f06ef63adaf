-- ===== src/Scoring/Icp/Fit.antt =====
-- src/scoring/icp_rules.py, _check_disqualify and score_icp_fit.
use cmo_agent.Common.{
  ℕ, ◌+◌, ◌-◌, ◌*◌, String, Bool, true, false, Option, none, some, List, [], ◌∷◌, ◌++◌, min, ltb,
  leb, ◌==◌, str_eq, if◌then◌else◌,
}
use cmo_agent.Common.Text.{contains}
use cmo_agent.Scoring.Round.{round}
use cmo_agent.Scoring.Icp.{
  Statement, disqualified_for, detected, Evidence, IcpAccount, IcpCriteria, IcpWeights,
  score_industry, score_company_size, score_revenue, score_geography, score_metadata_signals,
}

abbrev pub below_20 : Option ℕ → Option String
below_20 none = none
below_20 (some n) = if ltb n 20 then some "below 20 employees" else none

abbrev pub no_revenue : Option ℕ → Option String
no_revenue none = none
no_revenue (some n) = if n == 0 then some "pre-revenue" else none

abbrev pub reason_of_rule : IcpAccount → String → Option String
reason_of_rule account rule =
    if str_eq rule "employee_count_below_20"
    then below_20 account.employee_count
    else if str_eq rule "pre_revenue"
    then no_revenue account.revenue
    else if str_eq rule "existing_customer"
    then (if account.is_customer then some "already a customer" else none)
    else none

abbrev first_reason : Option String → Option String → Option String
first_reason none rest = rest
first_reason (some r) rest = some r

-- the first rule that applies
abbrev check_rules : IcpAccount → List String → Option String
check_rules account [] = none
check_rules account (rule ∷ rules) =
    first_reason (reason_of_rule account rule) (check_rules account rules)

unfoldable pub check_disqualify : IcpAccount → IcpCriteria → Option String
check_disqualify account icp = check_rules account icp.disqualify_rules

-- the sums of the loop; the confidence is `confidence_sum / dimension_count`
pub record Totals : Type 0 where
  pub weighted_total : ℕ
  pub total_weight : ℕ
  pub confidence_sum : ℕ
  pub dimension_count : ℕ
  pub fit_reasons : List Evidence
  pub non_fit_reasons : List Evidence

abbrev pub no_totals : Totals
no_totals = record {
  weighted_total = 0;
  total_weight = 0;
  confidence_sum = 0;
  dimension_count = 0;
  fit_reasons = [];
  non_fit_reasons = [];
}

-- one evidence, counted
abbrev pub counted : Bool → Evidence → Totals → Totals
counted fits e t = record t {
  confidence_sum = t.confidence_sum + e.confidence;
  dimension_count = t.dimension_count + 1;
  fit_reasons = (if fits then t.fit_reasons ++ e ∷ [] else t.fit_reasons);
  non_fit_reasons = (if fits then t.non_fit_reasons else t.non_fit_reasons ++ e ∷ []);
}

abbrev pub weighed : ℕ → ℕ → Totals → Totals
weighed weight score t = record t {
  weighted_total = t.weighted_total + score * weight;
  total_weight = t.total_weight + weight;
}

abbrev pub add_dimension : ℕ → ℕ × Option Evidence → Totals → Totals
add_dimension weight (score, none) t = weighed weight score t
add_dimension weight (score, some e) t = counted (leb 60 score) e (weighed weight score t)

abbrev pub text_of : Statement → String
text_of (detected t) = t
text_of (disqualified_for t) = t
text_of s = ""

abbrev pub add_signal_evidence : List Evidence → Totals → Totals
add_signal_evidence [] t = t
add_signal_evidence (e ∷ es) t =
    add_signal_evidence es (counted (contains (text_of e.statement) "Positive") e t)

abbrev pub signal_weight : IcpWeights → ℕ
signal_weight w = w.monetization_complexity + w.growth_stage + w.enterprise_sales_motion

pub record IcpFit : Type 0 where
  pub icp_fit_score : ℕ
  pub fit_reasons : List Evidence
  pub non_fit_reasons : List Evidence
  pub is_disqualified : Bool
  pub disqualify_reason : Option String
  -- the confidence, as a sum of hundredths and their number
  pub confidence : ℕ × ℕ

-- the neutral 50 for the weight that no dimension has, and `round`
unfoldable pub fit_score : Totals → ℕ
fit_score t = min 100 (round (t.weighted_total + 50 * (100 - t.total_weight)) 100)

abbrev pub mean_confidence : Totals → ℕ × ℕ
mean_confidence t =
    if ltb 0 t.dimension_count then (t.confidence_sum, t.dimension_count) else (30, 1)

abbrev pub fit_of : Totals → IcpFit
fit_of t = record {
  icp_fit_score = fit_score t;
  fit_reasons = t.fit_reasons;
  non_fit_reasons = t.non_fit_reasons;
  is_disqualified = false;
  disqualify_reason = none;
  confidence = mean_confidence t;
}

abbrev pub disqualified : String → IcpFit
disqualified reason = record {
  icp_fit_score = 0;
  fit_reasons = [];
  non_fit_reasons = record { statement = disqualified_for reason; confidence = 95 } ∷ [];
  is_disqualified = true;
  disqualify_reason = some reason;
  confidence = (95, 1);
}

-- the four dimensions and the signals; the scorers of size and revenue may raise
abbrev pub total_up :
    IcpWeights
    → ℕ × Option Evidence
    → Option (ℕ × Option Evidence)
    → Option (ℕ × Option Evidence)
    → ℕ × Option Evidence
    → ℕ × List Evidence
    → Option Totals
total_up w industry none revenue geography signals = none
total_up w industry (some size) none geography signals = none
total_up w industry (some size) (some revenue) geography (score, evs) = some (
    add_signal_evidence evs (
      weighed (signal_weight w) score (
        add_dimension w.geography geography (
          add_dimension w.revenue revenue
            (add_dimension w.company_size size (add_dimension w.industry industry no_totals))))))

abbrev pub map_fit : Option Totals → Option IcpFit
map_fit none = none
map_fit (some t) = some (fit_of t)

abbrev pub fit_for : IcpWeights → IcpAccount → IcpCriteria → Option String → Option IcpFit
fit_for w account icp (some reason) = some (disqualified reason)
fit_for w account icp none = map_fit (
    total_up w (score_industry account icp) (score_company_size account icp)
      (score_revenue account icp) (score_geography account icp)
      (score_metadata_signals account icp))

unfoldable pub score_icp_fit : IcpAccount → IcpCriteria → IcpWeights → Option IcpFit
score_icp_fit account icp w = fit_for w account icp (check_disqualify account icp)
