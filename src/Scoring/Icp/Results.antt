-- ===== src/Scoring/Icp/Results.antt =====
-- src/scoring/icp_rules.py, score_icp_fit: the scores it can give, and where it raises.
use cmo_agent.Common.{
  ℕ, ◌+◌, ◌-◌, ◌*◌, ◌≤◌, ◌≡◌, refl, ap, sym, subst, false, Option, none, some, List, [], ◌∷◌, min,
  arith,
}
use cmo_agent.Scoring.Round.{round, round-le, le-round}
use cmo_agent.Scoring.Icp.{
  Evidence, IcpAccount, IcpCriteria, IcpWeights, icp_weights, score_industry, score_company_size,
  score_revenue, score_geography, score_metadata_signals, within_score, or_zero, given,
}
use cmo_agent.Scoring.Icp.Fit.{
  Totals, no_totals, weighed, add_dimension, add_signal_evidence, IcpFit, fit_score, fit_of,
  total_up, score_icp_fit, check_disqualify, counted, map_fit,
}
use cmo_agent.Scoring.Icp.Bounds.{
  InRange, industry_range, geography_range, size_range, revenue_range, signals_range,
}

-- evidence changes no weight
add_signal_evidence_lem :
    (es : List Evidence) (t : Totals)
    → ((add_signal_evidence es t).weighted_total ≡ t.weighted_total)
      × ((add_signal_evidence es t).total_weight ≡ t.total_weight)
add_signal_evidence_lem [] t = (refl, refl)
add_signal_evidence_lem (e ∷ es) t = add_signal_evidence_lem es (counted _ e t)

-- a dimension counts with its score and weight, whatever its evidence
add_dimension_lem :
    (w : ℕ) (d : ℕ × Option Evidence) (t : Totals)
    → ((add_dimension w d t).weighted_total ≡ t.weighted_total + d.0 * w)
      × ((add_dimension w d t).total_weight ≡ t.total_weight + w)
add_dimension_lem w (n, none) t = (refl, refl)
add_dimension_lem w (n, some e) t = (refl, refl)

rounded_range :
    (n : ℕ) → 1650 ≤ n → n ≤ 8750 → (16 ≤ min 100 (round n 100)) × (min 100 (round n 100) ≤ 88)
rounded_range n low high =
    let at_least : 16 ≤ round n 100 = le-round n 100 16 (omega arith) (omega (arith, low)) in
    let at_most : round n 100 ≤ 88 = round-le n 100 88 (omega arith) (omega (arith, high)) in
    (omega (arith, at_least), omega (arith, at_most))

fit_score_range :
    (t : Totals)
    → t.total_weight ≡ 75
    → 400 ≤ t.weighted_total
    → t.weighted_total ≤ 7500
    → (16 ≤ fit_score t) × (fit_score t ≤ 88)
unfolding fit_score
fit_score_range t weight low high =
    rw weight (
      rounded_range (t.weighted_total + 50 * (100 - 75)) (omega (arith, low)) (omega (arith, high)))

-- the totals, when no scorer raises
abbrev summed :
    ℕ × Option Evidence
    → ℕ × Option Evidence
    → ℕ × Option Evidence
    → ℕ × Option Evidence
    → ℕ × List Evidence
    → Totals
summed i s r g (score, evs) = add_signal_evidence evs (
    weighed 35 score
      (add_dimension 5 g (add_dimension 10 r (add_dimension 10 s (add_dimension 15 i no_totals)))))

summed_range :
    (i s r g : ℕ × Option Evidence) (sig : ℕ × List Evidence)
    → InRange 10 i
    → InRange 0 s
    → InRange 15 r
    → InRange 20 g
    → sig.0 ≤ 100
    → ((summed i s r g sig).total_weight ≡ 75)
      × (400 ≤ (summed i s r g sig).weighted_total)
      × ((summed i s r g sig).weighted_total ≤ 7500)
summed_range i s r g (score, evs) hi hs hr hg hsig =
    let t₁ : Totals = add_dimension 15 i no_totals in
    let t₂ : Totals = add_dimension 10 s t₁ in
    let t₃ : Totals = add_dimension 10 r t₂ in
    let t₄ : Totals = add_dimension 5 g t₃ in
    let l₁ = add_dimension_lem 15 i no_totals in
    let l₂ = add_dimension_lem 10 s t₁ in
    let l₃ = add_dimension_lem 10 r t₂ in
    let l₄ = add_dimension_lem 5 g t₃ in
    let l₅ = add_signal_evidence_lem evs (weighed 35 score t₄) in
    (
      omega (arith, l₁.1, l₂.1, l₃.1, l₄.1, l₅.1),
      omega (arith, l₁.0, l₂.0, l₃.0, l₄.0, l₅.0, hi.0, hr.0, hg.0),
      omega (arith, l₁.0, l₂.0, l₃.0, l₄.0, l₅.0, hi.1, hs.1, hr.1, hg.1, hsig),
    )

abbrev fit_or : IcpFit → Option IcpFit → IcpFit
fit_or d none = d
fit_or d (some r) = r

kept_range :
    (i g : ℕ × Option Evidence) (size revenue : Option (ℕ × Option Evidence))
    (sig : ℕ × List Evidence) (r : IcpFit)
    → InRange 10 i
    → ((d : ℕ × Option Evidence) → size ≡ some d → InRange 0 d)
    → ((d : ℕ × Option Evidence) → revenue ≡ some d → InRange 15 d)
    → InRange 20 g
    → sig.0 ≤ 100
    → map_fit (total_up icp_weights i size revenue g sig) ≡ some r
    → (16 ≤ r.icp_fit_score) × (r.icp_fit_score ≤ 88)
kept_range i g none revenue sig r hi hs hr hg hsig e = cc e
kept_range i g (some s) none sig r hi hs hr hg hsig e = cc e
kept_range i g (some s) (some v) (score, evs) r hi hs hr hg hsig e =
    let t : Totals = summed i s v g (score, evs) in
    let range = summed_range i s v g (score, evs) hi (hs s refl) (hr v refl) hg hsig in
    subst (λ (f : IcpFit). (16 ≤ f.icp_fit_score) × (f.icp_fit_score ≤ 88))
      (ap (fit_or (fit_of t)) e) (fit_score_range t range.0 range.1 range.2)

-- With the program's weights an account that is not disqualified scores between 16 and 88, if the scorer does not
-- raise.
pub score_icp_fit-range :
    (account : IcpAccount) (icp : IcpCriteria) (r : IcpFit)
    → check_disqualify account icp ≡ none
    → score_icp_fit account icp icp_weights ≡ some r
    → (16 ≤ r.icp_fit_score) × (r.icp_fit_score ≤ 88)
unfolding score_icp_fit score_industry score_company_size score_revenue score_geography
    score_metadata_signals
score_icp_fit-range account icp r kept e =
    kept_range (score_industry account icp) (score_geography account icp)
      (score_company_size account icp) (score_revenue account icp)
      (score_metadata_signals account icp) r
      (industry_range icp.industries (given account.industry))
      (size_range (or_zero icp.company_size.min_value) icp.company_size.max_value
        account.employee_count)
      (revenue_range (or_zero icp.revenue_range.min_value) icp.revenue_range.max_value
        account.revenue)
      (geography_range icp.geographies _) (signals_range icp account.signals 50 [] (omega arith))
      (rw kept at e)

map_fit_kept : (o : Option Totals) (r : IcpFit) → map_fit o ≡ some r → r.is_disqualified ≡ false
map_fit_kept none r e = cc e
map_fit_kept (some t) r e = ap (λ (f : IcpFit). f.is_disqualified) (sym (ap (fit_or (fit_of t)) e))

pub score_icp_fit-kept :
    (account : IcpAccount) (icp : IcpCriteria) (w : IcpWeights) (r : IcpFit)
    → check_disqualify account icp ≡ none
    → score_icp_fit account icp w ≡ some r
    → r.is_disqualified ≡ false
unfolding score_icp_fit
score_icp_fit-kept account icp w r kept e = map_fit_kept _ r (rw kept at e)

-- With a size range that has no `max`, the scorer raises on every account that is not disqualified and whose number of
-- employees is known and not below `min`.
pub score_icp_fit-raises :
    (account : IcpAccount) (icp : IcpCriteria) (w : IcpWeights) (c : ℕ)
    → check_disqualify account icp ≡ none
    → account.employee_count ≡ some c
    → or_zero icp.company_size.min_value ≤ c
    → icp.company_size.max_value ≡ none
    → score_icp_fit account icp w ≡ none
unfolding score_icp_fit score_company_size within_score
score_icp_fit-raises account icp w c kept size above no_max =
    ground (arith, kept, size, above, no_max)
