-- ===== src/Scoring/Priority.antt =====
-- src/agent/nodes/icp_scorer.py. What the model answers on the pain is an argument; of its evidence the number is
-- kept. Confidences, in hundredths, are not rounded to thousandths.
use cmo_agent.Common.{
  ℕ, ◌+◌, ◌*◌, ◌≤◌, ◌≡◌, ap, Bool, true, false, Option, none, some, List, [], ◌++◌, min, leb,
  String, arith, if◌then◌else◌, inl, inr, Option-cases, subst,
}
use cmo_agent.Common.Int.{ℤ, pos, negsuc}
use cmo_agent.Scoring.Round.{round, round-le, le-round}
use cmo_agent.Scoring.Icp.{Evidence, IcpAccount, IcpCriteria, icp_weights}
use cmo_agent.Scoring.Icp.Fit.{IcpFit, score_icp_fit, check_disqualify}
use cmo_agent.Scoring.Icp.Results.{score_icp_fit-range, score_icp_fit-kept}
use cmo_agent.Scoring.Timing.{DatedSignal, score_timing}
use cmo_agent.Scoring.Timing.Range.{score_timing-range}

-- The call raised; the text was no JSON; `pain_fit_score` was no number; `confidence` was none; or all was there.
pub data PainAnswer : Type 0 where
  call_failed no_json no_number : PainAnswer
  no_confidence : ℤ → PainAnswer
  answered : ℤ → ℕ → List Evidence → PainAnswer

-- `max(0, min(100, n))`
abbrev pub clamp_score : ℤ → ℕ
clamp_score (pos n) = min 100 n
clamp_score (negsuc n) = 0

abbrev pub pain_fit_score_of : PainAnswer → ℕ
pain_fit_score_of call_failed = 50
pain_fit_score_of no_json = 50
pain_fit_score_of no_number = 50
pain_fit_score_of (no_confidence n) = clamp_score n
pain_fit_score_of (answered n confidence evs) = clamp_score n

abbrev pub pain_confidence_of : PainAnswer → ℕ
pain_confidence_of (answered n confidence evs) = confidence
pain_confidence_of answer = 30

abbrev pub pain_evidence_of : PainAnswer → List Evidence
pain_evidence_of (answered n confidence evs) = evs
pain_evidence_of answer = []

-- the AccountScore, with the two confidences that it mixes as fractions
pub record Scored : Type 0 where
  pub icp_fit_score : ℕ
  pub pain_fit_score : ℕ
  pub timing_score : ℕ
  pub overall_priority_score : ℕ
  pub fit_reasons : List Evidence
  pub non_fit_reasons : List Evidence
  pub icp_confidence : ℕ × ℕ
  pub pain_confidence : ℕ
  pub timing_confidence : ℕ × ℕ
  pub is_disqualified : Bool
  pub disqualify_reason : Option String

-- `round(icp * 0.35 + pain * 0.35 + timing * 0.30)`, kept between 0 and 100
unfoldable pub overall_priority : ℕ → ℕ → ℕ → ℕ
overall_priority icp pain timing = min 100 (round (35 * icp + 35 * pain + 30 * timing) 100)

abbrev pub scored_account : IcpFit → PainAnswer → ℕ × ℕ × ℕ → Scored
scored_account fit answer t =
    let pain = pain_fit_score_of answer in
    let fits = leb 50 pain in
    record {
      icp_fit_score = fit.icp_fit_score;
      pain_fit_score = pain;
      timing_score = t.0;
      overall_priority_score = overall_priority fit.icp_fit_score pain t.0;
      fit_reasons = (if fits then fit.fit_reasons ++ pain_evidence_of answer else fit.fit_reasons);
      non_fit_reasons =
          (if fits then fit.non_fit_reasons else fit.non_fit_reasons ++ pain_evidence_of answer);
      icp_confidence = fit.confidence;
      pain_confidence = pain_confidence_of answer;
      timing_confidence = (t.1, t.2);
      is_disqualified = false;
      disqualify_reason = none;
    }

abbrev pub disqualified_account : IcpFit → Scored
disqualified_account fit = record {
  icp_fit_score = 0;
  pain_fit_score = 0;
  timing_score = 0;
  overall_priority_score = 0;
  fit_reasons = fit.fit_reasons;
  non_fit_reasons = fit.non_fit_reasons;
  icp_confidence = fit.confidence;
  pain_confidence = 0;
  timing_confidence = (0, 1);
  is_disqualified = true;
  disqualify_reason = fit.disqualify_reason;
}

abbrev pub score_from : Option IcpFit → List DatedSignal → PainAnswer → Option Scored
score_from none signals answer = none
score_from (some fit) signals answer = some (
    if fit.is_disqualified
    then disqualified_account fit
    else scored_account fit answer (score_timing signals))

unfoldable pub icp_scorer : IcpAccount → IcpCriteria → List DatedSignal → PainAnswer → Option Scored
icp_scorer account icp signals answer =
    score_from (score_icp_fit account icp icp_weights) signals answer

pain_range : (a : PainAnswer) → pain_fit_score_of a ≤ 100
pain_range call_failed = omega arith
pain_range no_json = omega arith
pain_range no_number = omega arith
pain_range (no_confidence n) = ground arith
pain_range (answered n c evs) = ground arith

timing_bounds : (ss : List DatedSignal) → (20 ≤ (score_timing ss).0) × ((score_timing ss).0 ≤ 100)
timing_bounds ss = ground (arith, score_timing-range ss)

overall_range :
    (icp pain timing : ℕ)
    → 16 ≤ icp
    → icp ≤ 88
    → pain ≤ 100
    → 20 ≤ timing
    → timing ≤ 100
    → (11 ≤ overall_priority icp pain timing) × (overall_priority icp pain timing ≤ 96)
unfolding overall_priority
overall_range icp pain timing h₁ h₂ h₃ h₄ h₅ =
    let n : ℕ = 35 * icp + 35 * pain + 30 * timing in
    let low : 11 ≤ round n 100 = le-round n 100 11 (omega arith) (omega (arith, h₁, h₄)) in
    let high : round n 100 ≤ 96 = round-le n 100 96 (omega arith) (omega (arith, h₂, h₃, h₅)) in
    (omega (arith, low), omega (arith, high))

abbrev scored_or : Scored → Option Scored → Scored
scored_or d none = d
scored_or d (some s) = s

from_fit :
    (fit : IcpFit) (signals : List DatedSignal) (answer : PainAnswer) (s : Scored)
    → fit.is_disqualified ≡ false
    → (16 ≤ fit.icp_fit_score) × (fit.icp_fit_score ≤ 88)
    → score_from (some fit) signals answer ≡ some s
    → (11 ≤ s.overall_priority_score) × (s.overall_priority_score ≤ 96)
from_fit fit signals answer s kept range e =
    let scored : Scored = scored_account fit answer (score_timing signals) in
    let same : scored ≡ s = ap (scored_or scored) (rw kept at e) in
    let timing = timing_bounds signals in
    subst (λ (r : Scored). (11 ≤ r.overall_priority_score) × (r.overall_priority_score ≤ 96)) same
      (overall_range fit.icp_fit_score (pain_fit_score_of answer) (score_timing signals).0 range.0
        range.1 (pain_range answer) timing.0 timing.1)

-- Whatever the model answers, an account that is not disqualified gets a priority from 11 to 96, if the scorer gives
-- one.
pub icp_scorer-range :
    (account : IcpAccount) (icp : IcpCriteria) (signals : List DatedSignal) (answer : PainAnswer)
    (s : Scored)
    → check_disqualify account icp ≡ none
    → icp_scorer account icp signals answer ≡ some s
    → (11 ≤ s.overall_priority_score) × (s.overall_priority_score ≤ 96)
unfolding icp_scorer
icp_scorer-range account icp signals answer s kept e =
    elim (Option-cases (score_icp_fit account icp icp_weights)) [
      | inl raised ↦ absurd (cc (rw raised at e))
      | inr (fit, scored) ↦
          from_fit fit signals answer s (score_icp_fit-kept account icp icp_weights fit kept scored)
            (score_icp_fit-range account icp fit kept scored) (rw scored at e)
    ]
