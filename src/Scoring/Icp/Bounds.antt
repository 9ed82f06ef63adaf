-- ===== src/Scoring/Icp/Bounds.antt =====
-- src/scoring/icp_rules.py: the range of the ICP score, its confidence, and where the scorer raises.
use cmo_agent.Common.{
  ℕ, ◌+◌, ◌-◌, ◌*◌, ◌/◌, ◌≤◌, ◌<◌, ◌≡◌, String, true, false, Option, none, some, List, [], ◌∷◌, ltb,
  leb, arith, if◌then◌else◌, inl, inr, Bool-cases, ltb→lt, leb→le, Option-cases,
}
use cmo_agent.Scoring.Icp.{
  Evidence, IcpCriteria, within_score, partial_credit, industry_of, size_of, revenue_of,
  geography_of, add_signals, add_signal, SignalEntry, distance, is_at_most, or_zero, with_evidence,
}

-- a score with its evidence, from `lo` on
abbrev pub InRange : ℕ → ℕ × Option Evidence → Type 0
InRange lo d = (lo ≤ d.0) × (d.0 ≤ 100)

pub industry_range : (ts : List String) (o : Option String) → InRange 10 (industry_of ts o)
industry_range ts none = ground arith
industry_range [] (some i) = ground arith
industry_range (t ∷ ts) (some i) = ground arith

pub geography_range : (ts : List String) (o : Option String) → InRange 20 (geography_of ts o)
geography_range ts none = ground arith
geography_range [] (some i) = ground arith
geography_range (t ∷ ts) (some i) = ground arith

le-div : (k n d : ℕ) → 0 < d → k * d ≤ n → k ≤ n / d
le-div k n d positive le = grind arith

div-le : (k n d : ℕ) → 0 < d → n ≤ k * d → n / d ≤ k
div-le k n d positive le = grind arith

-- The share of the width is at most a half, so at most 20 of the 100 are taken off.
share_range :
    (lo hi c : ℕ)
    → lo < hi
    → lo ≤ c
    → c ≤ hi
    → let n : ℕ = (200 * (hi - lo) - 40 * distance (2 * c) (lo + hi)) / (2 * (hi - lo)) in
      (80 ≤ n) × (n ≤ 100)
share_range lo hi c wide above below =
    let near : distance (2 * c) (lo + hi) ≤ hi - lo = ground (arith, wide, above, below) in
    (
      le-div 80 _ (2 * (hi - lo)) (omega (arith, wide)) (omega (arith, near)),
      div-le 100 _ (2 * (hi - lo)) (omega (arith, wide)) (omega (arith, near)),
    )

within_range :
    (lo hi c n : ℕ)
    → leb lo c ≡ true
    → leb c hi ≡ true
    → within_score lo (some hi) c ≡ some n
    → (80 ≤ n) × (n ≤ 100)
unfolding within_score
within_range lo hi c n h k e = elim (Bool-cases (ltb lo hi)) [
  | inl wide ↦
      let range = share_range lo hi c (ltb→lt lo hi wide) (leb→le lo c h) (leb→le c hi k) in
      ground (arith, wide, e, range)
  | inr flat ↦ ground (arith, flat, e)
]

pub signals_range :
    (icp : IcpCriteria) (ss : List SignalEntry) (score : ℕ) (evs : List Evidence)
    → score ≤ 100
    → (add_signals icp ss (score, evs)).0 ≤ 100
signals_range icp [] score evs h = h
signals_range icp (s ∷ ss) score evs h =
    signals_range icp ss (add_signal icp s (score, evs)).0 (add_signal icp s (score, evs)).1
      (ground (arith, h))

credit_range : (a b : ℕ) → a ≤ b → partial_credit a b ≤ 40
unfolding partial_credit
credit_range a b h = elim (Bool-cases (ltb 0 b)) [
  | inl positive ↦ rw positive (div-le 40 (40 * a) b (ltb→lt 0 b positive) (omega (arith, h)))
  | inr zero_size ↦ rw zero_size (omega arith)
]

above_range :
    (lo : ℕ) (hi : Option ℕ) (c : ℕ)
    → (if leb lo c then is_at_most c hi else false) ≡ false
    → ltb c lo ≡ false
    → partial_credit (or_zero hi) c ≤ 40
above_range lo none c outside above = credit_range 0 c (omega arith)
above_range lo (some hi) c outside above = credit_range hi c (ground (arith, outside, above))

within_any :
    (lo : ℕ) (hi : Option ℕ) (c : ℕ) (e : Option Evidence) (d : ℕ × Option Evidence)
    → (if leb lo c then is_at_most c hi else false) ≡ true
    → with_evidence e (within_score lo hi c) ≡ some d
    → InRange 80 d
unfolding within_score
within_any lo none c ev d inside e = ground (arith, e)
within_any lo (some hi) c ev d inside e = elim (Option-cases (within_score lo (some hi) c)) [
  | inl raised ↦ ground (arith, raised, e)
  | inr (n, scored) ↦ ground (arith, scored, e, inside, within_range lo hi c n)
]

pub size_range :
    (lo : ℕ) (hi o : Option ℕ) (d : ℕ × Option Evidence) → size_of lo hi o ≡ some d → InRange 0 d
size_range lo hi none d e = ground (arith, e)
size_range lo hi (some c) d e = elim (Bool-cases (if leb lo c then is_at_most c hi else false)) [
  | inl inside ↦ (omega arith, (within_any lo hi c _ d inside (rw inside at e)).1)
  | inr outside ↦ ground (arith, e, outside, credit_range c lo, above_range lo hi c)
]

pub revenue_range :
    (lo : ℕ) (hi o : Option ℕ) (d : ℕ × Option Evidence)
    → revenue_of lo hi o ≡ some d
    → InRange 15 d
revenue_range lo hi none d e = ground (arith, e)
revenue_range lo hi (some c) d e = elim (Bool-cases (if leb lo c then is_at_most c hi else false)) [
  | inl inside ↦
      let range = within_any lo hi c _ d inside (rw inside at e) in
      (omega (arith, range.0), range.1)
  | inr outside ↦ ground (arith, e, outside)
]
