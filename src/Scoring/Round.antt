-- ===== src/Scoring/Round.antt =====
-- Python's `round` of a fraction, to the even number at a half, with the lemmas on it.
use cmo_agent.Common.{
  ℕ, suc, ◌+◌, ◌*◌, ◌/◌, ◌%◌, ◌≤◌, ◌<◌, ◌≡◌, ◌⊎◌, inl, inr, dec_lt, arith, ltb, ◌==◌, if◌then◌else◌,
}

-- `round(n / d)`
unfoldable pub round : ℕ → ℕ → ℕ
round n d =
    let q = n / d in
    if ltb (2 * (n % d)) d
    then q
    else if ltb d (2 * (n % d))
    then q + 1
    else if q % 2 == 0
    then q
    else q + 1

mono : (a b d : ℕ) → a ≤ b → a * d ≤ b * d
mono a b d h = grind arith

quotient_cases : (q r k d : ℕ) → 0 < d → q * d + r ≤ k * d → (q < k) ⊎ ((q ≡ k) × (r ≡ 0))
quotient_cases q r k d some le = elim (dec_lt q k) [
  | yes below ↦ inl below
  | no not_below ↦
      let ge : k ≤ q = omega (arith, not_below) in
      let at_most : q ≤ k = elim (dec_lt k q) [
        | yes above ↦
            let more : suc k * d ≡ k * d + d = grind arith in
            absurd (omega (arith, mono (suc k) q d (omega (arith, above)), more, some, le))
        | no not_above ↦ omega (arith, not_above)
      ] in
      inr (omega (arith, ge, at_most), omega (arith, mono k q d ge, le))
]

pub round-le : (n d k : ℕ) → 0 < d → n ≤ k * d → round n d ≤ k
unfolding round
round-le n d k h le =
    let split : n / d * d + n % d ≡ n = grind arith in
    elim (quotient_cases (n / d) (n % d) k d h (omega (arith, split, le))) [
      | inl below ↦ ground (arith, below)
      | inr exact ↦ ground (arith, exact.0, exact.1, h)
    ]

pub le-round : (n d k : ℕ) → 0 < d → k * d ≤ n → k ≤ round n d
unfolding round
le-round n d k h le = grind arith
