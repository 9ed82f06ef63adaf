-- ===== src/Ratelimit/Runs.antt =====
-- How many of a sequence of calls on one bucket are served.
use cmo_agent.Common.{
  ℕ, ◌+◌, ◌-◌, ◌*◌, ◌≤◌, ◌≡◌, Option, none, some, List, [], ◌∷◌, ltb, Bool-cases, inl, inr, ◌∙◌,
  arith, zero, suc, ap, min,
}
use cmo_agent.Ratelimit.{BucketState, take_token, Verdict, passed, limited, verdict}
use cmo_agent.Ratelimit.Bucket.{
  at_pos, filled, take_token-eq, take_first-eq, short_lem, enough_lem, le_product, product_mono,
  take_ℕ,
}

abbrev pub count_passed : Verdict → ℕ
count_passed passed = 1
count_passed (limited r) = 0

split_time :
    (last now end max : ℕ)
    → last ≤ now
    → now ≤ end
    → (now - last) * max + (end - now) * max ≡ (end - last) * max
split_time last now end max h k =
    let e : end - last ≡ (now - last) + (end - now) = omega arith in rw e (omega arith)

less_one : (max R : ℕ) → 1 ≤ max → max * R - R ≡ (max - 1) * R
less_one zero R h = absurd (omega (arith, h))
less_one (suc m) R h = let e : suc m - 1 ≡ m = omega arith in rw e (omega arith)

-- `n` calls at one time
pub repeat : ℕ → ℕ → List ℕ
repeat zero now = []
repeat (suc n) now = now ∷ repeat n now

module _ (max R : ℕ) where
  -- Calls at these times, one after another; the number that is served.
  pub served_of : List ℕ → Option BucketState → ℕ
  served_of [] b = 0
  served_of (now ∷ times) b =
      let (reply, b') = take_token max R now b in
      count_passed (verdict reply) + served_of times (some b')

  -- times that do not go back, from `last` to `end` at the latest
  abbrev pub Ordered : ℕ → List ℕ → ℕ → Type 0
  Ordered last [] end = last ≤ end
  Ordered last (now ∷ times) end = (last ≤ now) × Ordered now times end

  Ordered-le : (last : ℕ) (times : List ℕ) (end : ℕ) → Ordered last times end → last ≤ end
  Ordered-le last [] end h = h
  Ordered-le last (now ∷ times) end h = omega (arith, h.0, Ordered-le now times end h.1)

  -- What is served is paid for with what was in the bucket and what has come in.
  served_paid :
      (times : List ℕ) (n last end : ℕ)
      → Ordered last times end
      → served_of times (some (at_pos n last)) * R ≤ n + (end - last) * max
  unfolding served_of
  served_paid [] n last end h = omega arith
  served_paid (now ∷ times) n last end h = elim (Bool-cases (ltb (filled max R n (now - last)) R)) [
    | inl short ↦
        rw
          (take_token-eq max R now n last h.0
            ∙ short_lem max R now (filled max R n (now - last)) short)
          (omega (
            arith,
            served_paid times (filled max R n (now - last)) now end h.1,
            split_time last now end max h.0 (Ordered-le now times end h.1),
          ))
    | inr enough ↦
        rw
          (take_token-eq max R now n last h.0
            ∙ enough_lem max R now (filled max R n (now - last)) enough)
          (ground (
            arith,
            served_paid times (filled max R n (now - last) - R) now end h.1,
            split_time last now end max h.0 (Ordered-le now times end h.1),
          ))
  ]

  filled_still : (k now : ℕ) → k ≤ max → filled max R (k * R) (now - now) ≡ k * R
  filled_still k now h =
      let none_passed : now - now ≡ 0 = omega arith in
      rw none_passed (omega (arith, product_mono k max R h))

  -- what is left for calls at one time, of a bucket with `k` tokens
  served_at_once :
      (n k now : ℕ)
      → 1 ≤ R
      → k ≤ max
      → served_of (repeat n now) (some (at_pos (k * R) now)) ≡ min n k
  unfolding served_of repeat
  served_at_once zero k now some_R h = omega arith
  served_at_once (suc n) zero now some_R h =
      rw
        (take_token-eq max R now (0 * R) now (omega arith)
          ∙ ap (take_ℕ max R now) (filled_still 0 now h)
          ∙ short_lem max R now (0 * R) (ground (arith, some_R)))
        (omega (arith, served_at_once n 0 now some_R h))
  served_at_once (suc n) (suc k) now some_R h =
      let one_less : suc k * R - R ≡ k * R = omega arith in
      rw
        (take_token-eq max R now (suc k * R) now (omega arith)
          ∙ ap (take_ℕ max R now) (filled_still (suc k) now h)
          ∙ enough_lem max R now (suc k * R) (ground arith))
        (rw one_less (ground (arith, served_at_once n k now some_R (omega (arith, h)))))

  -- Of calls at `first` and at later times up to `end` that do not go back, on a bucket that is not there at first, no
  -- more are served than the bucket holds, and `max` more for each refill time that has passed, however the calls are
  -- spaced; and of any number of calls at one time exactly as many are served as the bucket holds, or all.
  pub served_bounded :
      (first : ℕ) (times : List ℕ) (end n : ℕ)
      → 1 ≤ max
      → 1 ≤ R
      → Ordered first times end
      → (served_of (first ∷ times) none * R ≤ max * R + (end - first) * max)
        × (served_of (first ∷ repeat n first) none ≡ min (suc n) max)
  unfolding served_of
  served_bounded first times end n some_max some_R h =
      let held : max * R - R ≡ (max - 1) * R = less_one max R some_max in
      (
        rw (take_first-eq max R first some_max) (
            ground (arith, le_product max R some_max, served_paid times (max * R - R) first end h)),
        rw (take_first-eq max R first some_max)
            (rw held (ground (arith, served_at_once n (max - 1) first some_R (omega arith)))),
      )
