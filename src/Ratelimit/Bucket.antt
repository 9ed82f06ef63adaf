-- ===== src/Ratelimit/Bucket.antt =====
-- One call of the script: what it keeps, what it charges, and what its `retry_after` promises.
use cmo_agent.Common.{
  ℕ, zero, suc, ◌+◌, ◌-◌, ◌*◌, ◌/◌, ◌≤◌, ◌≡◌, none, some, ap, ◌∙◌, arith, inl, inr, Bool-cases, ltb,
  min, true, false, if◌then◌else◌,
}
use cmo_agent.Common.Int.{pos, negsuc, ◌+ℤ◌, ◌-ℤ◌}
use native.Mathlib.Nat.{div-eq_of_eq-mul_left}
use cmo_agent.Ratelimit.{
  BucketState, Reply, refilled, min_ℤ, ceil_div, charge, take_token, passed, limited, verdict,
}

abbrev pub at_pos : ℕ → ℕ → BucketState
at_pos n last = record { tokens = pos n; last_refill = last }

-- where a clock has not gone back
refilled_pos :
    (max n last now : ℕ)
    → last ≤ now
    → refilled max (at_pos n last) now ≡ pos (n + (now - last) * max)
unfolding refilled ◌+ℤ◌
refilled_pos max n last now h = ground arith

min_pos : (a b : ℕ) → min_ℤ (pos a) (pos b) ≡ pos (min a b)
min_pos a b = ground arith

sub_pos : (a b : ℕ) → b ≤ a → pos a -ℤ pos b ≡ pos (a - b)
unfolding ◌-ℤ◌
sub_pos a b h = ground arith

-- the tokens before the charge
abbrev pub filled : ℕ → ℕ → ℕ → ℕ → ℕ
filled max R n elapsed = min (max * R) (n + elapsed * max)

-- the script on natural numbers
abbrev pub take_ℕ : ℕ → ℕ → ℕ → ℕ → Reply × BucketState
take_ℕ max R now m =
    if ltb m R
    then (record { remaining = negsuc 0; retry_after = ceil_div (R - m) max }, at_pos m now)
    else (record { remaining = pos ((m - R) / R); retry_after = 0 }, at_pos (m - R) now)

pub le_product : (max R : ℕ) → 1 ≤ max → R ≤ max * R
le_product max R h = grind arith

pub product_mono : (a b max : ℕ) → a ≤ b → a * max ≤ b * max
product_mono a b max h = grind arith

-- `ceil_div` is enough
le-ceil_div : (n d : ℕ) → 1 ≤ d → n ≤ ceil_div n d * d
le-ceil_div n d h = grind arith

div_less_one : (max R : ℕ) → 1 ≤ max → 1 ≤ R → (max * R - R) / R ≡ max - 1
div_less_one zero R h k = absurd (omega arith)
div_less_one (suc m) R h k =
    let e : suc m - 1 ≡ m = omega arith in rw e (div-eq_of_eq-mul_left k (omega arith))

-- after a whole refill time a bucket is full
filled_full : (max R n elapsed : ℕ) → R ≤ elapsed → filled max R n elapsed ≡ max * R
filled_full max R n elapsed h = omega (arith, product_mono R elapsed max h)

charge_pos : (max R now m : ℕ) → charge max R now (pos m) ≡ take_ℕ max R now m
unfolding charge ◌-ℤ◌
charge_pos max R now m = ground arith

pub take_token-eq :
    (max R now n last : ℕ)
    → last ≤ now
    → take_token max R now (some (at_pos n last)) ≡ take_ℕ max R now (filled max R n (now - last))
unfolding take_token
take_token-eq max R now n last h = rw (refilled_pos max n last now h) (
    rw (min_pos (max * R) (n + (now - last) * max))
      (charge_pos max R now (filled max R n (now - last))))

pub take_first-eq :
    (max R now : ℕ)
    → 1 ≤ max
    → take_token max R now none
      ≡ (record { remaining = pos (max - 1); retry_after = 0 }, at_pos (max * R - R) now)
unfolding take_token
take_first-eq max R now h = ground (arith, le_product max R h)

-- A key that expires unseen changes nothing: it does so two refill times after the last call, and by
-- then the bucket would be full again.
pub expiry_unseen :
    (max R now n last : ℕ)
    → 1 ≤ max
    → 1 ≤ R
    → last + 2 * R ≤ now
    → take_token max R now (some (at_pos n last)) ≡ take_token max R now none
expiry_unseen max R now n last some_max some_R h =
    rw (take_token-eq max R now n last (omega arith)) (
      rw (take_first-eq max R now some_max) (
        rw (filled_full max R n (now - last) (omega arith))
          (ground (arith, le_product max R some_max, div_less_one max R some_max some_R))))

-- enough has come in since
served :
    (max R now later m : ℕ)
    → 1 ≤ max
    → now ≤ later
    → R ≤ m + (later - now) * max
    → verdict (take_token max R later (some (at_pos m now))).0 ≡ passed
served max R now later m some_max h enough =
    rw (take_token-eq max R later m now h) (ground (arith, le_product max R some_max))

pub short_lem :
    (max R now m : ℕ)
    → ltb m R ≡ true
    → take_ℕ max R now m
      ≡ (record { remaining = negsuc 0; retry_after = ceil_div (R - m) max }, at_pos m now)
short_lem max R now m h = rw h

pub enough_lem :
    (max R now m : ℕ)
    → ltb m R ≡ false
    → take_ℕ max R now m
      ≡ (record { remaining = pos ((m - R) / R); retry_after = 0 }, at_pos (m - R) now)
enough_lem max R now m h = rw h

after_refusal :
    (max R now later m : ℕ)
    → 1 ≤ max
    → (out : Reply × BucketState) → out ≡ take_ℕ max R now m
    → verdict out.0 ≡ limited out.0.retry_after
    → now + out.0.retry_after ≤ later
    → verdict (take_token max R later (some out.1)).0 ≡ passed
after_refusal max R now later m some_max out e refused waited = elim (Bool-cases (ltb m R)) [
  | inl short ↦
      let e₁ : out.1 ≡ at_pos m now =
        ap (λ (o : Reply × BucketState). o.1) (e ∙ short_lem max R now m short) in
      let e₀ : out.0.retry_after ≡ ceil_div (R - m) max =
        ap (λ (o : Reply × BucketState). o.0.retry_after) (e ∙ short_lem max R now m short) in
      let long : ceil_div (R - m) max ≤ later - now = omega (arith, e₀, waited) in
      rw e₁ (
        served max R now later m some_max (omega (arith, waited)) (
          omega (
            arith,
            le-ceil_div (R - m) max some_max,
            product_mono (ceil_div (R - m) max) (later - now) max long,
          )))
  | inr enough ↦ absurd (
      ground
        (arith, ap (λ (o : Reply × BucketState). verdict o.0) (e ∙ enough_lem max R now m enough)))
]

-- A caller that is refused and waits for at least `retry_after` seconds is served by its next call, if
-- no other call has come in between.
pub retry_served :
    (max R now n last later : ℕ)
    → 1 ≤ max
    → 1 ≤ R
    → last ≤ now
    → let (reply, b) = take_token max R now (some (at_pos n last)) in
      verdict reply ≡ limited reply.retry_after
      → now + reply.retry_after ≤ later
      → verdict (take_token max R later (some b)).0 ≡ passed
retry_served max R now n last later some_max some_R h refused waited =
    after_refusal max R now later (filled max R n (now - last)) some_max
      (take_token max R now (some (at_pos n last))) (take_token-eq max R now n last h) refused
      waited
