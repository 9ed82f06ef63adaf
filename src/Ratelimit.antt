-- ===== src/Ratelimit.antt =====
-- src/ratelimit/bucket.py: the Lua script of the token bucket, and RateLimiter.enforce. `R` seconds
-- refill `max` tokens. A bucket's tokens are counted in units of 1 / R, in which the script's numbers
-- are whole: Lua computes with floats, so at the last place its result may differ from this one.
pub mod Bucket
pub mod Runs
mod Tests
use cmo_agent.Common.{
  ℕ, suc, ◌+◌, ◌-◌, ◌*◌, ◌/◌, String, Bool, true, false, Option, none, some, leb, str_eq,
  if◌then◌else◌,
}
use cmo_agent.Common.Int.{ℤ, pos, negsuc, pos_part, neg_part, sub_ℕ, ◌+ℤ◌, ◌-ℤ◌, ltb_ℤ}

-- the hash under a key: tokens in units of 1 / R, and the time of the last refill
pub record BucketState : Type 0 where
  pub tokens : ℤ
  pub last_refill : ℕ

-- `{remaining, retry_after}`
pub record Reply : Type 0 where
  pub remaining : ℤ
  pub retry_after : ℕ

abbrev pub min_ℤ : ℤ → ℤ → ℤ
min_ℤ a b = if ltb_ℤ b a then b else a

-- `tokens + elapsed * refill_rate`; the clocks of two callers may disagree, so `elapsed` has a sign
unfoldable pub refilled : ℕ → BucketState → ℕ → ℤ
refilled max b now =
    if leb b.last_refill now
    then b.tokens +ℤ pos ((now - b.last_refill) * max)
    else b.tokens -ℤ pos ((b.last_refill - now) * max)

-- `math.ceil(deficit / refill_rate)` for a deficit in units of 1 / R
abbrev pub ceil_div : ℕ → ℕ → ℕ
ceil_div n d = (n + d - 1) / d

-- the branches of the script, on the refilled tokens
unfoldable pub charge : ℕ → ℕ → ℕ → ℤ → Reply × BucketState
charge max R now new_tokens =
    if ltb_ℤ new_tokens (pos R)
    then (
      record { remaining = negsuc 0; retry_after = ceil_div (pos_part (pos R -ℤ new_tokens)) max },
      record { tokens = new_tokens; last_refill = now },
    )
    else (
      record { remaining = pos (pos_part (new_tokens -ℤ pos R) / R); retry_after = 0 },
      record { tokens = new_tokens -ℤ pos R; last_refill = now },
    )

-- The script. `none` is a key that is not there, or has expired.
unfoldable pub take_token : ℕ → ℕ → ℕ → Option BucketState → Reply × BucketState
take_token max R now none = (
  record { remaining = sub_ℕ max 1; retry_after = 0 },
  record { tokens = sub_ℕ (max * R) R; last_refill = now },
)
take_token max R now (some b) = charge max R now (min_ℤ (pos (max * R)) (refilled max b now))

pub data Plan : Type 0 where
  free pro enterprise : Plan

abbrev pub plan_of : String → Option Plan
plan_of t =
    if str_eq t "free"
    then some free
    else if str_eq t "pro"
    then some pro
    else if str_eq t "enterprise"
    then some enterprise
    else none

abbrev pub tier : ℕ → ℕ → ℕ → Plan → ℕ
tier a b c free = a
tier a b c pro = b
tier a b c enterprise = c

-- RATE_LIMITS: the tokens of a bucket; every bucket refills in 60 seconds
unfoldable pub rate_limits : String → Option (Plan → ℕ)
rate_limits resource =
    if str_eq resource "apollo"
    then some (tier 10 100 500)
    else if str_eq resource "clay"
    then some (tier 5 50 200)
    else if str_eq resource "linkedin"
    then some (tier 5 30 120)
    else if str_eq resource "email_send"
    then some (tier 20 200 1000)
    else if str_eq resource "claude"
    then some (tier 15 150 600)
    else if str_eq resource "api"
    then some (tier 60 300 1000)
    else none

abbrev pub refill_seconds : ℕ
refill_seconds = 60

-- how `enforce` ends: it returns, or raises RateLimitExceededError
pub data Verdict : Type 0 where
  passed : Verdict
  limited : ℕ → Verdict

abbrev pub verdict : Reply → Verdict
verdict r = if ltb_ℤ r.remaining (pos 0) then limited r.retry_after else passed

abbrev pub enforce_limit :
    Option (Plan → ℕ) → Option Plan → ℕ → Option BucketState → Verdict × Option BucketState
enforce_limit none plan now bucket = (passed, bucket)
enforce_limit (some limits) none now bucket = (passed, bucket)
enforce_limit (some limits) (some plan) now bucket =
    let (reply, b) = take_token (limits plan) refill_seconds now bucket in (verdict reply, some b)

-- The bucket is that of the workspace and the resource.
unfoldable pub enforce : String → String → ℕ → Option BucketState → Verdict × Option BucketState
enforce resource plan = enforce_limit (rate_limits resource) (plan_of plan)
