-- ===== src/Ratelimit/Tests.antt =====
-- Buckets of two and ten tokens.
use cmo_agent.Common.{◌+◌, ◌*◌, ◌≤◌, ◌≡◌, refl, none, some, [], ◌∷◌, arith}
use cmo_agent.Common.Int.{◌+ℤ◌, ◌-ℤ◌}
use cmo_agent.Ratelimit.{
  take_token, charge, refilled, passed, limited, verdict, enforce, rate_limits,
}
use cmo_agent.Ratelimit.Bucket.{at_pos, expiry_unseen, retry_served}
use cmo_agent.Ratelimit.Runs.{repeat, served_of, served_bounded}

refused_for_a_minute :
    enforce "apollo" "free" 100 (some (at_pos 0 100)) ≡ (limited 6, some (at_pos 0 100))
unfolding enforce rate_limits take_token charge refilled ◌+ℤ◌ ◌-ℤ◌
refused_for_a_minute = refl

no_limit_for_slack : enforce "slack" "free" 100 none ≡ (passed, none)
unfolding enforce rate_limits
no_limit_for_slack = refl

expiry_unseen_example : take_token 10 60 1000 (some (at_pos 7 880)) ≡ take_token 10 60 1000 none
expiry_unseen_example = expiry_unseen 10 60 1000 7 880 (omega arith) (omega arith) (omega arith)

retry_served_example :
    verdict (take_token 10 60 106 (some (take_token 10 60 100 (some (at_pos 0 100))).1)).0 ≡ passed
unfolding take_token charge refilled ◌+ℤ◌ ◌-ℤ◌
retry_served_example =
    retry_served 10 60 100 0 100 106 (omega arith) (omega arith) (omega arith) refl (omega arith)

served_bounded_example :
    (served_of 2 60 (5 ∷ 5 ∷ 5 ∷ 65 ∷ []) none * 60 ≤ 2 * 60 + 60 * 2)
    × (served_of 2 60 (5 ∷ repeat 6 5) none ≡ 2)
served_bounded_example =
    served_bounded 2 60 5 (5 ∷ 5 ∷ 65 ∷ []) 65 6 (omega arith) (omega arith) (ground arith)
