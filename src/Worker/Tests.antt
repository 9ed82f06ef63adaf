-- ===== src/Worker/Tests.antt =====
-- Two workers on one thread, and the approval of a brief.
use cmo_agent.Common.{String, true, false, ◌≡◌, refl, some, [], ◌∷◌}
use cmo_agent.Worker.Locks.{acquire, release, Reaches, free, enter, leave, expire}
use cmo_agent.Worker.Locks.Exclusion.{live_alone}
use cmo_agent.Worker.Handlers.{ApprovalPayload}

-- the first worker is still inside when its time runs out and the second comes in
overlap : Reaches (some "b") ("b" ∷ "a" ∷ []) ("a" ∷ [])
unfolding acquire
overlap = enter "b" (expire "a" (enter "a" free refl refl refl)) refl refl refl

-- the first one leaves, and the lock is still the second one's
first_leaves : Reaches (some "b") ("b" ∷ []) ("a" ∷ [])
unfolding release
first_leaves = leave "a" overlap refl

live_alone_example :
    let token : String = "b" in
    (token ≡ token)
    × (some token ≡ some token)
    × ((other : String) → (acquire other (some "b")).0 ≡ false)
live_alone_example = live_alone first_leaves "b" "b" refl refl refl refl

abbrev approval : ApprovalPayload
approval = record { thread_id = "t"; approved = true; brief_id = some "b1" }
