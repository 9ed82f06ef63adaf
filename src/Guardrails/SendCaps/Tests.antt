-- ===== src/Guardrails/SendCaps/Tests.antt =====
-- The caps on small databases.
use cmo_agent.Common.{◌+◌, ◌≤◌, max, ◌≡◌, refl, String, none, some, [], ◌∷◌, arith}
use cmo_agent.Redis.Memory.{Memory, blank, memory}
use cmo_agent.Guardrails.SendCaps.{
  Caps, Dates, daily_workspace, daily_ws_key, weekly_ws_key, key, check, increment,
  check_and_increment, check_account,
}
use cmo_agent.Guardrails.SendCaps.Runs.{run, run-le-caps, race_overshoots}

abbrev monday : Dates
monday = record { today = "2025-03-03"; week = "2025-W09" }

abbrev one_a_day : Caps
one_a_day = record {
  daily_max_per_workspace = 1;
  weekly_max_per_workspace = 100;
  daily_max_per_account = 1;
}

abbrev once : Memory
once = increment memory "cmo:" monday "acme" (some "x") blank

-- the daily key of the workspace
abbrev day_key : String
day_key = daily_ws_key memory "cmo:" monday "acme"

second_refused :
    (check_and_increment memory "cmo:" monday "acme" (some "x") (some one_a_day) once).0
    ≡ some (record { cap_type = daily_workspace; current = 1; limit = 1 })
unfolding check_and_increment check check_account increment key
second_refused = refl

run-le-caps_example :
    let (n, t) = run memory "cmo:" monday "acme" (some one_a_day) (some "x" ∷ none ∷ []) blank in
    let w = weekly_ws_key memory "cmo:" monday "acme" in
    (t.counts day_key ≡ n + 0)
    × (t.counts w ≡ n + 0)
    × (t.counts day_key ≤ max 1 0)
    × (t.counts w ≤ max 100 0)
run-le-caps_example =
    run-le-caps memory "cmo:" monday "acme" (some one_a_day) (some "x" ∷ none ∷ []) blank

race_overshoots_example :
    let s' = increment memory "cmo:" monday "acme" none blank in
    (check memory "cmo:" monday "acme" none one_a_day blank ≡ none)
    × (check memory "cmo:" monday "acme" none one_a_day s'
        ≡ some (record { cap_type = daily_workspace; current = 1; limit = 1 }))
    × ((increment memory "cmo:" monday "acme" none s').counts day_key ≡ 2)
race_overshoots_example =
    race_overshoots memory "cmo:" monday "acme" (some one_a_day) blank refl (omega arith)
