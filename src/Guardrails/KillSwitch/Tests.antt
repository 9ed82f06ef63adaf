-- ===== src/Guardrails/KillSwitch/Tests.antt =====
-- The kill switch on small databases.
use cmo_agent.Common.{◌*◌, ◌<◌, ◌≡◌, ◌≢◌, ◌↔◌, ◌⊎◌, refl, String, true, false}
use cmo_agent.Redis.Memory.{Memory, blank, memory}
use cmo_agent.Guardrails.KillSwitch.{
  is_paused, pause_global, resume_global, pause_workspace, auto_pause_if_needed, percent,
  global_key, workspace_key, workspace_reason_key,
}
use cmo_agent.Guardrails.KillSwitch.Laws.{is_paused-pause_global, auto_pause_lem}

abbrev paused : Memory
paused = pause_workspace memory "cmo:" "acme" "Complaints" blank

two_workspaces :
    (is_paused memory "cmo:" "acme" paused ≡ (true, "Workspace paused: Complaints"))
    × (is_paused memory "cmo:" "other" paused ≡ (false, ""))
unfolding is_paused pause_workspace global_key workspace_key workspace_reason_key
two_workspaces = (refl, refl)

one_in_eight : percent 1 8 ≡ "12.5%"
unfolding percent
one_in_eight = refl

is_paused-pause_global_example :
    is_paused memory "cmo:" "acme" (pause_global memory "cmo:" "" blank)
    ≡ is_paused memory "cmo:" "acme" (resume_global memory "cmo:" blank)
is_paused-pause_global_example = is_paused-pause_global memory "cmo:" "acme" "" blank

auto_pause_lem_example :
    let (paused, s') = auto_pause_if_needed memory "cmo:" "acme" 2 10 0 0 blank in
    ((paused ≡ true) ↔ ((0 < 10) × (10 < 10 * 2) ⊎ (0 < 0) × (0 < 4 * 0)))
    × (paused ≡ true → (is_paused memory "cmo:" "acme" s').0 ≡ true)
    × (paused ≡ false → s' ≡ blank)
    × ((v : String) → "acme" ≢ v → is_paused memory "cmo:" v s' ≡ is_paused memory "cmo:" v blank)
auto_pause_lem_example = auto_pause_lem memory "cmo:" "acme" 2 10 0 0 blank
