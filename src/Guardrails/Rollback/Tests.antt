-- ===== src/Guardrails/Rollback/Tests.antt =====
-- Reports under a global pause.
use cmo_agent.Common.{◌≡◌, true, false}
use cmo_agent.Redis.Memory.{Memory, blank, memory}
use cmo_agent.Guardrails.KillSwitch.{is_paused, pause_global, global_key}
use cmo_agent.Guardrails.Rollback.{
  no_fault, second_fails, pause_automation, resume_automation, reports_lem,
}

abbrev stopped : Memory
stopped = pause_global memory "cmo:" "Incident" blank

reports_lem_example :
    let paused = pause_automation memory "cmo:" no_fault "w" "Complaints" stopped in
    let half = pause_automation memory "cmo:" (second_fails "timeout") "w" "Complaints" stopped in
    let resumed = resume_automation memory "cmo:" no_fault "w" stopped in
    let half_resumed = resume_automation memory "cmo:" (second_fails "timeout") "w" stopped in
    (paused.0.reported_paused ≡ true)
    × ((is_paused memory "cmo:" "w" paused.1).0 ≡ true)
    × (half.0.reported_paused ≡ false)
    × ((is_paused memory "cmo:" "w" half.1).0 ≡ true)
    × (resumed.0.reported_paused ≡ false)
    × ((is_paused memory "cmo:" "w" resumed.1).0 ≡ true)
    × (half_resumed.0.reported_paused ≡ true)
    × ((is_paused memory "cmo:" "w" half_resumed.1).0 ≡ true)
unfolding pause_global global_key
reports_lem_example = reports_lem memory "cmo:" "w" "Complaints" "timeout" stopped
