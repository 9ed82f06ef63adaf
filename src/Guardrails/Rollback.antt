-- ===== src/Guardrails/Rollback.antt =====
-- src/agent/nodes/rollback_handler.py: pause_automation and resume_automation, which report to a person.
-- Of the two commands of each, either may raise; what the first has written then stays.
mod Tests
use cmo_agent.Common.{
  String, ◌≡◌, Bool, true, false, ◌⊎◌, Option, none, some, str_eq, if◌then◌else◌, arith, not, ◌&&◌,
  refl,
}
use cmo_agent.Common.Text.{◌<>◌, str_eq_refl}
use cmo_agent.Redis.{Redis}
use cmo_agent.Guardrails.KillSwitch.{
  global_key, workspace_key, workspace_reason_key, is_truthy, is_paused, pause_workspace,
  resume_workspace,
}
use cmo_agent.Guardrails.KillSwitch.Laws.{pause_workspace-paused, is_paused-resume_workspace}
use cmo_agent.Guardrails.KillSwitch.Keys.{workspace-ne-global, workspace-eq-workspace}

pub data WriteFault : Type 0 where
  no_fault : WriteFault
  first_fails second_fails : String → WriteFault

pub record PauseReport : Type 0 where
  pub workspace_id : String
  pub reported_paused : Bool
  pub reason : String
  pub status : String

module _ (R : Redis) (prefix : String) where
  open R use {Store, get, set, delete, get-set, get-delete}

  abbrev pause_failed : String → String → PauseReport
  pause_failed ws exc = record {
    workspace_id = ws;
    reported_paused = false;
    reason = "Failed to pause: " <> exc;
    status = "error";
  }

  abbrev resume_failed : String → String → PauseReport
  resume_failed ws exc = record {
    workspace_id = ws;
    reported_paused = true;
    reason = "Failed to resume: " <> exc;
    status = "error";
  }

  unfoldable pub pause_automation : WriteFault → String → String → Store → PauseReport × Store
  pause_automation no_fault ws reason s = (
    record { workspace_id = ws; reported_paused = true; reason = reason; status = "paused" },
    pause_workspace R prefix ws reason s,
  )
  pause_automation (first_fails exc) ws reason s = (pause_failed ws exc, s)
  pause_automation (second_fails exc) ws reason s =
      (pause_failed ws exc, set s (workspace_key prefix ws) "1")

  unfoldable pub resume_automation : WriteFault → String → Store → PauseReport × Store
  resume_automation no_fault ws s = (
    record { workspace_id = ws; reported_paused = false; reason = ""; status = "resumed" },
    resume_workspace R prefix ws s,
  )
  resume_automation (first_fails exc) ws s = (resume_failed ws exc, s)
  resume_automation (second_fails exc) ws s =
      (resume_failed ws exc, delete s (workspace_key prefix ws))

  half_paused :
      (ws : String) (s : Store)
      → (is_paused R prefix ws (set s (workspace_key prefix ws) "1")).0 ≡ true
  unfolding is_paused
  half_paused ws s = ground (
    arith,
    get-set s (workspace_key prefix ws) "1" (workspace_key prefix ws),
    str_eq_refl (workspace_key prefix ws),
  )

  resumed :
      (ws : String) (s : Store)
      → (is_paused R prefix ws (resume_workspace R prefix ws s)).0
        ≡ is_truthy (get s (global_key prefix))
  unfolding is_paused
  resumed ws s = ground (arith, is_paused-resume_workspace R prefix ws ws s, str_eq_refl ws)

  half_resumed :
      (ws : String) (s : Store)
      → (is_paused R prefix ws (delete s (workspace_key prefix ws))).0
        ≡ is_truthy (get s (global_key prefix))
  unfolding is_paused
  half_resumed ws s = ground (
    arith,
    get-delete s (workspace_key prefix ws) (workspace_key prefix ws),
    get-delete s (workspace_key prefix ws) (global_key prefix),
    workspace-ne-global prefix ws,
    str_eq_refl (workspace_key prefix ws),
  )

  -- What the reports are worth. A pause that is reported is one; a pause whose second command fails is
  -- reported as failed and holds all the same. A workspace that is reported as resumed is paused still if
  -- a global pause holds; one whose second command fails is reported as paused and is so only by a
  -- global pause.
  pub reports_lem :
      (ws reason exc : String) (s : Store)
      → let paused = pause_automation no_fault ws reason s in
        let half = pause_automation (second_fails exc) ws reason s in
        let resumed = resume_automation no_fault ws s in
        let half_resumed = resume_automation (second_fails exc) ws s in
        let global = is_truthy (get s (global_key prefix)) in
        (paused.0.reported_paused ≡ true)
        × ((is_paused R prefix ws paused.1).0 ≡ true)
        × (half.0.reported_paused ≡ false)
        × ((is_paused R prefix ws half.1).0 ≡ true)
        × (resumed.0.reported_paused ≡ false)
        × ((is_paused R prefix ws resumed.1).0 ≡ global)
        × (half_resumed.0.reported_paused ≡ true)
        × ((is_paused R prefix ws half_resumed.1).0 ≡ global)
  unfolding pause_automation resume_automation
  reports_lem ws reason exc s = (
    refl,
    pause_workspace-paused R prefix ws reason s,
    refl,
    half_paused ws s,
    refl,
    resumed ws s,
    refl,
    half_resumed ws s,
  )
