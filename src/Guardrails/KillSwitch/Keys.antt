-- ===== src/Guardrails/KillSwitch/Keys.antt =====
-- The keys of kill_switch.py are distinct, and those of two workspaces are too.
use cmo_agent.Common.{String, ◌≡◌, false, str_eq, arith}
use cmo_agent.Common.Text.{
  ◌<>◌, str_eq-ne, str_eq-cong, last_or, last_or-append, ne_of_last, cancel_left, cancel_right,
}
use cmo_agent.Guardrails.KillSwitch.{global_key, workspace_key, workspace_reason_key}

module _ (p : String) where
  last-global_key : last_or 0 (global_key p) ≡ 101
  unfolding global_key
  last-global_key = rw last_or-append refl'
    where
      refl' : last_or (last_or 0 p) "automation:global_pause" ≡ 101
      refl' = λ i. 101

  last-workspace_key : (w : String) → last_or 0 (workspace_key p w) ≡ 100
  unfolding workspace_key
  last-workspace_key w = rw (last_or-append, last_or-append)

  last-workspace_reason_key : (w : String) → last_or 0 (workspace_reason_key p w) ≡ 110
  unfolding workspace_reason_key
  last-workspace_reason_key w = rw (last_or-append, last_or-append)

  pub global-ne-workspace : (w : String) → str_eq (global_key p) (workspace_key p w) ≡ false
  global-ne-workspace w =
      str_eq-ne _ _ (ne_of_last _ _ (rw (last-global_key, last-workspace_key) (omega arith)))

  pub global-ne-reason : (w : String) → str_eq (global_key p) (workspace_reason_key p w) ≡ false
  global-ne-reason w =
      str_eq-ne _ _ (ne_of_last _ _ (rw (last-global_key, last-workspace_reason_key) (omega arith)))

  pub workspace-ne-global : (w : String) → str_eq (workspace_key p w) (global_key p) ≡ false
  workspace-ne-global w =
      str_eq-ne _ _ (ne_of_last _ _ (rw (last-global_key, last-workspace_key) (omega arith)))

  pub reason-ne-global : (w : String) → str_eq (workspace_reason_key p w) (global_key p) ≡ false
  reason-ne-global w =
      str_eq-ne _ _ (ne_of_last _ _ (rw (last-global_key, last-workspace_reason_key) (omega arith)))

  pub reason-ne-workspace :
      (v w : String) → str_eq (workspace_reason_key p v) (workspace_key p w) ≡ false
  reason-ne-workspace v w =
      str_eq-ne _ _
        (ne_of_last _ _ (rw (last-workspace_key, last-workspace_reason_key) (omega arith)))

  pub workspace-ne-reason :
      (v w : String) → str_eq (workspace_key p v) (workspace_reason_key p w) ≡ false
  workspace-ne-reason v w =
      str_eq-ne _ _
        (ne_of_last _ _ (rw (last-workspace_key, last-workspace_reason_key) (omega arith)))

  -- Tenants are kept apart: the keys of two workspaces are equal only if the workspaces are.
  pub workspace-eq-workspace :
      (v w : String) → str_eq (workspace_key p v) (workspace_key p w) ≡ str_eq v w
  unfolding workspace_key
  workspace-eq-workspace v w =
      str_eq-cong v w (λ u. p <> u <> ":automation:paused")
        λ h. cancel_left p _ _ (cancel_right v w ":automation:paused" h)

  pub reason-eq-reason :
      (v w : String) → str_eq (workspace_reason_key p v) (workspace_reason_key p w) ≡ str_eq v w
  unfolding workspace_reason_key
  reason-eq-reason v w =
      str_eq-cong v w (λ u. p <> u <> ":automation:pause_reason")
        λ h. cancel_left p _ _ (cancel_right v w ":automation:pause_reason" h)
