-- ===== src/Guardrails/KillSwitch/Laws.antt =====
-- What the methods of kill_switch.py do to `is_paused`, for every workspace.
use cmo_agent.Common.{
  ℕ, ◌*◌, ◌<◌, String, ◌≡◌, ◌≢◌, ◌↔◌, ◌⊎◌, true, false, not, ◌&&◌, none, some, str_eq,
  if◌then◌else◌, arith,
}
use cmo_agent.Common.Text.{◌<>◌, str_eq-ne, str_eq_refl}
use cmo_agent.Redis.{Redis}
use cmo_agent.Guardrails.KillSwitch.{
  is_truthy, global_key, workspace_key, workspace_reason_key, reason_or_manual, is_paused,
  pause_global, resume_global, pause_workspace, resume_workspace, auto_pause_if_needed,
  error_reason, negative_reason,
}
use cmo_agent.Guardrails.KillSwitch.Keys.{
  global-ne-workspace, global-ne-reason, workspace-ne-global, reason-ne-global, reason-ne-workspace,
  workspace-ne-reason, workspace-eq-workspace, reason-eq-reason,
}

module _ (R : Redis) (p : String) where
  open R use {Store, get, get-set, get-delete}

  -- The replies that `is_paused` reads, after each command.
  get-global-pause_workspace :
      (v r : String) (s : Store)
      → get (pause_workspace R p v r s) (global_key p) ≡ get s (global_key p)
  unfolding pause_workspace
  get-global-pause_workspace v r s = rw (get-set, reason-ne-global, get-set, workspace-ne-global)

  get-workspace-pause_workspace :
      (v w r : String) (s : Store)
      → get (pause_workspace R p v r s) (workspace_key p w)
        ≡ (if str_eq v w then some "1" else get s (workspace_key p w))
  unfolding pause_workspace
  get-workspace-pause_workspace v w r s =
      rw (get-set, reason-ne-workspace, get-set, workspace-eq-workspace)

  get-reason-pause_workspace :
      (v w r : String) (s : Store)
      → get (pause_workspace R p v r s) (workspace_reason_key p w)
        ≡ (if str_eq v w then some r else get s (workspace_reason_key p w))
  unfolding pause_workspace
  get-reason-pause_workspace v w r s = rw (get-set, reason-eq-reason, get-set, workspace-ne-reason)

  get-global-resume_workspace :
      (v : String) (s : Store)
      → get (resume_workspace R p v s) (global_key p) ≡ get s (global_key p)
  unfolding resume_workspace
  get-global-resume_workspace v s =
      rw (get-delete, reason-ne-global, get-delete, workspace-ne-global)

  get-workspace-resume_workspace :
      (v w : String) (s : Store)
      → get (resume_workspace R p v s) (workspace_key p w)
        ≡ (if str_eq v w then none else get s (workspace_key p w))
  unfolding resume_workspace
  get-workspace-resume_workspace v w s =
      rw (get-delete, reason-ne-workspace, get-delete, workspace-eq-workspace)

  get-reason-resume_workspace :
      (v w : String) (s : Store)
      → get (resume_workspace R p v s) (workspace_reason_key p w)
        ≡ (if str_eq v w then none else get s (workspace_reason_key p w))
  unfolding resume_workspace
  get-reason-resume_workspace v w s =
      rw (get-delete, reason-eq-reason, get-delete, workspace-ne-reason)

  -- After `pause_workspace` for a workspace, `is_paused` says that it is paused for the reason given
  -- (or "Manual pause", for an empty one) unless a global pause in Redis is reported instead; for
  -- every other workspace it says what it said before.
  pub is_paused-pause_workspace :
      (v w r : String) (s : Store)
      → is_paused R p w (pause_workspace R p v r s) ≡ (
          if str_eq v w && not (is_truthy (get s (global_key p)))
          then (true, "Workspace paused: " <> reason_or_manual (some r))
          else is_paused R p w s)
  unfolding is_paused
  is_paused-pause_workspace v w r s = ground (
    arith,
    get-global-pause_workspace v r s,
    get-workspace-pause_workspace v w r s,
    get-reason-pause_workspace v w r s,
  )

  -- After `resume_workspace` for a workspace only a global pause can hold it; every other workspace
  -- is paused exactly if it was before, and for the same reason.
  pub is_paused-resume_workspace :
      (v w : String) (s : Store)
      → is_paused R p w (resume_workspace R p v s) ≡ (
          if str_eq v w && not (is_truthy (get s (global_key p)))
          then (false, "")
          else is_paused R p w s)
  unfolding is_paused
  is_paused-resume_workspace v w s = ground (
    arith,
    get-global-resume_workspace v s,
    get-workspace-resume_workspace v w s,
    get-reason-resume_workspace v w s,
  )

  -- After `pause_global` every workspace is paused, unless the reason is empty: then the stored reply
  -- is the empty text, which `is_paused` takes for no pause, and only a pause of the workspace's own
  -- is reported, as after `resume_global`.
  pub is_paused-pause_global :
      (w r : String) (s : Store)
      → is_paused R p w (pause_global R p r s) ≡ (
          if str_eq r ""
          then is_paused R p w (resume_global R p s)
          else (true, "Global automation pause is active (Redis)"))
  unfolding is_paused pause_global resume_global
  is_paused-pause_global w r s = ground (
    arith,
    str_eq_refl (global_key p),
    global-ne-workspace p w,
    global-ne-reason p w,
    get-set s (global_key p) r (global_key p),
    get-set s (global_key p) r (workspace_key p w),
    get-set s (global_key p) r (workspace_reason_key p w),
    get-delete s (global_key p) (global_key p),
    get-delete s (global_key p) (workspace_key p w),
    get-delete s (global_key p) (workspace_reason_key p w),
  )

  pub pause_workspace-paused :
      (w r : String) (s : Store) → (is_paused R p w (pause_workspace R p w r s)).0 ≡ true
  unfolding is_paused
  pause_workspace-paused w r s = ground (
    arith,
    str_eq_refl w,
    get-global-pause_workspace w r s,
    get-workspace-pause_workspace w w r s,
  )

  pause_workspace-others :
      (w v r : String) (s : Store)
      → w ≢ v
      → is_paused R p v (pause_workspace R p w r s) ≡ is_paused R p v s
  pause_workspace-others w v r s h = rw (is_paused-pause_workspace, str_eq-ne w v h)

  -- `auto_pause_if_needed` pauses exactly if there were sends of which more than 10% failed, or
  -- replies of which more than 25% were negative. Then the workspace is paused; if not, nothing has
  -- changed. No other workspace notices in either case.
  pub auto_pause_lem :
      (w : String) (errors sends negatives replies : ℕ) (s : Store)
      → let (paused, s') = auto_pause_if_needed R p w errors sends negatives replies s in
        ((paused ≡ true)
          ↔ ((0 < sends) × (sends < 10 * errors) ⊎ (0 < replies) × (replies < 4 * negatives)))
        × (paused ≡ true → (is_paused R p w s').0 ≡ true)
        × (paused ≡ false → s' ≡ s)
        × ((v : String) → w ≢ v → is_paused R p v s' ≡ is_paused R p v s)
  unfolding auto_pause_if_needed
  auto_pause_lem w errors sends negatives replies s =
      let r : String = error_reason errors sends in
      let q : String = negative_reason negatives replies in
      (
        ground arith,
        ground (arith, pause_workspace-paused w r s, pause_workspace-paused w q s),
        ground arith,
        λ v h. ground (arith, pause_workspace-others w v r s h, pause_workspace-others w v q s h),
      )
