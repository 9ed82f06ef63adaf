-- ===== src/Guardrails/KillSwitch.antt =====
-- src/guardrails/kill_switch.py, class KillSwitch. `prefix` is settings.REDIS_KEY_PREFIX; a method
-- takes the database and returns it with the result.
pub mod Keys
pub mod Laws
mod Tests
use cmo_agent.Common.{
  ℕ, ◌+◌, ◌*◌, ◌/◌, ◌%◌, String, Bool, true, false, ◌||◌, Option, none, some, ltb, str_eq,
  if◌then◌else◌,
}
use cmo_agent.Common.Text.{◌<>◌, show}
use cmo_agent.Redis.{Redis}

-- KILL_SWITCH of src/config/automation.py; a rate is given in hundredths.
abbrev pub global_pause : Bool
global_pause = false

abbrev pub pause_on_error_rate : ℕ
pause_on_error_rate = 10

abbrev pub pause_on_negative_reply_rate : ℕ
pause_on_negative_reply_rate = 25

-- `part / whole > rate`, for `0 < whole`. The program divides two floats: up to 2 ^ 50 the
-- comparison with the float nearest to the rate comes out as for the exact fractions.
abbrev pub rate_exceeds : ℕ → ℕ → ℕ → Bool
rate_exceeds part whole rate = ltb (whole * rate) (part * 100)

-- `{part / whole:.1%}`
unfoldable pub percent : ℕ → ℕ → String
unfolding show
percent part whole =
    let tenths = (2 * 1000 * part + whole) / (2 * whole) in
    show (tenths / 10) <> "." <> show (tenths % 10) <> "%"

-- `if value:` on a reply: neither None nor the empty text
abbrev pub is_truthy : Option String → Bool
is_truthy none = false
is_truthy (some v) = if str_eq v "" then false else true

unfoldable pub global_key : String → String
global_key prefix = prefix <> "automation:global_pause"

unfoldable pub workspace_key : String → String → String
workspace_key prefix ws = prefix <> ws <> ":automation:paused"

unfoldable pub workspace_reason_key : String → String → String
workspace_reason_key prefix ws = prefix <> ws <> ":automation:pause_reason"

-- `reason or "Manual pause"`
abbrev pub reason_or_manual : Option String → String
reason_or_manual none = "Manual pause"
reason_or_manual (some r) = if str_eq r "" then "Manual pause" else r

unfoldable pub error_reason : ℕ → ℕ → String
unfolding percent show
error_reason errors sends =
    "Auto-paused: error rate "
    <> percent errors sends
    <> " exceeds threshold 10% ("
    <> show errors
    <> "/"
    <> show sends
    <> " sends)"

unfoldable pub negative_reason : ℕ → ℕ → String
unfolding percent show
negative_reason negatives replies =
    "Auto-paused: negative reply rate "
    <> percent negatives replies
    <> " exceeds threshold 25% ("
    <> show negatives
    <> "/"
    <> show replies
    <> " replies)"

module _ (R : Redis) (prefix : String) where
  open R use {Store, get, set, delete}

  unfoldable pub is_paused : String → Store → Bool × String
  is_paused ws s =
      if global_pause
      then (true, "Global automation pause is active (config)")
      else if is_truthy (get s (global_key prefix))
      then (true, "Global automation pause is active (Redis)")
      else if is_truthy (get s (workspace_key prefix ws))
      then (true, "Workspace paused: " <> reason_or_manual (get s (workspace_reason_key prefix ws)))
      else (false, "")

  unfoldable pub pause_global : String → Store → Store
  pause_global reason s = set s (global_key prefix) reason

  unfoldable pub resume_global : Store → Store
  resume_global s = delete s (global_key prefix)

  unfoldable pub pause_workspace : String → String → Store → Store
  pause_workspace ws reason s =
      set (set s (workspace_key prefix ws) "1") (workspace_reason_key prefix ws) reason

  unfoldable pub resume_workspace : String → Store → Store
  resume_workspace ws s =
      delete (delete s (workspace_key prefix ws)) (workspace_reason_key prefix ws)

  -- the check of the reply rate, which the check of the error rate falls through to
  unfoldable check_negative : String → ℕ → ℕ → Store → Bool × Store
  check_negative ws negatives replies s =
      if ltb 0 replies
      then (if rate_exceeds negatives replies pause_on_negative_reply_rate
          then (true, pause_workspace ws (negative_reason negatives replies) s)
          else (false, s))
      else (false, s)

  unfoldable pub auto_pause_if_needed : String → ℕ → ℕ → ℕ → ℕ → Store → Bool × Store
  unfolding check_negative
  auto_pause_if_needed ws errors sends negatives replies s =
      if ltb 0 sends
      then (if rate_exceeds errors sends pause_on_error_rate
          then (true, pause_workspace ws (error_reason errors sends) s)
          else check_negative ws negatives replies s)
      else check_negative ws negatives replies s

  pub record Status : Type 0 where
    pub workspace_id : String
    pub paused : Bool
    pub reason : String
    pub global : Bool
    pub workspace : Bool

  unfoldable pub get_status : String → Store → Status
  unfolding is_paused
  get_status ws s =
      let (paused, reason) = is_paused ws s in
      record {
        workspace_id = ws;
        paused = paused;
        reason = reason;
        global = is_truthy (get s (global_key prefix));
        workspace = is_truthy (get s (workspace_key prefix ws));
      }
