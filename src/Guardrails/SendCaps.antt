-- ===== src/Guardrails/SendCaps.antt =====
-- src/guardrails/send_caps.py, class SendCapEnforcer. The two date texts that `strftime` makes of the
-- current time are parameters; the reads and the pipeline of writes are two steps, since other
-- workers may run between them.
pub mod Keys
pub mod Laws
pub mod Runs
mod Tests
use cmo_agent.Common.{
  ℕ, ◌-◌, ◌*◌, String, Bool, true, false, Option, none, some, leb, str_eq, if◌then◌else◌,
}
use cmo_agent.Common.Text.{◌<>◌}
use cmo_agent.Redis.{Redis}

-- SEND_CAPS of src/config/automation.py, as far as the enforcer reads it
pub record Caps : Type 0 where
  pub daily_max_per_workspace : ℕ
  pub weekly_max_per_workspace : ℕ
  pub daily_max_per_account : ℕ

abbrev pub send_caps : Caps
send_caps = record {
  daily_max_per_workspace = 25;
  weekly_max_per_workspace = 100;
  daily_max_per_account = 3;
}

-- `caps or SEND_CAPS`
abbrev pub caps_or_default : Option Caps → Caps
caps_or_default none = send_caps
caps_or_default (some c) = c

-- `strftime("%Y-%m-%d")` and `strftime("%Y-W%W")`
pub record Dates : Type 0 where
  pub today : String
  pub week : String

pub data CapType : Type 0 where
  daily_workspace weekly_workspace daily_account : CapType

pub record SendCapError : Type 0 where
  pub cap_type : CapType
  pub current : ℕ
  pub limit : ℕ

pub data Window : Type 0 where
  daily weekly : Window

abbrev pub window_text : Window → String
window_text daily = "daily"
window_text weekly = "weekly"

abbrev pub date_part : Dates → Window → String
date_part now daily = now.today
date_part now weekly = now.week

unfoldable pub key : String → Dates → String → String → Window → String
key prefix now ws scope window =
    prefix <> ws <> ":sendcap:" <> scope <> ":" <> window_text window <> ":" <> date_part now window

-- `if account_id:`
abbrev pub has_account : Option String → Bool
has_account none = false
has_account (some a) = if str_eq a "" then false else true

abbrev pub account_scope : Option String → String
account_scope none = ""
account_scope (some a) = "account:" <> a

module _ (R : Redis) (prefix : String) (now : Dates) where
  open R use {Store, counter, incr, expire}

  abbrev pub daily_ws_key : String → String
  daily_ws_key ws = key prefix now ws "workspace" daily

  abbrev pub weekly_ws_key : String → String
  weekly_ws_key ws = key prefix now ws "workspace" weekly

  abbrev pub daily_acct_key : String → Option String → String
  daily_acct_key ws account = key prefix now ws (account_scope account) daily

  -- the third check, for a call that names an account
  unfoldable pub check_account : String → Option String → Caps → Store → Option SendCapError
  check_account ws account caps s =
      if has_account account
      then (if leb caps.daily_max_per_account (counter s (daily_acct_key ws account))
          then some (record {
            cap_type = daily_account;
            current = counter s (daily_acct_key ws account);
            limit = caps.daily_max_per_account;
          })
          else none)
      else none

  -- What the reads of `check_and_increment` decide: the error that it raises, if any.
  unfoldable pub check : String → Option String → Caps → Store → Option SendCapError
  unfolding check_account
  check ws account caps s =
      if leb caps.daily_max_per_workspace (counter s (daily_ws_key ws))
      then some (record {
        cap_type = daily_workspace;
        current = counter s (daily_ws_key ws);
        limit = caps.daily_max_per_workspace;
      })
      else if leb caps.weekly_max_per_workspace (counter s (weekly_ws_key ws))
      then some (record {
        cap_type = weekly_workspace;
        current = counter s (weekly_ws_key ws);
        limit = caps.weekly_max_per_workspace;
      })
      else check_account ws account caps s

  abbrev pub count_send : String → ℕ → Store → Store
  count_send k seconds s = expire (incr s k) k seconds

  -- the pipeline, which Redis runs as one transaction
  unfoldable pub increment : String → Option String → Store → Store
  increment ws account s =
      let s' = count_send (weekly_ws_key ws) 691200 (count_send (daily_ws_key ws) 172800 s) in
      if has_account account then count_send (daily_acct_key ws account) 172800 s' else s'

  abbrev pub finish :
      String → Option String → Store → Option SendCapError → Option SendCapError × Store
  finish ws account s none = (none, increment ws account s)
  finish ws account s (some e) = (some e, s)

  unfoldable pub check_and_increment :
      String → Option String → Option Caps → Store → Option SendCapError × Store
  check_and_increment ws account caps s =
      finish ws account s (check ws account (caps_or_default caps) s)

  pub record Remaining : Type 0 where
    pub daily_remaining : ℕ
    pub weekly_remaining : ℕ
    pub daily_used : ℕ
    pub weekly_used : ℕ

  -- `max(0, limit - used)` is the subtraction on ℕ
  unfoldable pub get_remaining : String → Option Caps → Store → Remaining
  get_remaining ws caps s =
      let limits = caps_or_default caps in
      record {
        daily_remaining = limits.daily_max_per_workspace - counter s (daily_ws_key ws);
        weekly_remaining = limits.weekly_max_per_workspace - counter s (weekly_ws_key ws);
        daily_used = counter s (daily_ws_key ws);
        weekly_used = counter s (weekly_ws_key ws);
      }
