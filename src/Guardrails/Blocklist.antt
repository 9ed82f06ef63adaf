-- ===== src/Guardrails/Blocklist.antt =====
-- src/guardrails/blocklist.py, class BlocklistEnforcer. `lower` is `str.lower` on ASCII letters.
-- `list_blocklist`, which hands out the members, and the log lines are not modelled.
pub mod Laws
mod Tests
use cmo_agent.Common.{String, Bool, true, false, ◌&&◌, Option, none, some, str_eq, if◌then◌else◌}
use cmo_agent.Common.Text.{◌<>◌, lower}
use cmo_agent.Redis.{Redis}

-- BLOCKLIST_CONFIG of src/config/automation.py
abbrev pub check_domain_blocklist : Bool
check_domain_blocklist = true

abbrev pub check_email_blocklist : Bool
check_email_blocklist = true

abbrev pub check_company_blocklist : Bool
check_company_blocklist = true

abbrev pub auto_block_unsubscribed_config : Bool
auto_block_unsubscribed_config = true

unfoldable pub key : String → String → String → String
key prefix ws blocklist_type = prefix <> ws <> ":blocklist:" <> blocklist_type

module _ (R : Redis) (prefix : String) where
  open R use {Store, sismember, sadd, srem}

  -- one of the three checks: switched on, a value that is given and not empty, and on the list
  unfoldable pub on_list : Bool → String → String → Option String → Store → Bool
  on_list enabled ws blocklist_type none s = false
  on_list enabled ws blocklist_type (some value) s =
      if enabled
      then (if str_eq value ""
          then false
          else sismember s (key prefix ws blocklist_type) (lower value))
      else false

  abbrev reason : String → Option String → Option String
  reason what none = none
  reason what (some value) = some (what <> " " <> value <> " is blocklisted")

  unfoldable pub is_blocked :
      String → Option String → Option String → Option String → Store → Bool × Option String
  is_blocked ws email domain company_name s =
      if on_list check_email_blocklist ws "email" email s
      then (true, reason "Email" email)
      else if on_list check_domain_blocklist ws "domain" domain s
      then (true, reason "Domain" domain)
      else if on_list check_company_blocklist ws "company" company_name s
      then (true, reason "Company" company_name)
      else (false, none)

  unfoldable pub add_to_blocklist : String → String → String → Store → Store
  add_to_blocklist ws blocklist_type value s = sadd s (key prefix ws blocklist_type) (lower value)

  unfoldable pub remove_from_blocklist : String → String → String → Store → Store
  remove_from_blocklist ws blocklist_type value s =
      srem s (key prefix ws blocklist_type) (lower value)

  unfoldable pub auto_block_unsubscribed : String → String → Store → Store
  unfolding add_to_blocklist
  auto_block_unsubscribed ws email s =
      if auto_block_unsubscribed_config then add_to_blocklist ws "email" email s else s
