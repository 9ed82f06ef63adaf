-- ===== src/Guardrails/SendCaps/Keys.antt =====
-- The three keys that one call of `check_and_increment` counts on are distinct.
use cmo_agent.Common.{String, ◌≡◌, ◌≢◌, false, Option, none, some, true, str_eq, arith}
use cmo_agent.Common.Text.{
  ◌<>◌, str_eq-ne, first_or, first_or-append, ne_of_first, cancel_left, cancel_right,
}
use cmo_agent.Guardrails.SendCaps.{
  Dates, Window, daily, weekly, window_text, date_part, key, account_scope, has_account,
}

module _ (p : String) (now : Dates) (ws : String) where
  keys-ne :
      (scope scope' : String) (w w' : Window)
      → scope <> ":" <> window_text w <> ":" <> date_part now w
        ≢ scope' <> ":" <> window_text w' <> ":" <> date_part now w'
      → str_eq (key p now ws scope w) (key p now ws scope' w') ≡ false
  unfolding key
  keys-ne scope scope' w w' h =
      str_eq-ne _ _ (cancel_left p _ _ (cancel_left ws _ _ (cancel_left ":sendcap:" _ _ h)))

  windows-ne :
      (w w' : Window) (t t' : String)
      → first_or 0 (window_text w) ≢ first_or 0 (window_text w')
      → first_or 0 (window_text w <> t) ≢ first_or 0 (window_text w' <> t')
  windows-ne daily daily t t' h = absurd (omega arith)
  windows-ne daily weekly t t' h = rw first_or-append (rw first_or-append (omega arith))
  windows-ne weekly daily t t' h = rw first_or-append (rw first_or-append (omega arith))
  windows-ne weekly weekly t t' h = absurd (omega arith)

  pub daily-ne-weekly :
      str_eq (key p now ws "workspace" daily) (key p now ws "workspace" weekly) ≡ false
  daily-ne-weekly = keys-ne "workspace" "workspace" daily weekly (
      cancel_left "workspace" _ _ (
        cancel_left ":" _ _ (
          ne_of_first _ _ (
            windows-ne daily weekly (":" <> date_part now daily) (":" <> date_part now weekly)
              (omega arith)))))

  pub weekly-ne-daily :
      str_eq (key p now ws "workspace" weekly) (key p now ws "workspace" daily) ≡ false
  weekly-ne-daily = keys-ne "workspace" "workspace" weekly daily (
      cancel_left "workspace" _ _ (
        cancel_left ":" _ _ (
          ne_of_first _ _ (
            windows-ne weekly daily (":" <> date_part now weekly) (":" <> date_part now daily)
              (omega arith)))))

  first-workspace : (t : String) → first_or 0 ("workspace" <> t) ≡ 119
  first-workspace t = rw first_or-append

  first-account_scope :
      (a : Option String) (t : String)
      → has_account a ≡ true
      → first_or 0 (account_scope a <> t) ≡ 97
  first-account_scope none t h = cc
  first-account_scope (some a) t h = rw first_or-append (rw first_or-append)

  pub account-ne-workspace :
      (a : Option String) (w : Window)
      → has_account a ≡ true
      → str_eq (key p now ws (account_scope a) daily) (key p now ws "workspace" w) ≡ false
  account-ne-workspace a w h =
      keys-ne (account_scope a) "workspace" daily w
        (ne_of_first _ _ (rw (first-account_scope a _ h, first-workspace) (omega arith)))

  pub workspace-ne-account :
      (a : Option String) (w : Window)
      → has_account a ≡ true
      → str_eq (key p now ws "workspace" w) (key p now ws (account_scope a) daily) ≡ false
  workspace-ne-account a w h =
      keys-ne "workspace" (account_scope a) w daily
        (ne_of_first _ _ (rw (first-account_scope a _ h, first-workspace) (omega arith)))

  -- Two accounts of a workspace have two keys.
  pub account-ne-account :
      (a b : String)
      → a ≢ b
      → str_eq
          (key p now ws (account_scope (some a)) daily)
          (key p now ws (account_scope (some b)) daily)
        ≡ false
  unfolding key
  account-ne-account a b h = str_eq-ne _ _ (
      cancel_left p _ _ (
        cancel_left ws _ _ (
          cancel_left ":sendcap:" _ _ (
            cancel_right ("account:" <> a) ("account:" <> b) (":" <> "daily" <> ":" <> now.today)
              (cancel_left "account:" a b h)))))
