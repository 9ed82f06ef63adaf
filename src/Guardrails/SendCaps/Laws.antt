-- ===== src/Guardrails/SendCaps/Laws.antt =====
-- What one call of `check_and_increment` does, on every branch.
use cmo_agent.Common.{
  ℕ, suc, ◌+◌, ◌≤◌, ◌<◌, String, ◌≡◌, true, Option, none, some, str_eq, if◌then◌else◌, arith,
}
use cmo_agent.Common.Text.{str_eq_refl}
use cmo_agent.Redis.{Redis}
use cmo_agent.Guardrails.SendCaps.{
  Caps, caps_or_default, Dates, SendCapError, daily, weekly, has_account, daily_ws_key,
  weekly_ws_key, daily_acct_key, check, increment, check_and_increment, count_send,
}
use cmo_agent.Guardrails.SendCaps.Keys.{
  daily-ne-weekly, weekly-ne-daily, account-ne-workspace, workspace-ne-account,
}

module _ (R : Redis) (p : String) (now : Dates) where
  open R use {Store, counter, incr, expire, counter-incr, counter-expire, ttl, ttl-incr, ttl-expire}

  counter-count_send :
      (k : String) (n : ℕ) (s : Store) (j : String)
      → 0 < n
      → counter (count_send R p now k n s) j
        ≡ (if str_eq k j then suc (counter s j) else counter s j)
  counter-count_send k n s j h = rw (counter-expire (incr s k) k n j h, counter-incr)

  ttl-count_send :
      (k : String) (n : ℕ) (s : Store) (j : String)
      → 0 < n
      → ttl (count_send R p now k n s) j ≡ (if str_eq k j then some n else ttl s j)
  ttl-count_send k n s j h = rw (ttl-expire (incr s k) k n j h, ttl-incr)

  module _ (ws : String) (account : Option String) (s : Store) where
    abbrev two_counts : Store
    two_counts =
        count_send R p now (weekly_ws_key R p now ws) 691200
          (count_send R p now (daily_ws_key R p now ws) 172800 s)

    pub counter-increment :
        (j : String)
        → counter (increment R p now ws account s) j
          ≡ counter s j
            + (if str_eq (daily_ws_key R p now ws) j then 1 else 0)
            + (if str_eq (weekly_ws_key R p now ws) j then 1 else 0)
            + (if has_account account
                then (if str_eq (daily_acct_key R p now ws account) j then 1 else 0)
                else 0)
    unfolding increment
    counter-increment j = ground (
      arith,
      counter-count_send (daily_ws_key R p now ws) 172800 s j,
      counter-count_send (weekly_ws_key R p now ws) 691200
          (count_send R p now (daily_ws_key R p now ws) 172800 s) j,
      counter-count_send (daily_acct_key R p now ws account) 172800 two_counts j,
    )

    pub daily-increment :
        counter (increment R p now ws account s) (daily_ws_key R p now ws)
        ≡ suc (counter s (daily_ws_key R p now ws))
    daily-increment = ground (
      arith,
      counter-increment (daily_ws_key R p now ws),
      str_eq_refl (daily_ws_key R p now ws),
      weekly-ne-daily p now ws,
      account-ne-workspace p now ws account daily,
    )

    pub weekly-increment :
        counter (increment R p now ws account s) (weekly_ws_key R p now ws)
        ≡ suc (counter s (weekly_ws_key R p now ws))
    weekly-increment = ground (
      arith,
      counter-increment (weekly_ws_key R p now ws),
      str_eq_refl (weekly_ws_key R p now ws),
      daily-ne-weekly p now ws,
      account-ne-workspace p now ws account weekly,
    )

    pub account-increment :
        has_account account ≡ true
        → counter (increment R p now ws account s) (daily_acct_key R p now ws account)
          ≡ suc (counter s (daily_acct_key R p now ws account))
    account-increment h = ground (
      arith,
      counter-increment (daily_acct_key R p now ws account),
      str_eq_refl (daily_acct_key R p now ws account),
      workspace-ne-account p now ws account daily,
      workspace-ne-account p now ws account weekly,
    )

    -- Every key that the pipeline counts on gets a time to live: two days, and eight for the week.
    pub ttl-increment :
        let s' = increment R p now ws account s in
        (ttl s' (daily_ws_key R p now ws) ≡ some 172800)
        × (ttl s' (weekly_ws_key R p now ws) ≡ some 691200)
        × (has_account account ≡ true → ttl s' (daily_acct_key R p now ws account) ≡ some 172800)
    unfolding increment
    ttl-increment =
        let k : String = daily_ws_key R p now ws in
        let l : String = weekly_ws_key R p now ws in
        let a : String = daily_acct_key R p now ws account in
        let s₁ : Store = count_send R p now k 172800 s in
        ground (
          arith,
          str_eq_refl k,
          str_eq_refl l,
          str_eq_refl a,
          daily-ne-weekly p now ws,
          weekly-ne-daily p now ws,
          account-ne-workspace p now ws account daily,
          account-ne-workspace p now ws account weekly,
          ttl-count_send k 172800 s k,
          ttl-count_send l 691200 s₁ k,
          ttl-count_send l 691200 s₁ l,
          ttl-count_send a 172800 two_counts k,
          ttl-count_send a 172800 two_counts l,
          ttl-count_send a 172800 two_counts a,
        )

    -- A call that is allowed found every count that it looks at below its cap, and adds one to each.
    pub allowed_counts :
        (caps : Option Caps)
        → (check_and_increment R p now ws account caps s).0 ≡ none
        → let s' = (check_and_increment R p now ws account caps s).1 in
          let limits = caps_or_default caps in
          let k = daily_ws_key R p now ws in
          let l = weekly_ws_key R p now ws in
          let a = daily_acct_key R p now ws account in
          (counter s k < limits.daily_max_per_workspace)
          × (counter s l < limits.weekly_max_per_workspace)
          × (has_account account ≡ true → counter s a < limits.daily_max_per_account)
          × (counter s' k ≡ suc (counter s k))
          × (counter s' l ≡ suc (counter s l))
          × (has_account account ≡ true → counter s' a ≡ suc (counter s a))
    unfolding check_and_increment check
    allowed_counts caps h = ground (arith, daily-increment, weekly-increment, account-increment)

    -- A call that raises has changed nothing, and the error shows a count that is not below its limit.
    pub refused_unchanged :
        (caps : Option Caps) (e : SendCapError)
        → (check_and_increment R p now ws account caps s).0 ≡ some e
        → ((check_and_increment R p now ws account caps s).1 ≡ s) × (e.limit ≤ e.current)
    unfolding check_and_increment check
    refused_unchanged caps e h = ground arith
