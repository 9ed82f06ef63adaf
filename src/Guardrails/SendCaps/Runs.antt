-- ===== src/Guardrails/SendCaps/Runs.antt =====
-- Sequences of calls of one day, and two calls that overlap.
use cmo_agent.Common.{
  ℕ, suc, ◌+◌, ◌≤◌, ◌<◌, String, ◌≡◌, ◌≢◌, true, Bool-cases, inl, inr, Option, Option-cases, none,
  some, str_eq, List, [], ◌∷◌, arith, max, eq_iff, sym,
}
use cmo_agent.Common.Text.{str_eq-ne}
use cmo_agent.Redis.{Redis}
use cmo_agent.Guardrails.SendCaps.{
  Caps, caps_or_default, daily_workspace, Dates, SendCapError, daily, weekly, has_account,
  daily_ws_key, weekly_ws_key, daily_acct_key, check, increment, check_and_increment,
}
use cmo_agent.Guardrails.SendCaps.Keys.{account-ne-account, workspace-ne-account}
use cmo_agent.Guardrails.SendCaps.Laws.{
  counter-increment, daily-increment, account-increment, allowed_counts, refused_unchanged,
}

abbrev count_allowed : Option SendCapError → ℕ
count_allowed none = 1
count_allowed (some e) = 0

has_account-some : (a : String) → a ≢ "" → has_account (some a) ≡ true
has_account-some a h = rw (str_eq-ne a "" h)

module _ (R : Redis) (p : String) (now : Dates) (ws : String) (caps : Option Caps) where
  open R use {Store, counter}

  -- One call after another, for the accounts named; the number of calls that were allowed.
  pub run : List (Option String) → Store → ℕ × Store
  run [] s = (0, s)
  run (a ∷ calls) s =
      let (e, s') = check_and_increment R p now ws a caps s in
      let (n, t) = run calls s' in (count_allowed e + n, t)

  pub one_call :
      (a : Option String) (s : Store)
      → let (e, s') = check_and_increment R p now ws a caps s in
        (counter s' (daily_ws_key R p now ws)
          ≡ count_allowed e + counter s (daily_ws_key R p now ws))
        × (counter s' (weekly_ws_key R p now ws)
            ≡ count_allowed e + counter s (weekly_ws_key R p now ws))
        × (e ≡ none
            → (counter s (daily_ws_key R p now ws) < (caps_or_default caps).daily_max_per_workspace)
              × (counter s (weekly_ws_key R p now ws)
                  < (caps_or_default caps).weekly_max_per_workspace))
  one_call a s = elim (Option-cases (check_and_increment R p now ws a caps s).0) [
    | inl ok ↦ ground (arith, allowed_counts R p now ws a s caps)
    | inr (e, bad) ↦ ground (arith, refused_unchanged R p now ws a s caps e)
  ]

  check-below_account :
      (v : String) (b : Option String) (s : Store)
      → check R p now v b (caps_or_default caps) s ≡ none
      → has_account b ≡ true
      → counter s (daily_acct_key R p now v b) < (caps_or_default caps).daily_max_per_account
  unfolding check
  check-below_account v b s ok h = ground arith

  increment_account :
      (a : String) (b : Option String) (s : Store)
      → a ≢ ""
      → check R p now ws b (caps_or_default caps) s ≡ none
      → counter (increment R p now ws b s) (daily_acct_key R p now ws (some a))
        ≤ max
            (caps_or_default caps).daily_max_per_account
            (counter s (daily_acct_key R p now ws (some a)))
  increment_account a none s given ok = ground (
    arith,
    counter-increment R p now ws none s (daily_acct_key R p now ws (some a)),
    workspace-ne-account p now ws (some a) daily (has_account-some a given),
    workspace-ne-account p now ws (some a) weekly (has_account-some a given),
  )
  increment_account a (some b) s given ok = elim (Bool-cases (str_eq a b)) [
    | inl same ↦
        let e : a ≡ b = (eq_iff a b).0 same in
        rw e (
          omega (
            arith,
            account-increment R p now ws (some b) s (rw e at (has_account-some a given)),
            check-below_account ws (some b) s ok (rw e at (has_account-some a given)),
          ))
    | inr other ↦ ground (
      arith,
      eq_iff a b,
      counter-increment R p now ws (some b) s (daily_acct_key R p now ws (some a)),
      workspace-ne-account p now ws (some a) daily (has_account-some a given),
      workspace-ne-account p now ws (some a) weekly (has_account-some a given),
      account-ne-account p now ws b a (λ e. cc (other, (eq_iff a b).1 (sym e))),
    )
  ]

  -- A call counts on the key of its own account only.
  one_call_account :
      (a : String) (b : Option String) (s : Store)
      → a ≢ ""
      → counter (check_and_increment R p now ws b caps s).1 (daily_acct_key R p now ws (some a))
        ≤ max
            (caps_or_default caps).daily_max_per_account
            (counter s (daily_acct_key R p now ws (some a)))
  unfolding check_and_increment
  one_call_account a b s given = elim (Option-cases (check R p now ws b (caps_or_default caps) s)) [
    | inr (e, bad) ↦ rw bad (omega arith)
    | inl ok ↦ rw ok (omega (arith, increment_account a b s given ok))
  ]

  -- However many calls are made in a day, the calls that are allowed are exactly what the counters of
  -- the workspace have grown by, and these do not pass the two caps of the workspace unless they had
  -- passed them before.
  pub run-le-caps :
      (calls : List (Option String)) (s : Store)
      → let (n, t) = run calls s in
        let limits = caps_or_default caps in
        (counter t (daily_ws_key R p now ws) ≡ n + counter s (daily_ws_key R p now ws))
        × (counter t (weekly_ws_key R p now ws) ≡ n + counter s (weekly_ws_key R p now ws))
        × (counter t (daily_ws_key R p now ws)
            ≤ max limits.daily_max_per_workspace (counter s (daily_ws_key R p now ws)))
        × (counter t (weekly_ws_key R p now ws)
            ≤ max limits.weekly_max_per_workspace (counter s (weekly_ws_key R p now ws)))
  unfolding run
  run-le-caps [] s = omega arith
  run-le-caps (a ∷ calls) s =
      let s' : Store = (check_and_increment R p now ws a caps s).1 in
      elim (Option-cases (check_and_increment R p now ws a caps s).0) [
        | inl ok ↦ ground (arith, one_call a s, run-le-caps calls s')
        | inr (e, bad) ↦ ground (arith, one_call a s, run-le-caps calls s')
      ]

  -- The part of a call between its reads and its writes is open to others. When one send of the day
  -- is left, a second call that waits for the first is refused; but if it reads before the first has
  -- written, it is let through as well, and the counter ends one above the cap.
  pub race_overshoots :
      (s : Store)
      → suc (counter s (daily_ws_key R p now ws)) ≡ (caps_or_default caps).daily_max_per_workspace
      → counter s (weekly_ws_key R p now ws) < (caps_or_default caps).weekly_max_per_workspace
      → let limits = caps_or_default caps in
        let s' = increment R p now ws none s in
        (check R p now ws none limits s ≡ none)
        × (check R p now ws none limits s'
            ≡ some (record {
              cap_type = daily_workspace;
              current = limits.daily_max_per_workspace;
              limit = limits.daily_max_per_workspace;
            }))
        × (counter (increment R p now ws none s') (daily_ws_key R p now ws)
            ≡ suc limits.daily_max_per_workspace)
  unfolding check
  race_overshoots s e below =
      let s' : Store = increment R p now ws none s in
      (
        ground arith,
        ground (arith, daily-increment R p now ws none s),
        omega (arith, daily-increment R p now ws none s, daily-increment R p now ws none s'),
      )

  -- No account is sent more than its daily cap of messages, unless it had been before.
  pub run-le-account_cap :
      (a : String) (calls : List (Option String)) (s : Store)
      → a ≢ ""
      → counter (run calls s).1 (daily_acct_key R p now ws (some a))
        ≤ max
            (caps_or_default caps).daily_max_per_account
            (counter s (daily_acct_key R p now ws (some a)))
  unfolding run
  run-le-account_cap a [] s given = omega arith
  run-le-account_cap a (b ∷ calls) s given =
      let s' : Store = (check_and_increment R p now ws b caps s).1 in
      omega (arith, run-le-account_cap a calls s' given, one_call_account a b s given)
