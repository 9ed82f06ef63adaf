-- ===== src/Guardrails/Blocklist/Laws.antt =====
-- What adding to and removing from a blocklist does to `is_blocked`.
use cmo_agent.Common.{
  String, ◌≡◌, Bool, true, false, not, ◌&&◌, ◌||◌, Option, none, some, str_eq, arith,
}
use cmo_agent.Common.Text.{
  ◌<>◌, lower, str_eq-cong, cancel_left, cancel_right, last_or, last_or-append,
}
use cmo_agent.Redis.{Redis}
use cmo_agent.Guardrails.Blocklist.{
  key, on_list, is_blocked, add_to_blocklist, remove_from_blocklist,
}

-- `value` is given, not empty, and equal to `entry` up to upper and lower case
abbrev pub is_given : Option String → String → Bool
is_given none entry = false
is_given (some value) entry = not (str_eq value "") && str_eq (lower entry) (lower value)

module _ (p : String) where
  keys-same_type : (v w type : String) → str_eq (key p v type) (key p w type) ≡ str_eq v w
  unfolding key
  keys-same_type v w type =
      str_eq-cong v w (λ u. p <> u <> ":blocklist:" <> type)
        λ h. cancel_left p _ _ (cancel_right v w (":blocklist:" <> type) h)

  keys-same_workspace :
      (w type type' : String) → str_eq (key p w type) (key p w type') ≡ str_eq type type'
  unfolding key
  keys-same_workspace w type type' =
      str_eq-cong type type' (λ t. p <> w <> ":blocklist:" <> t)
        λ h. cancel_left p _ _ (cancel_left w _ _ (cancel_left ":blocklist:" _ _ h))

  last-key : (w type : String) → last_or 0 (key p w type) ≡ last_or 58 type
  unfolding key
  last-key w type = rw last_or-append (rw last_or-append (rw last_or-append))

module _ (R : Redis) (p : String) where
  open R use {Store, sismember-sadd, sismember-srem}

  -- An entry of one list blocks the values of its kind that equal it up to case, in its workspace.
  on_list-add :
      (w type type' entry : String) (value : Option String) (s : Store)
      → on_list R p true w type' value (add_to_blocklist R p w type entry s)
        ≡ (str_eq type type' && is_given value entry || on_list R p true w type' value s)
  unfolding on_list add_to_blocklist
  on_list-add w type type' entry none s = ground arith
  on_list-add w type type' entry (some value) s = ground (
    arith,
    keys-same_workspace p w type type',
    sismember-sadd s (key p w type) (lower entry) (key p w type') (lower value),
  )

  on_list-remove :
      (w type type' entry : String) (value : Option String) (s : Store)
      → on_list R p true w type' value (remove_from_blocklist R p w type entry s)
        ≡ (not (str_eq type type' && is_given value entry) && on_list R p true w type' value s)
  unfolding on_list remove_from_blocklist
  on_list-remove w type type' entry none s = ground arith
  on_list-remove w type type' entry (some value) s = ground (
    arith,
    keys-same_workspace p w type type',
    sismember-srem s (key p w type) (lower entry) (key p w type') (lower value),
  )

  -- `is_blocked` as one test on the three lists
  is_blocked-eq-or :
      (w : String) (email domain company : Option String) (s : Store)
      → (is_blocked R p w email domain company s).0 ≡ (
          on_list R p true w "email" email s
          || on_list R p true w "domain" domain s
          || on_list R p true w "company" company s)
  unfolding is_blocked
  is_blocked-eq-or w email domain company s = ground arith

  -- After `add_to_blocklist` a target is blocked if it was before, or if the value that it gives for
  -- the list's kind is not empty and equals the entry up to case; and only then.
  pub is_blocked-add :
      (w type entry : String) (email domain company : Option String) (s : Store)
      → (is_blocked R p w email domain company (add_to_blocklist R p w type entry s)).0 ≡ (
          str_eq type "email" && is_given email entry
          || str_eq type "domain" && is_given domain entry
          || str_eq type "company" && is_given company entry
          || (is_blocked R p w email domain company s).0)
  is_blocked-add w type entry email domain company s = ground (
    arith,
    is_blocked-eq-or w email domain company s,
    is_blocked-eq-or w email domain company (add_to_blocklist R p w type entry s),
    on_list-add w type "email" entry email s,
    on_list-add w type "domain" entry domain s,
    on_list-add w type "company" entry company s,
  )

  -- After `remove_from_blocklist` a target is blocked exactly if some list held a value of it that is
  -- not the entry removed.
  pub is_blocked-remove :
      (w type entry : String) (email domain company : Option String) (s : Store)
      → (is_blocked R p w email domain company (remove_from_blocklist R p w type entry s)).0 ≡ (
          not (str_eq type "email" && is_given email entry) && on_list R p true w "email" email s
          || not (str_eq type "domain" && is_given domain entry)
            && on_list R p true w "domain" domain s
          || not (str_eq type "company" && is_given company entry)
            && on_list R p true w "company" company s)
  is_blocked-remove w type entry email domain company s = ground (
    arith,
    is_blocked-eq-or w email domain company (remove_from_blocklist R p w type entry s),
    on_list-remove w type "email" entry email s,
    on_list-remove w type "domain" entry domain s,
    on_list-remove w type "company" entry company s,
  )
