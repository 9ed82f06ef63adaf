-- ===== src/Outbound/Nodes/Selection.antt =====
-- src/agent/nodes/: account_selector, researcher and enrichment_retry.
use cmo_agent.Common.{
  ℕ, suc, ◌+◌, String, true, false, Option, none, some, List, [], ◌∷◌, get_elem?, str_eq, ltb,
  if◌then◌else◌,
}
use cmo_agent.Common.Text.{◌<>◌}
use cmo_agent.State.{Account, Contact, OutboundState}
use cmo_agent.Outbound.World.{Research, found, failed, Answers}
use cmo_agent.Outbound.Nodes.Outcomes.{Outcome, done, with_account, or_default}

-- `next((i for i, a in enumerate(accounts) if a.id == id), -1)`, with `none` for -1
abbrev shift : Option ℕ → Option ℕ
shift none = none
shift (some i) = some (suc i)

unfoldable pub index_of : String → List Account → Option ℕ
index_of id [] = none
index_of id (a ∷ accounts) =
    let rest = shift (index_of id accounts) in if str_eq a.id id then some 0 else rest

-- `current_idx + 1`
abbrev pub after_index : Option ℕ → ℕ
after_index none = 0
after_index (some i) = suc i

unfoldable pub next_index : Option Account → List Account → ℕ
unfolding index_of
next_index none accounts = 0
next_index (some current) accounts = after_index (index_of current.id accounts)

-- the first contact of the account
unfoldable pub contact_of : String → List Contact → Option Contact
contact_of id [] = none
contact_of id (c ∷ contacts) = if str_eq c.account_id id then some c else contact_of id contacts

abbrev pub select : OutboundState → Option Account → OutboundState
select s none = record s { should_continue = some false }
select s (some account) = record s {
  current_account = some account;
  has_current_account = true;
  current_contact = contact_of account.id s.contacts;
  current_stage = some 1;
  enrichment = none;
  draft_email = none;
  approval_status = none;
  reply_analysis = none;
  error = none;
  should_continue = some true;
}

-- No account is left, or there are none, exactly if the list has nothing at the next index.
unfoldable pub account_selector : OutboundState → Outcome
unfolding next_index contact_of
account_selector s =
    done (select s (get_elem? s.accounts (next_index s.current_account s.accounts)))

abbrev pub researched : OutboundState → Research → OutboundState
researched s (found e) = record s { enrichment = some e }
researched s (failed message) = record s { error = some message; enrichment = none }

unfoldable pub researcher : Answers → OutboundState → Outcome
researcher a s = with_account s (elim s.current_account [
  | none ↦ done (record s { error = some "No current_account set" })
  | some account ↦ done (researched s a.research)
])

abbrev pub max_enrichment_retries : ℕ
max_enrichment_retries = 3

abbrev pub retries_of : Option Account → ℕ
retries_of none = 0
retries_of (some account) = or_default 0 account.metadata.enrichment_retries

abbrev pub count_retry : ℕ → Option Account → Option Account
count_retry n none = none
count_retry n (some account) =
    some (record account { metadata = record account.metadata { enrichment_retries = some n } })

unfoldable pub enrichment_retry : OutboundState → Outcome
enrichment_retry s =
    let retry_count = retries_of s.current_account + 1 in
    with_account s (
      if ltb max_enrichment_retries retry_count
      then done (record s {
        error = some ("Enrichment failed after " <> "3" <> " retries");
        enrichment = none;
        should_continue = some false;
      })
      else done (record s {
        error = none;
        enrichment = none;
        current_account = count_retry retry_count s.current_account;
      }))
