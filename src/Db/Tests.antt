-- ===== src/Db/Tests.antt =====
-- Runs of the queries on a small database of two workspaces.
use cmo_agent.Common.{
  ℕ, zero, suc, String, ◌≡◌, ◌≢◌, refl, ap, sym, none, some, List, [], ◌∷◌, arith,
}
use cmo_agent.Common.Text.{◌<>◌, str_eq-ne, cancel_left, ne_of_first, first_or, first_or-append}
use cmo_agent.Db.Samples.{insertion, no_rows}
use cmo_agent.Db.Requests.{
  Call, create_accounts_of, create_campaign_of, get_accounts_of, replies, calls_of, view,
}
use cmo_agent.Db.Queries.Uploads.{Upload, create_campaign_accounts, get_campaign_accounts}
use cmo_agent.Db.Interleaving.{replies-alone}
use cmo_agent.Db.UploadTrip.{upload_trip}
use cmo_agent.Db.UploadTrip.Added.{listed}
use cmo_agent.Db.UploadTrip.Unordered.{SameAccounts}
use cmo_agent.Db.Rows.{Db}
use cmo_agent.Db.Queries.Campaigns.{create_contact}

-- ids told apart by their length
abbrev tally : ℕ → String
tally zero = ""
tally (suc n) = "i" <> tally n

first_differs : (k : ℕ) → first_or 0 "" ≢ first_or 0 ("i" <> tally k)
first_differs k = rw (first_or-append 0 "i" (tally k)) (λ e. omega (arith, e))

tally-ne : (i k : ℕ) → i ≢ k → tally i ≢ tally k
tally-ne zero zero h = λ e. h refl
tally-ne zero (suc k) h = ne_of_first "" ("i" <> tally k) (first_differs k)
tally-ne (suc i) zero h = λ e. ne_of_first "" ("i" <> tally i) (first_differs i) (sym e)
tally-ne (suc i) (suc k) h = cancel_left "i" (tally i) (tally k) (tally-ne i k (λ e. h (ap suc e)))

abbrev ada : Upload
ada = record {
  company_name = "Ada";
  domain = some "ada.io";
  industry = none;
  employee_count = some 12;
  revenue = none;
  contacts =
      record { email = "a@ada.io"; first_name = none; last_name = none; role = some "CEO" }
      ∷ record { email = "b@ada.io"; first_name = none; last_name = none; role = none }
      ∷ [];
}

abbrev acme : Upload
acme = record {
  company_name = "Acme";
  domain = none;
  industry = some "steel";
  employee_count = none;
  revenue = none;
  contacts = [];
}

abbrev other_account : Db
other_account = record no_rows {
  accounts =
      record {
        id = "a2";
        workspace_id = "w2";
        company_name = "Them";
        domain = none;
        metadata = none;
        created_at = 1;
      }
      ∷ [];
}

abbrev calls : List Call
calls =
    record {
      workspace = "w1";
      number = 0;
      time = 5;
      request = create_accounts_of "c1" (ada ∷ acme ∷ []);
    }
    ∷ record {
      workspace = "w2";
      number = 9;
      time = 6;
      request = create_campaign_of "theirs" none none;
    }
    ∷ record { workspace = "w1"; number = 10; time = 7; request = get_accounts_of "c1" }
    ∷ record { workspace = "w2"; number = 11; time = 8; request = get_accounts_of "c1" }
    ∷ []

replies-alone_example :
    replies (λ n. insertion) tally "w1" calls no_rows
    ≡ replies (λ n. insertion) tally "w1" (calls_of "w1" calls) (view "w1" no_rows)
replies-alone_example = replies-alone (λ n. insertion) tally "w1" calls no_rows

upload_trip_example :
    SameAccounts
      (get_campaign_accounts insertion "c1" "w1"
        (create_campaign_accounts tally 5 "c1" "w1" 3 (ada ∷ acme ∷ []) no_rows).1)
      (listed tally 5 "c1" "w1" 3 (ada ∷ acme ∷ []))
upload_trip_example =
    upload_trip tally 5 "c1" "w1" insertion 3 (ada ∷ acme ∷ []) no_rows
      (λ i k h. str_eq-ne (tally i) (tally k) (tally-ne i k h)) tt tt refl

-- of an account of another workspace, too
another_workspace :
    (create_contact "ct1" 9 "w1" "a2" "eve@x.io" none none none other_account) ≢ none
another_workspace = λ e. cc e
