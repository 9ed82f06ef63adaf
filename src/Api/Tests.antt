-- ===== src/Api/Tests.antt =====
-- Runs of the pipeline, the pages and the accounts.
use cmo_agent.Common.{
  arith, inl, ℕ, String, true, false, ◌≡◌, refl, sym, ap, ◌∙◌, Option, none, some, [], ◌∷◌, str_eq,
  if◌then◌else◌,
}
use cmo_agent.Common.Int.{pos}
use cmo_agent.Common.Text.{◌<>◌}
use cmo_agent.Db.Samples.{insertion, hash_text, no_rows}
use cmo_agent.Db.Tables.{Scalar, no_row, several_rows, one_row, select, scoped, any_row}
use cmo_agent.Db.Rows.{ApiKeyRow, WorkspaceRow, CampaignRow, Db}
use cmo_agent.Db.Queries.Keys.{deactivate_api_key}
use cmo_agent.Ratelimit.{BucketState, passed, enforce, rate_limits, take_token}
use cmo_agent.Api.Middleware.{
  pipeline, approval_webhook, start_state, is_exempt, is_admin, Server, Request, World, Endpoint,
  serve, json_response, with_request_id, refuse,
}
use cmo_agent.Api.Access.{ActsAs, serve-ActsAs}
use cmo_agent.Api.Entry.{serve-signed, serve-revoked_key}
use cmo_agent.Api.Pages.{list_campaigns_route}
use mathlib.Core.List.{Permᴰ}
use cmo_agent.Db.Tables.{Descending}
use cmo_agent.Api.Pages.Order.{Distinct}
use cmo_agent.Api.Pages.Cover.{read_pages, read_pages-all}
use cmo_agent.Api.Auth.{
  AuthDb, Fresh, RegisterRequest, register, login, bad_login, refused, signed_in,
}
use cmo_agent.Api.Auth.Registration.{register-login}

abbrev server : Server
server = record {
  admin_api_key = "root";
  hmac_secret = "s";
  sha256 = hash_text;
  hmac_sha256 = λ s t. s <> t;
  now = 100;
  request_id = "r1";
  database_up = true;
  redis_up = true;
}

abbrev request : Request
request = record {
  path = "/campaigns";
  method = "GET";
  authorization = "Bearer cmo_x";
  signature = none;
  workspace_header = some "w2";
  body = "";
}

abbrev key : ApiKeyRow
key = record {
  id = "k1";
  workspace_id = "w1";
  key_hash = "hash of cmo_x";
  name = "default";
  is_active = true;
  created_at = 1;
  last_used_at = none;
}

abbrev workspace : WorkspaceRow
workspace = record { id = "w1"; name = "Ada"; plan = "pro"; created_at = 0 }

abbrev world : World
world = record {
  db = record no_rows { api_keys = key ∷ []; workspaces = workspace ∷ [] };
  buckets = λ w. none;
}

abbrev hook : Request
hook = record {
  path = "/webhooks/approval";
  method = "POST";
  authorization = "";
  signature = some "s{}";
  workspace_header = none;
  body = "{}";
}

-- the bucket that the first call leaves
abbrev first_bucket : Option BucketState
first_bucket = (enforce "api" "pro" 100 none).1

first_passes : enforce "api" "pro" 100 none ≡ (passed, first_bucket)
unfolding enforce rate_limits take_token
first_passes = refl

exempt_no : is_exempt "/campaigns" ≡ false
unfolding is_exempt
exempt_no = refl

admin_no : is_admin server request ≡ false
unfolding is_admin
admin_no = refl

-- a route that says for whom it ran, and one that does so for one workspace alone
abbrev says_whom : Endpoint
says_whom w d = refuse 200 w d

abbrev says_whom_w1 : Endpoint
says_whom_w1 w d = if str_eq w "w1" then refuse 200 w d else refuse 200 "nobody" d

abbrev workspace_or : String → Scalar ApiKeyRow → String
workspace_or d no_row = d
workspace_or d several_rows = d
workspace_or d (one_row k) = k.workspace_id

ActsAs-w1 : (w : String) → ActsAs server request world w → w ≡ "w1"
ActsAs-w1 w (k, e, same) = sym same ∙ sym (ap (workspace_or "w1") e)

serve-ActsAs_example :
    serve server request says_whom world ≡ serve server request says_whom_w1 world
serve-ActsAs_example =
    serve-ActsAs server request says_whom says_whom_w1 world exempt_no admin_no
      (λ w act. rw (ActsAs-w1 w act) (refl, refl)) (λ w act d. rw (ActsAs-w1 w act) refl)

serve-signed_example :
    pipeline server
      (record hook { workspace_header = some "w2" })
      (approval_webhook says_whom)
      start_state
      world
    ≡ with_request_id "r1" (says_whom "w2" world)
serve-signed_example =
    serve-signed server hook says_whom world "w2" "s{}" (inl refl) refl refl refl refl

abbrev new_key : ApiKeyRow
new_key = record {
  id = "k1";
  workspace_id = "w1";
  key_hash = hash_text "cmo_x";
  name = "default";
  is_active = true;
  created_at = 4;
  last_used_at = none;
}

abbrev with_new_key : Db
with_new_key = record no_rows { api_keys = new_key ∷ [] }

serve-revoked_key_example :
    let after : World = record {
      db = (deactivate_api_key "k1" "w1" with_new_key).1;
      buckets = λ w. none;
    } in
    serve server request says_whom after
    ≡ (some (record (json_response 401 "AUTH_INVALID_KEY") { request_id = some "r1" }), after)
serve-revoked_key_example =
    serve-revoked_key server request says_whom "k1" 4 "cmo_x" "w1" "default" no_rows (λ w. none)
      new_key "cmo_x" with_new_key refl exempt_no admin_no refl refl refl

abbrev campaign : String → ℕ → CampaignRow
campaign id t = record {
  id = id;
  workspace_id = "w1";
  name = id;
  icp_criteria = none;
  sequence_config = none;
  created_at = t;
}

abbrev three : Db
three = record no_rows { campaigns = campaign "a" 1 ∷ campaign "b" 2 ∷ campaign "c" 3 ∷ [] }

read_pages-all_example :
    let pages =
      read_pages
        (λ n. insertion)
        "w1"
        (pos 2)
        three
        (list_campaigns_route insertion "w1" (pos 1) (pos 2) three).total_pages in
    Permᴰ pages (select (scoped CampaignRow.workspace_id "w1" any_row) three.campaigns)
    × Descending CampaignRow.created_at pages
unfolding Distinct
read_pages-all_example =
    read_pages-all (λ n. insertion) "w1" (pos 2) three
      (
        (λ e. omega (arith, e), (λ e. omega (arith, e), tt)),
        ((λ e. omega (arith, e), tt), (tt, tt)),
      )

-- three campaigns on two pages
two_pages : (list_campaigns_route insertion "w1" (pos 1) (pos 2) three).total_pages ≡ 2
unfolding list_campaigns_route
two_pages = refl

abbrev mix : String → String → String
mix password salt = password <> salt

abbrev first_call : Fresh
first_call = record {
  workspace_id = "w9";
  credential_id = "u1";
  salt = "5a";
  token = "sess_1";
  now = 10;
}

abbrev second_call : Fresh
second_call = record {
  workspace_id = "";
  credential_id = "";
  salt = "";
  token = "sess_2";
  now = 20;
}

abbrev form : RegisterRequest
form = record { email = "a@ada.io"; password = "secret"; name = "Ada"; company = "" }

abbrev empty_store : AuthDb
empty_store = record { db = no_rows; user_credentials = []; login_sessions = [] }

register-login_example :
    let after : AuthDb = (register mix first_call form empty_store).1 in
    ((login mix second_call (record { email = "a@ada.io"; password = "guess" }) after).0 ≡ (
      if str_eq "guess5a" "secret5a"
      then signed_in (record {
        token = "sess_2";
        email = "a@ada.io";
        name = "Ada";
        role = "admin";
        workspace_id = "w9";
        workspace_name = "Ada's Workspace";
      })
      else bad_login))
    × (register mix second_call form after ≡ (refused 409 "Email already registered", after))
register-login_example =
    register-login mix first_call second_call form empty_store "guess" refl refl refl refl
