-- ===== src/Api/Middleware.antt =====
-- src/api/middleware.py, src/api/deps.py and the order of the middlewares in src/api/main.py. A route is what
-- it does for a workspace; `none` is an exception that leaves a handler, which the server answers with 500.
use cmo_agent.Common.{
  ℕ, String, Bool, true, false, not, ◌&&◌, Option, none, some, List, [], ◌∷◌, str_eq, if◌then◌else◌,
}
use cmo_agent.Common.Text.{remove_prefix, strip, is_ascii}
use cmo_agent.Db.Tables.{Scalar, no_row, one_row, several_rows}
use cmo_agent.Db.Rows.{ApiKeyRow, WorkspaceRow, Db}
use cmo_agent.Db.Queries.Keys.{get_api_key_by_hash, get_workspace, update_api_key_last_used}
use cmo_agent.Ratelimit.{BucketState, Verdict, passed, limited, Plan, plan_of, enforce, rate_limits}
use text.Mathlib.Text.{starts_with}

pub record Request : Type 0 where
  pub path : String
  pub method : String
  -- `headers.get("Authorization", "")`
  pub authorization : String
  pub signature : Option String
  pub workspace_header : Option String
  pub body : String

-- request.state, where a missing attribute is `none`
pub record State : Type 0 where
  pub workspace_id : Option String
  pub workspace_plan : Option String

pub record Response : Type 0 where
  pub status : ℕ
  pub content : String
  pub request_id : Option String
  pub retry_after : Option ℕ
  pub rate_limit : Option ℕ

-- the database, and the buckets of the workspaces for the resource "api"
pub record World : Type 0 where
  pub db : Db
  pub buckets : String → Option BucketState

abbrev pub Handler : Type 0
Handler = State → World → Option Response × World

-- The settings, the digests of the standard library, and what the servers do at the time of the request.
pub record Server : Type 0 where
  pub admin_api_key : String
  pub hmac_secret : String
  pub sha256 : String → String
  pub hmac_sha256 : String → String → String
  pub now : ℕ
  pub request_id : String
  pub database_up : Bool
  pub redis_up : Bool

abbrev pub json_response : ℕ → String → Response
json_response status content = record {
  status = status;
  content = content;
  request_id = none;
  retry_after = none;
  rate_limit = none;
}

abbrev pub refuse : ℕ → String → World → Option Response × World
refuse status content world = (some (json_response status content), world)

-- whether a text that may be missing is not empty
abbrev pub is_given : Option String → Bool
is_given none = false
is_given (some t) = not (str_eq t "")

abbrev pub text_or : String → Option String → String
text_or d none = d
text_or d (some t) = t

-- `compare_digest` raises for texts that are not ASCII
abbrev pub compare_digest : String → String → Option Bool
compare_digest a b = if is_ascii a && is_ascii b then some (str_eq a b) else none

abbrev pub checked : Option Bool → Handler → Handler
checked none next st world = (none, world)
checked (some false) next st world = refuse 401 "Invalid HMAC signature" world
checked (some true) next st world = next st world

abbrev pub signed : Server → Request → Option String → Handler → Handler
signed E req none next st world = refuse 401 "Missing X-Webhook-Signature header" world
signed E req (some s) next st world =
    if str_eq s ""
    then refuse 401 "Missing X-Webhook-Signature header" world
    else checked (compare_digest s (E.hmac_sha256 E.hmac_secret req.body)) next st world

abbrev pub hmac_auth : Server → Request → Handler → Handler
hmac_auth E req next st world =
    if starts_with req.path "/webhooks/"
    then signed E req req.signature next st world
    else next st world

abbrev any_equal : String → List String → Bool
any_equal t [] = false
any_equal t (p ∷ ps) = if str_eq t p then true else any_equal t ps

abbrev any_prefix : String → List String → Bool
any_prefix t [] = false
any_prefix t (p ∷ ps) = if starts_with t p then true else any_prefix t ps

abbrev pub exempt_paths : List String
exempt_paths = "/health" ∷ "/metrics" ∷ "/docs" ∷ "/openapi.json" ∷ "/redoc" ∷ []

abbrev pub exempt_prefixes : List String
exempt_prefixes = "/webhooks/" ∷ "/demo" ∷ "/app" ∷ "/onboarding" ∷ "/auth" ∷ []

unfoldable pub is_exempt : String → Bool
is_exempt path = if any_equal path exempt_paths then true else any_prefix path exempt_prefixes

abbrev pub bearer : Request → String
bearer req = strip (remove_prefix req.authorization "Bearer ")

-- the admin key, on the creation of a workspace
unfoldable pub is_admin : Server → Request → Bool
is_admin E req =
    str_eq req.path "/api/v1/workspaces"
    && str_eq req.method "POST"
    && not (str_eq (bearer req) "")
    && str_eq (bearer req) E.admin_api_key

abbrev pub admin_workspace : String
admin_workspace = "__admin__"

abbrev pub enter : String → Option String → Handler → Handler
enter w plan next st world = next (record { workspace_id = some w; workspace_plan = plan }) world

abbrev pub used : Server → ApiKeyRow → World → World
used E k world = record world { db = update_api_key_last_used E.now k.id world.db }

abbrev pub key_found : Server → ApiKeyRow → Scalar WorkspaceRow → Handler → Handler
key_found E k no_row next st world = enter k.workspace_id (some "free") next st (used E k world)
key_found E k (one_row w) next st world =
    enter k.workspace_id (some w.plan) next st (used E k world)
key_found E k several_rows next st world = refuse 503 "AUTH_SERVICE_UNAVAILABLE" world

abbrev pub with_key : Server → Scalar ApiKeyRow → Handler → Handler
with_key E no_row next st world = refuse 401 "AUTH_INVALID_KEY" world
with_key E several_rows next st world = refuse 503 "AUTH_SERVICE_UNAVAILABLE" world
with_key E (one_row k) next st world =
    key_found E k (get_workspace k.workspace_id world.db) next st world

abbrev pub lookup_key : Server → Request → Handler → Handler
lookup_key E req next st world =
    if E.database_up
    then with_key E (get_api_key_by_hash (E.sha256 (bearer req)) world.db) next st world
    else refuse 503 "AUTH_SERVICE_UNAVAILABLE" world

unfoldable pub api_key_auth : Server → Request → Handler → Handler
api_key_auth E req next st world =
    if is_exempt req.path
    then next st world
    else if is_admin E req
    then enter admin_workspace (some "enterprise") next st world
    else if starts_with req.authorization "Bearer cmo_"
    then lookup_key E req next st world
    else refuse 401 "AUTH_MISSING_KEY" world

-- `RATE_LIMITS["api"].get(plan, (60, 60))[0]`
abbrev limit_or_60 : Option (Plan → ℕ) → Option Plan → ℕ
limit_or_60 none plan = 60
limit_or_60 (some limits) none = 60
limit_or_60 (some limits) (some plan) = limits plan

unfoldable pub max_tokens : String → ℕ
max_tokens plan = limit_or_60 (rate_limits "api") (plan_of plan)

abbrev pub with_limit : ℕ → Option Response × World → Option Response × World
with_limit n (none, world) = (none, world)
with_limit n (some r, world) = (some (record r { rate_limit = some n }), world)

abbrev pub too_many : ℕ → ℕ → World → Option Response × World
too_many n after world = (
  some (record {
    status = 429;
    content = "RATE_LIMIT_EXCEEDED";
    request_id = none;
    retry_after = some after;
    rate_limit = some n;
  }),
  world,
)

abbrev pub after_verdict : Verdict → String → Handler → Handler
after_verdict passed plan next st world = with_limit (max_tokens plan) (next st world)
after_verdict (limited after) plan next st world = too_many (max_tokens plan) after world

abbrev pub charged : String → Option BucketState → World → World
charged w bucket world = record world {
  buckets = λ v. if str_eq v w then bucket else world.buckets v;
}

abbrev pub enforced : String → String → Verdict × Option BucketState → Handler → Handler
enforced w plan (verdict, bucket) next st world =
    after_verdict verdict plan next st (charged w bucket world)

-- Redis away: the request is let through
abbrev pub limited_for : Server → String → String → Handler → Handler
limited_for E w plan next st world =
    if E.redis_up
    then enforced w plan (enforce "api" plan E.now (world.buckets w)) next st world
    else with_limit (max_tokens plan) (next st world)

abbrev pub limited_of : Server → Option String → Handler → Handler
limited_of E none next st world = next st world
limited_of E (some w) next st world =
    if str_eq w ""
    then next st world
    else if str_eq w admin_workspace
    then next st world
    else limited_for E w (text_or "free" st.workspace_plan) next st world

unfoldable pub rate_limit : Server → Handler → Handler
rate_limit E next st world = limited_of E st.workspace_id next st world

unfoldable pub workspace_extractor : Request → Handler → Handler
workspace_extractor req next st world =
    if is_given st.workspace_id
    then next st world
    else next (record st { workspace_id = req.workspace_header }) world

abbrev pub with_request_id : String → Option Response × World → Option Response × World
with_request_id id (none, world) = (none, world)
with_request_id id (some r, world) = (some (record r { request_id = some id }), world)

abbrev pub add_request_id : Server → Handler → Handler
add_request_id E next st world = with_request_id E.request_id (next st world)

-- The middleware added last is the outermost.
unfoldable pub pipeline : Server → Request → Handler → Handler
pipeline E req route =
    add_request_id E
      (hmac_auth E req (api_key_auth E req (rate_limit E (workspace_extractor req route))))

-- get_workspace_id, which a route of a workspace depends on
unfoldable pub get_workspace_id : Request → State → Option String
get_workspace_id req st =
    if is_given st.workspace_id && not (str_eq (text_or "" st.workspace_id) admin_workspace)
    then st.workspace_id
    else if is_given req.workspace_header
    then req.workspace_header
    else none

abbrev pub Endpoint : Type 0
Endpoint = String → World → Option Response × World

abbrev pub called_for : Option String → Endpoint → World → Option Response × World
called_for none endpoint world = refuse 400 "Authentication required" world
called_for (some w) endpoint world = endpoint w world

-- a route that depends on get_workspace_id, as those under /campaigns and most under /api/v1 do
abbrev pub for_workspace : Request → Endpoint → Handler
for_workspace req endpoint st world = called_for (get_workspace_id req st) endpoint world

-- approval_webhook and brief_approval_webhook, which read request.state alone
unfoldable pub approval_webhook : Endpoint → Handler
approval_webhook endpoint st world =
    if is_given st.workspace_id
    then called_for st.workspace_id endpoint world
    else refuse 400 "X-Workspace-Id header is required" world

abbrev pub start_state : State
start_state = record { workspace_id = none; workspace_plan = none }

-- a request to such a route
unfoldable pub serve : Server → Request → Endpoint → World → Option Response × World
serve E req endpoint world = pipeline E req (for_workspace req endpoint) start_state world
