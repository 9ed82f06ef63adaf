-- ===== src/Api/Entry.antt =====
-- src/api/middleware.py: an API key from its creation to a request, and the requests to webhooks.
use cmo_agent.Common.{
  ℕ, String, Bool, true, false, ◌≡◌, refl, ap, ◌∙◌, ◌⊎◌, inl, inr, Option, some, str_eq,
  if◌then◌else◌, arith, eq_refl,
}
use cmo_agent.Db.Tables.{no_row, one_row}
use cmo_agent.Db.Rows.{ApiKeyRow, WorkspaceRow, Db}
use cmo_agent.Db.Queries.Keys.{
  create_api_key, deactivate_api_key, get_api_key_by_hash, get_workspace,
}
use cmo_agent.Db.Lifecycle.{create_api_key-lifecycle}
use cmo_agent.Ratelimit.{passed, enforce, BucketState}
use text.Mathlib.Text.{starts_with}
use cmo_agent.Api.Access.{IsRowId, route_lem, state_of, no_webhook}
use cmo_agent.Api.Middleware.{
  Server, Request, World, Endpoint, Handler, serve, pipeline, api_key_auth, is_exempt, is_admin,
  bearer, rate_limit, workspace_extractor, for_workspace, approval_webhook, start_state,
  json_response, with_request_id, lookup_key, used, with_limit, max_tokens, charged, compare_digest,
  signed,
}

if_under :
    {A B : Type 0} (b : Bool) (h : A → B) (x y : A)
    → (if b then h x else h y) ≡ h (if b then x else y)
if_under true h x y = refl
if_under false h x y = refl

module _ (E : Server) (req : Request) (f : Endpoint) where
  limit_passed :
      (next : Handler) (w plan : String) (bucket : Option BucketState) (world : World)
      → IsRowId w
      → enforce "api" plan E.now (world.buckets w) ≡ (passed, bucket)
      → rate_limit E next (state_of w (some plan)) world
        ≡ with_limit
            (max_tokens plan)
            (next (state_of w (some plan)) (if E.redis_up then charged w bucket world else world))
  unfolding rate_limit
  limit_passed next w plan bucket world id allowed =
      rw (id.0, id.1, allowed)
        (if_under E.redis_up (λ d. with_limit (max_tokens plan) (next (state_of w (some plan)) d))
          (charged w bucket world) world)

  lookup_none :
      (next : Handler) (world : World)
      → E.database_up ≡ true
      → get_api_key_by_hash (E.sha256 (bearer req)) world.db ≡ no_row
      → lookup_key E req next start_state world
        ≡ (some (json_response 401 "AUTH_INVALID_KEY"), world)
  lookup_none next world up gone = simp (up, gone)

  lookup_one :
      (next : Handler) (world : World) (k : ApiKeyRow) (ws : WorkspaceRow)
      → E.database_up ≡ true
      → get_api_key_by_hash (E.sha256 (bearer req)) world.db ≡ one_row k
      → get_workspace k.workspace_id world.db ≡ one_row ws
      → lookup_key E req next start_state world
        ≡ next (state_of k.workspace_id (some ws.plan)) (used E k world)
  lookup_one next world k ws up key found = simp (up, key, found)

  -- where the pipeline looks a key up
  serve-lookup :
      (world : World)
      → is_exempt req.path ≡ false
      → is_admin E req ≡ false
      → starts_with req.authorization "Bearer cmo_" ≡ true
      → serve E req f world
        ≡ with_request_id E.request_id (
            lookup_key E req
              (rate_limit E (workspace_extractor req (for_workspace req f)))
              start_state
              world)
  unfolding serve pipeline api_key_auth
  serve-lookup world guarded not_admin has =
      ap (with_request_id E.request_id) (rw (no_webhook E req guarded, guarded, not_admin, has))

  -- With the database up, a request with the active key of a workspace that exists, with an allowance left, runs the
  -- route for that workspace; the reply carries the request's id and the plan's limit, and the bucket is charged
  -- unless Redis is away.
  pub serve-active_key :
      (world : World) (k : ApiKeyRow) (ws : WorkspaceRow) (bucket : Option BucketState)
      → is_exempt req.path ≡ false
      → is_admin E req ≡ false
      → starts_with req.authorization "Bearer cmo_" ≡ true
      → E.database_up ≡ true
      → get_api_key_by_hash (E.sha256 (bearer req)) world.db ≡ one_row k
      → get_workspace k.workspace_id world.db ≡ one_row ws
      → IsRowId k.workspace_id
      → enforce "api" ws.plan E.now (world.buckets k.workspace_id) ≡ (passed, bucket)
      → serve E req f world
        ≡ with_request_id E.request_id (
            with_limit (max_tokens ws.plan) (
              f k.workspace_id (
                if E.redis_up
                then charged k.workspace_id bucket (used E k world)
                else used E k world)))
  serve-active_key world k ws bucket guarded not_admin has up key found id allowed =
      serve-lookup world guarded not_admin has
      ∙ ap (with_request_id E.request_id) (
          lookup_one (rate_limit E (workspace_extractor req (for_workspace req f))) world k ws up
            key found
          ∙ limit_passed (workspace_extractor req (for_workspace req f)) k.workspace_id ws.plan
              bucket (used E k world) id allowed
          ∙ ap (with_limit (max_tokens ws.plan))
              (route_lem E req f k.workspace_id (some ws.plan) _ id))

  webhook_exempt : starts_with req.path "/webhooks/" ≡ true → is_exempt req.path ≡ true
  unfolding is_exempt
  webhook_exempt h = ground (arith, h)

  -- the routes for the answers of reviewers
  abbrev pub IsApproval : String → Type 0
  IsApproval path = (path ≡ "/webhooks/approval") ⊎ (path ≡ "/webhooks/brief-approval")

  approval-webhook : IsApproval req.path → starts_with req.path "/webhooks/" ≡ true
  approval-webhook (inl e) = rw e refl
  approval-webhook (inr e) = rw e refl

  -- past the check of the signature
  behind_signature :
      (world : World) (w : String)
      → starts_with req.path "/webhooks/" ≡ true
      → str_eq w "" ≡ false
      → let named : Request = record req { workspace_header = some w } in
        api_key_auth E named
          (rate_limit E (workspace_extractor named (approval_webhook f)))
          start_state
          world
        ≡ f w world
  unfolding api_key_auth rate_limit workspace_extractor approval_webhook
  behind_signature world w webhook named = rw (webhook_exempt webhook) (rw named refl)

  signed_valid :
      (r : Request) (o : Option String) (s : String) (next : Handler) (world : World)
      → o ≡ some s
      → str_eq s "" ≡ false
      → compare_digest s (E.hmac_sha256 E.hmac_secret r.body) ≡ some true
      → signed E r o next start_state world ≡ next start_state world
  signed_valid r o s next world given nonempty valid = rw (given, nonempty, valid)

  -- At the two routes for the answers of reviewers, a request whose body is signed acts for the workspace that
  -- its header names, whichever that is: the signature does not cover the header.
  pub serve-signed :
      (world : World) (w s : String)
      → IsApproval req.path
      → req.signature ≡ some s
      → str_eq s "" ≡ false
      → compare_digest s (E.hmac_sha256 E.hmac_secret req.body) ≡ some true
      → str_eq w "" ≡ false
      → pipeline E (record req { workspace_header = some w }) (approval_webhook f) start_state world
        ≡ with_request_id E.request_id (f w world)
  unfolding pipeline
  serve-signed world w s approval given nonempty valid named =
      let webhook = approval-webhook approval in
      ap (with_request_id E.request_id) (
        rw webhook (
          signed_valid (record req { workspace_header = some w }) req.signature s _ world given
            nonempty valid
          ∙ behind_signature world w webhook named))

  -- A key that was created and then deactivated by its workspace gets 401 on every path that is not exempt, whatever
  -- the route, while the database is up; nothing is changed.
  pub serve-revoked_key :
      (id : String) (created_at : ℕ) (token w name : String) (db : Db)
      (buckets : String → Option BucketState) (k : ApiKeyRow) (raw_key : String) (created : Db)
      → create_api_key E.sha256 id created_at token w name db ≡ some (k, raw_key, created)
      → is_exempt req.path ≡ false
      → is_admin E req ≡ false
      → starts_with req.authorization "Bearer cmo_" ≡ true
      → E.database_up ≡ true
      → bearer req ≡ raw_key
      → let world : World = record {
        db = (deactivate_api_key id w created).1;
        buckets = buckets;
      } in
        serve E req f world ≡ (
          some (record (json_response 401 "AUTH_INVALID_KEY") { request_id = some E.request_id }),
          world,
        )
  serve-revoked_key id created_at token w name db buckets k raw_key created made guarded not_admin
        has up same =
      let world : World = record { db = (deactivate_api_key id w created).1; buckets = buckets } in
      let gone : get_api_key_by_hash (E.sha256 raw_key) world.db ≡ no_row =
        (create_api_key-lifecycle E.sha256 id created_at token w name w db k raw_key created made).2
        ∙ rw (eq_refl w) in
      serve-lookup world guarded not_admin has
      ∙ ap (with_request_id E.request_id) (
          lookup_none (rate_limit E (workspace_extractor req (for_workspace req f))) world up
            (rw same gone))
