-- ===== src/Api/Access.antt =====
-- src/api/middleware.py and src/api/deps.py: whom the pipeline lets in, and as which workspace.
use cmo_agent.Common.{
  String, true, false, ◌≡◌, refl, ap, Option, none, some, str_eq, arith, Bool-cases, inl, inr, sym,
  ◌∙◌,
}
use cmo_agent.Db.Tables.{Scalar, no_row, one_row, several_rows}
use cmo_agent.Db.Rows.{ApiKeyRow, WorkspaceRow}
use cmo_agent.Db.Queries.Keys.{get_api_key_by_hash, get_workspace}
use cmo_agent.Ratelimit.{Verdict, passed, limited, enforce, BucketState}
use text.Mathlib.Text.{starts_with}
use cmo_agent.Api.Middleware.{
  Server, Request, State, World, Handler, Endpoint, serve, pipeline, api_key_auth, is_exempt,
  is_admin, bearer, rate_limit, workspace_extractor, get_workspace_id, for_workspace, called_for,
  start_state, admin_workspace, with_request_id, limited_of, with_key, key_found, lookup_key, used,
  limited_for, enforced, with_limit, max_tokens, charged, text_or, is_given,
}

-- the workspace of the active key that the request carries
abbrev pub ActsAs : Server → Request → World → String → Type 0
ActsAs E req world w =
    (k : ApiKeyRow) × (get_api_key_by_hash (E.sha256 (bearer req)) world.db ≡ one_row k)
    × (k.workspace_id ≡ w)

-- a workspace id that a row of the table may have: it is a UUID
abbrev pub IsRowId : String → Type 0
IsRowId w = (str_eq w "" ≡ false) × (str_eq w admin_workspace ≡ false)

-- what a handler after the key's check is given
abbrev pub state_of : String → Option String → State
state_of w plan = record { workspace_id = some w; workspace_plan = plan }

module _ (E : Server) (req : Request) where
  get_workspace_id-state :
      (w : String) (plan : Option String)
      → IsRowId w
      → get_workspace_id req (state_of w plan) ≡ some w
  unfolding get_workspace_id
  get_workspace_id-state w plan id = ground (arith, id.0, id.1)

  -- With a workspace in the state, the route runs for it, whatever the header says.
  pub route_lem :
      (f : Endpoint) (w : String) (plan : Option String) (world : World)
      → IsRowId w
      → workspace_extractor req (for_workspace req f) (state_of w plan) world ≡ f w world
  unfolding workspace_extractor
  route_lem f w plan world id =
      let given : is_given (some w) ≡ true = ground (arith, id.0) in
      rw given (ap (λ o. called_for o f world) (get_workspace_id-state w plan id))

  enforced-alike :
      (next next' : Handler) (w plan : String) (v : Verdict × Option BucketState) (st : State)
      (world : World)
      → ((d : World) → next st d ≡ next' st d)
      → enforced w plan v next st world ≡ enforced w plan v next' st world
  enforced-alike next next' w plan (passed, b) st world same =
      ap (with_limit (max_tokens plan)) (same (charged w b world))
  enforced-alike next next' w plan (limited n, b) st world same = refl

  limited_for-alike :
      (next next' : Handler) (w plan : String) (st : State) (world : World)
      → ((d : World) → next st d ≡ next' st d)
      → limited_for E w plan next st world ≡ limited_for E w plan next' st world
  limited_for-alike next next' w plan st world same = elim (Bool-cases E.redis_up) [
    | inl up ↦ rw up (
        enforced-alike next next' w plan (enforce "api" plan E.now (world.buckets w)) st world same)
    | inr down ↦ rw down (ap (with_limit (max_tokens plan)) (same world))
  ]

  limited_of-alike :
      (next next' : Handler) (o : Option String) (st : State) (world : World)
      → ((d : World) → next st d ≡ next' st d)
      → limited_of E o next st world ≡ limited_of E o next' st world
  limited_of-alike next next' none st world same = same world
  limited_of-alike next next' (some w) st world same = ground (
    arith,
    same world,
    limited_for-alike next next' w (text_or "free" st.workspace_plan) st world same,
  )

  limit-alike :
      (next next' : Handler) (st : State) (world : World)
      → ((d : World) → next st d ≡ next' st d)
      → rate_limit E next st world ≡ rate_limit E next' st world
  unfolding rate_limit
  limit-alike next next' st world same = limited_of-alike next next' st.workspace_id st world same

  pub no_webhook : is_exempt req.path ≡ false → starts_with req.path "/webhooks/" ≡ false
  unfolding is_exempt
  no_webhook guarded = ground (arith, guarded)

  module _ (f g : Endpoint) where
    inner-alike :
        (w : String) (plan : Option String) (world : World)
        → IsRowId w
        → ((d : World) → f w d ≡ g w d)
        → rate_limit E (workspace_extractor req (for_workspace req f)) (state_of w plan) world
          ≡ rate_limit E (workspace_extractor req (for_workspace req g)) (state_of w plan) world
    inner-alike w plan world id same =
        limit-alike _ _ (state_of w plan) world
          (λ d. route_lem f w plan d id ∙ same d ∙ sym (route_lem g w plan d id))

    found-alike :
        (k : ApiKeyRow) (o : Scalar WorkspaceRow) (world : World)
        → IsRowId k.workspace_id
        → ((d : World) → f k.workspace_id d ≡ g k.workspace_id d)
        → key_found E k o
            (rate_limit E (workspace_extractor req (for_workspace req f)))
            start_state
            world
          ≡ key_found E k o
              (rate_limit E (workspace_extractor req (for_workspace req g)))
              start_state
              world
    found-alike k no_row world id same =
        inner-alike k.workspace_id (some "free") (used E k world) id same
    found-alike k (one_row w) world id same =
        inner-alike k.workspace_id (some w.plan) (used E k world) id same
    found-alike k several_rows world id same = refl

    key-alike :
        (o : Scalar ApiKeyRow) (world : World)
        → ((k : ApiKeyRow) → o ≡ one_row k → IsRowId k.workspace_id)
        → ((k : ApiKeyRow) → o ≡ one_row k → (d : World) → f k.workspace_id d ≡ g k.workspace_id d)
        → with_key E o
            (rate_limit E (workspace_extractor req (for_workspace req f)))
            start_state
            world
          ≡ with_key E o
              (rate_limit E (workspace_extractor req (for_workspace req g)))
              start_state
              world
    key-alike no_row world id same = refl
    key-alike several_rows world id same = refl
    key-alike (one_row k) world id same =
        found-alike k (get_workspace k.workspace_id world.db) world (id k refl) (same k refl)

    lookup-alike :
        (world : World)
        → ((w : String) → ActsAs E req world w → IsRowId w)
        → ((w : String) → ActsAs E req world w → (d : World) → f w d ≡ g w d)
        → lookup_key E req
            (rate_limit E (workspace_extractor req (for_workspace req f)))
            start_state
            world
          ≡ lookup_key E req
              (rate_limit E (workspace_extractor req (for_workspace req g)))
              start_state
              world
    unfolding rate_limit
    lookup-alike world id same = elim (Bool-cases E.database_up) [
      | inl up ↦ rw up (
          key-alike (get_api_key_by_hash (E.sha256 (bearer req)) world.db) world
            (λ k e. id k.workspace_id (k, e, refl)) (λ k e. same k.workspace_id (k, e, refl)))
      | inr down ↦ rw down
    ]

    auth-alike :
        (world : World)
        → is_exempt req.path ≡ false
        → is_admin E req ≡ false
        → ((w : String) → ActsAs E req world w → IsRowId w)
        → ((w : String) → ActsAs E req world w → (d : World) → f w d ≡ g w d)
        → api_key_auth E req
            (rate_limit E (workspace_extractor req (for_workspace req f)))
            start_state
            world
          ≡ api_key_auth E req
              (rate_limit E (workspace_extractor req (for_workspace req g)))
              start_state
              world
    unfolding api_key_auth
    auth-alike world guarded not_admin id same =
        elim (Bool-cases (starts_with req.authorization "Bearer cmo_")) [
          | inl has ↦ rw (guarded, not_admin, has) (lookup-alike world id same)
          | inr bare ↦ rw (guarded, not_admin, bare)
        ]

    -- On a path that is not exempt and without the admin key, two routes that do the same for the workspace of the
    -- request's active key give the same reply and state, whatever they do for others and whatever the header
    -- X-Workspace-Id says: the request acts as that workspace or reaches no route.
    pub serve-ActsAs :
        (world : World)
        → is_exempt req.path ≡ false
        → is_admin E req ≡ false
        → ((w : String) → ActsAs E req world w → IsRowId w)
        → ((w : String) → ActsAs E req world w → (d : World) → f w d ≡ g w d)
        → serve E req f world ≡ serve E req g world
    unfolding serve pipeline
    serve-ActsAs world guarded not_admin id same =
        let body : api_key_auth E req (rate_limit E (workspace_extractor req (for_workspace req f)))
              start_state world
            ≡ api_key_auth E req (rate_limit E (workspace_extractor req (for_workspace req g)))
                start_state world =
          auth-alike world guarded not_admin id same in
        ap (with_request_id E.request_id) (rw (no_webhook guarded) body)
