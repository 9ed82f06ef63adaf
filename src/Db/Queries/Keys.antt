-- ===== src/Db/Queries/Keys.antt =====
-- src/db/queries.py, the queries on workspaces and API keys. The new key's text and SHA-256 are parameters.
use cmo_agent.Common.{ℕ, String, Bool, true, false, Option, none, some, str_eq, ltb, if◌then◌else◌}
use cmo_agent.Db.Tables.{Scalar, select, insert, update, count, exists, scalar, scoped}
use cmo_agent.Db.Rows.{WorkspaceRow, ApiKeyRow, Db}

abbrev pub generate_api_key : (String → String) → String → String × String
generate_api_key sha256 raw_key = (raw_key, sha256 raw_key)

abbrev pub create_workspace : String → ℕ → String → String → Db → WorkspaceRow × Db
create_workspace id now name plan db =
    let workspace : WorkspaceRow = record { id = id; name = name; plan = plan; created_at = now } in
    (workspace, record db { workspaces = insert workspace db.workspaces })

abbrev pub get_workspace : String → Db → Scalar WorkspaceRow
get_workspace w db = scalar (select (λ r. str_eq r.id w) db.workspaces)

-- `key_hash TEXT NOT NULL UNIQUE`, over all workspaces
abbrev pub create_api_key :
    (String → String)
    → String
    → ℕ
    → String
    → String
    → String
    → Db
    → Option (ApiKeyRow × String × Db)
create_api_key sha256 id now token w name db =
    let (raw_key, key_hash) = generate_api_key sha256 token in
    let api_key : ApiKeyRow = record {
      id = id;
      workspace_id = w;
      key_hash = key_hash;
      name = name;
      is_active = true;
      created_at = now;
      last_used_at = none;
    } in
    if exists (λ r. str_eq r.key_hash key_hash) db.api_keys
    then none
    else some (api_key, raw_key, record db { api_keys = insert api_key db.api_keys })

abbrev pub get_api_key_by_hash : String → Db → Scalar ApiKeyRow
get_api_key_by_hash key_hash db =
    scalar (select (λ r. if str_eq r.key_hash key_hash then r.is_active else false) db.api_keys)

abbrev pub deactivate_api_key : String → String → Db → Bool × Db
deactivate_api_key key_id w db =
    let mine = scoped ApiKeyRow.workspace_id w (λ r. str_eq r.id key_id) in
    (
      ltb 0 (count mine db.api_keys),
      record db { api_keys = update mine (λ r. record r { is_active = false }) db.api_keys },
    )

abbrev pub update_api_key_last_used : ℕ → String → Db → Db
update_api_key_last_used now key_id db = record db {
  api_keys =
      update (λ r. str_eq r.id key_id) (λ r. record r { last_used_at = some now }) db.api_keys;
}
