-- ===== src/Db/Lifecycle.antt =====
-- src/db/queries.py: an API key from its creation on, and the latest of several briefs.
use cmo_agent.Common.{
  ℕ, String, ◌≡◌, refl, ap, All, lt→ltb, ◌<◌, List, [], ◌∷◌, ◌++◌, Bool, true, false, Bool-cases,
  inl, inr, str_eq, if◌then◌else◌, arith, eq_refl, none, some, sym, ltb,
}
use cmo_agent.Db.Tables.{no_row, one_row, select, update, count, scoped}
use cmo_agent.Db.Rows.{ApiKeyRow, Db}
use cmo_agent.Db.Queries.Keys.{create_api_key, get_api_key_by_hash, deactivate_api_key}

abbrev active_with : String → ApiKeyRow → Bool
active_with h r = if str_eq r.key_hash h then r.is_active else false

abbrev revoke : ApiKeyRow → ApiKeyRow
revoke r = record r { is_active = false }

module _ (h : String) where
  select-fresh :
      (rows : List ApiKeyRow) (k : ApiKeyRow)
      → All (λ r. str_eq r.key_hash h ≡ false) rows
      → select (active_with h) (rows ++ k ∷ []) ≡ (if active_with h k then k ∷ [] else [])
  select-fresh [] k fresh = refl
  select-fresh (r ∷ rows) k fresh = ground (arith, select-fresh rows k fresh.1)

  fresh-update :
      (p : ApiKeyRow → Bool) (rows : List ApiKeyRow)
      → All (λ r. str_eq r.key_hash h ≡ false) rows
      → All (λ r. str_eq r.key_hash h ≡ false) (update p revoke rows)
  fresh-update p [] fresh = tt
  fresh-update p (r ∷ rows) fresh = (ground (arith, fresh.0), fresh-update p rows fresh.1)

  count-append :
      (p : ApiKeyRow → Bool) (rows : List ApiKeyRow) (k : ApiKeyRow)
      → p k ≡ true
      → 0 < count p (rows ++ k ∷ [])
  count-append p [] k h = ground arith
  count-append p (r ∷ rows) k h = omega (arith, count-append p rows k h)

  update-append :
      (p : ApiKeyRow → Bool) (rows : List ApiKeyRow) (k : ApiKeyRow)
      → update p revoke (rows ++ k ∷ [])
        ≡ update p revoke rows ++ (if p k then revoke k else k) ∷ []
  update-append p [] k = refl
  update-append p (r ∷ rows) k =
      ap (λ rest. (if p r then revoke r else r) ∷ rest) (update-append p rows k)

abbrev pub new_key : (String → String) → String → ℕ → String → String → String → ApiKeyRow
new_key sha256 id now token w name = record {
  id = id;
  workspace_id = w;
  key_hash = sha256 token;
  name = name;
  is_active = true;
  created_at = now;
  last_used_at = none;
}

new_key-lifecycle :
    (sha256 : String → String) (id : String) (now : ℕ) (token w name v : String) (db : Db)
    → All (λ r. str_eq r.key_hash (sha256 token) ≡ false) db.api_keys
    → let k = new_key sha256 id now token w name in
      let created : Db = record db { api_keys = db.api_keys ++ k ∷ [] } in
      (get_api_key_by_hash (sha256 token) created ≡ one_row k)
      × ((deactivate_api_key id w created).0 ≡ true)
      × (get_api_key_by_hash (sha256 token) (deactivate_api_key id v created).1
          ≡ (if str_eq w v then no_row else one_row k))
new_key-lifecycle sha256 id now token w name v db fresh =
    let k : ApiKeyRow = new_key sha256 id now token w name in
    let mine : String → ApiKeyRow → Bool =
      λ u. scoped ApiKeyRow.workspace_id u (λ r. str_eq r.id id) in
    let found = select-fresh (sha256 token) db.api_keys k fresh in
    let updated = update-append (sha256 token) (mine v) db.api_keys k in
    let still = fresh-update (sha256 token) (mine v) db.api_keys fresh in
    (
      rw (found, eq_refl (sha256 token)) refl,
      lt→ltb 0 _ (count-append (sha256 token) (mine w) db.api_keys k (rw (eq_refl w) (eq_refl id))),
      elim (Bool-cases (str_eq w v)) [
        | inl same ↦ ground (
          arith,
          updated,
          same,
          eq_refl id,
          eq_refl (sha256 token),
          select-fresh (sha256 token) (update (mine v) revoke db.api_keys) (revoke k) still,
        )
        | inr other ↦ ground (
          arith,
          updated,
          other,
          eq_refl (sha256 token),
          select-fresh (sha256 token) (update (mine v) revoke db.api_keys) k still,
        )
      ],
    )

none_there :
    (h : String) (rows : List ApiKeyRow)
    → count (λ r. str_eq r.key_hash h) rows ≡ 0
    → All (λ r. str_eq r.key_hash h ≡ false) rows
none_there h [] e = tt
none_there h (r ∷ rows) e = elim (Bool-cases (str_eq r.key_hash h)) [
  | inl there ↦ absurd (omega (arith, rw there at e))
  | inr other ↦ (other, none_there h rows (omega (arith, rw other at e)))
]

-- the key that is made, and that no other has its hash
created-new :
    (sha256 : String → String) (id : String) (now : ℕ) (token w name : String) (db : Db)
    (k : ApiKeyRow) (raw_key : String) (created : Db)
    → create_api_key sha256 id now token w name db ≡ some (k, raw_key, created)
    → All (λ r. str_eq r.key_hash (sha256 token) ≡ false) db.api_keys
      × (new_key sha256 id now token w name ≡ k)
      × (token ≡ raw_key)
      × (record db { api_keys = db.api_keys ++ new_key sha256 id now token w name ∷ [] } ≡ created)
created-new sha256 id now token w name db k raw_key created e =
    elim (Bool-cases (ltb 0 (count (λ r. str_eq r.key_hash (sha256 token)) db.api_keys))) [
      | inl there ↦ absurd (cc (rw there at e))
      | inr new ↦
          let made = rw new at e in
          (none_there (sha256 token) db.api_keys (ground (arith, new)), cc made, cc made, cc made)
    ]

-- A key that is made is found by its text, whichever workspace then deactivates its id; its text finds no key
-- once its own workspace does.
pub create_api_key-lifecycle :
    (sha256 : String → String) (id : String) (now : ℕ) (token w name v : String) (db : Db)
    (k : ApiKeyRow) (raw_key : String) (created : Db)
    → create_api_key sha256 id now token w name db ≡ some (k, raw_key, created)
    → (get_api_key_by_hash (sha256 raw_key) created ≡ one_row k)
      × ((deactivate_api_key id w created).0 ≡ true)
      × (get_api_key_by_hash (sha256 raw_key) (deactivate_api_key id v created).1
          ≡ (if str_eq w v then no_row else one_row k))
create_api_key-lifecycle sha256 id now token w name v db k raw_key created e =
    let (fresh, same_key, same_text, same_db) =
      created-new sha256 id now token w name db k raw_key created e in
    rw (sym same_key, sym same_text, sym same_db)
      (new_key-lifecycle sha256 id now token w name v db fresh)
