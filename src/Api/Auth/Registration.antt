-- ===== src/Api/Auth/Registration.antt =====
-- src/api/auth.py: a login after a registration.
use cmo_agent.Common.{
  String, Bool, true, false, ◌≡◌, refl, ap, ◌∙◌, some, [], ◌∷◌, str_eq, if◌then◌else◌, arith,
  eq_refl,
}
use cmo_agent.Common.Text.{◌<>◌}
use cmo_agent.Db.Tables.{one_row, select}
use cmo_agent.Db.Own.{select-append}
use cmo_agent.Db.Rows.{WorkspaceRow}
use cmo_agent.Db.Queries.Keys.{get_workspace}
use cmo_agent.Api.Auth.{
  AuthDb, Digest, Fresh, RegisterRequest, LoginRequest, refused, signed_in, register, login,
  registered, new_credential, with_email, workspace_name_of, bad_login, split_colon, has_colon,
  check_parts, verified, verify_password, hash_password,
}
use Prim.Native.Char.{Char}
use text.Mathlib.TextLemmas.{nil-append, cons-append}

split_whole : (s : String) → has_colon s ≡ false → split_colon s ≡ s ∷ []
split_whole String.[] h = refl
split_whole (String.◌∷◌ c s) h = ground (arith, split_whole s)

char_append : (c : Char) (t : String) → String.◌∷◌ c String.[] <> t ≡ String.◌∷◌ c t
char_append c t = rw cons-append (rw nil-append)

at_colon : (t : String) → has_colon t ≡ false → split_colon (":" <> t) ≡ "" ∷ t ∷ []
at_colon t h = ap split_colon (char_append ":" t) ∙ ap (λ rest. "" ∷ rest) (split_whole t h)

tail_lem : (c : Char) (s : String) → has_colon (String.◌∷◌ c s) ≡ false → has_colon s ≡ false
tail_lem c s h = ground (arith, h)

split_pair :
    (s t : String)
    → has_colon s ≡ false
    → has_colon t ≡ false
    → split_colon (s <> ":" <> t) ≡ s ∷ t ∷ []
split_pair String.[] t h k = rw nil-append (at_colon t k)
split_pair (String.◌∷◌ c s) t h k =
    rw cons-append (ground (arith, h, split_pair s t (tail_lem c s h) k))

-- What a password hash is checked to: the digests are equal.
verify_password-hash_password :
    (digest : Digest) (salt password other : String)
    → has_colon salt ≡ false
    → has_colon (digest password salt) ≡ false
    → verify_password digest other (hash_password digest salt password)
      ≡ some (str_eq (digest other salt) (digest password salt))
verify_password-hash_password digest salt password other h k =
    ap (check_parts digest other) (split_pair salt (digest password salt) h k)

module _ (digest : Digest) (u v : Fresh) (body : RegisterRequest) (store : AuthDb) where
  found-new :
      select (with_email body.email) store.user_credentials ≡ []
      → select (with_email body.email) (registered digest u body store).1.user_credentials
        ≡ new_credential digest u body ∷ []
  found-new new_email =
      select-append (with_email body.email) store.user_credentials
        (new_credential digest u body ∷ [])
      ∙ rw (new_email, eq_refl body.email)

  workspace-new :
      select (λ (r : WorkspaceRow). str_eq r.id u.workspace_id) store.db.workspaces ≡ []
      → get_workspace u.workspace_id (registered digest u body store).1.db
        ≡ one_row (record {
          id = u.workspace_id;
          name = workspace_name_of body;
          plan = "free";
          created_at = u.now;
        })
  workspace-new new_id =
      let w : WorkspaceRow = record {
        id = u.workspace_id;
        name = workspace_name_of body;
        plan = "free";
        created_at = u.now;
      } in
      let appended =
        select-append (λ (r : WorkspaceRow). str_eq r.id u.workspace_id) store.db.workspaces
          (w ∷ []) in
      rw (appended, new_id, eq_refl u.workspace_id)

  register_lem :
      select (with_email body.email) store.user_credentials ≡ []
      → register digest u body store ≡ registered digest u body store
  unfolding register
  register_lem new_email = rw new_email

  checked_login :
      (b : Bool)
      → select (λ (r : WorkspaceRow). str_eq r.id u.workspace_id) store.db.workspaces ≡ []
      → (verified (some b) v (new_credential digest u body) (registered digest u body store).1).0
        ≡ (if b
            then signed_in (record {
              token = v.token;
              email = body.email;
              name = body.name;
              role = "admin";
              workspace_id = u.workspace_id;
              workspace_name = workspace_name_of body;
            })
            else bad_login)
  checked_login true new_id = rw (workspace-new new_id)
  checked_login false new_id = refl

  -- After a registration of a new address: a login with it succeeds just for a password with the same
  -- digest, as the admin of the new workspace; any other is refused, and a second registration too.
  pub register-login :
      (password : String)
      → select (with_email body.email) store.user_credentials ≡ []
      → select (λ (r : WorkspaceRow). str_eq r.id u.workspace_id) store.db.workspaces ≡ []
      → has_colon u.salt ≡ false
      → has_colon (digest body.password u.salt) ≡ false
      → let after : AuthDb = (register digest u body store).1 in
        let entered : LoginRequest = record { email = body.email; password = password } in
        ((login digest v entered after).0 ≡ (
          if str_eq (digest password u.salt) (digest body.password u.salt)
          then signed_in (record {
            token = v.token;
            email = body.email;
            name = body.name;
            role = "admin";
            workspace_id = u.workspace_id;
            workspace_name = workspace_name_of body;
          })
          else bad_login))
        × (register digest v body after ≡ (refused 409 "Email already registered", after))
  unfolding login register
  register-login password new_email new_id salt_ok digest_ok =
      rw (register_lem new_email, found-new new_email)
        (
          rw (verify_password-hash_password digest u.salt body.password password salt_ok digest_ok)
              (checked_login (str_eq (digest password u.salt) (digest body.password u.salt))
                new_id),
          refl,
        )
