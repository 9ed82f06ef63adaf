-- ===== src/Api/Auth.antt =====
-- src/api/auth.py: registration and login. The digest of a password with a salt, the random salts and tokens
-- and the ids are parameters. The constraint of the table that keeps addresses unique is not needed: the
-- route looks first.
pub mod Registration
use cmo_agent.Common.{
  ℕ, ◌+◌, String, Bool, true, false, Option, none, some, List, [], ◌∷◌, str_eq, if◌then◌else◌,
  ◌==◌ as nat_eq,
}
use cmo_agent.Common.Text.{◌<>◌}
use Prim.Native.Char.{Char, code}
use cmo_agent.Db.Tables.{Scalar, no_row, one_row, several_rows, select, insert, update, scalar}
use cmo_agent.Db.Rows.{WorkspaceRow, Db}
use cmo_agent.Db.Queries.Keys.{create_workspace, get_workspace}

pub record CredentialRow : Type 0 where
  pub id : String
  pub workspace_id : String
  pub email : String
  pub password_hash : String
  pub user_name : String
  pub role : String
  pub last_login_at : Option ℕ

pub record SessionRow : Type 0 where
  pub workspace_id : String
  pub email : String
  pub token : String
  pub expires_at : ℕ

pub record AuthDb : Type 0 where
  pub db : Db
  pub user_credentials : List CredentialRow
  pub login_sessions : List SessionRow

-- pbkdf2_hmac with SHA-256 and 100000 rounds, of a password and a salt, in hexadecimal
abbrev pub Digest : Type 0
Digest = String → String → String

abbrev pub hash_password : Digest → String → String → String
hash_password digest salt password = salt <> ":" <> digest password salt

abbrev is_colon : Char → Bool
is_colon c = nat_eq (code c) 58

-- a character before the first part
abbrev on_first : Char → List String → List String
on_first c [] = []
on_first c (part ∷ parts) = String.◌∷◌ c part ∷ parts

-- `stored.split(":")`
abbrev pub split_colon : String → List String
split_colon String.[] = "" ∷ []
split_colon (String.◌∷◌ c s) =
    let rest : List String = split_colon s in if is_colon c then "" ∷ rest else on_first c rest

abbrev pub has_colon : String → Bool
has_colon String.[] = false
has_colon (String.◌∷◌ c s) = if is_colon c then true else has_colon s

-- `none` is the ValueError of a stored text that has not two parts
abbrev pub check_parts : Digest → String → List String → Option Bool
check_parts digest password (salt ∷ hashed ∷ []) = some (str_eq (digest password salt) hashed)
check_parts digest password parts = none

abbrev pub verify_password : Digest → String → String → Option Bool
verify_password digest password stored = check_parts digest password (split_colon stored)

pub record RegisterRequest : Type 0 where
  pub email : String
  pub password : String
  pub name : String
  pub company : String

pub record LoginRequest : Type 0 where
  pub email : String
  pub password : String

-- what a call is given by the server and the random source
pub record Fresh : Type 0 where
  pub workspace_id : String
  pub credential_id : String
  pub salt : String
  pub token : String
  pub now : ℕ

pub record SignedIn : Type 0 where
  pub token : String
  pub email : String
  pub name : String
  pub role : String
  pub workspace_id : String
  pub workspace_name : String

-- An HTTPException, another exception, or the reply. The session is rolled back after the first two.
pub data AuthResult : Type 0 where
  refused : ℕ → String → AuthResult
  crashed : AuthResult
  signed_in : SignedIn → AuthResult

abbrev pub seven_days : ℕ
seven_days = 604800

abbrev pub with_email : String → CredentialRow → Bool
with_email email r = str_eq r.email email

abbrev pub new_session : Fresh → String → String → SessionRow
new_session u w email = record {
  workspace_id = w;
  email = email;
  token = u.token;
  expires_at = u.now + seven_days;
}

-- `body.company or f"{body.name}'s Workspace"`
abbrev pub workspace_name_of : RegisterRequest → String
workspace_name_of body =
    if str_eq body.company "" then body.name <> "'s Workspace" else body.company

abbrev pub new_credential : Digest → Fresh → RegisterRequest → CredentialRow
new_credential digest u body = record {
  id = u.credential_id;
  workspace_id = u.workspace_id;
  email = body.email;
  password_hash = hash_password digest u.salt body.password;
  user_name = body.name;
  role = "admin";
  last_login_at = none;
}

abbrev pub registered : Digest → Fresh → RegisterRequest → AuthDb → AuthResult × AuthDb
registered digest u body store =
    let (workspace, db) =
      create_workspace u.workspace_id u.now (workspace_name_of body) "free" store.db in
    (
      signed_in (record {
        token = u.token;
        email = body.email;
        name = body.name;
        role = "admin";
        workspace_id = workspace.id;
        workspace_name = workspace.name;
      }),
      record {
        db = db;
        user_credentials = insert (new_credential digest u body) store.user_credentials;
        login_sessions = insert (new_session u workspace.id body.email) store.login_sessions;
      },
    )

abbrev pub register_for :
    Scalar CredentialRow → Digest → Fresh → RegisterRequest → AuthDb → AuthResult × AuthDb
register_for no_row digest u body store = registered digest u body store
register_for (one_row c) digest u body store = (refused 409 "Email already registered", store)
register_for several_rows digest u body store = (crashed, store)

unfoldable pub register : Digest → Fresh → RegisterRequest → AuthDb → AuthResult × AuthDb
register digest u body store =
    register_for (scalar (select (with_email body.email) store.user_credentials)) digest u body
      store

abbrev pub bad_login : AuthResult
bad_login = refused 401 "Invalid email or password"

-- the rows that a login writes
abbrev pub logged_in : Fresh → CredentialRow → AuthDb → AuthDb
logged_in u cred store = record store {
  login_sessions = insert (new_session u cred.workspace_id cred.email) store.login_sessions;
  user_credentials =
      update (λ r. str_eq r.id cred.id) (λ r. record r { last_login_at = some u.now })
        store.user_credentials;
}

abbrev pub reply_for : Fresh → CredentialRow → String → AuthResult
reply_for u cred name = signed_in (record {
  token = u.token;
  email = cred.email;
  name = cred.user_name;
  role = cred.role;
  workspace_id = cred.workspace_id;
  workspace_name = name;
})

-- `workspace.name if workspace else ""`
abbrev pub login_to : Scalar WorkspaceRow → Fresh → CredentialRow → AuthDb → AuthResult × AuthDb
login_to no_row u cred store = (reply_for u cred "", logged_in u cred store)
login_to (one_row w) u cred store = (reply_for u cred w.name, logged_in u cred store)
login_to several_rows u cred store = (crashed, store)

abbrev pub verified : Option Bool → Fresh → CredentialRow → AuthDb → AuthResult × AuthDb
verified none u cred store = (crashed, store)
verified (some false) u cred store = (bad_login, store)
verified (some true) u cred store = login_to (get_workspace cred.workspace_id store.db) u cred store

abbrev pub login_for :
    Scalar CredentialRow → Digest → Fresh → LoginRequest → AuthDb → AuthResult × AuthDb
login_for no_row digest u body store = (bad_login, store)
login_for (one_row cred) digest u body store =
    verified (verify_password digest body.password cred.password_hash) u cred store
login_for several_rows digest u body store = (crashed, store)

unfoldable pub login : Digest → Fresh → LoginRequest → AuthDb → AuthResult × AuthDb
login digest u body store =
    login_for (scalar (select (with_email body.email) store.user_credentials)) digest u body store

-- /auth/logout and /auth/me, which read no session
abbrev pub logout : AuthDb → String × AuthDb
logout store = ("logged_out", store)

abbrev pub get_me : AuthDb → AuthResult × AuthDb
get_me store = (refused 401 "No session — use token from login response", store)
