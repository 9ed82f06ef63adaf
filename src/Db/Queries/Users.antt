-- ===== src/Db/Queries/Users.antt =====
-- src/db/queries.py, the queries on users and invitations.
use cmo_agent.Common.{
  ℕ, String, Bool, true, false, Option, none, some, List, str_eq, ltb, if◌then◌else◌,
}
use cmo_agent.Db.Tables.{Sql, Scalar, select, insert, update, count, exists, scalar, scoped}
use cmo_agent.Db.Rows.{UserRow, InvitationRow, Db}

-- `UNIQUE(workspace_id, email)`
abbrev pub create_user : String → ℕ → String → String → String → String → Db → Option (UserRow × Db)
create_user id now w email name role db =
    let user : UserRow = record {
      id = id;
      workspace_id = w;
      email = email;
      name = name;
      role = role;
      is_active = true;
      created_at = now;
    } in
    if exists (scoped UserRow.workspace_id w (λ r. str_eq r.email email)) db.users
    then none
    else some (user, record db { users = insert user db.users })

abbrev pub get_user : String → String → Db → Scalar UserRow
get_user user_id w db =
    scalar (select (scoped UserRow.workspace_id w (λ r. str_eq r.id user_id)) db.users)

abbrev pub get_user_by_email : String → String → Db → Scalar UserRow
get_user_by_email email w db =
    scalar (select (scoped UserRow.workspace_id w (λ r. str_eq r.email email)) db.users)

abbrev pub list_users : Sql → String → Db → List UserRow
list_users S w db =
    S.order_asc UserRow.created_at
      (select (scoped UserRow.workspace_id w UserRow.is_active) db.users)

abbrev pub update_user_role : String → String → String → Db → Bool × Db
update_user_role user_id w role db =
    let mine = scoped UserRow.workspace_id w (λ r. str_eq r.id user_id) in
    (
      ltb 0 (count mine db.users),
      record db { users = update mine (λ r. record r { role = role }) db.users },
    )

abbrev pub deactivate_user : String → String → Db → Bool × Db
deactivate_user user_id w db =
    let mine = scoped UserRow.workspace_id w (λ r. str_eq r.id user_id) in
    (
      ltb 0 (count mine db.users),
      record db { users = update mine (λ r. record r { is_active = false }) db.users },
    )

-- `invited_by UUID NOT NULL REFERENCES users(id)`, of whichever workspace
abbrev pub create_invitation :
    String → ℕ → String → String → String → String → Db → Option (InvitationRow × Db)
create_invitation id now w email role invited_by db =
    let invitation : InvitationRow = record {
      id = id;
      workspace_id = w;
      email = email;
      role = role;
      invited_by = invited_by;
      status = "pending";
      created_at = now;
    } in
    if exists (λ r. str_eq r.id invited_by) db.users
    then some (invitation, record db { invitations = insert invitation db.invitations })
    else none

abbrev pub list_invitations : Sql → String → Db → List InvitationRow
list_invitations S w db =
    S.order_desc InvitationRow.created_at
      (select (scoped InvitationRow.workspace_id w (λ r. str_eq r.status "pending")) db.invitations)
