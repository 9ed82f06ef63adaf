-- ===== src/Db/Interleaving.antt =====
-- src/db/queries.py: the requests of all workspaces in one order.
use cmo_agent.Common.{
  ℕ, String, ◌≡◌, refl, ap, ◌∙◌, List, [], ◌∷◌, Bool-cases, inl, inr, str_eq, eq_iff, sym, true,
  false,
}
use cmo_agent.Db.Tables.{Sql}
use cmo_agent.Db.Rows.{Db}
use cmo_agent.Db.Requests.{Call, call, run, replies, calls_of, view}
use cmo_agent.Db.Isolation.{reply-view, view-perform_mine, view-perform_other}

module _ (S : ℕ → Sql) (uuid : ℕ → String) (w : String) where
  reply-mine :
      (c : Call) (db : Db)
      → str_eq c.workspace w ≡ true
      → (call S uuid c db).0 ≡ (call S uuid c (view w db)).0
  reply-mine c db mine =
      let e : c.workspace ≡ w = (eq_iff c.workspace w).0 mine in
      rw (sym e) (sym (reply-view (S c.number) uuid c.number c.time c.workspace c.request db))

  view-mine :
      (c : Call) (db : Db)
      → str_eq c.workspace w ≡ true
      → view w (call S uuid c db).1 ≡ (call S uuid c (view w db)).1
  view-mine c db mine =
      let e : c.workspace ≡ w = (eq_iff c.workspace w).0 mine in
      rw (sym e) (view-perform_mine (S c.number) uuid c.number c.time c.workspace c.request db)

  view-other :
      (c : Call) (db : Db) → str_eq c.workspace w ≡ false → view w (call S uuid c db).1 ≡ view w db
  view-other c db other =
      view-perform_other (S c.number) uuid c.number c.time c.workspace w c.request db other

  -- The rows of a workspace after the requests of all are those that its own requests alone, in their
  -- order, make of its own rows before.
  pub view-run :
      (calls : List Call) (db : Db)
      → view w (run S uuid calls db) ≡ run S uuid (calls_of w calls) (view w db)
  view-run [] db = refl
  view-run (c ∷ calls) db = elim (Bool-cases (str_eq c.workspace w)) [
    | inl mine ↦ rw mine (
        view-run calls (call S uuid c db).1
        ∙ ap (run S uuid (calls_of w calls)) (view-mine c db mine))
    | inr other ↦ rw other (
        view-run calls (call S uuid c db).1
        ∙ ap (run S uuid (calls_of w calls)) (view-other c db other))
  ]

  -- The replies to a workspace, among the requests of all workspaces in any order, are those that its own requests
  -- alone get on its own rows, in whatever order the server gives the rows of each request. The requests are those
  -- whose outcome no constraint ties to rows of others: not create_contact, save_message, create_invitation and
  -- create_api_key.
  pub replies-alone :
      (calls : List Call) (db : Db)
      → replies S uuid w calls db ≡ replies S uuid w (calls_of w calls) (view w db)
  replies-alone [] db = refl
  replies-alone (c ∷ calls) db = elim (Bool-cases (str_eq c.workspace w)) [
    | inl mine ↦
        rw (mine, mine, reply-mine c db mine)
          (ap (λ rest. (call S uuid c (view w db)).0 ∷ rest)
            (replies-alone calls (call S uuid c db).1
              ∙ ap (replies S uuid w (calls_of w calls)) (view-mine c db mine)))
    | inr other ↦ rw other (
        replies-alone calls (call S uuid c db).1
        ∙ ap (replies S uuid w (calls_of w calls)) (view-other c db other))
  ]
