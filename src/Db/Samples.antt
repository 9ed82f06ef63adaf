-- ===== src/Db/Samples.antt =====
-- A small database, for the runs.
use cmo_agent.Common.{
  ℕ, ◌≤◌, String, refl, List, [], ◌∷◌, All, All-weaken, ltb, ltb→lt, arith, Bool-cases, inl, inr,
  if◌then◌else◌,
}
use mathlib.Core.List.{Permᴰ}
use mathlib.Core.List.Permᴰ
use cmo_agent.Common.Text.{◌<>◌}
use cmo_agent.Db.Tables.{Sql, Descending}
use cmo_agent.Db.Rows.{Db}

module _ {Row : Type 0} (key : Row → ℕ) where
  abbrev insert_row : Row → List Row → List Row
  insert_row r [] = r ∷ []
  insert_row r (s ∷ rows) =
      let rest : List Row = insert_row r rows in
      if ltb (key r) (key s) then s ∷ rest else r ∷ s ∷ rows

  abbrev pub newest_first : List Row → List Row
  newest_first [] = []
  newest_first (r ∷ rows) = insert_row r (newest_first rows)

  insert_row-Perm : (r : Row) (rows : List Row) → Permᴰ (insert_row r rows) (r ∷ rows)
  insert_row-Perm r [] = Permᴰ.refl (r ∷ [])
  insert_row-Perm r (s ∷ rows) = elim (Bool-cases (ltb (key r) (key s))) [
    | inl less ↦
        rw less (Permᴰ.trans (Permᴰ.cons refl (insert_row-Perm r rows)) (Permᴰ.swap refl refl))
    | inr not_less ↦ rw not_less (Permᴰ.refl (r ∷ s ∷ rows))
  ]

  pub newest_first-Perm : (rows : List Row) → Permᴰ (newest_first rows) rows
  newest_first-Perm [] = Permᴰ.nil
  newest_first-Perm (r ∷ rows) =
      Permᴰ.trans (insert_row-Perm r (newest_first rows)) (Permᴰ.cons refl (newest_first-Perm rows))

  insert_row-All :
      (P : Row → Type 0) (r : Row) (rows : List Row) → P r → All P rows → All P (insert_row r rows)
  insert_row-All P r [] p h = (p, tt)
  insert_row-All P r (s ∷ rows) p h = elim (Bool-cases (ltb (key r) (key s))) [
    | inl less ↦ rw less (h.0, insert_row-All P r rows p h.1)
    | inr not_less ↦ rw not_less (p, h)
  ]

  insert_row-Descending :
      (r : Row) (rows : List Row) → Descending key rows → Descending key (insert_row r rows)
  unfolding Descending
  insert_row-Descending r [] h = (tt, tt)
  insert_row-Descending r (s ∷ rows) h = elim (Bool-cases (ltb (key r) (key s))) [
    | inl less ↦
        let below : key r ≤ key s = omega (arith, ltb→lt (key r) (key s) less) in
        rw less
          (insert_row-All (λ t. key t ≤ key s) r rows below h.0, insert_row-Descending r rows h.1)
    | inr not_less ↦
        let above : key s ≤ key r = ground (arith, not_less) in
        rw not_less (
          (
            above,
            All-weaken (λ t. key t ≤ key s) (λ t. key t ≤ key r) rows
                (λ t le. omega (arith, above, le)) h.0,
          ),
          h,
        )
  ]

  pub newest_first-Descending : (rows : List Row) → Descending key (newest_first rows)
  unfolding Descending
  newest_first-Descending [] = tt
  newest_first-Descending (r ∷ rows) =
      insert_row-Descending r (newest_first rows) (newest_first-Descending rows)

-- a server that sorts by insertion and otherwise keeps the order of the table
abbrev pub insertion : Sql
insertion = record {
  unordered = λ rows. rows;
  unordered-Perm = λ rows. Permᴰ.refl rows;
  order_asc = λ key rows. rows;
  order_asc-Perm = λ key rows. Permᴰ.refl rows;
  order_desc = λ key rows. newest_first key rows;
  order_desc-Perm = λ key rows. newest_first-Perm key rows;
  order_desc-Descending = λ key rows. newest_first-Descending key rows;
}

abbrev pub hash_text : String → String
hash_text s = "hash of " <> s

abbrev pub no_rows : Db
no_rows = record {
  campaigns = [];
  accounts = [];
  contacts = [];
  messages = [];
  workspace_settings = [];
  workspaces = [];
  api_keys = [];
  users = [];
  invitations = [];
  account_scores = [];
  signals = [];
  briefs = [];
  feedback = [];
  outcomes = [];
  notifications = [];
  links = [];
  drafts = [];
}
