-- ===== src/Db/Tables.antt =====
-- SQL statements as src/db/queries.py makes them. A table is the list of its rows; in which order a query gives
-- them is a parameter, with the documented laws. An insert that breaks a constraint of infra/init.sql raises; that the
-- workspace of a request is in the table of workspaces is taken for granted.
use cmo_agent.Common.{
  All, ◌≤◌, ℕ, zero, suc, ◌+◌, String, Bool, true, false, List, [], ◌∷◌, ◌++◌, str_eq,
  if◌then◌else◌, ltb,
}
use mathlib.Core.List.{Permᴰ}

-- each key is at least those after it
unfoldable pub Descending : {Row : Type 0} → (Row → ℕ) → List Row → Type 0
Descending key [] = Unit
Descending key (r ∷ rows) = All (λ s. key s ≤ key r) rows × Descending key rows

-- The orders in which the server gives the rows of one request: those that no ORDER BY tells, and those by a key, the
-- greatest or the least first. The server is free in the first, and in rows of one key, and another request may find
-- another order.
pub record Sql : Type 1 where
  pub unordered : {Row : Type 0} → List Row → List Row
  pub unordered-Perm : {Row : Type 0} (rows : List Row) → Permᴰ (unordered rows) rows
  pub order_asc : {Row : Type 0} → (Row → ℕ) → List Row → List Row
  pub order_asc-Perm :
      {Row : Type 0} (key : Row → ℕ) (rows : List Row) → Permᴰ (order_asc key rows) rows
  pub order_desc : {Row : Type 0} → (Row → ℕ) → List Row → List Row
  pub order_desc-Perm :
      {Row : Type 0} (key : Row → ℕ) (rows : List Row) → Permᴰ (order_desc key rows) rows
  pub order_desc-Descending :
      {Row : Type 0} (key : Row → ℕ) (rows : List Row) → Descending key (order_desc key rows)

-- `scalar_one_or_none`, which raises for several rows
pub data Scalar (Row : Type 0) : Type 0 where
  no_row several_rows : Scalar Row
  one_row : Row → Scalar Row

module _ {Row : Type 0} where
  -- SELECT ... WHERE
  abbrev pub select : (Row → Bool) → List Row → List Row
  select p [] = []
  select p (r ∷ rows) = let rest : List Row = select p rows in if p r then r ∷ rest else rest

  abbrev pub insert : Row → List Row → List Row
  insert r rows = rows ++ r ∷ []

  -- UPDATE ... WHERE
  abbrev pub update : (Row → Bool) → (Row → Row) → List Row → List Row
  update p f [] = []
  update p f (r ∷ rows) = (if p r then f r else r) ∷ update p f rows

  -- `rowcount` of such an update, and SELECT count(...) WHERE
  abbrev pub count : (Row → Bool) → List Row → ℕ
  count p [] = 0
  count p (r ∷ rows) = (if p r then 1 else 0) + count p rows

  -- whether a row is there, which a REFERENCES asks for and a UNIQUE forbids
  abbrev pub exists : (Row → Bool) → List Row → Bool
  exists p rows = ltb 0 (count p rows)

  abbrev pub scalar : List Row → Scalar Row
  scalar [] = no_row
  scalar (r ∷ []) = one_row r
  scalar (r ∷ s ∷ rows) = several_rows

-- the condition `workspace_id = w` with others
abbrev pub scoped : {Row : Type 0} → (Row → String) → String → (Row → Bool) → Row → Bool
scoped ws w p r = if str_eq (ws r) w then p r else false

-- the condition alone
abbrev pub any_row : {Row : Type 0} → Row → Bool
any_row r = true

-- OFFSET
abbrev pub drop : {Row : Type 0} → ℕ → List Row → List Row
drop zero rows = rows
drop (suc n) [] = []
drop (suc n) (r ∷ rows) = drop n rows
