-- ===== src/Db/Own.antt =====
-- src/db/queries.py: statements with the condition on the workspace, on the rows of one workspace.
use cmo_agent.Common.{
  String, Bool, true, false, ◌≡◌, refl, ap, append_nil, ◌∙◌, All, List, [], ◌∷◌, ◌++◌, Bool-cases,
  inl, inr, str_eq, arith, if◌then◌else◌, eq_iff,
}
use cmo_agent.Db.Tables.{select, insert, update, count, scoped}
use cmo_agent.Db.Requests.{own}

module _ {A : Type 0} (p : A → Bool) where
  pub select-append : (xs ys : List A) → select p (xs ++ ys) ≡ select p xs ++ select p ys
  select-append [] ys = refl
  select-append (x ∷ xs) ys = ground (arith, select-append xs ys)

  pub select-every : (xs : List A) → All (λ x. p x ≡ true) xs → select p xs ≡ xs
  select-every [] h = refl
  select-every (x ∷ xs) h = ground (arith, select-every xs h.1)

  pub select-none : (xs : List A) → All (λ x. p x ≡ false) xs → select p xs ≡ []
  select-none [] h = refl
  select-none (x ∷ xs) h = ground (arith, select-none xs h.1)

module _ {Row : Type 0} (ws : Row → String) where
  pub select-own :
      (w : String) (p : Row → Bool) (rows : List Row)
      → select (scoped ws w p) (own ws w rows) ≡ select (scoped ws w p) rows
  select-own w p [] = refl
  select-own w p (r ∷ rows) = ground (arith, select-own w p rows)

  pub count-own :
      (w : String) (p : Row → Bool) (rows : List Row)
      → count (scoped ws w p) (own ws w rows) ≡ count (scoped ws w p) rows
  count-own w p [] = refl
  count-own w p (r ∷ rows) = ground (arith, count-own w p rows)

  pub own-append :
      (w : String) (xs ys : List Row) → own ws w (xs ++ ys) ≡ own ws w xs ++ own ws w ys
  own-append w [] ys = refl
  own-append w (x ∷ xs) ys = ground (arith, own-append w xs ys)

  pub own-update :
      (w : String) (p : Row → Bool) (f : Row → Row) (rows : List Row)
      → ((r : Row) → ws (f r) ≡ ws r)
      → own ws w (update (scoped ws w p) f rows) ≡ update (scoped ws w p) f (own ws w rows)
  own-update w p f [] same = refl
  own-update w p f (r ∷ rows) same = ground (arith, own-update w p f rows same, same r)

  other_workspace :
      (v w : String) (r : Row)
      → str_eq w v ≡ false
      → str_eq (ws r) w ≡ true
      → str_eq (ws r) v ≡ false
  other_workspace v w r other mine = rw ((eq_iff (ws r) w).0 mine) other

  pub own-update_other :
      (v w : String) (p : Row → Bool) (f : Row → Row) (rows : List Row)
      → ((r : Row) → ws (f r) ≡ ws r)
      → str_eq w v ≡ false
      → own ws v (update (scoped ws w p) f rows) ≡ own ws v rows
  own-update_other v w p f [] same other = refl
  own-update_other v w p f (r ∷ rows) same other = elim (Bool-cases (str_eq (ws r) w)) [
    | inl mine ↦
        ground (
          arith,
          own-update_other v w p f rows same other,
          same r,
          other_workspace v w r other mine,
        )
    | inr theirs ↦ ground (arith, own-update_other v w p f rows same other)
  ]

  own-All : (w : String) (rows : List Row) → All (λ r. ws r ≡ w) rows → own ws w rows ≡ rows
  own-All w [] h = refl
  own-All w (r ∷ rows) h = ground (arith, own-All w rows h.1, (eq_iff (ws r) w).1 h.0)

  pub own-append_mine :
      (w : String) (xs ys : List Row)
      → All (λ r. ws r ≡ w) ys
      → own ws w (xs ++ ys) ≡ own ws w xs ++ ys
  own-append_mine w xs ys h = own-append w xs ys ∙ ap (λ zs. own ws w xs ++ zs) (own-All w ys h)

  own-none :
      (v w : String) (rows : List Row)
      → All (λ r. ws r ≡ w) rows
      → str_eq w v ≡ false
      → own ws v rows ≡ []
  own-none v w [] h other = refl
  own-none v w (r ∷ rows) h other =
      ground
        (arith, own-none v w rows h.1 other, other_workspace v w r other ((eq_iff (ws r) w).1 h.0))

  pub own-append_other :
      (v w : String) (xs ys : List Row)
      → All (λ r. ws r ≡ w) ys
      → str_eq w v ≡ false
      → own ws v (xs ++ ys) ≡ own ws v xs
  own-append_other v w xs ys h other =
      ground (arith, own-append v xs ys, own-none v w ys h other, append_nil (own ws v xs))

  pub own-insert :
      (w : String) (r : Row) (rows : List Row)
      → own ws w (insert r rows)
        ≡ (if str_eq (ws r) w then insert r (own ws w rows) else own ws w rows)
  own-insert w r rows = ground (arith, own-append w rows (r ∷ []), append_nil (own ws w rows))
