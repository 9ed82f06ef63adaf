-- ===== src/Api/Pages/Order.antt =====
-- Rows in the order of a key: there is one, if no two rows have one key.
use cmo_agent.Common.{
  ℕ, ◌≤◌, ◌≡◌, ◌≢◌, refl, ap, ◌∙◌, sym, subst, List, [], ◌∷◌, arith, All, All-weaken,
}
use native.Mathlib.Bridge.{le_prop}
use mathlib.Core.HLevel.{⊥_prop}
use mathlib.Core.Logic.{∥∥₁_elim}
use mathlib.Core.List.{Permᴰ, Perm}
use mathlib.Core.List.Permᴰ
use mathlib.Core.List.Perm
use cmo_agent.Db.Tables.{Descending}

module _ {Row : Type 0} (key : Row → ℕ) where
  -- no two rows have one key
  unfoldable pub Distinct : List Row → Type 0
  Distinct [] = Unit
  Distinct (r ∷ rows) = All (λ s. key s ≢ key r) rows × Distinct rows

  All-Perm : (P : Row → Type 0) {xs ys : List Row} → Permᴰ xs ys → All P xs → All P ys
  All-Perm P Permᴰ.nil h = h
  All-Perm P (Permᴰ.cons e p) h = (subst P e h.0, All-Perm P p h.1)
  All-Perm P (Permᴰ.swap e f) h = (subst P f h.1.0, (subst P e h.0, h.1.1))
  All-Perm P (Permᴰ.trans p q) h = All-Perm P q (All-Perm P p h)

  -- rows of one key are one
  Untied : List Row → List Row → Type 0
  Untied xs ys = All (λ x. All (λ y. key x ≡ key y → x ≡ y) ys) xs

  All-with :
      (P Q R : Row → Type 0) (rows : List Row)
      → ((s : Row) → P s → Q s → R s)
      → All P rows
      → All Q rows
      → All R rows
  All-with P Q R [] f h k = tt
  All-with P Q R (s ∷ rows) f h k = (f s h.0 k.0, All-with P Q R rows f h.1 k.1)

  Distinct-Untied : (rows : List Row) → Distinct rows → Untied rows rows
  unfolding Distinct Untied
  Distinct-Untied [] h = tt
  Distinct-Untied (r ∷ rows) h = (
    (λ e. refl, All-weaken _ _ rows (λ s ne e. absurd (ne (sym e))) h.0),
    All-with _ _ _ rows (λ s ne all. (λ e. absurd (ne e), all)) h.0 (Distinct-Untied rows h.1),
  )

  Untied-Perm : {xs ys zs : List Row} → Permᴰ xs ys → Permᴰ xs zs → Untied xs xs → Untied ys zs
  unfolding Untied
  Untied-Perm {xs} {ys} {zs} p q h =
      All-Perm _ p (All-weaken _ _ xs (λ x all. All-Perm (λ y. key x ≡ key y → x ≡ y) q all) h)

  head-le :
      {x y : Row} {xs ys : List Row}
      → Perm (x ∷ xs) (y ∷ ys)
      → Descending key (x ∷ xs)
      → key y ≤ key x
  unfolding Descending
  head-le p h = ∥∥₁_elim p le_prop (λ d. (All-Perm (λ z. key z ≤ key _) d (omega arith, h.0)).0)

  -- there is one order of rows by distinct keys
  one_order :
      (xs ys : List Row)
      → Perm xs ys
      → Descending key xs
      → Descending key ys
      → Untied xs ys
      → xs ≡ ys
  unfolding Descending Untied
  one_order [] [] p h k u = refl
  one_order [] (y ∷ ys) p h k u = absurd (∥∥₁_elim p ⊥_prop (λ d. (All-Perm (λ z. ⊥) d tt).0))
  one_order (x ∷ xs) [] p h k u =
      absurd (∥∥₁_elim (Perm.symm p) ⊥_prop (λ d. (All-Perm (λ z. ⊥) d tt).0))
  one_order (x ∷ xs) (y ∷ ys) p h k u =
      let same : x ≡ y = u.0.0 (omega (arith, head-le p h, head-le (Perm.symm p) k)) in
      let tails : Perm xs ys = Perm.cons_inv (subst (λ z. Perm (x ∷ xs) (z ∷ ys)) (sym same) p) in
      ap (λ zs. x ∷ zs) (one_order xs ys tails h.1 k.1 (All-weaken _ _ xs (λ z all. all.1) u.1))
      ∙ ap (λ z. z ∷ ys) same

  -- Two lists of the same rows, both with the greatest key first, are the same list.
  pub Descending-unique :
      {xs ys rows : List Row}
      → Distinct rows
      → Permᴰ xs rows
      → Permᴰ ys rows
      → Descending key xs
      → Descending key ys
      → xs ≡ ys
  Descending-unique {xs} {ys} {rows} distinct p q h k =
      one_order xs ys (Perm.trans ∣ p ∣₁ (Perm.symm ∣ q ∣₁)) h k
        (Untied-Perm (Permᴰ.symm p) (Permᴰ.symm q) (Distinct-Untied rows distinct))
