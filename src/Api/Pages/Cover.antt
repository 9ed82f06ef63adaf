-- ===== src/Api/Pages/Cover.antt =====
-- src/api/main.py, list_campaigns_route: what its pages hold together.
use cmo_agent.Common.{
  ℕ, zero, suc, ◌+◌, ◌-◌, ◌*◌, ◌≤◌, ◌<◌, String, ◌≡◌, refl, ap, ◌∙◌, sym, List, [], ◌∷◌, ◌++◌,
  length, take, max, arith, Bool,
}
use mathlib.Core.List.{Permᴰ}
use cmo_agent.Common.Int.{ℤ, pos, negsuc}
use cmo_agent.Db.Tables.{Sql, Descending, select, count, scoped, any_row, drop}
use cmo_agent.Db.Rows.{CampaignRow, Db}
use cmo_agent.Api.Pages.Order.{Distinct, Descending-unique}
use cmo_agent.Api.Pages.{clamp_size, pages_for, list_campaigns_route}

module _ {A : Type 0} where
  take_nil : (n : ℕ) → take {A = A} n [] ≡ []
  take_nil zero = refl
  take_nil (suc n) = refl

  take-append : (a b : ℕ) (xs : List A) → take (a + b) xs ≡ take a xs ++ take b (drop a xs)
  take-append zero b xs = ap (λ n. take n xs) (omega arith)
  take-append (suc a) b [] = take_nil (suc a + b) ∙ sym (take_nil b)
  take-append (suc a) b (x ∷ xs) =
      let e : suc a + b ≡ suc (a + b) = omega arith in
      rw e (ap (λ rest. x ∷ rest) (take-append a b xs))

  take-whole : (n : ℕ) (xs : List A) → length xs ≤ n → take n xs ≡ xs
  take-whole zero [] h = refl
  take-whole (suc n) [] h = refl
  take-whole zero (x ∷ xs) h = absurd (omega (arith, h))
  take-whole (suc n) (x ∷ xs) h = ap (λ rest. x ∷ rest) (take-whole n xs (omega (arith, h)))

length-Perm : {Row : Type 0} {xs ys : List Row} → Permᴰ xs ys → length xs ≡ length ys
length-Perm Permᴰ.nil = refl
length-Perm (Permᴰ.cons e p) = ap suc (length-Perm p)
length-Perm (Permᴰ.swap e f) = refl
length-Perm (Permᴰ.trans p q) = length-Perm p ∙ length-Perm q

length-select :
    {Row : Type 0} (p : Row → Bool) (rows : List Row) → length (select p rows) ≡ count p rows
length-select p [] = refl
length-select p (r ∷ rows) = ground (arith, length-select p rows)

enough_pages : (total size : ℕ) → 0 < size → total ≤ pages_for total size * size
enough_pages total size h = grind arith

some_size : (size : ℤ) → 0 < clamp_size size
some_size (pos n) = omega arith
some_size (negsuc n) = omega arith

module _ (S : ℕ → Sql) (w : String) (size : ℤ) (db : Db) where
  campaigns_of : List CampaignRow
  campaigns_of = select (scoped CampaignRow.workspace_id w any_row) db.campaigns

  -- the items of the pages from the first to the `m`-th, where the server chooses its order anew for each
  abbrev pub read_pages : ℕ → List CampaignRow
  read_pages zero = []
  read_pages (suc m) =
      read_pages m ++ (list_campaigns_route (S (suc m)) w (pos (suc m)) size db).items

  read_pages-take :
      (newest : List CampaignRow)
      → ((n : ℕ) → (S n).order_desc CampaignRow.created_at campaigns_of ≡ newest)
      → (m : ℕ) → read_pages m ≡ take (m * clamp_size size) newest
  unfolding list_campaigns_route campaigns_of
  read_pages-take newest same zero = let e : 0 * clamp_size size ≡ 0 = omega arith in rw e refl
  read_pages-take newest same (suc m) =
      let s : ℕ = clamp_size size in
      let e : max 1 (suc m) - 1 ≡ m = omega arith in
      let more : suc m * s ≡ m * s + s = grind arith in
      rw (e, more, same (suc m))
        (ap (λ before. before ++ take s (drop (m * s) newest)) (read_pages-take newest same m)
          ∙ sym (take-append (m * s) s newest))

  -- If no two campaigns of the workspace were created at the same time, the pages that the route announces hold
  -- together every campaign of the workspace once, the newest first, in whatever order the server would give rows of
  -- one time on each page.
  pub read_pages-all :
      Distinct CampaignRow.created_at
        (select (scoped CampaignRow.workspace_id w any_row) db.campaigns)
      → let pages = read_pages (list_campaigns_route (S 1) w (pos 1) size db).total_pages in
        Permᴰ pages (select (scoped CampaignRow.workspace_id w any_row) db.campaigns)
        × Descending CampaignRow.created_at pages
  unfolding list_campaigns_route campaigns_of
  read_pages-all distinct =
      let newest : List CampaignRow = (S 1).order_desc CampaignRow.created_at campaigns_of in
      let perm : Permᴰ newest campaigns_of =
        (S 1).order_desc-Perm CampaignRow.created_at campaigns_of in
      let down : Descending CampaignRow.created_at newest =
        (S 1).order_desc-Descending CampaignRow.created_at campaigns_of in
      let same : (n : ℕ) → (S n).order_desc CampaignRow.created_at campaigns_of ≡ newest = λ n.
        Descending-unique CampaignRow.created_at distinct
          ((S n).order_desc-Perm CampaignRow.created_at campaigns_of) perm
          ((S n).order_desc-Descending CampaignRow.created_at campaigns_of) down in
      let total : ℕ = count (scoped CampaignRow.workspace_id w any_row) db.campaigns in
      let e₁ : length newest ≡ length campaigns_of = length-Perm perm in
      let e₂ : length campaigns_of ≡ total =
        length-select (scoped CampaignRow.workspace_id w any_row) db.campaigns in
      let all : read_pages (pages_for total (clamp_size size)) ≡ newest =
        read_pages-take newest same (pages_for total (clamp_size size))
        ∙ take-whole _ newest
            (omega (arith, e₁, e₂, enough_pages total (clamp_size size) (some_size size))) in
      rw all (perm, down)
