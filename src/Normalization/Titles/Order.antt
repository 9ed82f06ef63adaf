-- ===== src/Normalization/Titles/Order.antt =====
-- src/normalization/title_normalizer.py, normalize_titles: its results against its titles.
use cmo_agent.Common.{
  ℕ, zero, suc, ◌≤◌, String, Bool, true, false, ◌≡◌, refl, ap, ◌∙◌, Option, none, some, List, [],
  ◌∷◌, ◌++◌, map, length, take, arith,
}
use mathlib.Core.List.{map-append}
use cmo_agent.Db.Tables.{drop}
use cmo_agent.Normalization.Titles.{
  NormalizedTitle, rule_based_normalize, TitleItem, BatchAnswer, no_answer, items, title_from,
  fill_gaps, batch_results, normalize_batches, normalize_titles,
}

abbrev originals : List NormalizedTitle → List String
originals rs = map NormalizedTitle.original_title rs

take-drop : {A : Type 0} (n : ℕ) (xs : List A) → take n xs ++ drop n xs ≡ xs
take-drop zero xs = refl
take-drop (suc n) [] = refl
take-drop (suc n) (x ∷ xs) = ap (λ rest. x ∷ rest) (take-drop n xs)

length-drop : {A : Type 0} (n : ℕ) (xs : List A) → length (drop n xs) ≤ length xs
length-drop zero xs = omega arith
length-drop (suc n) [] = omega arith
length-drop (suc n) (x ∷ xs) = omega (arith, length-drop n xs)

rule_titles : (ts : List String) → originals (map rule_based_normalize ts) ≡ ts
unfolding rule_based_normalize
rule_titles [] = refl
rule_titles (t ∷ ts) = ap (λ rest. t ∷ rest) (rule_titles ts)

title_from-original : (t : String) (o : Option TitleItem) → (title_from t o).original_title ≡ t
unfolding rule_based_normalize
title_from-original t none = refl
title_from-original t (some i) = refl

gap_titles : (ts : List String) (is : List (Option TitleItem)) → originals (fill_gaps ts is) ≡ ts
gap_titles [] is = refl
gap_titles (t ∷ ts) [] = rw (title_from-original t none) (ap (λ rest. t ∷ rest) (gap_titles ts []))
gap_titles (t ∷ ts) (i ∷ is) =
    rw (title_from-original t i) (ap (λ rest. t ∷ rest) (gap_titles ts is))

batch_titles : (batch : List String) (a : BatchAnswer) → originals (batch_results batch a) ≡ batch
batch_titles batch no_answer = rule_titles batch
batch_titles batch (items is) = gap_titles batch is

module _ (ask : ℕ → List String → BatchAnswer) where
  batches_titles :
      (fuel n : ℕ) (ts : List String)
      → length ts ≤ fuel
      → originals (normalize_batches ask fuel n ts) ≡ ts
  batches_titles zero n [] h = refl
  batches_titles zero n (t ∷ ts) h = absurd (omega (arith, h))
  batches_titles (suc fuel) n [] h = refl
  batches_titles (suc fuel) n (t ∷ ts) h =
      let batch : List String = take 20 (t ∷ ts) in
      let rest : List String = drop 20 (t ∷ ts) in
      let shorter : length rest ≤ fuel = omega (arith, h, length-drop 19 ts) in
      map-append NormalizedTitle.original_title (batch_results batch (ask n batch))
        (normalize_batches ask fuel (suc n) rest)
      ∙ ap (λ xs. xs ++ originals (normalize_batches ask fuel (suc n) rest))
          (batch_titles batch (ask n batch))
      ∙ ap (λ xs. batch ++ xs) (batches_titles fuel (suc n) rest shorter)
      ∙ take-drop 20 (t ∷ ts)

  -- Whatever the model answers, there is one result for each title, in the order of the titles and under its text.
  pub normalize_titles-original :
      (use_llm : Bool) (titles : List String)
      → map NormalizedTitle.original_title (normalize_titles ask use_llm titles) ≡ titles
  unfolding normalize_titles
  normalize_titles-original true titles = batches_titles (length titles) 0 titles (omega arith)
  normalize_titles-original false titles = rule_titles titles
