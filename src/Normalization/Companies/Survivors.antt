-- ===== src/Normalization/Companies/Survivors.antt =====
-- src/normalization/domain_resolver.py, deduplicate_accounts: which accounts are left.
use cmo_agent.Common.{
  ℕ, zero, suc, String, false, ◌≡◌, refl, ap, ◌∙◌, sym, List, [], ◌∷◌, ◌++◌, map, none, Bool-cases,
  inl, inr, Option-cases, append_assoc, append_nil, All, All-append, subst,
}
use mathlib.Core.List.{map-append, Sublistᴰ}
use mathlib.Core.List.Sublistᴰ
use cmo_agent.Normalization.Companies.{
  AccountDict, alike, merge_at, similar_place, Deduplicated, known_place, take_account,
  take_accounts, deduplicate_accounts,
}

-- No name is like one before it.
pub Apart : List String → Type 0
Apart [] = Unit
Apart (x ∷ xs) = All (λ y. alike y x ≡ false) xs × Apart xs

abbrev ids : List AccountDict → List String
ids xs = map AccountDict.id xs

abbrev names : List AccountDict → List String
names xs = map AccountDict.company_name xs

skip_in :
    (xs ys : List String) (y : String) {r : List String}
    → Sublistᴰ r (xs ++ ys)
    → Sublistᴰ r (xs ++ y ∷ ys)
skip_in [] ys y s = Sublistᴰ.cons s
skip_in (x ∷ xs) ys y (Sublistᴰ.cons s) = Sublistᴰ.cons (skip_in xs ys y s)
skip_in (x ∷ xs) ys y (Sublistᴰ.cons-cons e s) = Sublistᴰ.cons-cons e (skip_in xs ys y s)

merge_ids : (n : ℕ) (a : AccountDict) (xs : List AccountDict) → ids (merge_at n a xs) ≡ ids xs
merge_ids n a [] = refl
merge_ids zero a (x ∷ xs) = refl
merge_ids (suc n) a (x ∷ xs) = ap (λ r. x.id ∷ r) (merge_ids n a xs)

merge_names : (n : ℕ) (a : AccountDict) (xs : List AccountDict) → names (merge_at n a xs) ≡ names xs
merge_names n a [] = refl
merge_names zero a (x ∷ xs) = refl
merge_names (suc n) a (x ∷ xs) = ap (λ r. x.company_name ∷ r) (merge_names n a xs)

-- the account is merged into one, or is appended and is like none
pub data Taken (a : AccountDict) (d : Deduplicated) : Type 0 where
  merged :
      ids (take_account a d).result ≡ ids d.result
      → names (take_account a d).result ≡ names d.result
      → Taken a d
  appended :
      (take_account a d).result ≡ d.result ++ a ∷ [] → similar_place a d.result ≡ none → Taken a d

take_account-Taken : (a : AccountDict) (d : Deduplicated) → Taken a d
take_account-Taken a d = elim (Option-cases (known_place a d)) [
  | inr (n, known) ↦
      merged (rw known (merge_ids n a d.result)) (rw known (merge_names n a d.result))
  | inl new ↦ elim (Option-cases (similar_place a d.result)) [
    | inr (n, found) ↦
        merged (rw new (rw found (merge_ids n a d.result)))
          (rw new (rw found (merge_names n a d.result)))
    | inl alone ↦ appended (rw new (rw alone)) alone
  ]
]

similar_place-none :
    (a : AccountDict) (xs : List AccountDict)
    → similar_place a xs ≡ none
    → All (λ x. alike a.company_name x ≡ false) (names xs)
similar_place-none a [] e = tt
similar_place-none a (x ∷ xs) e = elim (Bool-cases (alike a.company_name x.company_name)) [
  | inl same ↦ absurd (cc (rw same at e))
  | inr other ↦ elim (Option-cases (similar_place a xs)) [
    | inl alone ↦ (other, similar_place-none a xs alone)
    | inr (n, found) ↦ absurd (cc (rw other at e, found))
  ]
]

Apart-append :
    (xs : List String) (n : String)
    → Apart xs
    → All (λ x. alike n x ≡ false) xs
    → Apart (xs ++ n ∷ [])
unfolding Apart
Apart-append [] n h new = (tt, tt)
Apart-append (x ∷ xs) n h new =
    (All-append (λ y. alike y x ≡ false) xs (n ∷ []) h.0 (new.0, tt), Apart-append xs n h.1 new.1)

take_account-Apart :
    (a : AccountDict) (d : Deduplicated)
    → Apart (names d.result)
    → Apart (names (take_account a d).result)
take_account-Apart a d h = elim (take_account-Taken a d) [
  | merged same_ids same_names ↦ subst Apart (sym same_names) h
  | appended grown alone ↦
      subst Apart (sym (ap names grown ∙ map-append AccountDict.company_name d.result (a ∷ [])))
        (Apart-append (names d.result) a.company_name h (similar_place-none a d.result alone))
]

take_accounts-Apart :
    (more : List AccountDict) (d : Deduplicated)
    → Apart (names d.result)
    → Apart (names (take_accounts more d).result)
take_accounts-Apart [] d h = h
take_accounts-Apart (a ∷ more) d h =
    take_accounts-Apart more (take_account a d) (take_account-Apart a d h)

take_accounts-Sublistᴰ :
    (more : List AccountDict) (d : Deduplicated)
    → Sublistᴰ (ids (take_accounts more d).result) (ids d.result ++ ids more)
take_accounts-Sublistᴰ [] d =
    subst (λ ys. Sublistᴰ (ids d.result) ys) (sym (append_nil (ids d.result)))
      (Sublistᴰ.refl (ids d.result))
take_accounts-Sublistᴰ (a ∷ more) d =
    let R : List String = ids (take_accounts more (take_account a d)).result in
    let rest : Sublistᴰ R (ids (take_account a d).result ++ ids more) =
      take_accounts-Sublistᴰ more (take_account a d) in
    elim (take_account-Taken a d) [
      | merged same_ids same_names ↦
          skip_in (ids d.result) (ids more) a.id
            (subst (λ xs. Sublistᴰ R (xs ++ ids more)) same_ids rest)
      | appended grown alone ↦
          let more_ids : ids (take_account a d).result ≡ ids d.result ++ a.id ∷ [] =
            ap ids grown ∙ map-append AccountDict.id d.result (a ∷ []) in
          subst (λ xs. Sublistᴰ R xs) (append_assoc (ids d.result) (a.id ∷ []) (ids more))
            (subst (λ xs. Sublistᴰ R (xs ++ ids more)) more_ids rest)
    ]

-- The ids that are left are the ids given with some left out, in their order, and of the accounts left none has a name
-- that is similar to the name of one before it.
pub deduplicate_accounts-Apart :
    (accounts : List AccountDict)
    → Sublistᴰ (map AccountDict.id (deduplicate_accounts accounts)) (map AccountDict.id accounts)
      × Apart (map AccountDict.company_name (deduplicate_accounts accounts))
unfolding deduplicate_accounts Apart
deduplicate_accounts-Apart accounts = (
  take_accounts-Sublistᴰ accounts (record { seen_domains = []; result = [] }),
  take_accounts-Apart accounts (record { seen_domains = []; result = [] }) tt,
)
