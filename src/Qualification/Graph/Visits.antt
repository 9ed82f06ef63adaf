-- ===== src/Qualification/Graph/Visits.antt =====
-- Which accounts the loop of the qualification graph selects.
use cmo_agent.Common.{
  ℕ, zero, suc, ◌+◌, ◌≤◌, ◌<◌, Bool, true, false, ◌≡◌, refl, Option, none, some, List, [], ◌∷◌,
  length, get_elem?, arith, if◌then◌else◌, map, Option-cases, inl, inr, ltb, ap, ◌∙◌,
}
use cmo_agent.Float.{Float}
use cmo_agent.State.{Account}
use cmo_agent.Outbound.Nodes.{index_of, next_index}
use cmo_agent.Outbound.Graph.Termination.{Distinct, index_of-get_elem?}
use cmo_agent.Qualification.State.{QualificationState}
use cmo_agent.Qualification.Graph.{
  QualificationNode, select_next, after_draft_email, select_next_account, select_account,
}

abbrev pub drop {ℓ} : {A : Type ℓ} → ℕ → List A → List A
drop zero xs = xs
drop (suc n) [] = []
drop (suc n) (x ∷ xs) = drop n xs

drop-get_elem? {ℓ} :
    {A : Type ℓ} (xs : List A) (i : ℕ) (x : A)
    → get_elem? xs i ≡ some x
    → drop i xs ≡ x ∷ drop (suc i) xs
drop-get_elem? [] i x h = cc h
drop-get_elem? (y ∷ ys) zero x h = ground arith
drop-get_elem? (y ∷ ys) (suc i) x h = drop-get_elem? ys i x h

drop-all {ℓ} : {A : Type ℓ} (xs : List A) (i : ℕ) → length xs ≤ i → drop i xs ≡ []
drop-all [] zero h = refl
drop-all [] (suc i) h = refl
drop-all (x ∷ xs) zero h = absurd (omega arith)
drop-all (x ∷ xs) (suc i) h = drop-all xs i (omega arith)

module _ (fl : Float) where
  abbrev go_on : QualificationNode → Bool
  go_on select_next = true
  go_on other = false

  -- the accounts that are selected after the current one in `n` rounds at most, where each passes its review
  unfoldable pub visits : ℕ → QualificationState fl → List (Option Account)
  visits zero s = []
  visits (suc n) s =
      let s' = select_next_account fl s in
      let later = visits n s' in
      if go_on (after_draft_email fl s) then s'.current_account ∷ later else []

  get_elem?-lt : (xs : List Account) (i : ℕ) (x : Account) → get_elem? xs i ≡ some x → i < length xs
  get_elem?-lt [] i x h = absurd (cc h)
  get_elem?-lt (y ∷ ys) zero x h = omega arith
  get_elem?-lt (y ∷ ys) (suc i) x h = omega (arith, get_elem?-lt ys i x h)

  get_elem?-ge : (xs : List Account) (i : ℕ) → get_elem? xs i ≡ none → length xs ≤ i
  get_elem?-ge [] i h = omega arith
  get_elem?-ge (y ∷ ys) zero h = absurd (cc h)
  get_elem?-ge (y ∷ ys) (suc i) h = omega (arith, get_elem?-ge ys i h)

  -- where the current account stands in the list
  abbrev At : QualificationState fl → ℕ → Account → Type 0
  At s i c = (s.current_account ≡ some c) × (index_of c.id s.accounts ≡ some i)

  select-next :
      (s : QualificationState fl) (i : ℕ) (c : Account)
      → At s i c
      → select_next_account fl s ≡ select_account fl s (get_elem? s.accounts (suc i))
  unfolding select_next_account next_index
  select-next s i c (e, h) = rw e (rw h refl)

  after-has_next :
      (s : QualificationState fl) (i : ℕ) (c : Account)
      → At s i c
      → go_on (after_draft_email fl s) ≡ ltb (suc i) (length s.accounts)
  unfolding after_draft_email
  after-has_next s i c (e, h) = rw e (rw h (ground arith))

  visits-last :
      (n : ℕ) (s : QualificationState fl) (i : ℕ) (c : Account)
      → At s i c
      → get_elem? s.accounts (suc i) ≡ none
      → visits (suc n) s ≡ []
  unfolding visits
  visits-last n s i c at e =
      ground (arith, after-has_next s i c at, get_elem?-ge s.accounts (suc i) e)

  visits-more :
      (n : ℕ) (s : QualificationState fl) (i : ℕ) (c d : Account)
      → At s i c
      → get_elem? s.accounts (suc i) ≡ some d
      → visits (suc n) s ≡ some d ∷ visits n (select_account fl s (some d))
  unfolding visits
  visits-more n s i c d at e =
      rw (after-has_next s i c at)
        (rw (select-next s i c at) (rw e (ground (arith, get_elem?-lt s.accounts (suc i) d e))))

  -- enough fuel for the accounts that are left
  visits-eq :
      (n : ℕ) (s : QualificationState fl) (i : ℕ) (c : Account)
      → Distinct s.accounts
      → At s i c
      → length s.accounts ≤ n + suc i
      → visits n s ≡ map (λ a. some a) (drop (suc i) s.accounts)
  unfolding visits
  visits-eq zero s i c d at h = rw (drop-all s.accounts (suc i) (omega (arith, h))) refl
  visits-eq (suc n) s i c d at h = elim (Option-cases (get_elem? s.accounts (suc i))) [
    | inl e ↦
        rw (visits-last n s i c at e)
          (rw (drop-all s.accounts (suc i) (get_elem?-ge s.accounts (suc i) e)) refl)
    | inr (x, e) ↦ rw (visits-more n s i c x at e) (
        rw (drop-get_elem? s.accounts (suc i) x e) (
          ap (λ xs. some x ∷ xs)
            (visits-eq n (select_account fl s (some x)) (suc i) x d
              (refl, index_of-get_elem? s.accounts (suc i) x d e) (omega (arith, h)))))
  ]

  select-first :
      (s : QualificationState fl) (a : Account) (accounts : List Account)
      → s.current_account ≡ none
      → s.accounts ≡ a ∷ accounts
      → select_next_account fl s ≡ select_account fl s (some a)
  unfolding select_next_account next_index
  select-first s a accounts fresh e = rw fresh (rw e refl)

  visits-first :
      (n : ℕ) (s : QualificationState fl) (a : Account) (accounts : List Account)
      → length accounts ≤ n
      → s.accounts ≡ a ∷ accounts
      → Distinct s.accounts
      → visits n (select_account fl s (some a)) ≡ map (λ x. some x) (drop 1 s.accounts)
  visits-first n s a accounts enough e d =
      visits-eq n (select_account fl s (some a)) 0 a d
        (refl, index_of-get_elem? s.accounts 0 a d (rw e refl))
        (omega (arith, enough, ap (λ (xs : List Account). length xs) e))

  -- From a start with no current account, the loop selects each account of the batch exactly once and
  -- in order, if their ids are distinct and no review ends the graph before: however many rounds it is
  -- given beyond that, it selects nothing more.
  pub every_account_once :
      (n : ℕ) (s : QualificationState fl) (a : Account) (accounts : List Account)
      → length accounts ≤ n
      → s.current_account ≡ none
      → s.accounts ≡ a ∷ accounts
      → Distinct s.accounts
      → let s' = select_next_account fl s in
        (s'.current_account ≡ some a) × (visits n s' ≡ map (λ x. some x) accounts)
  every_account_once n s a accounts enough fresh e d =
      rw (select-first s a accounts fresh e)
        (refl, visits-first n s a accounts enough e d ∙ ap (λ xs. map (λ x. some x) (drop 1 xs)) e)
