-- ===== src/Normalization/Contacts/Links.antt =====
-- src/normalization/contact_linker.py, link_contacts_to_account: the contacts that it gives and their order.
use cmo_agent.Common.{
  ℕ, ◌≤◌, false, ◌≡◌, refl, ap, subst, List, [], ◌∷◌, map, if◌then◌else◌, ltb, leb, ltb→lt, arith,
  Bool-cases, inl, inr, All, All-weaken,
}
use mathlib.Core.List.{Perm}
use mathlib.Core.List.Perm
use cmo_agent.Normalization.Contacts.{
  LinkedContact, LinkedAccount, link_confidence, insert_link, sort_links, strong_links,
  link_contacts_to_account,
}

-- Each confidence is at least those after it.
pub Descending : List (LinkedContact × ℕ) → Type 0
Descending [] = Unit
Descending (x ∷ xs) = All (λ y. y.1 ≤ x.1) xs × Descending xs

-- the contacts that reach a confidence, in the order given
pub reaching : List LinkedContact → LinkedAccount → ℕ → List LinkedContact
reaching [] account n = []
reaching (c ∷ cs) account n =
    let rest : List LinkedContact = reaching cs account n in
    if leb n (link_confidence c account) then c ∷ rest else rest

insert_link-Perm :
    (x : LinkedContact × ℕ) (ys : List (LinkedContact × ℕ)) → Perm (insert_link x ys) (x ∷ ys)
insert_link-Perm x [] = Perm.refl (x ∷ [])
insert_link-Perm x (y ∷ ys) = elim (Bool-cases (ltb x.1 y.1)) [
  | inl less ↦ rw less (Perm.trans (Perm.cons y (insert_link-Perm x ys)) (Perm.swap x y ys))
  | inr not_less ↦ rw not_less (Perm.refl (x ∷ y ∷ ys))
]

sort_links-Perm : (xs : List (LinkedContact × ℕ)) → Perm (sort_links xs) xs
sort_links-Perm [] = Perm.refl []
sort_links-Perm (x ∷ xs) =
    Perm.trans (insert_link-Perm x (sort_links xs)) (Perm.cons x (sort_links-Perm xs))

insert_link-All :
    (P : LinkedContact × ℕ → Type 0) (x : LinkedContact × ℕ) (ys : List (LinkedContact × ℕ))
    → P x
    → All P ys
    → All P (insert_link x ys)
insert_link-All P x [] p h = (p, tt)
insert_link-All P x (y ∷ ys) p h = elim (Bool-cases (ltb x.1 y.1)) [
  | inl less ↦ rw less (h.0, insert_link-All P x ys p h.1)
  | inr not_less ↦ rw not_less (p, h)
]

not_less-le : (a b : ℕ) → ltb a b ≡ false → b ≤ a
not_less-le a b h = ground arith

insert_link-Descending :
    (x : LinkedContact × ℕ) (ys : List (LinkedContact × ℕ))
    → Descending ys
    → Descending (insert_link x ys)
unfolding Descending
insert_link-Descending x [] h = (tt, tt)
insert_link-Descending x (y ∷ ys) h = elim (Bool-cases (ltb x.1 y.1)) [
  | inl less ↦
      let below : x.1 ≤ y.1 = omega (arith, ltb→lt x.1 y.1 less) in
      rw less (insert_link-All (λ z. z.1 ≤ y.1) x ys below h.0, insert_link-Descending x ys h.1)
  | inr not_less ↦
      let above : y.1 ≤ x.1 = not_less-le x.1 y.1 not_less in
      rw not_less (
        (
          above,
          All-weaken (λ z. z.1 ≤ y.1) (λ z. z.1 ≤ x.1) ys (λ z le. omega (arith, above, le)) h.0,
        ),
        h,
      )
]

sort_links-Descending : (xs : List (LinkedContact × ℕ)) → Descending (sort_links xs)
unfolding Descending
sort_links-Descending [] = tt
sort_links-Descending (x ∷ xs) = insert_link-Descending x (sort_links xs) (sort_links-Descending xs)

strong-reaching :
    (cs : List LinkedContact) (account : LinkedAccount) (n : ℕ)
    → strong_links cs account n ≡ map (λ c. (c, link_confidence c account)) (reaching cs account n)
unfolding reaching
strong-reaching [] account n = refl
strong-reaching (c ∷ cs) account n = elim (Bool-cases (leb n (link_confidence c account))) [
  | inl strong ↦
      rw strong (ap (λ r. (c, link_confidence c account) ∷ r) (strong-reaching cs account n))
  | inr weak ↦ rw weak (strong-reaching cs account n)
]

-- The links are the contacts whose confidence reaches the least one, each with its confidence, in another order, and
-- no confidence is above one before it.
pub link_contacts_to_account-Descending :
    (contacts : List LinkedContact) (account : LinkedAccount) (min_confidence : ℕ)
    → Perm
        (link_contacts_to_account contacts account min_confidence)
        (map (λ c. (c, link_confidence c account)) (reaching contacts account min_confidence))
      × Descending (link_contacts_to_account contacts account min_confidence)
unfolding link_contacts_to_account
link_contacts_to_account-Descending contacts account n = (
  subst (λ ys. Perm (sort_links (strong_links contacts account n)) ys)
      (strong-reaching contacts account n) (sort_links-Perm (strong_links contacts account n)),
  sort_links-Descending (strong_links contacts account n),
)
