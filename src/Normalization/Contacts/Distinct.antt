-- ===== src/Normalization/Contacts/Distinct.antt =====
-- src/normalization/contact_linker.py, deduplicate_contacts: which addresses are left.
use cmo_agent.Common.{
  String, Bool, true, false, ◌≡◌, refl, ap, ◌∙◌, sym, List, [], ◌∷◌, ◌++◌, map, str_eq,
  if◌then◌else◌, Bool-cases, inl, inr, append_assoc, append_nil, All,
}
use cmo_agent.Normalization.Contacts.{
  LinkedContact, email_key, see_contact, see_all, deduplicate_contacts,
}

abbrev pub is_seen : String → List String → Bool
is_seen t [] = false
is_seen t (x ∷ xs) = let rest : Bool = is_seen t xs in if str_eq x t then true else rest

-- The texts that are not in `seen`, each at its first place: what the addresses left are compared with.
abbrev pub first_seen : List String → List String → List String
first_seen seen [] = []
first_seen seen (x ∷ xs) =
    let skipped : List String = first_seen seen xs in
    let kept : List String = first_seen (seen ++ x ∷ []) xs in
    if is_seen x seen then skipped else x ∷ kept

keys : List (String × LinkedContact) → List String
keys seen = map (λ e. e.0) seen

push :
    (k : String) (b : Bool) (xs ys : List String)
    → k ∷ (if b then xs else ys) ≡ (if b then k ∷ xs else k ∷ ys)
push k true xs ys = refl
push k false xs ys = refl

keys-see_contact :
    (c : LinkedContact) (seen : List (String × LinkedContact))
    → keys (see_contact c seen)
      ≡ (if is_seen (email_key c) (keys seen) then keys seen else keys seen ++ email_key c ∷ [])
unfolding keys
keys-see_contact c [] = refl
keys-see_contact c ((k, old) ∷ seen) = elim (Bool-cases (str_eq k (email_key c))) [
  | inl same ↦ rw same
  | inr other ↦
      rw other (
        ap (λ ks. k ∷ ks) (keys-see_contact c seen)
        ∙ push k (is_seen (email_key c) (keys seen)) _ _)
]

keys-see_all :
    (cs : List LinkedContact) (seen : List (String × LinkedContact))
    → keys (see_all cs seen) ≡ keys seen ++ first_seen (keys seen) (map email_key cs)
keys-see_all [] seen = sym (append_nil (keys seen))
keys-see_all (c ∷ cs) seen = elim (Bool-cases (is_seen (email_key c) (keys seen))) [
  | inl known ↦
      let same : keys (see_contact c seen) ≡ keys seen = keys-see_contact c seen ∙ rw known in
      rw known (
        keys-see_all cs (see_contact c seen)
        ∙ ap (λ ks. ks ++ first_seen ks (map email_key cs)) same)
  | inr unknown ↦
      let more : keys (see_contact c seen) ≡ keys seen ++ email_key c ∷ [] =
        keys-see_contact c seen ∙ rw unknown in
      rw unknown (
        keys-see_all cs (see_contact c seen)
        ∙ ap (λ ks. ks ++ first_seen ks (map email_key cs)) more
        ∙ append_assoc (keys seen) (email_key c ∷ []) _)
]

-- each entry is under the key of its contact
Filed : List (String × LinkedContact) → Type 0
Filed seen = All (λ e. email_key e.1 ≡ e.0) seen

see_contact-Filed :
    (c : LinkedContact) (seen : List (String × LinkedContact))
    → Filed seen
    → Filed (see_contact c seen)
unfolding Filed
see_contact-Filed c [] h = (refl, tt)
see_contact-Filed c ((k, old) ∷ seen) h = elim (Bool-cases (str_eq k (email_key c))) [
  | inl same ↦ rw same (h.0, h.1)
  | inr other ↦ rw other (h.0, see_contact-Filed c seen h.1)
]

see_all-Filed :
    (cs : List LinkedContact) (seen : List (String × LinkedContact))
    → Filed seen
    → Filed (see_all cs seen)
see_all-Filed [] seen h = h
see_all-Filed (c ∷ cs) seen h = see_all-Filed cs (see_contact c seen) (see_contact-Filed c seen h)

stored_addresses :
    (seen : List (String × LinkedContact))
    → Filed seen
    → map email_key (map (λ e. e.1) seen) ≡ keys seen
unfolding Filed keys
stored_addresses [] h = refl
stored_addresses ((k, c) ∷ seen) h = rw (h.0, stored_addresses seen h.1)

-- The addresses of the contacts that are left, in lower case and stripped, are those of the contacts given, each once
-- and in the order in which they first come.
pub deduplicate_contacts-first_seen :
    (cs : List LinkedContact)
    → map email_key (deduplicate_contacts cs) ≡ first_seen [] (map email_key cs)
unfolding deduplicate_contacts keys Filed
deduplicate_contacts-first_seen cs =
    stored_addresses (see_all cs []) (see_all-Filed cs [] tt) ∙ keys-see_all cs []
