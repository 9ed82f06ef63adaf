-- ===== src/Worker/Locks/Exclusion.antt =====
-- src/worker/locks.py: who can be in the body at once.
use cmo_agent.Common.{
  String, true, false, ◌≡◌, refl, Option, none, some, List, [], ◌∷◌, str_eq, arith, eq_iff,
  Bool-cases, inl, inr, sym, ◌∙◌, ap,
}
use cmo_agent.Common.Text.{str_eq_refl}
use cmo_agent.Worker.Locks.{
  acquire, release, elem, remove, Reaches, free, enter, refuse, leave, expire,
}

-- Whoever is inside and whose time has not run out has its token in the lock.
LiveHolds : Option String → List String → List String → Type 0
LiveHolds lock inside late =
    (t : String) → elem t inside ≡ true → elem t late ≡ false → lock ≡ some t

elem-remove :
    (t token : String) (tokens : List String)
    → elem t (remove token tokens) ≡ true
    → elem t tokens ≡ true
elem-remove t token [] h = h
elem-remove t token (u ∷ tokens) h = ground (arith, elem-remove t token tokens)

elem-removed : (token : String) (tokens : List String) → elem token (remove token tokens) ≡ false
elem-removed token [] = refl
elem-removed token (u ∷ tokens) = ground (arith, elem-removed token tokens)

entered :
    (token : String) (lock : Option String) (inside late : List String)
    → LiveHolds lock inside late
    → (acquire token lock).0 ≡ true
    → LiveHolds (acquire token lock).1 (token ∷ inside) late
unfolding acquire LiveHolds
entered token (some holder) inside late v ok t h live = absurd (cc ok)
entered token none inside late v ok t h live = elim (Bool-cases (str_eq token t)) [
  | inl same ↦ ap (λ u. some u) ((eq_iff token t).0 same)
  | inr other ↦ absurd (cc (v t (rw other at h) live))
]

left :
    (token : String) (lock : Option String) (inside late : List String)
    → LiveHolds lock inside late
    → LiveHolds (release token lock).1 (remove token inside) late
unfolding release LiveHolds
left token none inside late v t h live = v t (elem-remove t token inside h) live
left token (some holder) inside late v t h live =
    let held : some holder ≡ some t = v t (elem-remove t token inside h) live in
    elim (Bool-cases (str_eq holder token)) [
      | inl own ↦
          absurd (ground (arith, held, own, h, eq_iff holder token, elem-removed token inside))
      | inr other ↦ rw other held
    ]

Reaches-LiveHolds :
    {lock : Option String} {inside late : List String}
    → Reaches lock inside late
    → LiveHolds lock inside late
unfolding acquire LiveHolds
Reaches-LiveHolds free t h live = absurd (cc h)
Reaches-LiveHolds (enter {lock} {inside} {late} token r fresh unused ok) t h live =
    entered token lock inside late (Reaches-LiveHolds r) ok t h live
Reaches-LiveHolds (refuse {lock = none} token r ok) t h live = absurd (cc ok)
Reaches-LiveHolds (refuse {lock = some holder} token r ok) t h live = Reaches-LiveHolds r t h live
Reaches-LiveHolds (leave {lock} {inside} {late} token r h') t h live =
    left token lock inside late (Reaches-LiveHolds r) t h live
Reaches-LiveHolds (expire {inside} {late} token r) t h live =
    absurd (ground (arith, Reaches-LiveHolds r t h, live, str_eq_refl token))

some_token : (t u : String) → some t ≡ some u → t ≡ u
some_token t u e = cc e

-- Of the workers in the body of the lock at most one has a time to live that has not run out, and the lock
-- in Redis has its token, so that no other worker comes in: a worker whose time has run out does not free
-- the lock of the one after it.
pub live_alone :
    {lock : Option String} {inside late : List String}
    → Reaches lock inside late
    → (t u : String) → elem t inside ≡ true
    → elem t late ≡ false
    → elem u inside ≡ true
    → elem u late ≡ false
    → (t ≡ u) × (lock ≡ some t) × ((token : String) → (acquire token lock).0 ≡ false)
unfolding acquire LiveHolds
live_alone r t u in_t live_t in_u live_u =
    let held = Reaches-LiveHolds r t in_t live_t in
    (some_token t u (sym held ∙ Reaches-LiveHolds r u in_u live_u), held, λ token. rw held refl)
