-- ===== src/Worker/Locks.antt =====
-- src/worker/locks.py, thread_lock, for one thread: the value under its key in Redis, and the workers
-- that are in the body of the `async with`, by their tokens.
pub mod Exclusion
use cmo_agent.Common.{
  ℕ, suc, String, Bool, true, false, ◌≡◌, Option, none, some, List, [], ◌∷◌, str_eq, if◌then◌else◌,
}

-- `SET key token NX EX ttl`, and whether it was set
unfoldable pub acquire : String → Option String → Bool × Option String
acquire token none = (true, some token)
acquire token (some holder) = (false, some holder)

-- the Lua script that deletes the key if it still has the token, and whether it did
unfoldable pub release : String → Option String → Bool × Option String
release token none = (false, none)
release token (some holder) = if str_eq holder token then (true, none) else (false, some holder)

abbrev pub elem : String → List String → Bool
elem token [] = false
elem token (t ∷ tokens) =
    let rest : Bool = elem token tokens in if str_eq t token then true else rest

-- Tokens are distinct, so this takes one out.
abbrev pub remove : String → List String → List String
remove token [] = []
remove token (t ∷ tokens) =
    let rest : List String = remove token tokens in if str_eq t token then rest else t ∷ rest

-- What can happen, from a free lock on. The lists are the tokens of the workers that are in the body, and
-- those whose time to live has run out. A token is a fresh UUID, so it is in neither when it comes in. A
-- worker whose time has run out is not told, and stays inside until it leaves.
pub data Reaches : Option String → List String → List String → Type 0 where
  free : Reaches none [] []
  enter :
      {lock : Option String} {inside late : List String} (token : String)
      → Reaches lock inside late
      → elem token inside ≡ false
      → elem token late ≡ false
      → (acquire token lock).0 ≡ true
      → Reaches (acquire token lock).1 (token ∷ inside) late
  refuse :
      {lock : Option String} {inside late : List String} (token : String)
      → Reaches lock inside late
      → (acquire token lock).0 ≡ false
      → Reaches (acquire token lock).1 inside late
  leave :
      {lock : Option String} {inside late : List String} (token : String)
      → Reaches lock inside late
      → elem token inside ≡ true
      → Reaches (release token lock).1 (remove token inside) late
  expire :
      {inside late : List String} (token : String)
      → Reaches (some token) inside late
      → Reaches none inside (token ∷ late)
