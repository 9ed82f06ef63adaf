-- ===== src/Redis.antt =====
-- Redis, the server that keeps the guardrails' keys and the locks, as the program uses it. Its client
-- library is not part of the repository: the commands are a parameter, and the laws state the
-- documented effect of each command on what the reading commands reply.
pub mod Memory
use cmo_agent.Common.{
  ℕ, suc, ◌<◌, String, ◌≡◌, Bool, true, false, ◌&&◌, Option, none, some, str_eq, if◌then◌else◌,
}

-- A `Store` is the database at one moment. `counter s k` is `int(GET k or 0)`.
pub record Redis : Type 1 where
  pub Store : Type 0
  pub get : Store → String → Option String
  pub set : Store → String → String → Store
  pub delete : Store → String → Store
  pub counter : Store → String → ℕ
  pub incr : Store → String → Store
  pub expire : Store → String → ℕ → Store
  pub ttl : Store → String → Option ℕ
  pub sismember : Store → String → String → Bool
  pub sadd : Store → String → String → Store
  pub srem : Store → String → String → Store
  pub get-set :
      (s : Store) (k v j : String) → get (set s k v) j ≡ (if str_eq k j then some v else get s j)
  pub get-delete :
      (s : Store) (k j : String) → get (delete s k) j ≡ (if str_eq k j then none else get s j)
  pub counter-incr :
      (s : Store) (k j : String)
      → counter (incr s k) j ≡ (if str_eq k j then suc (counter s j) else counter s j)
  pub counter-expire :
      (s : Store) (k : String) (n : ℕ) (j : String) → 0 < n → counter (expire s k n) j ≡ counter s j
  pub ttl-incr : (s : Store) (k j : String) → ttl (incr s k) j ≡ ttl s j
  pub ttl-expire :
      (s : Store) (k : String) (n : ℕ) (j : String)
      → 0 < n
      → ttl (expire s k n) j ≡ (if str_eq k j then some n else ttl s j)
  pub sismember-sadd :
      (s : Store) (k v j w : String)
      → sismember (sadd s k v) j w ≡ (if str_eq k j && str_eq v w then true else sismember s j w)
  pub sismember-srem :
      (s : Store) (k v j w : String)
      → sismember (srem s k v) j w ≡ (if str_eq k j && str_eq v w then false else sismember s j w)
