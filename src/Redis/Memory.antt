-- ===== src/Redis/Memory.antt =====
-- A store of functions, which shows that the laws of `Redis` can be met and runs in the tests.
use cmo_agent.Common.{
  ℕ, suc, String, refl, Bool, true, false, ◌&&◌, Option, none, some, str_eq, if◌then◌else◌,
}
use cmo_agent.Redis.{Redis}

pub record Memory : Type 0 where
  pub values : String → Option String
  pub counts : String → ℕ
  pub ttls : String → Option ℕ
  pub members : String → String → Bool

abbrev pub blank : Memory
blank = record { values = λ k. none; counts = λ k. 0; ttls = λ k. none; members = λ k v. false }

abbrev pub memory : Redis
memory = record {
  Store = Memory;
  get = λ s k. s.values k;
  set = λ s k v. record s { values = λ j. if str_eq k j then some v else s.values j };
  delete = λ s k. record s { values = λ j. if str_eq k j then none else s.values j };
  counter = λ s k. s.counts k;
  incr = λ s k. record s { counts = λ j. if str_eq k j then suc (s.counts j) else s.counts j };
  expire = λ s k n. record s { ttls = λ j. if str_eq k j then some n else s.ttls j };
  ttl = λ s k. s.ttls k;
  sismember = λ s k v. s.members k v;
  sadd = λ s k v. record s {
    members = λ j w. if str_eq k j && str_eq v w then true else s.members j w;
  };
  srem = λ s k v. record s {
    members = λ j w. if str_eq k j && str_eq v w then false else s.members j w;
  };
  get-set = λ s k v j. refl;
  get-delete = λ s k j. refl;
  counter-incr = λ s k j. refl;
  counter-expire = λ s k n j h. refl;
  ttl-incr = λ s k j. refl;
  ttl-expire = λ s k n j h. refl;
  sismember-sadd = λ s k v j w. refl;
  sismember-srem = λ s k v j w. refl;
}
