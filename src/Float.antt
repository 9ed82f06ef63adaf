-- ===== src/Float.antt =====
-- Python's floats, as far as the program compares them: a parameter. `nan` tells the value that is not
-- a number, with which every comparison fails. `hundredths n` is the literal n / 100.
use cmo_agent.Common.{
  ℕ, ◌<◌, ◌≡◌, Bool, true, false, not, Option, none, some, ltb, leb, ◌*◌, ◌/◌, arith,
}

pub record Float : Type 1 where
  pub F : Type 0
  pub lt : F → F → Bool
  pub ge : F → F → Bool
  pub nan : F → Bool
  pub hundredths : ℕ → F
  pub mul : F → F → F
  pub lt_trans : (x y z : F) → lt x y ≡ true → lt y z ≡ true → lt x z ≡ true
  pub hundredths-lt : (m n : ℕ) → m < n → lt (hundredths m) (hundredths n) ≡ true
  pub hundredths-nan : (m : ℕ) → nan (hundredths m) ≡ false
  pub ge-eq-not-lt : (x y : F) → nan x ≡ false → nan y ≡ false → ge x y ≡ not (lt x y)

-- Whole hundredths, and `none` for the value that is not a number, show that the laws can be met.
abbrev pub Cents : Type 0
Cents = Option ℕ

abbrev pub on_numbers : (ℕ → ℕ → Bool) → Cents → Cents → Bool
on_numbers f (some a) (some b) = f a b
on_numbers f _ _ = false

abbrev pub is_nan : Cents → Bool
is_nan none = true
is_nan (some a) = false

abbrev pub times : Cents → Cents → Cents
times (some a) (some b) = some (a * b / 100)
times _ _ = none

pub cents_trans :
    (x y z : Cents)
    → on_numbers ltb x y ≡ true
    → on_numbers ltb y z ≡ true
    → on_numbers ltb x z ≡ true
cents_trans x y z h k = ground arith

pub cents_ge :
    (x y : Cents)
    → is_nan x ≡ false
    → is_nan y ≡ false
    → on_numbers (λ a b. leb b a) x y ≡ not (on_numbers ltb x y)
cents_ge x y h k = ground arith

pub cents_lt : (m n : ℕ) → m < n → on_numbers ltb (some m) (some n) ≡ true
cents_lt m n h = ground arith

abbrev pub cents : Float
cents = record {
  F = Cents;
  lt = on_numbers ltb;
  ge = on_numbers λ a b. leb b a;
  nan = is_nan;
  hundredths = λ n. some n;
  mul = times;
  lt_trans = cents_trans;
  hundredths-lt = cents_lt;
  hundredths-nan = λ m i. false;
  ge-eq-not-lt = cents_ge;
}
