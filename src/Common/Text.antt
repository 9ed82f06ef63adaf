-- ===== src/Common/Text.antt =====
-- What the program does with whole texts beside comparing them: joining, the last character (by
-- which keys with different endings are told apart), lower case, and decimal numbers.
use Prim.Native.Char.{Char, code}
use Prim.Native.Nat.{ℕ, zero, suc, ◌/◌, ◌%◌}
pub use Prim.Native.String.{String, ◌++◌ as ◌<>◌}
use text.Mathlib.Text.{◌==◌}
use text.Mathlib.TextEquality.{eq_iff}
use text.Mathlib.TextLemmas.{append_cancel_left, append_cancel_right, nil-append, cons-append}
use mathlib.Core.Path.{◌≡◌, refl, ap}
use mathlib.Core.Logic.{◌≢◌, inl, inr}
use mathlib.Core.Bool.{Bool, true, false}
use mathlib.Core.Option.{Option, none, some}
use mathlib.Core.List.{List, [], ◌∷◌}
use native.Mathlib.Omega.{arith}
use cmo_agent.Common.Tests.{Bool-cases, ltb, if◌then◌else◌, ◌==◌ as nat_eq}

pub str_eq-ne : (s t : String) → s ≢ t → (s == t) ≡ false
str_eq-ne s t h = ground (arith, eq_iff s t)

pub str_eq_refl : (s : String) → (s == s) ≡ true
str_eq_refl s = (eq_iff s s).1 refl

-- An injective way to build keys compares like what it is built from.
pub str_eq-cong :
    (s t : String) (f : String → String) → (s ≢ t → f s ≢ f t) → (f s == f t) ≡ (s == t)
str_eq-cong s t f inj = elim (Bool-cases (s == t)) [
  | inl same ↦ rw (same, (eq_iff s t).0 same) (str_eq_refl (f t))
  | inr other ↦ rw other (str_eq-ne _ _ (inj (λ e. cc (other, (eq_iff s t).1 e))))
]

-- The code of the last character, or of `c` for the empty text.
abbrev pub last_or : ℕ → String → ℕ
last_or c String.[] = c
last_or c (String.◌∷◌ d s) = last_or (code d) s

pub last_or-append : (c : ℕ) (s t : String) → last_or c (s <> t) ≡ last_or (last_or c s) t
last_or-append c String.[] t = rw nil-append
last_or-append c (String.◌∷◌ d s) t = rw cons-append (last_or-append (code d) s t)

-- The code of the first character, or `c` for the empty text.
abbrev pub first_or : ℕ → String → ℕ
first_or c String.[] = c
first_or c (String.◌∷◌ d s) = code d

pub first_or-append : (c : ℕ) (s t : String) → first_or c (s <> t) ≡ first_or (first_or c t) s
first_or-append c String.[] t = rw nil-append
first_or-append c (String.◌∷◌ d s) t = rw cons-append

pub ne_of_first : (s t : String) → first_or 0 s ≢ first_or 0 t → s ≢ t
ne_of_first s t h e = h (ap (first_or 0) e)

pub ne_of_last : (s t : String) → last_or 0 s ≢ last_or 0 t → s ≢ t
ne_of_last s t h e = h (ap (last_or 0) e)

pub cancel_left : (p s t : String) → s ≢ t → p <> s ≢ p <> t
cancel_left p s t h e = h (append_cancel_left p s t e)

pub cancel_right : (s t p : String) → s ≢ t → s <> p ≢ t <> p
cancel_right s t p h e = h (append_cancel_right s t p e)

-- `s.removeprefix(p)`
abbrev pub after_prefix : String → String → Option String
after_prefix String.[] s = some s
after_prefix (String.◌∷◌ c p) String.[] = none
after_prefix (String.◌∷◌ c p) (String.◌∷◌ d s) =
    if nat_eq (code c) (code d) then after_prefix p s else none

abbrev or_whole : String → Option String → String
or_whole s none = s
or_whole s (some rest) = rest

abbrev pub remove_prefix : String → String → String
remove_prefix s p = or_whole s (after_prefix p s)

-- `s.strip()` on the characters up to 255, of which a header is made
abbrev pub is_space : ℕ → Bool
is_space n =
    if ltb n 33
    then (if ltb 27 n then true else if ltb n 14 then ltb 8 n else false)
    else if nat_eq n 133
    then true
    else nat_eq n 160

abbrev left_strip : String → String
left_strip String.[] = String.[]
left_strip (String.◌∷◌ c s) =
    let rest : String = left_strip s in if is_space (code c) then rest else String.◌∷◌ c s

abbrev keep_char : Char → String → String
keep_char c String.[] = if is_space (code c) then String.[] else String.◌∷◌ c String.[]
keep_char c (String.◌∷◌ d s) = String.◌∷◌ c (String.◌∷◌ d s)

abbrev right_strip : String → String
right_strip String.[] = String.[]
right_strip (String.◌∷◌ c s) = keep_char c (right_strip s)

abbrev pub strip : String → String
strip s = left_strip (right_strip s)

-- whether every character is below 128
abbrev pub is_ascii : String → Bool
is_ascii String.[] = true
is_ascii (String.◌∷◌ c s) = if ltb (code c) 128 then is_ascii s else false

-- `str.lower()` on the letters A to Z; other characters stay.
abbrev translate : String → String → Char → Char
translate String.[] to c = c
translate (String.◌∷◌ f from) String.[] c = c
translate (String.◌∷◌ f from) (String.◌∷◌ t to) c =
    if nat_eq (code f) (code c) then t else translate from to c

unfoldable pub lower_char : Char → Char
lower_char = translate "ABCDEFGHIJKLMNOPQRSTUVWXYZ" "abcdefghijklmnopqrstuvwxyz"

unfoldable pub lower : String → String
unfolding lower_char
lower String.[] = String.[]
lower (String.◌∷◌ c s) = String.◌∷◌ (lower_char c) (lower s)

-- `str.upper()` on the letters a to z; other characters stay.
abbrev pub upper : String → String
upper String.[] = String.[]
upper (String.◌∷◌ c s) =
    String.◌∷◌ (translate "abcdefghijklmnopqrstuvwxyz" "ABCDEFGHIJKLMNOPQRSTUVWXYZ" c) (upper s)

abbrev has_prefix : Option String → Bool
has_prefix none = false
has_prefix (some rest) = true

-- `p in s`
abbrev pub contains : String → String → Bool
contains String.[] p = has_prefix (after_prefix p String.[])
contains (String.◌∷◌ c s) p =
    if has_prefix (after_prefix p (String.◌∷◌ c s)) then true else contains s p

-- `str(n)`
abbrev nth_digit : String → ℕ → String
nth_digit String.[] n = String.[]
nth_digit (String.◌∷◌ d ds) zero = String.◌∷◌ d String.[]
nth_digit (String.◌∷◌ d ds) (suc n) = nth_digit ds n

show_digits : ℕ → ℕ → String → String
show_digits zero n rest = rest
show_digits (suc fuel) n rest =
    let text = nth_digit "0123456789" (n % 10) <> rest in
    let more = show_digits fuel (n / 10) text in if ltb n 10 then text else more

unfoldable pub show : ℕ → String
unfolding show_digits
show n = show_digits (suc n) n ""

show_some : show 1203 ≡ "1203"
unfolding show
show_some = refl

lower_some : lower "Acme-9.COM" ≡ "acme-9.com"
unfolding lower
lower_some = refl

strip_some : strip (remove_prefix "Bearer  cmo_a " "Bearer ") ≡ "cmo_a"
strip_some = refl

-- `\w` of a text in ASCII
abbrev pub is_word_char : ℕ → Bool
is_word_char n =
    if ltb n 58
    then ltb 47 n
    else if ltb n 91
    then ltb 64 n
    else if nat_eq n 95
    then true
    else if ltb n 123
    then ltb 96 n
    else false

abbrev pub one_of : String → List String → Bool
one_of t [] = false
one_of t (x ∷ xs) = let rest : Bool = one_of t xs in if t == x then true else rest
