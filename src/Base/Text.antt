-- ===== src/Base/Text.antt =====
-- Texts: a decision of equality, an order for map keys, and the printing of numbers.
pub mod Numbers
use Prim.Native.Nat.{ℕ, zero, suc, ◌/◌, ◌%◌}
use Prim.Native.String.{String, ◌++◌ as str_append, compare}
use text.Mathlib.Text.{◌==◌ as str_eq, is_lt, find?}
use text.Mathlib.TextEquality.{eq_iff}
use mathlib.Core.Path.{◌≡◌, refl}
use mathlib.Core.Logic.{inl, inr}
use mathlib.Core.Bool.{Bool, true, false}
use openstack_mimic_componen.Base.Tests.{if◌then◌else◌, ltb, ◌==◌, Bool-cases, is_some}

-- The clause for `true` carries the equation, so the decision runs on literals.
decide_text : (s t : String) (b : Bool) → str_eq s t ≡ b → Dec (s ≡ t)
decide_text s t true e = yes ((eq_iff s t).0 e)
decide_text s t false e =
    no (λ p. elim (Bool-cases (str_eq s t)) [ inl f ↦ cc | inr f ↦ cc ((eq_iff s t).1 p) ])

unfoldable pub String_discrete : Discrete String
unfolding decide_text
String_discrete s t = decide_text s t (str_eq s t) refl

abbrev pub text_lt : String → String → Bool
text_lt s t = is_lt (compare s t)

infixl 65 ◌+s◌
-- `a + b` on std::string.
abbrev pub ◌+s◌ : String → String → String
a +s b = str_append a b

-- `a.find(b) != npos`.
abbrev pub includes : String → String → Bool
includes s t = is_some (find? s t)

digit_text : ℕ → String
digit_text d =
    if d == 0
    then "0"
    else if d == 1
    then "1"
    else if d == 2
    then "2"
    else if d == 3
    then "3"
    else if d == 4
    then "4"
    else if d == 5
    then "5"
    else if d == 6
    then "6"
    else if d == 7
    then "7"
    else if d == 8
    then "8"
    else "9"

decimal : ℕ → ℕ → String → String
decimal zero n acc = acc
decimal (suc f) n acc =
    let more = decimal f (n / 10) (digit_text (n % 10) +s acc) in
    if ltb n 10 then digit_text n +s acc else more

-- `std::to_string` of a number.
unfoldable pub to_string : ℕ → String
unfolding decimal digit_text
to_string n = decimal (suc n) n ""

to_string_port : to_string 38774 ≡ "38774"
unfolding to_string
to_string_port = refl
