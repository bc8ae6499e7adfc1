-- ===== src/Base/Text/Numbers.antt =====
-- The number that ends a text such as "a-b-17", by which the texts made with std::to_string differ.
use Prim.Native.Nat.{ℕ, zero, suc, ◌+◌, ◌-◌, ◌*◌, ◌/◌, ◌%◌, ◌<◌}
use Prim.Native.Char.{code}
use Prim.Native.String.{String}
use text.Mathlib.TextLemmas.{nil-append, cons-append}
use mathlib.Core.Path.{◌≡◌, ap, ◌∙◌}
use native.Mathlib.Omega.{arith}
use openstack_mimic_componen.Base.Tests.{if◌then◌else◌, ltb, ◌==◌, ltb→lt, if_cases}
use openstack_mimic_componen.Base.Text.{◌+s◌, digit_text, decimal, to_string}

-- One more character: a digit goes on, a dash starts again.
abbrev add_char : ℕ → ℕ → ℕ
add_char n c = if c == 45 then 0 else n * 10 + (c - 48)

read_number : String → ℕ → ℕ
read_number String.[] n = n
read_number (String.◌∷◌ c s) n = read_number s (add_char n (code c))

unfoldable pub last_number : String → ℕ
unfolding read_number
last_number s = read_number s 0

read_number-append :
    (s t : String) (n : ℕ) → read_number (s +s t) n ≡ read_number t (read_number s n)
unfolding read_number
read_number-append String.[] t n = ap (λ u. read_number u n) (nil-append t)
read_number-append (String.◌∷◌ c s) t n =
    ap (λ u. read_number u n) (cons-append c s t) ∙ read_number-append s t (add_char n (code c))

read_number-digit : (d n : ℕ) → d < 10 → read_number (digit_text d) n ≡ n * 10 + d
unfolding read_number digit_text
read_number-digit d n h =
    let P : String → Type 0 = λ s. read_number s n ≡ n * 10 + d in
    if_cases P (d == 0) (λ e. ground (arith, e))
      λ n0.
        if_cases P (d == 1) (λ e. ground (arith, e))
          λ n1.
            if_cases P (d == 2) (λ e. ground (arith, e))
              λ n2.
                if_cases P (d == 3) (λ e. ground (arith, e))
                  λ n3.
                    if_cases P (d == 4) (λ e. ground (arith, e))
                      λ n4.
                        if_cases P (d == 5) (λ e. ground (arith, e))
                          λ n5.
                            if_cases P (d == 6) (λ e. ground (arith, e))
                              λ n6.
                                if_cases P (d == 7) (λ e. ground (arith, e))
                                  λ n7.
                                    if_cases P (d == 8) (λ e. ground (arith, e))
                                      λ n8. ground (arith, n0, n1, n2, n3, n4, n5, n6, n7, n8)

read_number-decimal :
    (f n : ℕ) (s : String) → n < f → read_number (decimal f n s) 0 ≡ read_number s n
unfolding decimal
read_number-decimal zero n s h = absurd (omega arith)
read_number-decimal (suc f) n s h =
    if_cases (λ (t : String). read_number t 0 ≡ read_number s n) (ltb n 10)
      (λ e.
        read_number-append (digit_text n) s 0
        ∙ ap (read_number s) (read_number-digit n 0 (ltb→lt n 10 e) ∙ omega arith))
      (λ e.
        read_number-decimal f (n / 10) (digit_text (n % 10) +s s) (ground (arith, e))
        ∙ read_number-append (digit_text (n % 10)) s (n / 10)
        ∙ ap (read_number s) (read_number-digit (n % 10) (n / 10) (omega arith) ∙ omega arith))

-- The number after the last dash.
pub last_number-dash : (s : String) (n : ℕ) → last_number (s +s "-" +s to_string n) ≡ n
unfolding last_number to_string read_number
last_number-dash s n =
    read_number-append (s +s "-") (to_string n) 0
    ∙ ap (read_number (to_string n)) (read_number-append s "-" 0)
    ∙ read_number-decimal (suc n) n "" (omega arith)

pub last_number-to_string : (n : ℕ) → last_number (to_string n) ≡ n
unfolding last_number to_string read_number
last_number-to_string n = read_number-decimal (suc n) n "" (omega arith)

pub last_number-minus : (n : ℕ) → last_number ("-" +s to_string n) ≡ n
unfolding last_number to_string read_number
last_number-minus n =
    read_number-append "-" (to_string n) 0 ∙ read_number-decimal (suc n) n "" (omega arith)
