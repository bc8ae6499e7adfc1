-- ===== src/Judge/Front/Threads.antt =====
-- src/mimic_judge.cpp: the thread of the judge that the sid of a request chooses.
use openstack_mimic_componen.Base.{
  ℕ, suc, ◌<◌, ◌+◌, ◌%◌, ◌≡◌, ◌≢◌, refl, sym, ap, ◌∙◌, ◌||◌, String, String_discrete, List, [], ◌∷◌,
  map, if_cases, false≢true, arith, to_string,
}
use native.Mathlib.Nat.{mod-lt}
use openstack_mimic_componen.Base.Int.{ℤ, pos, negsuc, ◌+ℤ◌, rem_ℤ, assoc_+ℤ, right_zero, left_zero}
use openstack_mimic_componen.Base.Text.Numbers.{
  last_number-minus, last_number, last_number-to_string,
}
use openstack_mimic_componen.Map.{text_key, number_key}
use openstack_mimic_componen.Judge.Process.{same_text}
use openstack_mimic_componen.Judge.Front.{thread_index, sum_codes, code_text}

abbrev pub sum : List ℤ → ℤ
sum [] = pos 0
sum (c ∷ l) = c +ℤ sum l

zero_text : (◌≢◌ {A = String} "0" "-") × (◌≢◌ {A = String} "0" "+")
unfolding String_discrete
zero_text =
    (λ e. false≢true (ap (λ s. same_text s "-") e), λ e. false≢true (ap (λ s. same_text s "+") e))

zero_of : (c : ℕ) {s : String} → to_string c ≡ s → last_number s ≡ 0 → c ≡ 0
zero_of c e z = sym (last_number-to_string c) ∙ ap last_number e ∙ z

to_string-zero : to_string 0 ≡ "0"
unfolding to_string
to_string-zero = refl

-- The text of a number is no dash and no plus.
to_string_ne : (c : ℕ) → (to_string c ≢ "-") × (to_string c ≢ "+")
unfolding last_number
to_string_ne c = (
  (λ e. zero_text.0 (sym to_string-zero ∙ ap to_string (sym (zero_of c e refl)) ∙ e)),
  (λ e. zero_text.1 (sym to_string-zero ∙ ap to_string (sym (zero_of c e refl)) ∙ e)),
)

dash_number : (last_number "-" ≡ 0) × (last_number "+" ≡ 0)
unfolding last_number
dash_number = (refl, refl)

code_text_ne : (c : ℤ) → (code_text c ≢ "-") × (code_text c ≢ "+")
unfolding code_text
code_text_ne (pos n) = to_string_ne n
code_text_ne (negsuc n) =
    let number = last_number-minus (suc n) in
    (
      λ e. omega (arith, sym number ∙ ap last_number e ∙ dash_number.0),
      λ e. omega (arith, sym number ∙ ap last_number e ∙ dash_number.1),
    )

sum_codes_lem : (l : List ℤ) (index : ℤ) → sum_codes l index ≡ index +ℤ sum l
unfolding sum_codes
sum_codes_lem [] index = sym (right_zero index)
sum_codes_lem (c ∷ l) index =
    if_cases (λ n. n ≡ index +ℤ (c +ℤ sum l))
      (same_text (code_text c) "-" || same_text (code_text c) "+")
      (λ e. absurd (ground (arith, e, (code_text_ne c).0, (code_text_ne c).1)))
      (λ _. sum_codes_lem l (index +ℤ c) ∙ assoc_+ℤ index c (sum l))

-- The codes of characters in ASCII, which are not negative.
abbrev pub codes_of : List ℕ → List ℤ
codes_of = map pos

abbrev sum_ℕ : List ℕ → ℕ
sum_ℕ [] = 0
sum_ℕ (c ∷ l) = c + sum_ℕ l

sum_ascii : (l : List ℕ) → sum (codes_of l) ≡ pos (sum_ℕ l)
sum_ascii [] = refl
sum_ascii (c ∷ l) = rw (sum_ascii l) (ground arith)

-- The thread of a sid is the remainder of the sum of the signed codes of all its characters by the
-- number of threads, in whatever signs they are: the loop never stops at a dash or a plus. For a sid in
-- ASCII it is a number below that of the threads, if there is one.
pub thread_index-sum :
    (threads : ℕ) (sid : List ℤ)
    → (thread_index threads sid ≡ rem_ℤ (sum sid) threads)
      × ((ascii : List ℕ)
          → sid ≡ codes_of ascii
          → 0 < threads
          → (i : ℕ) × (thread_index threads sid ≡ pos i) × (i < threads))
unfolding thread_index
thread_index-sum threads sid =
    let same = ap (λ n. rem_ℤ n threads) (sum_codes_lem sid (pos 0) ∙ left_zero (sum sid)) in
    (
      same,
      λ ascii e some. (
        sum_ℕ ascii % threads,
        same ∙ ap (λ n. rem_ℤ n threads) (ap sum e ∙ sum_ascii ascii),
        mod-lt (sum_ℕ ascii) some,
      ),
    )
