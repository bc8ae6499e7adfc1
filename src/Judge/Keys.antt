-- ===== src/Judge/Keys.antt =====
-- src/mimic_jthread.cpp and src/judge_task.cpp: the keys of `judgeDataList` end in the number of
-- requests at the time, so that a new one is never there already.
use openstack_mimic_componen.Base.{
  ℕ, ◌+◌, ◌≤◌, ◌<◌, ◌≡◌, refl, ◌∙◌, String, String_discrete, [], ◌∷◌, none, some, All, if_cases,
  ite_cases, ap, text_lt, arith,
}
use openstack_mimic_componen.Base.Text.Numbers.{last_number}
use openstack_mimic_componen.Map.{Map, text_key, size, has, find, at, emplace, place}
use openstack_mimic_componen.Map.Distinct.{size-emplace}
use openstack_mimic_componen.Map.Laws.{find-emplace}

module _ {V : Type 0} where
  -- No key ends in a larger number.
  abbrev pub Numbered : ℕ → Map String V → Type 0
  Numbered n = All (λ e. last_number e.0 ≤ n)

  pub find-Numbered :
      (key : String) (n : ℕ) (m : Map String V)
      → Numbered n m
      → n < last_number key
      → find key m ≡ none
  unfolding find
  find-Numbered key n [] h l = refl
  find-Numbered key n ((k, v) ∷ m) h l =
      ite_cases (λ o. o ≡ none) (String_discrete key k)
        (λ e. absurd (omega (arith, ap last_number e, h.0))) (λ _. find-Numbered key n m h.1 l)

  weaken : (n : ℕ) (m : Map String V) → Numbered n m → Numbered (n + 1) m
  weaken n [] h = tt
  weaken n ((k, v) ∷ m) h = (omega (arith, h.0), weaken n m h.1)

  place-Numbered :
      (key : String) (v : V) (n : ℕ) (m : Map String V)
      → Numbered n m
      → last_number key ≤ n
      → Numbered n (place key v m)
  unfolding place
  place-Numbered key v n [] h l = (l, tt)
  place-Numbered key v n ((k, w) ∷ m) h l =
      if_cases (Numbered n) (text_lt key k) (λ _. (l, h))
        (λ _. (h.0, place-Numbered key v n m h.1 l))

  -- What a request with the next number does to the list.
  pub emplace-Numbered :
      (key : String) (v : V) (m : Map String V)
      → Numbered (size m) m
      → last_number key ≡ size m + 1
      → (size (emplace key v m) ≡ size m + 1)
        × Numbered (size m + 1) (emplace key v m)
        × (find key (emplace key v m) ≡ some v)
  unfolding emplace at
  emplace-Numbered key v m h e =
      let new = find-Numbered key (size m) m h (omega (arith, e)) in
      (
        size-emplace key v m ∙ rw new,
        if_cases (Numbered (size m + 1)) (has key m) (λ _. weaken (size m) m h)
            (λ _. place-Numbered key v (size m + 1) m (weaken (size m) m h) (omega (arith, e))),
        ground (arith, find-emplace key key v m, new),
      )
