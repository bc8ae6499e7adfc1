-- ===== src/Judge/Timeout.antt =====
-- src/judge_task.cpp: judgeTimeoutCb keeps a task sound, and leaves no server out.
use openstack_mimic_componen.Base.{
  ℕ, suc, ◌+◌, ◌≤◌, ◌<◌, ◌≡◌, refl, subst, ap, ◌∙◌, inr, false, String, String_discrete, List, [],
  ◌∷◌, if_cases, leb, ◌==◌, length, any, map, arith, ◌+s◌, leb→le,
}
use openstack_mimic_componen.Base.Text.Numbers.{last_number-dash}
use openstack_mimic_componen.Map.{Map, text_key, size, values}
use openstack_mimic_componen.Judge.State.{Request, Running}
use openstack_mimic_componen.Judge.Analyse.{Env}
use openstack_mimic_componen.Judge.Process.{
  timeout_request, process_timeout, timeout_each, judge_timeout_cb, not_come, same_text,
}
use openstack_mimic_componen.Judge.Sound.{Sound}
use openstack_mimic_componen.Judge.Sound.Process.{
  process_judge_data-Sound, process_judge_data-lists,
}
use openstack_mimic_componen.Judge.Keys.{emplace-Numbered}

-- No server is in the array twice.
abbrev pub NoTwice : List String → Type 0
NoTwice [] = Unit
NoTwice (x ∷ xs) = (any (same_text x) xs ≡ false) × NoTwice xs

not_come_without :
    (c : String) (come xs : List String)
    → any (same_text c) xs ≡ false
    → not_come (c ∷ come) xs ≡ not_come come xs
unfolding not_come
not_come_without c come [] h = refl
not_come_without c come (x ∷ xs) h = ground (arith, not_come_without c come xs)

not_come_less :
    (c : String) (come xs : List String)
    → NoTwice xs
    → length (not_come come xs) ≤ length (not_come (c ∷ come) xs) + 1
unfolding not_come
not_come_less c come [] h = omega arith
not_come_less c come (x ∷ xs) h = elim (String_discrete x c) [
  | yes e ↦
      let once = subst (λ y. any (same_text y) xs ≡ false) e h.0 in
      ground (arith, ap length (not_come_without c come xs once), e)
  | no n ↦ ground (arith, not_come_less c come xs h.1, n)
]

not_come_all : (xs : List String) → not_come [] xs ≡ xs
unfolding not_come
not_come_all [] = refl
not_come_all (x ∷ xs) = ap (λ l. x ∷ l) (not_come_all xs)

-- Of the servers at most as many are left out as requests came.
not_come_many :
    (come xs : List String) → NoTwice xs → length xs ≤ length come + length (not_come come xs)
not_come_many [] xs h = omega (arith, ap length (not_come_all xs))
not_come_many (c ∷ come) xs h = omega (arith, not_come_less c come xs h, not_come_many come xs h)

abbrev pub requests : Running → ℕ
requests r = size r.task.judge_data_list

abbrev pub servers : Running → ℕ
servers r = length r.task.server_array

-- Sound, with the servers that it had, and complete if enough of them are left.
abbrev Filled : Running → List String → Running → Type 0
Filled r hosts u =
    Sound u
    × (u.task.server_array ≡ r.task.server_array)
    × (servers r ≤ requests r + length hosts → requests u ≡ servers r)

pub length-come : (m : Map String Request) → length (map (λ d. d.exec_addr) (values m)) ≡ size m
length-come [] = refl
length-come (e ∷ m) = ap suc (length-come m)

module _ (env : Env) (ptr : ℕ → ℕ) where
  pub process_timeout-Sound :
      (host : String) (count : ℕ) (r : Running)
      → Sound r
      → 0 < requests r
      → count ≡ requests r
      → requests r < servers r
      → Sound (process_timeout env ptr host (count + 1) r)
        × ((process_timeout env ptr host (count + 1) r).task.server_array ≡ r.task.server_array)
        × (requests (process_timeout env ptr host (count + 1) r) ≡ requests r + 1)
  unfolding timeout_request
  process_timeout-Sound host count r s some_in e l =
      let d = timeout_request (ptr (count + 1)) host (count + 1) r.task in
      let next = last_number-dash (r.task.sid +s "-" +s host) (count + 1) ∙ ap (λ n. n + 1) e in
      let (grown, numbered, found) =
        emplace-Numbered d.key d r.task.judge_data_list s.numbered next in
      let same = process_judge_data-lists env d d.key r s l next (inr some_in) in
      (
        process_judge_data-Sound env d d.key r s l next (inr some_in),
        ap (λ (p : List String × Map String Request). p.0) same,
        ap (λ (p : List String × Map String Request). size p.1) same ∙ grown,
      )

  timeout_each-Filled :
      (hosts : List String) (count : ℕ) (r : Running)
      → Sound r
      → 0 < requests r
      → count ≡ requests r
      → requests r < servers r
      → Filled r hosts (timeout_each env ptr hosts count r)
  unfolding timeout_each
  timeout_each-Filled [] count r s some_in e l = (s, refl, λ enough. absurd (omega arith))
  timeout_each-Filled (host ∷ hosts) count r s some_in e l =
      let done = process_timeout env ptr host (count + 1) r in
      let (sound, same, grown) = process_timeout-Sound host count r s some_in e l in
      if_cases (Filled r (host ∷ hosts)) (leb (servers done) (count + 1))
        (λ last.
          (sound, same, λ enough. omega (arith, grown, e, l, ap length same, leb→le _ _ last)))
        (λ more.
          let kept : servers done ≡ servers r = ap length same in
          let (later, kept', full) =
            timeout_each-Filled hosts (count + 1) done sound (omega (arith, grown))
              (omega (arith, grown, e)) (ground (arith, more, grown, e)) in
          (later, kept' ∙ same, λ enough. full (omega (arith, enough, kept, grown)) ∙ kept))

  pub judge_timeout_cb-Sound :
      (r : Running) → Sound r → 0 < requests r → Sound (judge_timeout_cb env ptr r)
  unfolding judge_timeout_cb
  judge_timeout_cb-Sound r s some_in =
      let come = map (λ d. d.exec_addr) (values r.task.judge_data_list) in
      if_cases Sound (requests r == servers r) (λ _. s)
        (λ n.
          (timeout_each-Filled (not_come come r.task.server_array) (length come) r s some_in
            (length-come r.task.judge_data_list) (ground (arith, n, s.bounded))).0)

  -- When the timer has run, every server of a sound task has its request, and each was counted.
  pub judge_timeout_cb_completes :
      (r : Running)
      → Sound r
      → 0 < requests r
      → NoTwice r.task.server_array
      → (judge_timeout_cb env ptr r).task.judge_num_ctr ≡ length r.task.server_array
  unfolding judge_timeout_cb
  judge_timeout_cb_completes r s some_in once =
      let come = map (λ d. d.exec_addr) (values r.task.judge_data_list) in
      let many = not_come_many come r.task.server_array once in
      let same = length-come r.task.judge_data_list in
      if_cases (λ (u : Running). u.task.judge_num_ctr ≡ servers r) (requests r == servers r)
        (λ e. ground (arith, s.counts, e))
        (λ n.
          let (sound, kept, full) =
            timeout_each-Filled (not_come come r.task.server_array) (length come) r s some_in same
              (ground (arith, n, s.bounded)) in
          omega (arith, sound.counts, full (omega (arith, many, same))))
