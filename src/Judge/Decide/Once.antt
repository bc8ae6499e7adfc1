-- ===== src/Judge/Decide/Once.antt =====
-- src/judge_task.cpp: judgeData decides once, and never for a request that the timer made.
use openstack_mimic_componen.Base.{
  ℕ, ◌≡◌, refl, sym, subst, ap, ◌∙◌, false≢true, ◌⊎◌, inl, inr, false, ◌&&◌, String, List, Option,
  none, some, if_cases, is_some, ◌==◌, arith, Option-cases,
}
use openstack_mimic_componen.Map.{Map, text_key, number_key, size, at, values}
use openstack_mimic_componen.Proxy.State.{Records}
use openstack_mimic_componen.Judge.State.{Request, null_request, Groups, Task}
use openstack_mimic_componen.Judge.Compare.{Comparer}
use openstack_mimic_componen.Judge.Decide.{
  compare_groups, place_request, is_timeout, majority, not_timeout, time_or_weight_judge,
  by_time_or_weight, by_rules, judge_data,
}

-- What judgeData leaves alone.
abbrev pub Base : Type 0
Base = ℕ × List String × ℕ × Option Request × Map String Request

abbrev pub base : Task → Base
base t = (t.exec_num, t.server_array, t.judge_num_ctr, t.first_req_data, t.judge_data_list)

-- A request that came from an executor.
abbrev pub Genuine : Request → Type 0
Genuine d = is_timeout d ≡ false

-- The result stays, or there was none and the new one came from an executor.
abbrev pub Judgement : Task → ℕ × Task → Type 0
Judgement t r =
    (base r.1 ≡ base t)
    × (((r.0 ≡ 0) × (r.1.judge_result ≡ t.judge_result))
        ⊎ ((d : Request) × (r.0 ≡ 1)
            × (r.1.judge_result ≡ some d)
            × Genuine d
            × (t.judge_result ≡ none)))

pub not_timeout-Genuine : (f d : Request) → Genuine f → Genuine (not_timeout (some f) d)
unfolding not_timeout
not_timeout-Genuine f d g = if_cases Genuine (is_timeout d) (λ _. g) (λ n. n)

module _ (random : ℕ) (t : Task) (f : Request) (first : t.first_req_data ≡ some f)
    (genuine : Genuine f) where
  first-Genuine : (d : Request) → Genuine (not_timeout t.first_req_data d)
  first-Genuine d =
      subst (λ o. Genuine (not_timeout o d)) (sym first) (not_timeout-Genuine f d genuine)

  by_time_or_weight-Judgement : t.judge_result ≡ none → Judgement t (by_time_or_weight random t)
  unfolding by_time_or_weight
  by_time_or_weight-Judgement n =
      if_cases (Judgement t) (size t.judge_data_list == t.exec_num)
        (λ _. elim (Option-cases (time_or_weight_judge random t)) [
          | inl e ↦ rw e (refl, inl (refl, refl))
          | inr (d, e) ↦
              rw e (refl, inr (not_timeout t.first_req_data d, refl, refl, first-Genuine d, n))
        ])
        (λ _. (refl, inl (refl, refl)))

  by_rules-Judgement : Judgement t (by_rules random t)
  unfolding by_rules
  by_rules-Judgement =
      if_cases (Judgement t) (is_some t.judge_result) (λ _. (refl, inl (refl, refl)))
        λ s.
          let n : t.judge_result ≡ none = elim (Option-cases t.judge_result) [
            | inl e ↦ e
            | inr (d, e) ↦ absurd (false≢true (sym s ∙ ap is_some e))
          ] in
          elim (Option-cases (majority t.exec_num (values t.judge_group))) [
            | inl e ↦ rw e (by_time_or_weight-Judgement n)
            | inr (d, e) ↦
                rw e (refl, inr (not_timeout t.first_req_data d, refl, refl, first-Genuine d, n))
          ]

-- The placing of a request changes the groups and the records of differences only.
pub place_request_frame :
    (c : Comparer) (key : String) (t : Task)
    → (g : Groups) × (r : Records) × (place_request c key t
        ≡ record t { judge_group = g; cmp_ret_record = r })
unfolding place_request
place_request_frame c key t =
    if_cases
      (λ u. (g : Groups) × (r : Records) × (u ≡ record t { judge_group = g; cmp_ret_record = r }))
      (compare_groups c (at null_request key t.judge_data_list) key t.judge_group
        t.cmp_ret_record).0
      (λ _. (_, _, refl)) (λ _. (_, _, refl))

-- `single` is asked of a task with one executor and one request.
pub judge_data-Judgement :
    (c : Comparer) (random : ℕ) (key : String) (t : Task) (f : Request)
    → t.first_req_data ≡ some f
    → Genuine f
    → (t.exec_num ≡ 1 → (t.judge_result ≡ none) × Genuine (at null_request key t.judge_data_list))
    → Judgement t (judge_data c random key t)
unfolding judge_data
judge_data-Judgement c random key t f first genuine single =
    if_cases (Judgement t) ((size t.judge_data_list == 1) && (t.exec_num == 1))
      (λ e.
        let (n, g) = single (ground (arith, e)) in
        (refl, inr (at null_request key t.judge_data_list, refl, refl, g, n)))
      λ _.
        if_cases (Judgement t) (size t.judge_data_list == 1) (λ _. (refl, inl (refl, refl)))
          λ _.
            let (g, r, p) = place_request_frame c key t in
            subst (λ u. Judgement t (by_rules random u)) (sym p)
              (by_rules-Judgement random (record t { judge_group = g; cmp_ret_record = r }) f first
                genuine)
