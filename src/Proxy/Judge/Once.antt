-- ===== src/Proxy/Judge/Once.antt =====
-- src/proxy_task.cpp: judgeData decides once, and always when the last answer is in.
use openstack_mimic_componen.Base.{
  ℕ, ◌≡◌, ◌≢◌, refl, sym, subst, false≢true, ap, ◌∙◌, true, ◌&&◌, String, none, some, if_cases,
  is_some, ◌==◌, length, arith, inl, inr, ◌<◌, Option-cases,
}
use openstack_mimic_componen.Map.{text_key, number_key, size, at, values}
use openstack_mimic_componen.Proxy.State.{JudgeData, Task, null_data, Groups, Records}
use openstack_mimic_componen.Proxy.Compare.{Comparer}
use openstack_mimic_componen.Proxy.Judge.{
  compare_groups, place_answer, majority, time_or_weight_judge, by_time_or_weight, by_rules,
  judge_data,
}

-- The placing of an answer changes the groups and the records of differences only.
pub place_answer_frame :
    (c : Comparer) (key : String) (t : Task)
    → (g : Groups) × (r : Records) × (place_answer c key t
        ≡ record t { judge_group = g; cmp_ret_record = r })
unfolding place_answer
place_answer_frame c key t =
    if_cases
      (λ u. (g : Groups) × (r : Records) × (u ≡ record t { judge_group = g; cmp_ret_record = r }))
      (compare_groups c (at null_data key t.judge_data_list) key t.judge_group t.cmp_ret_record).0
      (λ _. (_, _, refl)) (λ _. (_, _, refl))

by_rules_once :
    (random : ℕ) (t : Task) (d : JudgeData) → t.judge_result ≡ some d → by_rules random t ≡ (0, t)
unfolding by_rules
by_rules_once random t d h =
    if_cases (λ r. r ≡ (0, t)) (is_some t.judge_result) (λ _. refl)
      (λ e. absurd (false≢true (sym e ∙ ap is_some h)))

abbrev Kept : JudgeData → ℕ × Task → Type 0
Kept d r = (r.0 ≡ 0) × (r.1.judge_result ≡ some d)

-- judgeData of a task that has a result, with more executors than one, returns 0 and keeps the
-- result, so that a client is answered once.
pub judge_data_once :
    (c : Comparer) (random : ℕ) (key : String) (t : Task) (d : JudgeData)
    → length t.addr_list ≢ 1
    → t.judge_result ≡ some d
    → ((judge_data c random key t).0 ≡ 0) × ((judge_data c random key t).1.judge_result ≡ some d)
unfolding judge_data
judge_data_once c random key t d n h =
    if_cases (Kept d) ((size t.judge_data_list == 1) && (length t.addr_list == 1))
      (λ e. absurd (n (ground (arith, e))))
      λ _.
        if_cases (Kept d) (size t.judge_data_list == 1) (λ _. (refl, h))
          λ _.
            let (g, r, p) = place_answer_frame c key t in
            subst (λ u. Kept d (by_rules random u)) (sym p)
              (subst (Kept d) (sym (by_rules_once random _ d h)) (refl, h))

abbrev Decided : ℕ × Task → Type 0
Decided r = (r.0 ≡ 1) × (is_some r.1.judge_result ≡ true)

by_time_or_weight-Decided :
    (random : ℕ) (t : Task)
    → size t.judge_data_list ≡ length t.addr_list
    → is_some (time_or_weight_judge random t) ≡ true
    → Decided (by_time_or_weight random t)
unfolding by_time_or_weight
by_time_or_weight-Decided random t h k =
    if_cases Decided (size t.judge_data_list == length t.addr_list)
      (λ _. elim (Option-cases (time_or_weight_judge random t)) [
        | inl e ↦ absurd (false≢true (sym (ap is_some e) ∙ k))
        | inr (d, e) ↦ rw e (refl, refl)
      ])
      (λ n. absurd (ground (arith, n)))

by_rules-Decided :
    (random : ℕ) (t : Task)
    → t.judge_result ≡ none
    → size t.judge_data_list ≡ length t.addr_list
    → is_some (time_or_weight_judge random t) ≡ true
    → Decided (by_rules random t)
unfolding by_rules
by_rules-Decided random t n h k =
    if_cases Decided (is_some t.judge_result) (λ e. absurd (false≢true (sym (ap is_some n) ∙ e)))
      λ _.
        let groups = values t.judge_group in
        elim (Option-cases (majority (length t.addr_list) (size t.judge_data_list) groups groups)) [
          | inl e ↦ rw e (by_time_or_weight-Decided random t h k)
          | inr (d, e) ↦ rw e (refl, refl)
        ]

-- When the last answer is in, the task has no result yet, and timeOrWeightJudge has an answer to give,
-- judgeData returns 1 and sets the result.
pub judge_data_decides :
    (c : Comparer) (random : ℕ) (key : String) (t : Task)
    → 1 < length t.addr_list
    → t.judge_result ≡ none
    → size t.judge_data_list ≡ length t.addr_list
    → is_some (time_or_weight_judge random t) ≡ true
    → ((judge_data c random key t).0 ≡ 1)
      × (is_some (judge_data c random key t).1.judge_result ≡ true)
unfolding judge_data time_or_weight_judge
judge_data_decides c random key t m n h k =
    if_cases Decided ((size t.judge_data_list == 1) && (length t.addr_list == 1))
      (λ _. (refl, refl))
      λ _.
        if_cases Decided (size t.judge_data_list == 1) (λ e. absurd (ground (arith, e)))
          λ _.
            let (g, r, p) = place_answer_frame c key t in
            subst (λ u. Decided (by_rules random u)) (sym p)
              (by_rules-Decided random (record t { judge_group = g; cmp_ret_record = r }) n h k)
