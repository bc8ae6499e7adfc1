-- ===== src/Proxy/Analyse/Replies.antt =====
-- src/proxy_task.cpp: how often a client is answered.
use openstack_mimic_componen.Base.{
  ℕ, suc, ◌≡◌, ◌≢◌, refl, false, String, String_discrete, List, [], ◌∷◌, some, if_cases, ite_cases,
  length, ◌==◌, arith,
}
use openstack_mimic_componen.Map.{text_key, size, emplace}
use openstack_mimic_componen.Proxy.State.{JudgeData, Task}
use openstack_mimic_componen.Proxy.Compare.{Comparer}
use openstack_mimic_componen.Proxy.Judge.{judge_data}
use openstack_mimic_componen.Proxy.Judge.Once.{judge_data_once}
use openstack_mimic_componen.Proxy.Analyse.{
  Call, reply_front, record_judge_log, report_error, delete_data, clear_new_data, Service,
  send_to_schedule, analyse_judge_result, count_errors, take_answer,
}

-- The answers to the client among the calls.
unfoldable pub replies : List Call → ℕ
replies [] = 0
replies (reply_front d ∷ calls) = suc (replies calls)
replies (record_judge_log m ∷ calls) = replies calls
replies (report_error l ∷ calls) = replies calls
replies (delete_data ptrs ∷ calls) = replies calls

send_to_schedule-replies :
    (convert : String → String) (s : Service)
    → replies (send_to_schedule convert s).calls ≡ replies s.calls
unfolding send_to_schedule replies
send_to_schedule-replies convert s =
    if_cases (λ (t : Service). replies t.calls ≡ replies s.calls)
      (size s.task.analyse_error_detail == 0) (λ _. refl)
      λ _.
        if_cases (λ (t : Service). replies t.calls ≡ replies s.calls)
          (length
              (count_errors convert s.judge_error_count s.task.judge_data_list
                s.task.analyse_error_detail s.judge_err_num).1
            == 0)
          (λ _. refl) (λ _. refl)

analyse_judge_result-replies :
    (convert : String → String) (s : Service)
    → replies (analyse_judge_result convert s).calls ≡ replies s.calls
unfolding analyse_judge_result
analyse_judge_result-replies convert s =
    ite_cases (λ (t : Service). replies t.calls ≡ replies s.calls)
      (String_discrete s.task.ret_group_key "") (λ _. refl)
      (λ _. send_to_schedule-replies convert _)

-- An answer of an executor that comes when the task has a result, with more executors than one, sends
-- nothing to the client, whatever it is.
pub take_answer-replies :
    (c : Comparer) (convert : String → String) (random : ℕ) (d r : JudgeData) (s : Service)
    → length s.task.addr_list ≢ 1
    → s.task.judge_result ≡ some r
    → replies (take_answer c convert random d s).calls ≡ replies s.calls
unfolding take_answer clear_new_data replies
take_answer-replies c convert random d r s n h =
    let t : Task = record s.task { judge_data_list = emplace d.key d s.task.judge_data_list } in
    let once = judge_data_once c random d.key t r n h in
    let quiet : ((judge_data c random d.key t).0 == 1) ≡ false = ground (arith, once.0) in
    rw quiet (
      if_cases (λ (u : Service). replies u.calls ≡ replies s.calls)
        (size (judge_data c random d.key t).1.judge_data_list
          == length (judge_data c random d.key t).1.addr_list)
        (λ _. analyse_judge_result-replies convert _) (λ _. refl))
