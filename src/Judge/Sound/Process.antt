-- ===== src/Judge/Sound/Process.antt =====
-- src/judge_task.cpp: processJudgeData keeps a task sound.
use openstack_mimic_componen.Base.{
  ◌+◌, ◌<◌, ◌≡◌, refl, sym, ap, ◌∙◌, ◌⊎◌, inl, inr, true, not, ◌&&◌, String, if_cases, ltb, ◌==◌,
  length, arith,
}
use openstack_mimic_componen.Base.Text.Numbers.{last_number}
use openstack_mimic_componen.Map.{text_key, size, emplace}
use openstack_mimic_componen.Judge.State.{Request, Running}
use openstack_mimic_componen.Judge.Decide.Once.{Base, Genuine}
use openstack_mimic_componen.Judge.Analyse.{Env}
use openstack_mimic_componen.Judge.Respond.Frame.{
  Core, core, sends, Quiet, finish-Quiet, response_to_frond_req-Quiet,
}
use openstack_mimic_componen.Judge.Process.{
  horizon_service, add_request, judge_and_send, counted, after_judging, process_judge_data,
}
use openstack_mimic_componen.Judge.Sound.{IsSound, Sound, Quiet-IsSound}
use openstack_mimic_componen.Judge.Sound.Added.{
  add_request-Added, add_request_single, add_request-lists, add_request-same, lists,
}
use openstack_mimic_componen.Judge.Sound.Judged.{
  Decision, judge_and_send-Decision, judge_and_send-IsSound,
}

-- The count of the requests that were judged.
counted-Sound : (r : Running) → IsSound 1 (core r.task) (sends r.calls) → Sound (counted r)
counted-Sound r s = record {
  servers = s.servers;
  bounded = s.bounded;
  counts = omega (arith, s.counts);
  started = s.started;
  unjudged = s.unjudged;
  genuine = s.genuine;
  once = s.once;
  numbered = s.numbered;
}

after_judging-Quiet : (env : Env) (r : Running) → Quiet r (after_judging env r)
unfolding after_judging
after_judging-Quiet env r =
    if_cases (Quiet r)
      (not (horizon_service env) && ltb r.task.judge_num_ctr (length r.task.server_array))
      (λ _. (refl, refl))
      (λ _.
        if_cases (Quiet r) (horizon_service env) (λ _. response_to_frond_req-Quiet env true r)
          (λ _.
            if_cases (Quiet r)
              ((r.task.judge_num_ctr == length r.task.server_array) && r.task.tcpsendend)
              (λ _. finish-Quiet env r) (λ _. (refl, refl))))

-- processJudgeData of a request with the next number keeps a task sound, if there is room for it and it
-- came from an executor or is not the first.
pub process_judge_data-Sound :
    (env : Env) (d : Request) (key : String) (r : Running)
    → Sound r
    → size r.task.judge_data_list < length r.task.server_array
    → last_number key ≡ size r.task.judge_data_list + 1
    → Genuine d ⊎ (0 < size r.task.judge_data_list)
    → Sound (process_judge_data env d key r)
unfolding process_judge_data
process_judge_data-Sound env d key r s l e g =
    let u = add_request d key r in
    let v = counted (judge_and_send env key u) in
    Quiet-IsSound 0 v (after_judging env v) (after_judging-Quiet env v) (
      counted-Sound (judge_and_send env key u) (
        judge_and_send-IsSound env d key u (add_request-Added d key r s l e g)
          (add_request_single d key r s l g)))

-- The request is one more in the list.
pub process_judge_data-lists :
    (env : Env) (d : Request) (key : String) (r : Running)
    → Sound r
    → size r.task.judge_data_list < length r.task.server_array
    → last_number key ≡ size r.task.judge_data_list + 1
    → Genuine d ⊎ (0 < size r.task.judge_data_list)
    → lists (process_judge_data env d key r).task
      ≡ (r.task.server_array, emplace key d r.task.judge_data_list)
unfolding process_judge_data
process_judge_data-lists env d key r s l e g =
    let u = add_request d key r in
    let v = counted (judge_and_send env key u) in
    ap (λ (c : Core). (c.1, c.5)) (after_judging-Quiet env v).0
    ∙ ap (λ (b : Base). (b.1, b.4))
        (judge_and_send-Decision env d key u (add_request-Added d key r s l e g)
          (add_request_single d key r s l g)).0
    ∙ add_request-lists d key r

-- processJudgeData decides as its judgement does.
pub process_judge_data-Decision :
    (env : Env) (d : Request) (key : String) (r : Running)
    → Sound r
    → size r.task.judge_data_list < length r.task.server_array
    → last_number key ≡ size r.task.judge_data_list + 1
    → Genuine d ⊎ (0 < size r.task.judge_data_list)
    → Decision r (process_judge_data env d key r)
unfolding process_judge_data
process_judge_data-Decision env d key r s l e g =
    let u = add_request d key r in
    let v = counted (judge_and_send env key u) in
    let (kept, quiet) = after_judging-Quiet env v in
    let (same, still) = add_request-same d key r in
    let result = ap (λ (c : Core). c.4) kept in
    elim (judge_and_send-Decision env d key u (add_request-Added d key r s l e g)
      (add_request_single d key r s l g)).1 [
        | inl (h, n) ↦ inl (result ∙ h ∙ same, quiet ∙ n ∙ still)
        | inr (e, fresh, h, genuine, more) ↦
            inr (e, sym same ∙ fresh, result ∙ h, genuine, omega (arith, quiet, more, still))
      ]
