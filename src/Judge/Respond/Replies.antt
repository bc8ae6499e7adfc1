-- ===== src/Judge/Respond/Replies.antt =====
-- src/judge_task.cpp: every executor is answered at most once.
use openstack_mimic_componen.Base.{
  ℕ, suc, ◌+◌, ◌≡◌, refl, sym, subst, ap, ◌∙◌, Bool, true, false, not, String, String_discrete,
  List, [], ◌∷◌, Option, none, some, if_cases, ite_cases, ◌==◌, length, arith,
}
use openstack_mimic_componen.Map.{Map, text_key, values, size, has, at}
use openstack_mimic_componen.Judge.State.{
  Request, BackendResp, Task, Call, Running, start_timer, request_backend, tcp_backend, reply,
  record_judge_log, report_error, delete_requests, clear_task as clear_call,
}
use openstack_mimic_componen.Judge.Decide.{is_timeout}
use openstack_mimic_componen.Judge.Analyse.{
  Env, Outcome, no_connection, no_request, not_sent, sent, send_to_schedule, analyse_judge_result,
  clear_new_data, clear_task, finish, with_details, count_errors, convert_from_cincer_or_neutron,
}
use openstack_mimic_componen.Judge.Respond.{
  mimic_host, is_ok, reply_one, reply_each, is_to_clean, announced, respond_all,
  response_to_frond_req, err_backend_resp, goto_err_backend_resp, store_backend_resp,
  backend_resp_cb, backend_resp_err_cb, request_horizon, request_controller, send_result, send_if,
  send_to_backend,
}
use openstack_mimic_componen.Judge.Respond.Frame.{replied}
use openstack_mimic_componen.Judge.Respond.Marks.{marked, marked-update, has-update}

abbrev count_reply : Call → ℕ → ℕ
count_reply start_timer n = n
count_reply (request_backend d) n = n
count_reply (tcp_backend ip port body) n = n
count_reply (reply fd resp) n = suc n
count_reply (record_judge_log m) n = n
count_reply (report_error l) n = n
count_reply (delete_requests l) n = n
count_reply (clear_call sid) n = n

-- How many answers were sent to the executors.
unfoldable pub replies : List Call → ℕ
replies [] = 0
replies (c ∷ l) = count_reply c (replies l)

abbrev Marks : Type 0
Marks = Map String String

-- Every new answer marks an executor that had none, and no executor is forgotten.
abbrev Balanced : Marks → List Call → Marks → List Call → Type 0
Balanced m l m' l' =
    (replies l' + marked m ≡ replies l + marked m')
    × ((k : String) → has k m ≡ true → has k m' ≡ true)

abbrev pub Answered : Running → Running → Type 0
Answered r u = Balanced r.task.resp_is_ok r.calls u.task.resp_is_ok u.calls

pub Answered-trans : (r u v : Running) → Answered r u → Answered u v → Answered r v
Answered-trans r u v p q = (omega (arith, p.0, q.0), λ k h. q.1 k (p.1 k h))

reply_one-Balanced :
    (resp : BackendResp) (d : Request) (m : Marks) (l : List Call)
    → Balanced m l (reply_one resp d m l).0 (reply_one resp d m l).1
unfolding reply_one replies
reply_one-Balanced resp d m l =
    if_cases (λ (p : Marks × List Call). Balanced m l p.0 p.1) (is_timeout d)
      (λ _. (refl, λ k h. h))
      (λ _.
        if_cases (λ (p : Marks × List Call). Balanced m l p.0 p.1) (is_ok (mimic_host d) m)
          (λ _. (refl, λ k h. h))
          (λ n. (
            omega (arith, marked-update (mimic_host d) m n),
            λ k h. has-update (mimic_host d) k m h,
          )))

reply_each-Balanced :
    (resp : BackendResp) (ds : List Request) (m : Marks) (l : List Call)
    → Balanced m l (reply_each resp ds m l).0 (reply_each resp ds m l).1
unfolding reply_each
reply_each-Balanced resp [] m l = (refl, λ k h. h)
reply_each-Balanced resp (d ∷ ds) m l =
    let p = reply_one-Balanced resp d m l in
    let q = reply_each-Balanced resp ds (reply_one resp d m l).0 (reply_one resp d m l).1 in
    (omega (arith, p.0, q.0), λ k h. q.1 k (p.1 k h))

-- The end of a task answers nobody.
abbrev Silent : Running → Running → Type 0
Silent r u = (u.task.resp_is_ok ≡ r.task.resp_is_ok) × (replies u.calls ≡ replies r.calls)

Silent-trans : (r u v : Running) → Silent r u → Silent u v → Silent r v
Silent-trans r u v p q = (q.0 ∙ p.0, q.1 ∙ p.1)

pub Silent-Answered : (r u : Running) → Silent r u → Answered r u
Silent-Answered r u p =
    (omega (arith, p.1, ap marked p.0), λ k h. subst (λ m. has k m ≡ true) (sym p.0) h)

send_to_schedule-Silent : (env : Env) (r : Running) → Silent r (send_to_schedule env r)
unfolding send_to_schedule replies
send_to_schedule-Silent env r =
    let p =
      count_errors (convert_from_cincer_or_neutron env.split) env.error_count r.task.judge_data_list
        r.task.analyse_error_detail r.judge_err_num in
    if_cases (Silent r) (size r.task.analyse_error_detail == 0) (λ _. (refl, refl))
      (λ _. if_cases (Silent r) (length p.1 == 0) (λ _. (refl, refl)) (λ _. (refl, refl)))

analyse_judge_result-Silent : (env : Env) (r : Running) → Silent r (analyse_judge_result env r)
unfolding analyse_judge_result
analyse_judge_result-Silent env r =
    ite_cases (Silent r) (String_discrete r.task.ret_group_key "") (λ _. (refl, refl))
      (λ _. send_to_schedule-Silent env (record r { task = with_details r.task }))

clear_task-Silent : (r : Running) → Silent r (clear_task r)
unfolding clear_task replies
clear_task-Silent r = if_cases (Silent r) r.listed (λ _. (refl, refl)) (λ _. (refl, refl))

pub finish-Silent : (env : Env) (r : Running) → Silent r (finish env r)
unfolding finish clear_new_data replies
finish-Silent env r =
    let u = analyse_judge_result env r in
    let cleared = clear_new_data u in
    Silent-trans r u (clear_task cleared) (analyse_judge_result-Silent env r)
      (Silent-trans u cleared (clear_task cleared) (refl, refl) (clear_task-Silent cleared))

pub respond_all-Answered : (env : Env) (r : Running) → Answered r (respond_all env r)
unfolding respond_all
respond_all-Answered env r =
    let t = r.task in
    let u = replied r in
    let q = reply_each-Balanced t.backend_resp (values t.judge_data_list) t.resp_is_ok r.calls in
    if_cases (Answered r) (is_to_clean u.task)
      (λ _.
        Answered-trans r u (finish env u) q
          (Silent-Answered u (finish env u) (finish-Silent env u)))
      (λ _. q)

announced-resp_is_ok : (b : Bool) (t : Task) → (announced b t).resp_is_ok ≡ t.resp_is_ok
announced-resp_is_ok true t = refl
announced-resp_is_ok false t = refl

pub response_to_frond_req-Answered :
    (env : Env) (b : Bool) (r : Running) → Answered r (response_to_frond_req env b r)
unfolding response_to_frond_req
response_to_frond_req-Answered env b r =
    let u : Running = record r { task = announced b r.task } in
    let q = Silent-Answered r u (announced-resp_is_ok b r.task, refl) in
    if_cases (Answered r) (not u.task.backend_resp_come) (λ _. q)
      (λ _.
        if_cases (Answered r) (not u.listed) (λ _. q)
          (λ _. Answered-trans r u (respond_all env u) q (respond_all-Answered env u)))

pub goto_err_backend_resp-Answered :
    (env : Env) (r : Running) → Answered r (goto_err_backend_resp env r)
unfolding goto_err_backend_resp err_backend_resp
goto_err_backend_resp-Answered env r =
    if_cases (Answered r) env.flags.is_horizon
      (λ _. response_to_frond_req-Answered env false (record r { task = err_backend_resp r.task }))
      (λ _. (refl, λ k h. h))

pub backend_resp_cb-Answered :
    (env : Env) (resp : BackendResp) (r : Running) → Answered r (backend_resp_cb env resp r)
unfolding backend_resp_cb store_backend_resp
backend_resp_cb-Answered env resp r =
    if_cases (Answered r) env.flags.is_horizon
      (λ _.
        response_to_frond_req-Answered env false
          (record r { task = store_backend_resp resp r.task }))
      (λ _. (refl, λ k h. h))

pub backend_resp_err_cb-Answered :
    (env : Env) (resp : BackendResp) (r : Running) → Answered r (backend_resp_err_cb env resp r)
unfolding backend_resp_err_cb
backend_resp_err_cb-Answered env resp r =
    if_cases (Answered r) (not (resp.status == 0)) (λ _. backend_resp_cb-Answered env resp r)
      (λ _. goto_err_backend_resp-Answered env r)

request_horizon-Answered :
    (o : Outcome) (env : Env) (d : Request) (r : Running) → Answered r (request_horizon o env d r)
unfolding request_horizon replies
request_horizon-Answered no_connection env d r = goto_err_backend_resp-Answered env r
request_horizon-Answered no_request env d r = goto_err_backend_resp-Answered env r
request_horizon-Answered not_sent env d r = goto_err_backend_resp-Answered env r
request_horizon-Answered sent env d r = (refl, λ k h. h)

request_controller-Answered :
    (o : Option (String × ℕ)) (d : Request) (r : Running) → Answered r (request_controller o d r)
unfolding request_controller replies
request_controller-Answered none d r = (refl, λ k h. h)
request_controller-Answered (some (ip, port)) d r = (refl, λ k h. h)

send_result-Answered : (env : Env) (d : Request) (r : Running) → Answered r (send_result env d r)
unfolding send_result
send_result-Answered env d r =
    if_cases (Answered r) (not (has "backend" d.req_headers))
      (λ _. goto_err_backend_resp-Answered env r)
      (λ _.
        if_cases (Answered r) env.flags.is_horizon
          (λ _. request_horizon-Answered (env.backend d) env d r)
          (λ _.
            if_cases (Answered r) env.flags.is_controller
              (λ _. request_controller-Answered (env.split (at "" "backend" d.req_headers)) d r)
              (λ _. (refl, λ k h. h))))

send_if-Answered : (env : Env) (o : Option Request) (r : Running) → Answered r (send_if env o r)
unfolding send_if
send_if-Answered env none r = (refl, λ k h. h)
send_if-Answered env (some d) r = send_result-Answered env d r

pub send_to_backend-Answered : (env : Env) (r : Running) → Answered r (send_to_backend env r)
unfolding send_to_backend
send_to_backend-Answered env r = send_if-Answered env r.task.judge_result r
