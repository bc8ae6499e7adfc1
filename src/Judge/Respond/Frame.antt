-- ===== src/Judge/Respond/Frame.antt =====
-- src/judge_task.cpp: what the answers to the executors leave alone, and what is sent to the backend.
use openstack_mimic_componen.Base.{
  ℕ, ◌+◌, ◌≤◌, ◌≡◌, refl, ◌∙◌, Bool, true, false, not, String, String_discrete, List, [], ◌∷◌,
  Option, none, some, if_cases, ite_cases, ◌==◌, length, arith,
}
use openstack_mimic_componen.Map.{Map, text_key, values, size, has, at}
use openstack_mimic_componen.Judge.State.{
  Request, BackendResp, Task, Call, Running, start_timer, request_backend, tcp_backend, reply,
  record_judge_log, report_error, delete_requests, clear_task as clear_call,
}
use openstack_mimic_componen.Judge.Decide.{is_timeout}
use openstack_mimic_componen.Judge.Analyse.{
  Env, Outcome, no_connection, no_request, not_sent, sent, send_to_schedule, analyse_judge_result,
  clear_new_data, clear_task, finish, with_details, count_errors, convert_from_cincer_or_neutron,
}
use openstack_mimic_componen.Judge.Respond.{
  mimic_host, is_ok, reply_one, reply_each, is_to_clean, announced, respond_all,
  response_to_frond_req, err_backend_resp, goto_err_backend_resp, store_backend_resp,
  backend_resp_cb, backend_resp_err_cb, request_horizon, request_controller, send_result, send_if,
  send_to_backend,
}

-- What the judgement of a task depends on.
abbrev pub Core : Type 0
Core = ℕ × List String × ℕ × Option Request × Option Request × Map String Request

abbrev pub core : Task → Core
core t = (
  t.exec_num, t.server_array, t.judge_num_ctr, t.first_req_data, t.judge_result, t.judge_data_list,
)

abbrev pub count_send : Call → ℕ → ℕ
count_send start_timer n = n
count_send (request_backend d) n = n + 1
count_send (tcp_backend ip port body) n = n + 1
count_send (reply fd resp) n = n
count_send (record_judge_log m) n = n
count_send (report_error l) n = n
count_send (delete_requests l) n = n
count_send (clear_call sid) n = n

-- How often the backend was called.
unfoldable pub sends : List Call → ℕ
sends [] = 0
sends (c ∷ l) = count_send c (sends l)

-- Neither the judgement nor the calls of the backend change.
abbrev pub Quiet : Running → Running → Type 0
Quiet r u = (core u.task ≡ core r.task) × (sends u.calls ≡ sends r.calls)

Quiet-trans : (r u v : Running) → Quiet r u → Quiet u v → Quiet r v
Quiet-trans r u v p q = (q.0 ∙ p.0, q.1 ∙ p.1)

send_to_schedule-Quiet : (env : Env) (r : Running) → Quiet r (send_to_schedule env r)
unfolding send_to_schedule sends
send_to_schedule-Quiet env r =
    let p =
      count_errors (convert_from_cincer_or_neutron env.split) env.error_count r.task.judge_data_list
        r.task.analyse_error_detail r.judge_err_num in
    if_cases (Quiet r) (size r.task.analyse_error_detail == 0) (λ _. (refl, refl))
      (λ _. if_cases (Quiet r) (length p.1 == 0) (λ _. (refl, refl)) (λ _. (refl, refl)))

analyse_judge_result-Quiet : (env : Env) (r : Running) → Quiet r (analyse_judge_result env r)
unfolding analyse_judge_result
analyse_judge_result-Quiet env r =
    ite_cases (Quiet r) (String_discrete r.task.ret_group_key "") (λ _. (refl, refl))
      (λ _. send_to_schedule-Quiet env (record r { task = with_details r.task }))

clear_task-Quiet : (r : Running) → Quiet r (clear_task r)
unfolding clear_task sends
clear_task-Quiet r = if_cases (Quiet r) r.listed (λ _. (refl, refl)) (λ _. (refl, refl))

pub finish-Quiet : (env : Env) (r : Running) → Quiet r (finish env r)
unfolding finish clear_new_data sends
finish-Quiet env r =
    let u = analyse_judge_result env r in
    let cleared = clear_new_data u in
    Quiet-trans r u (clear_task cleared) (analyse_judge_result-Quiet env r)
      (Quiet-trans u cleared (clear_task cleared) (refl, refl) (clear_task-Quiet cleared))

sends-reply_one :
    (resp : BackendResp) (d : Request) (m : Map String String) (l : List Call)
    → sends (reply_one resp d m l).1 ≡ sends l
unfolding reply_one sends
sends-reply_one resp d m l =
    if_cases (λ (p : Map String String × List Call). sends p.1 ≡ sends l) (is_timeout d) (λ _. refl)
      (λ _.
        if_cases (λ (p : Map String String × List Call). sends p.1 ≡ sends l)
          (is_ok (mimic_host d) m) (λ _. refl) (λ _. refl))

sends-reply_each :
    (resp : BackendResp) (ds : List Request) (m : Map String String) (l : List Call)
    → sends (reply_each resp ds m l).1 ≡ sends l
unfolding reply_each
sends-reply_each resp [] m l = refl
sends-reply_each resp (d ∷ ds) m l =
    sends-reply_each resp ds (reply_one resp d m l).0 (reply_one resp d m l).1
    ∙ sends-reply_one resp d m l

-- The state after the loop of the replies.
abbrev pub replied : Running → Running
replied r =
    let (m, l) =
      reply_each r.task.backend_resp (values r.task.judge_data_list) r.task.resp_is_ok r.calls in
    record r { task = record r.task { resp_is_ok = m }; calls = l }

respond_all-Quiet : (env : Env) (r : Running) → Quiet r (respond_all env r)
unfolding respond_all
respond_all-Quiet env r =
    let q : Quiet r (replied r) = (
      refl,
      sends-reply_each r.task.backend_resp (values r.task.judge_data_list) r.task.resp_is_ok
          r.calls,
    ) in
    if_cases (Quiet r) (is_to_clean (replied r).task)
      (λ _. Quiet-trans r (replied r) (finish env (replied r)) q (finish-Quiet env (replied r)))
      (λ _. q)

announced-core : (b : Bool) (t : Task) → core (announced b t) ≡ core t
announced-core true t = refl
announced-core false t = refl

pub response_to_frond_req-Quiet :
    (env : Env) (b : Bool) (r : Running) → Quiet r (response_to_frond_req env b r)
unfolding response_to_frond_req
response_to_frond_req-Quiet env b r =
    let u : Running = record r { task = announced b r.task } in
    let q : Quiet r u = (announced-core b r.task, refl) in
    if_cases (Quiet r) (not u.task.backend_resp_come) (λ _. q)
      (λ _.
        if_cases (Quiet r) (not u.listed) (λ _. q)
          (λ _. Quiet-trans r u (respond_all env u) q (respond_all-Quiet env u)))

pub goto_err_backend_resp-Quiet : (env : Env) (r : Running) → Quiet r (goto_err_backend_resp env r)
unfolding goto_err_backend_resp err_backend_resp
goto_err_backend_resp-Quiet env r =
    if_cases (Quiet r) env.flags.is_horizon
      (λ _. response_to_frond_req-Quiet env false (record r { task = err_backend_resp r.task }))
      (λ _. (refl, refl))

pub backend_resp_cb-Quiet :
    (env : Env) (resp : BackendResp) (r : Running) → Quiet r (backend_resp_cb env resp r)
unfolding backend_resp_cb store_backend_resp
backend_resp_cb-Quiet env resp r =
    if_cases (Quiet r) env.flags.is_horizon
      (λ _.
        response_to_frond_req-Quiet env false (record r { task = store_backend_resp resp r.task }))
      (λ _. (refl, refl))

pub backend_resp_err_cb-Quiet :
    (env : Env) (resp : BackendResp) (r : Running) → Quiet r (backend_resp_err_cb env resp r)
unfolding backend_resp_err_cb
backend_resp_err_cb-Quiet env resp r =
    if_cases (Quiet r) (not (resp.status == 0)) (λ _. backend_resp_cb-Quiet env resp r)
      (λ _. goto_err_backend_resp-Quiet env r)

-- The judgement does not change, and the backend is called once more at most.
abbrev pub AtMostOneMore : Running → Running → Type 0
AtMostOneMore r u = (core u.task ≡ core r.task) × (sends u.calls ≤ sends r.calls + 1)

weaken : (r u : Running) → Quiet r u → AtMostOneMore r u
weaken r u q = (q.0, omega (arith, q.1))

request_horizon_once :
    (o : Outcome) (env : Env) (d : Request) (r : Running)
    → AtMostOneMore r (request_horizon o env d r)
unfolding request_horizon sends
request_horizon_once no_connection env d r =
    weaken r (goto_err_backend_resp env r) (goto_err_backend_resp-Quiet env r)
request_horizon_once no_request env d r =
    weaken r (goto_err_backend_resp env r) (goto_err_backend_resp-Quiet env r)
request_horizon_once not_sent env d r =
    weaken r (goto_err_backend_resp env r) (goto_err_backend_resp-Quiet env r)
request_horizon_once sent env d r = (refl, omega arith)

request_controller_once :
    (o : Option (String × ℕ)) (d : Request) (r : Running)
    → AtMostOneMore r (request_controller o d r)
unfolding request_controller sends
request_controller_once none d r = (refl, omega arith)
request_controller_once (some (ip, port)) d r = (refl, omega arith)

send_result_once : (env : Env) (d : Request) (r : Running) → AtMostOneMore r (send_result env d r)
unfolding send_result
send_result_once env d r =
    if_cases (AtMostOneMore r) (not (has "backend" d.req_headers))
      (λ _. weaken r (goto_err_backend_resp env r) (goto_err_backend_resp-Quiet env r))
      (λ _.
        if_cases (AtMostOneMore r) env.flags.is_horizon
          (λ _. request_horizon_once (env.backend d) env d r)
          (λ _.
            if_cases (AtMostOneMore r) env.flags.is_controller
              (λ _. request_controller_once (env.split (at "" "backend" d.req_headers)) d r)
              (λ _. (refl, omega arith))))

send_if_once : (env : Env) (o : Option Request) (r : Running) → AtMostOneMore r (send_if env o r)
unfolding send_if
send_if_once env none r = (refl, omega arith)
send_if_once env (some d) r = send_result_once env d r

pub send_to_backend_once : (env : Env) (r : Running) → AtMostOneMore r (send_to_backend env r)
unfolding send_to_backend
send_to_backend_once env r = send_if_once env r.task.judge_result r
