-- ===== src/Judge/Heard.antt =====
-- src/judge_task.cpp and src/mimic_jthread.cpp: in the life of a task every executor is heard and
-- answered at most once.
use openstack_mimic_componen.Base.{
  ℕ, ◌+◌, ◌≡◌, refl, sym, subst, ap, ◌∙◌, inl, inr, true, not, ◌&&◌, String, List, [], ◌∷◌,
  if_cases, ltb, leb, is_some, ◌==◌, length, map, arith, Option-cases,
}
use openstack_mimic_componen.Map.{text_key, number_key, size, has, at, values, emplace}
use openstack_mimic_componen.Map.Laws.{find-emplace}
use openstack_mimic_componen.Suber.{Suber}
use openstack_mimic_componen.Judge.State.{Request, Task, Running}
use openstack_mimic_componen.Judge.Compare.{Comparer}
use openstack_mimic_componen.Judge.Decide.{
  judge_data, by_rules, by_time_or_weight, majority, time_or_weight_judge, place_request,
}
use openstack_mimic_componen.Judge.Decide.Once.{place_request_frame}
use openstack_mimic_componen.Judge.Analyse.{Env, finish}
use openstack_mimic_componen.Judge.Respond.{mimic_host, send_to_backend}
use openstack_mimic_componen.Judge.Respond.Marks.{marked, marked-emplace_no, has-emplace}
use openstack_mimic_componen.Judge.Respond.Replies.{
  Answered, Answered-trans, Silent-Answered, replies, finish-Silent, response_to_frond_req-Answered,
  send_to_backend-Answered, backend_resp_cb-Answered, backend_resp_err_cb-Answered,
}
use openstack_mimic_componen.Judge.Process.{
  horizon_service, add_request, judge_and_send, counted, after_judging, process_judge_data,
  process_timeout, timeout_request, timeout_each, judge_timeout_cb, not_come,
}
use openstack_mimic_componen.Judge.Thread.{
  is_refused, joined, keyed, admit, new_task, add_server, add_servers, init_task_from_fist_req,
}
use openstack_mimic_componen.Judge.Life.{
  Step, request, timer, answer, failure, Reach, here, next, fresh,
}

abbrev SameMarks : Task → Task → Type 0
SameMarks t u = u.resp_is_ok ≡ t.resp_is_ok

by_time_or_weight-resp_is_ok : (random : ℕ) (t : Task) → SameMarks t (by_time_or_weight random t).1
unfolding by_time_or_weight
by_time_or_weight-resp_is_ok random t =
    if_cases (λ (r : ℕ × Task). SameMarks t r.1) (size t.judge_data_list == t.exec_num)
      (λ _. elim (Option-cases (time_or_weight_judge random t)) [
        | inl e ↦ rw e
        | inr (d, e) ↦ rw e
      ])
      (λ _. refl)

by_rules-resp_is_ok : (random : ℕ) (t : Task) → SameMarks t (by_rules random t).1
unfolding by_rules
by_rules-resp_is_ok random t =
    if_cases (λ (r : ℕ × Task). SameMarks t r.1) (is_some t.judge_result) (λ _. refl)
      λ _. elim (Option-cases (majority t.exec_num (values t.judge_group))) [
        | inl e ↦ rw e (by_time_or_weight-resp_is_ok random t)
        | inr (d, e) ↦ rw e
      ]

judge_data-resp_is_ok :
    (c : Comparer) (random : ℕ) (key : String) (t : Task)
    → SameMarks t (judge_data c random key t).1
unfolding judge_data
judge_data-resp_is_ok c random key t =
    if_cases (λ (r : ℕ × Task). SameMarks t r.1)
      ((size t.judge_data_list == 1) && (t.exec_num == 1)) (λ _. refl)
      λ _.
        if_cases (λ (r : ℕ × Task). SameMarks t r.1) (size t.judge_data_list == 1) (λ _. refl)
          λ _.
            let (g, r, p) = place_request_frame c key t in
            by_rules-resp_is_ok random (place_request c key t) ∙ ap (λ (u : Task). u.resp_is_ok) p

judge_and_send-Answered :
    (env : Env) (key : String) (r : Running) → Answered r (judge_and_send env key r)
unfolding judge_and_send
judge_and_send-Answered env key r =
    let p = judge_data env.comparer (env.random key) key r.task in
    let u : Running = record r { task = p.1 } in
    let q =
      Silent-Answered r u (judge_data-resp_is_ok env.comparer (env.random key) key r.task, refl) in
    if_cases (Answered r) (p.0 == 1)
      (λ _. Answered-trans r u (send_to_backend env u) q (send_to_backend-Answered env u)) (λ _. q)

after_judging-Answered : (env : Env) (r : Running) → Answered r (after_judging env r)
unfolding after_judging
after_judging-Answered env r =
    if_cases (Answered r)
      (not (horizon_service env) && ltb r.task.judge_num_ctr (length r.task.server_array))
      (λ _. (refl, λ k h. h))
      (λ _.
        if_cases (Answered r) (horizon_service env) (λ _. response_to_frond_req-Answered env true r)
          (λ _.
            if_cases (Answered r)
              ((r.task.judge_num_ctr == length r.task.server_array) && r.task.tcpsendend)
              (λ _. Silent-Answered r (finish env r) (finish-Silent env r))
              (λ _. (refl, λ k h. h))))

add_request-Answered : (d : Request) (key : String) (r : Running) → Answered r (add_request d key r)
unfolding add_request replies
add_request-Answered d key r =
    if_cases (Answered r) (size (emplace key d r.task.judge_data_list) == 1) (λ _. (refl, λ k h. h))
      (λ _. (refl, λ k h. h))

process_judge_data-Answered :
    (env : Env) (d : Request) (key : String) (r : Running)
    → Answered r (process_judge_data env d key r)
unfolding process_judge_data
process_judge_data-Answered env d key r =
    let u = add_request d key r in
    let v = judge_and_send env key u in
    let w = after_judging env (counted v) in
    Answered-trans r u w (add_request-Answered d key r) (
      Answered-trans u v w (judge_and_send-Answered env key u)
        (after_judging-Answered env (counted v)))

timeout_each-Answered :
    (env : Env) (ptr : ℕ → ℕ) (hosts : List String) (count : ℕ) (r : Running)
    → Answered r (timeout_each env ptr hosts count r)
unfolding timeout_each
timeout_each-Answered env ptr [] count r = (refl, λ k h. h)
timeout_each-Answered env ptr (host ∷ hosts) count r =
    let u = process_timeout env ptr host (count + 1) r in
    let d = timeout_request (ptr (count + 1)) host (count + 1) r.task in
    let q = process_judge_data-Answered env d d.key r in
    if_cases (Answered r) (leb (length u.task.server_array) (count + 1)) (λ _. q)
      (λ _.
        Answered-trans r u (timeout_each env ptr hosts (count + 1) u) q
          (timeout_each-Answered env ptr hosts (count + 1) u))

judge_timeout_cb-Answered :
    (env : Env) (ptr : ℕ → ℕ) (r : Running) → Answered r (judge_timeout_cb env ptr r)
unfolding judge_timeout_cb
judge_timeout_cb-Answered env ptr r =
    let come = map (λ d. d.exec_addr) (values r.task.judge_data_list) in
    if_cases (Answered r) (size r.task.judge_data_list == length r.task.server_array)
      (λ _. (refl, λ k h. h))
      (λ _. timeout_each-Answered env ptr (not_come come r.task.server_array) (length come) r)

admit-Answered : (env : Env) (d : Request) (r : Running) → Answered r (admit env d r)
unfolding admit
admit-Answered env d r =
    let host = mimic_host d in
    let u : Running = record r { task = joined d r.task } in
    Answered-trans r u (admit env d r)
      (
        ap (λ n. replies r.calls + n) (sym (marked-emplace_no host r.task.resp_is_ok)),
        λ k h. has-emplace host k "no" r.task.resp_is_ok h,
      )
      (process_judge_data-Answered env (keyed d r.task) (keyed d r.task).key u)

-- The executor of a request that was judged is known.
admit-has :
    (env : Env) (d : Request) (r : Running)
    → has (mimic_host d) (admit env d r).task.resp_is_ok ≡ true
unfolding admit
admit-has env d r =
    let host = mimic_host d in
    let u : Running = record r { task = joined d r.task } in
    (process_judge_data-Answered env (keyed d r.task) (keyed d r.task).key u).1 host
      (ground (arith, find-emplace host host "no" r.task.resp_is_ok))

Step-Answered : {r u : Running} → Step r u → Answered r u
Step-Answered (request env d r _ _) = admit-Answered env d r
Step-Answered (timer env ptr r _ _) = judge_timeout_cb-Answered env ptr r
Step-Answered (answer env resp r _) = backend_resp_cb-Answered env resp r
Step-Answered (failure env resp r _) = backend_resp_err_cb-Answered env resp r

Reach-Answered : {r u : Running} → Reach r u → Answered r u
Reach-Answered {r} here = (refl, λ k h. h)
Reach-Answered {r} {u} (next {u = v} path step) =
    Answered-trans r v u (Reach-Answered path) (Step-Answered step)

add_servers-resp_is_ok : (s : Suber) (l : List String) (t : Task) → SameMarks t (add_servers s l t)
unfolding add_servers add_server
add_servers-resp_is_ok s [] t = refl
add_servers-resp_is_ok s (a ∷ l) t = add_servers-resp_is_ok s l (add_server s a t)

-- In the life of a task as many answers were sent to the executors as executors are marked as answered.
pub replies-marked :
    (servers : String → List String) (suber : Suber) (d : Request) {r : Running}
    → Reach (fresh servers suber d) r
    → replies r.calls ≡ marked r.task.resp_is_ok
unfolding init_task_from_fist_req replies marked
replies-marked servers suber d path =
    let l = servers (at "" "Server-Array" d.req_headers) in
    let none_yet = ap marked (add_servers-resp_is_ok suber l (new_task d.sid d.exec_num)) in
    omega (arith, none_yet, (Reach-Answered path).0)

-- After the request of an executor was judged, every later request of that executor for the same task
-- is turned away, whatever happens in between.
pub admit-is_refused :
    (env : Env) (d e : Request) (r : Running) {u : Running}
    → Reach (admit env d r) u
    → mimic_host e ≡ mimic_host d
    → is_refused e u.task ≡ true
unfolding is_refused
admit-is_refused env d e r {u} path same =
    let heard = (Reach-Answered path).1 (mimic_host d) (admit-has env d r) in
    ground (arith, subst (λ h. has h u.task.resp_is_ok ≡ true) (sym same) heard)
