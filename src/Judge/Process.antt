-- ===== src/Judge/Process.antt =====
-- src/judge_task.cpp: processJudgeData and judgeTimeoutCb.
use openstack_mimic_componen.Base.{
  ℕ, ◌+◌, Bool, true, false, not, ◌&&◌, String, String_discrete, List, [], ◌∷◌, some, if◌then◌else◌,
  ite, ltb, leb, ◌==◌, ◌+s◌, to_string, length, filter, any, map, includes,
}
use openstack_mimic_componen.Map.{text_key, values, size, emplace}
use openstack_mimic_componen.Judge.State.{Request, null_request, Task, call, Running, start_timer}
use openstack_mimic_componen.Judge.Decide.{judge_data, default_timeout}
use openstack_mimic_componen.Judge.Analyse.{Env, finish}
use openstack_mimic_componen.Judge.Respond.{response_to_frond_req, send_to_backend, time_out_body}

-- `serviceName.find("horizon") != npos`
abbrev pub horizon_service : Env → Bool
horizon_service env = includes env.service_name "horizon"

-- The first request is kept, and starts the timer.
unfoldable pub add_request : Request → String → Running → Running
add_request d key r =
    let list = emplace key d r.task.judge_data_list in
    let added : Running = record r { task = record r.task { judge_data_list = list } } in
    if size list == 1
    then call start_timer
        (record r { task = record r.task { judge_data_list = list; first_req_data = some d } })
    else added

-- The judgement of the request under `key`; its result is sent to the backend.
unfoldable pub judge_and_send : Env → String → Running → Running
judge_and_send env key r =
    let (ret, judged) = judge_data env.comparer (env.random key) key r.task in
    let stored : Running = record r { task = judged } in
    if ret == 1 then send_to_backend env stored else stored

abbrev pub counted : Running → Running
counted r = record r { task = record r.task { judge_num_ctr = r.task.judge_num_ctr + 1 } }

-- What follows the judgement: the answers of horizon, or the end of a task of another service.
unfoldable pub after_judging : Env → Running → Running
after_judging env r =
    if not (horizon_service env) && ltb r.task.judge_num_ctr (length r.task.server_array)
    then r
    else if horizon_service env
    then response_to_frond_req env true r
    else if (r.task.judge_num_ctr == length r.task.server_array) && r.task.tcpsendend
    then finish env r
    else r

unfoldable pub process_judge_data : Env → Request → String → Running → Running
process_judge_data env d key r =
    after_judging env (counted (judge_and_send env key (add_request d key r)))

-- The request that stands for one that did not come.
unfoldable pub timeout_request : (ptr : ℕ) → String → ℕ → Task → Request
timeout_request ptr host count t = record null_request {
  ptr = ptr;
  sid = t.sid;
  urlfull = default_timeout;
  urlall = default_timeout;
  req_headers = ("Content-Type", "application/json") ∷ [];
  content_type = "application/json";
  body = time_out_body;
  body_len = 34;
  key = t.sid +s "-" +s host +s "-" +s to_string count;
  exec_addr = host;
}

abbrev pub same_text : String → String → Bool
same_text a b = ite (String_discrete a b) true false

-- The servers of the array, in its order, that none of the requests came from.
unfoldable pub not_come : (come : List String) → (servers : List String) → List String
not_come come servers = filter (λ s. not (any (same_text s) come)) servers

abbrev pub process_timeout : Env → (ptr : ℕ → ℕ) → String → ℕ → Running → Running
process_timeout env ptr host count r =
    let d = timeout_request (ptr count) host count r.task in process_judge_data env d d.key r

-- The loop over the missing servers; `count` is `coutp` before the turn, `ptr` the address that `new`
-- gives in it.
unfoldable pub timeout_each : Env → (ptr : ℕ → ℕ) → List String → ℕ → Running → Running
timeout_each env ptr [] count r = r
timeout_each env ptr (host ∷ hosts) count r =
    let done = process_timeout env ptr host (count + 1) r in
    let later = timeout_each env ptr hosts (count + 1) done in
    if leb (length done.task.server_array) (count + 1) then done else later

unfoldable pub judge_timeout_cb : Env → (ptr : ℕ → ℕ) → Running → Running
judge_timeout_cb env ptr r =
    let come = map (λ d. d.exec_addr) (values r.task.judge_data_list) in
    if size r.task.judge_data_list == length r.task.server_array
    then r
    else timeout_each env ptr (not_come come r.task.server_array) (length come) r
