-- ===== src/Judge/Thread.antt =====
-- src/mimic_jthread.cpp: doJudge, initTaskFromFistReq, sendToFrontNoJudgeError and jthreadReadCb.
-- `servers` is what jsoncpp reads of a Server-Array: the addresses, in its order.
use openstack_mimic_componen.Base.{
  ℕ, ◌+◌, Bool, true, false, not, ◌||◌, String, List, [], ◌∷◌, ◌++◌, none, some, if◌then◌else◌,
  ◌==◌, ◌+s◌, to_string, length, any,
}
use openstack_mimic_componen.Map.{Map, text_key, size, has, at, find, emplace, update, erase}
use openstack_mimic_componen.Schedule.State.{Executor, default_executor}
use openstack_mimic_componen.Suber.{Suber}
use openstack_mimic_componen.Judge.State.{
  Request, BackendResp, Task, Call, Running, reply, delete_requests,
}
use openstack_mimic_componen.Judge.Analyse.{Env}
use openstack_mimic_componen.Judge.Respond.{mimic_host, time_out_body}
use openstack_mimic_componen.Judge.Process.{same_text, process_judge_data}

-- A thread with its tasks and its subscriber, and the error counts of its service.
pub record Jthread : Type 0 where
  pub task_list : Map String Task
  pub suber : Suber
  pub judge_err_num : Map String ℕ
  pub calls : List Call

-- A JudgeTask as its constructor leaves it.
abbrev pub new_task : String → ℕ → Task
new_task sid exec_num = record {
  sid = sid;
  exec_num = exec_num;
  server_array = [];
  backend_resp_come = false;
  tcpsendend = false;
  is_resp_stared = false;
  judge_num = 0;
  judge_num_ctr = 0;
  first_req_data = none;
  backend_resp = record { headers = []; status = 0; body = ""; body_len = 0 };
  judge_rule = "";
  judge_type = "";
  urlfull = "";
  judge_result = none;
  judge_data_list = [];
  judge_group = [];
  cmp_ret_record = [];
  analyse_error_detail = [];
  ret_group_key = "";
  failcount_list = [];
  uptimelist = [];
  resp_is_ok = [];
}

-- The executor that the subscriber knows under the address.
abbrev pub known : Suber → String → Executor
known s addr = at default_executor addr s.all_exec_list

-- One turn of the loop over the Server-Array.
unfoldable pub add_server : Suber → String → Task → Task
add_server s addr t = record t {
  failcount_list = emplace addr (known s addr).fail_count t.failcount_list;
  uptimelist = emplace addr (known s addr).active_time t.uptimelist;
  server_array = t.server_array ++ (addr ∷ []);
}

unfoldable pub add_servers : Suber → List String → Task → Task
add_servers s [] t = t
add_servers s (addr ∷ l) t = add_servers s l (add_server s addr t)

unfoldable pub init_task_from_fist_req :
    (servers : String → List String) → Suber → Map String String → Task → Task
init_task_from_fist_req servers s headers t =
    record (add_servers s (servers (at "" "Server-Array" headers)) t) {
      judge_rule = s.policys.judge_rule;
    }

-- `allExecList[addr]` enters an address that the subscriber does not know.
unfoldable pub enter_servers : List String → Map String Executor → Map String Executor
enter_servers [] m = m
enter_servers (addr ∷ l) m = enter_servers l (emplace addr default_executor m)

abbrev pub no_judge_resp : Request → BackendResp
no_judge_resp d = record {
  headers =
      ("Content-Type", "application/json") ∷ ("mimic-sn", to_string d.sn) ∷ ("sid", d.sid) ∷ [];
  status = 504;
  body = time_out_body;
  body_len = 34;
}

-- The request is answered with a 504 and deleted.
unfoldable pub send_to_front_no_judge_error : Request → Jthread → Jthread
send_to_front_no_judge_error d j = record j {
  calls = delete_requests (d.ptr ∷ []) ∷ reply d.replyfd (no_judge_resp d) ∷ j.calls;
}

-- The task of the request's sid, which the first request makes.
unfoldable pub task_for : (servers : String → List String) → Request → Jthread → Task
task_for servers d j = elim (find d.sid j.task_list) [
  | some t ↦ t
  | none ↦ init_task_from_fist_req servers j.suber d.req_headers (new_task d.sid d.exec_num)
]

-- The subscriber after the task is found or made.
unfoldable pub suber_for : (servers : String → List String) → Request → Jthread → Suber
suber_for servers d j = elim (find d.sid j.task_list) [
  | some t ↦ j.suber
  | none ↦ record j.suber {
    all_exec_list =
        enter_servers (servers (at "" "Server-Array" d.req_headers)) j.suber.all_exec_list;
  }
]

-- What a task leaves of its thread: the task under its sid, unless it is cleared.
unfoldable pub put_back : String → Running → Jthread → Jthread
put_back sid r j = record j {
  task_list =
      if r.listed then update r.task sid (λ _. r.task) j.task_list else erase sid j.task_list;
  judge_err_num = r.judge_err_num;
  calls = r.calls;
}

abbrev pub start : Jthread → Task → Running
start j t = record { task = t; listed = true; judge_err_num = j.judge_err_num; calls = j.calls }

-- Whether doJudge turns the request away.
unfoldable pub is_refused : Request → Task → Bool
is_refused d t =
    not (any (same_text (mimic_host d)) t.server_array)
    || (size t.judge_data_list == length t.server_array)
    || has (mimic_host d) t.resp_is_ok

abbrev pub joined : Request → Task → Task
joined d t = record t { resp_is_ok = emplace (mimic_host d) "no" t.resp_is_ok }

-- `judgeData->key + "-" + std::to_string(task->judgeDataList.size() + 1)`
abbrev pub keyed : Request → Task → Request
keyed d t = record d { key = d.key +s "-" +s to_string (size t.judge_data_list + 1) }

-- The judgement of a request that is not turned away.
unfoldable pub admit : Env → Request → Running → Running
admit env d r =
    let d' = keyed d r.task in
    process_judge_data env d' d'.key (record r { task = joined d r.task })

unfoldable pub do_judge : Env → (servers : String → List String) → Request → Jthread → Jthread
do_judge env servers d j =
    let t = task_for servers d j in
    let created : Jthread = record j {
      task_list = emplace d.sid t j.task_list;
      suber = suber_for servers d j;
    } in
    if is_refused d t
    then send_to_front_no_judge_error d created
    else put_back d.sid (admit env d (start created t)) created

-- Whether the subscriber has been given its executors and policies.
unfoldable pub is_synced : Suber → Bool
is_synced s = not (
    (size s.all_exec_list == 0)
    || (size s.active_exec_list == 0)
    || same_text s.policys.judge_error_count ""
    || same_text s.policys.judge_rule "")

unfoldable pub jthread_read_cb :
    Env → (servers : String → List String) → Request → Jthread → Jthread
jthread_read_cb env servers d j =
    if is_synced j.suber then do_judge env servers d j else send_to_front_no_judge_error d j

-- What the base of events calls for a task that is in the list: the timer, and the backend's answer.
unfoldable pub on_task : (Running → Running) → String → Jthread → Jthread
on_task f sid j = elim (find sid j.task_list) [ none ↦ j | some t ↦ put_back sid (f (start j t)) j ]
