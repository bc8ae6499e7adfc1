-- ===== src/Judge/Respond.antt =====
-- src/judge_task.cpp: responseToFrondReq, gotoErrBackendResp, backendRespCb, backendRespErrCb and
-- sendToBackend. Whether `write` succeeds changes a line of the log only.
pub mod Frame
pub mod Marks
pub mod Replies
use openstack_mimic_componen.Base.{
  ℕ, ◌+◌, Bool, true, false, not, ◌&&◌, String, String_discrete, List, [], ◌∷◌, Option, none, some,
  if◌then◌else◌, ite, ◌==◌, ◌+s◌, to_string, length,
}
use openstack_mimic_componen.Map.{Map, text_key, values, has, at, find, update, emplace}
use openstack_mimic_componen.Suber.{Flags}
use openstack_mimic_componen.Judge.State.{
  Request, BackendResp, Task, Call, call, Running, reply, request_backend, tcp_backend,
}
use openstack_mimic_componen.Judge.Decide.{is_timeout}
use openstack_mimic_componen.Judge.Analyse.{
  Env, Outcome, no_connection, no_request, not_sent, sent, finish,
}

abbrev pub mimic_host : Request → String
mimic_host d = at "" "Mimic-Host" d.req_headers

-- `respIsOk.find(host) != respIsOk.end() && respIsOk[host] == "ok"`
unfoldable pub is_ok : String → Map String String → Bool
is_ok host replied = elim (find host replied) [
  | none ↦ false
  | some v ↦ ite (String_discrete v "ok") true false
]

abbrev pub set_header : (name value : String) → Map String String → Map String String
set_header name value headers = update "" name (λ _. value) headers

-- The answer of the backend, with the number under which the client's request is kept.
unfoldable pub answer_for : BackendResp → Request → BackendResp
answer_for resp d = record resp {
  headers = set_header "sid" d.sid (set_header "mimic-sn" (to_string d.sn) resp.headers);
}

-- One turn of the loop: a request of the timer is passed over, and so is one that has its answer.
unfoldable pub reply_one :
    BackendResp → Request → Map String String → List Call → Map String String × List Call
reply_one resp d replied calls =
    if is_timeout d
    then (replied, calls)
    else if is_ok (mimic_host d) replied
    then (replied, calls)
    else (update "" (mimic_host d) (λ _. "ok") replied, reply d.replyfd (answer_for resp d) ∷ calls)

unfoldable pub reply_each :
    BackendResp → List Request → Map String String → List Call → Map String String × List Call
reply_each resp [] replied calls = (replied, calls)
reply_each resp (d ∷ l) replied calls =
    let (replied', calls') = reply_one resp d replied calls in reply_each resp l replied' calls'

-- `isallresp`
unfoldable pub all_ok : List String → Bool
all_ok [] = true
all_ok (v ∷ l) = ite (String_discrete v "ok") (all_ok l) false

abbrev pub announced : (from_process : Bool) → Task → Task
announced from_process t =
    if from_process
    then record t { judge_num = t.judge_num + 1 }
    else record t { is_resp_stared = true }

abbrev pub is_to_clean : Task → Bool
is_to_clean t =
    (t.judge_num == length t.server_array) && all_ok (values t.resp_is_ok) && t.is_resp_stared

-- The loop of the replies, and the end of the task when all are done.
unfoldable pub respond_all : Env → Running → Running
respond_all env r =
    let (replied, calls) =
      reply_each r.task.backend_resp (values r.task.judge_data_list) r.task.resp_is_ok r.calls in
    let done : Running = record r {
      task = record r.task { resp_is_ok = replied };
      calls = calls;
    } in
    if is_to_clean done.task then finish env done else done

unfoldable pub response_to_frond_req : Env → (from_process : Bool) → Running → Running
response_to_frond_req env from_process r =
    let next : Running = record r { task = announced from_process r.task } in
    if not next.task.backend_resp_come
    then next
    else if not next.listed
    then next
    else respond_all env next

abbrev pub time_out_body : String
time_out_body = "{\"request_msg\":\"Gateway Time Out\"}"

-- The answer that stands for one of the backend.
unfoldable pub err_backend_resp : Task → Task
err_backend_resp t = record t {
  backend_resp = record {
    headers = set_header "Content-Type" "application/json" t.backend_resp.headers;
    status = 504;
    body = time_out_body;
    body_len = 34;
  };
  backend_resp_come = true;
}

unfoldable pub goto_err_backend_resp : Env → Running → Running
goto_err_backend_resp env r =
    let next : Running = record r { task = err_backend_resp r.task } in
    if env.flags.is_horizon then response_to_frond_req env false next else next

-- `evhtp_kvs_for_each` with fillUpHeadesMap
unfoldable pub fill_up_heades_map : List (String × String) → Map String String → Map String String
fill_up_heades_map [] m = m
fill_up_heades_map ((k, v) ∷ l) m = fill_up_heades_map l (emplace k v m)

-- The answer of the backend as libevhtp gives it.
unfoldable pub store_backend_resp : BackendResp → Task → Task
store_backend_resp resp t = record t {
  backend_resp = record resp { headers = fill_up_heades_map resp.headers t.backend_resp.headers };
  backend_resp_come = true;
}

unfoldable pub backend_resp_cb : Env → BackendResp → Running → Running
backend_resp_cb env resp r =
    let next : Running = record r { task = store_backend_resp resp r.task } in
    if env.flags.is_horizon then response_to_frond_req env false next else next

unfoldable pub backend_resp_err_cb : Env → BackendResp → Running → Running
backend_resp_err_cb env resp r =
    if not (resp.status == 0) then backend_resp_cb env resp r else goto_err_backend_resp env r

-- The request to the backend of horizon, by what libevhtp makes of it.
unfoldable pub request_horizon : Outcome → Env → Request → Running → Running
request_horizon no_connection env d r = goto_err_backend_resp env r
request_horizon no_request env d r = goto_err_backend_resp env r
request_horizon not_sent env d r = goto_err_backend_resp env r
request_horizon sent env d r = call (request_backend d) r

-- The body of the request, sent to the backend of a cloud controller over TCP, if its address can be
-- read.
unfoldable pub request_controller : Option (String × ℕ) → Request → Running → Running
request_controller none d r = r
request_controller (some (ip, port)) d r =
    call (tcp_backend ip port (d.body +s "\r\n\r\n"))
      (record r { task = record r.task { tcpsendend = true } })

unfoldable pub send_result : Env → Request → Running → Running
send_result env d r =
    if not (has "backend" d.req_headers)
    then goto_err_backend_resp env r
    else if env.flags.is_horizon
    then request_horizon (env.backend d) env d r
    else if env.flags.is_controller
    then request_controller (env.split (at "" "backend" d.req_headers)) d r
    else r

unfoldable pub send_if : Env → Option Request → Running → Running
send_if env none r = r
send_if env (some d) r = send_result env d r

-- It is called with a result only.
unfoldable pub send_to_backend : Env → Running → Running
send_to_backend env r = send_if env r.task.judge_result r
