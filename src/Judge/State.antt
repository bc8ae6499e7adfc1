-- ===== src/Judge/State.antt =====
-- src/include/mimic_struct.hpp and src/include/mimic_task.hpp: the requests of the executors to the
-- backend and the state of a JudgeTask. `ptr` is the address of a RightJudgeDada_t; `group`, which is
-- -1 everywhere, is left out. A method is its number in libevhtp.
use openstack_mimic_componen.Base.{ℕ, Bool, String, List, ◌∷◌, Option, []}
use openstack_mimic_componen.Map.{Map}
use openstack_mimic_componen.Proxy.State.{Records, DiffRecord}

pub record Request : Type 0 where
  pub ptr : ℕ
  pub sid : String
  pub replyfd : ℕ
  pub sn : ℕ
  pub exec_num : ℕ
  pub urlfull : String
  pub urlraw : String
  pub urlall : String
  pub method : ℕ
  pub req_headers : Map String String
  pub content_type : String
  pub body : String
  pub body_len : ℕ
  pub key : String
  pub exec_addr : String

-- The null pointer that `judgeDataList[key]` makes of a missing key.
abbrev pub null_request : Request
null_request = record {
  ptr = 0;
  sid = "";
  replyfd = 0;
  sn = 0;
  exec_num = 0;
  urlfull = "";
  urlraw = "";
  urlall = "";
  method = 0;
  req_headers = [];
  content_type = "";
  body = "";
  body_len = 0;
  key = "";
  exec_addr = "";
}

-- backendResp_t, and the four fields of a JudgeTask that hold the answer of the backend.
pub record BackendResp : Type 0 where
  pub headers : Map String String
  pub status : ℕ
  pub body : String
  pub body_len : ℕ

-- A group of equal requests: the one that the others were compared with, and the keys of them all.
abbrev pub Group : Type 0
Group = Request × List String

abbrev pub Groups : Type 0
Groups = Map ℕ Group

pub record Task : Type 0 where
  pub sid : String
  pub exec_num : ℕ
  pub server_array : List String
  pub backend_resp_come : Bool
  pub tcpsendend : Bool
  pub is_resp_stared : Bool
  pub judge_num : ℕ
  pub judge_num_ctr : ℕ
  pub first_req_data : Option Request
  pub backend_resp : BackendResp
  pub judge_rule : String
  pub judge_type : String
  pub urlfull : String
  pub judge_result : Option Request
  pub judge_data_list : Map String Request
  pub judge_group : Groups
  pub cmp_ret_record : Records
  pub analyse_error_detail : Map String DiffRecord
  pub ret_group_key : String
  pub failcount_list : Map String ℕ
  pub uptimelist : Map String ℕ
  pub resp_is_ok : Map String String

-- The calls that a task makes on the world, and the end of the task.
pub data Call : Type 0 where
  start_timer : Call
  request_backend : Request → Call
  tcp_backend : (ip : String) → (port : ℕ) → (body : String) → Call
  -- a BackendResp written to the pipe of the thread that holds the client's request
  reply : (replyfd : ℕ) → BackendResp → Call
  record_judge_log : Map String DiffRecord → Call
  report_error : List (String × String) → Call
  -- `delete` of the requests; their pointers stay in `judgeDataList`
  delete_requests : (ptrs : List ℕ) → Call
  clear_task : (sid : String) → Call

-- A task, whether it is in `taskList` of its thread, the error counts of its service, and the calls
-- made, newest first.
pub record Running : Type 0 where
  pub task : Task
  pub listed : Bool
  pub judge_err_num : Map String ℕ
  pub calls : List Call

abbrev pub call : Call → Running → Running
call c r = record r { calls = c ∷ r.calls }
