-- ===== src/Proxy/Callbacks.antt =====
-- src/proxy_task.cpp: proxyReqCb, proxyReqErrCb and addErrorJudgeData. A response is what libevhtp
-- gives of it; its `ptr` is the address that `new LeftJudgeDada_t` gives.
use openstack_mimic_componen.Base.{
  ℕ, not, ◌==◌, String, [], ◌∷◌, Option, none, some, if◌then◌else◌, ◌+s◌, to_string,
}
use openstack_mimic_componen.Map.{Map, text_key, has, find}
use openstack_mimic_componen.Proxy.State.{JudgeData, Task}
use openstack_mimic_componen.Proxy.Compare.{Comparer}
use openstack_mimic_componen.Proxy.Analyse.{Service, take_answer}

pub record Response : Type 0 where
  pub ptr : ℕ
  pub status : ℕ
  pub headers : Map String String
  pub body : Option String
  pub body_len : ℕ

-- `sid + "-" + execAddr + "-" + std::to_string(countp)`
unfoldable pub answer_key : Task → String → ℕ → String
answer_key t exec_addr count = t.sid +s "-" +s exec_addr +s "-" +s to_string count

unfoldable pub content_type_of : Map String String → String
content_type_of headers = elim (find "Content-Type" headers) [
  | some v ↦ v
  | none ↦ elim (find "content-type" headers) [ some v ↦ v | none ↦ "" ]
]

abbrev pub text_of : Option String → String
text_of none = ""
text_of (some b) = b

unfoldable pub response_data : Response → String → ℕ → Task → JudgeData
response_data r exec_addr count t = record {
  ptr = r.ptr;
  key = answer_key t exec_addr count;
  sid = t.sid;
  exec_addr = exec_addr;
  urlfull = t.urlfull;
  params = t.params;
  method = t.httpmethod;
  resp_status = r.status;
  resp_headers = r.headers;
  content_type = content_type_of r.headers;
  body = text_of r.body;
  body_len = r.body_len;
}

-- The answer that stands for an executor that gave none.
unfoldable pub error_data : (ptr : ℕ) → String → ℕ → Task → JudgeData
error_data ptr exec_addr count t = record {
  ptr = ptr;
  key = answer_key t exec_addr count;
  sid = t.sid;
  exec_addr = exec_addr;
  urlfull = t.urlfull;
  params = t.params;
  method = t.httpmethod;
  resp_status = 504;
  resp_headers = ("Content-Type", "application/json") ∷ [];
  content_type = "application/json";
  body = "{\"request_msg\":\"Gateway Time Out\"}";
  body_len = 34;
}

unfoldable pub proxy_req_cb :
    Comparer
    → (convert : String → String) → (random : ℕ) → Response
    → String
    → ℕ
    → Service
    → Service
proxy_req_cb c convert random r exec_addr count s =
    take_answer c convert random (response_data r exec_addr count s.task) s

unfoldable pub add_error_judge_data :
    Comparer → (convert : String → String) → (random ptr : ℕ) → String → ℕ → Service → Service
add_error_judge_data c convert random ptr exec_addr count s =
    take_answer c convert random (error_data ptr exec_addr count s.task) s

unfoldable pub proxy_req_err_cb :
    Comparer
    → (convert : String → String) → (random : ℕ) → Response
    → String
    → ℕ
    → Service
    → Service
proxy_req_err_cb c convert random r exec_addr count s =
    if not (r.status == 0)
    then proxy_req_cb c convert random r exec_addr count s
    else if has (answer_key s.task exec_addr count) s.task.judge_data_list
    then s
    else add_error_judge_data c convert random r.ptr exec_addr count s
