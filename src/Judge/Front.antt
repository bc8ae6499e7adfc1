-- ===== src/Judge/Front.antt =====
-- src/mimic_judge.cpp: the server of the judge, for one of its HTTP threads. It numbers the requests,
-- keeps each under its number, hands it to a thread of the judge, and sends the answer back.
pub mod Meanwhile
pub mod Numbers
pub mod Checks
pub mod Threads
mod Tests
use openstack_mimic_componen.Base.{
  ℕ, suc, ◌+◌, ◌%◌, Bool, true, false, not, ◌||◌, String, String_discrete, List, [], ◌∷◌, Option,
  none, some, if◌then◌else◌, ite, ◌==◌, ◌+s◌, to_string, includes,
}
use openstack_mimic_componen.Base.Int.{ℤ, pos, negsuc, ◌+ℤ◌, rem_ℤ}
use openstack_mimic_componen.Map.{Map, text_key, number_key, has, at, find, emplace, update, erase}
use openstack_mimic_componen.Proxy.Callbacks.{content_type_of}
use openstack_mimic_componen.Judge.State.{Request, BackendResp}
use openstack_mimic_componen.Judge.Process.{same_text}

-- A request of a client as libevhtp holds it: its address, whether its buffers are there, and what it
-- says.
pub record Client : Type 0 where
  pub req : ℕ
  pub is_open : Bool
  pub headers : Map String String
  pub path : Option String
  pub method : ℕ
  pub body : Option String
  pub body_len : ℕ

pub data Sending : Type 0 where
  -- an answer to a client, by the address of its request
  answered : (req : ℕ) → (headers : Map String String) → (body : String) → (status : ℕ) → Sending
  paused : (req : ℕ) → Sending
  resumed : (req : ℕ) → Sending
  -- a request written to the pipe of a thread of the judge
  handed : (thread : ℤ) → Request → Sending

-- `sn`, `frontReqList` of the HTTP thread, the lock of the service, and what was sent, newest first.
pub record Front : Type 0 where
  pub service_name : String
  pub sn : ℕ
  pub front_req_list : Map ℕ Client
  pub locked : Bool
  pub sendings : List Sending

abbrev pub send : Sending → Front → Front
send s f = record f { sendings = s ∷ f.sendings }

abbrev pub int_max : ℕ
int_max = 2147483647

unfoldable pub is_controller : Front → Bool
is_controller f = includes f.service_name "controller"

unfoldable pub is_horizon : Front → Bool
is_horizon f = includes f.service_name "horizon"

unfoldable pub resp_to_front_no_judge_error : Client → Front → Front
resp_to_front_no_judge_error c f =
    if is_controller f
    then f
    else send
        (answered c.req (("Content-Type", "application/json") ∷ [])
          "{\"request_msg\":\"Gateway Time Out\"}" 504)
        f

-- The headers that a request must have.
unfoldable pub check_req_headers : Map String String → Bool
check_req_headers headers =
    if not (has "backend" headers)
    then false
    else if not (has "Server-Array" headers)
    then false
    else if not (has "msgid" headers)
    then false
    else if not (has "Req-Info" headers)
    then false
    else if not (has "Mimic-Host" headers)
    then false
    else true

-- An element of the Server-Array: `some` of its "ip:port", or `none` when it is no object.
abbrev pub Server : Type 0
Server = Option String

-- The walk over the array ends at the host, or at the first element that is no object.
unfoldable pub find_host : String → List Server → Bool
find_host host [] = false
find_host host (none ∷ l) = false
find_host host (some addr ∷ l) = ite (String_discrete addr host) true (find_host host l)

-- `none` is a value that is no array, or a text that does not parse to one.
unfoldable pub check_mimic_host_and_server_array : Option (List Server) → String → Bool
check_mimic_host_and_server_array none host = false
check_mimic_host_and_server_array (some l) host = find_host host l

-- The number of the next request.
unfoldable pub next_sn : ℕ → ℕ
next_sn sn = if sn == int_max then 0 else sn

-- `std::to_string` of a char, which is its signed code.
unfoldable pub code_text : ℤ → String
code_text (pos n) = to_string n
code_text (negsuc n) = "-" +s to_string (suc n)

-- `atoi` of that text is the code again. A sid would need 2 ^ 24 characters to overflow an int.
unfoldable pub sum_codes : List ℤ → ℤ → ℤ
sum_codes [] index = index
sum_codes (c ∷ l) index =
    if same_text (code_text c) "-" || same_text (code_text c) "+"
    then index
    else sum_codes l (index +ℤ c)

-- The place in `jthreadList`, which is negative when the sum is.
unfoldable pub thread_index : (work_thread_num : ℕ) → List ℤ → ℤ
thread_index work_thread_num sid = rem_ℤ (sum_codes sid (pos 0)) work_thread_num

abbrev pub path_of : Option String → String
path_of none = "/"
path_of (some p) = p

abbrev pub body_of : Option String → String
body_of none = ""
body_of (some b) = b

-- The request that the judge is given.
unfoldable pub judge_request : (ptr replyfd exec_num sn : ℕ) → Client → Request
judge_request ptr replyfd exec_num sn c =
    let headers = update "" "mimic-sn" (λ _. to_string sn) c.headers in
    record {
      ptr = ptr;
      sid = at "" "sid" c.headers;
      replyfd = replyfd;
      sn = sn;
      exec_num = exec_num;
      urlfull = path_of c.path;
      urlraw = path_of c.path;
      urlall = path_of c.path;
      method = c.method;
      req_headers = headers;
      content_type = content_type_of headers;
      body = body_of c.body;
      body_len = c.body_len;
      key = at "" "sid" c.headers +s "-" +s at "" "Mimic-Host" headers;
      exec_addr = at "" "Mimic-Host" headers;
    }

-- The client is kept under its number.
unfoldable pub keep_client : Client → Front → Front
keep_client c f = record f {
  sn = next_sn f.sn + 1;
  front_req_list = emplace (next_sn f.sn) c f.front_req_list;
}

abbrev pub pause_if : Bool → Client → Front → Front
pause_if horizon c f = if horizon then send (paused c.req) f else f

-- `codes` are the characters of the sid, `written` whether the request could be written to the pipe of
-- the thread.
unfoldable pub init_judge_data :
    (ptr replyfd exec_num work_thread_num : ℕ) (written : Bool) (codes : List ℤ)
    → Client
    → Front
    → Front
init_judge_data ptr replyfd exec_num work_thread_num written codes c f =
    let sn = next_sn f.sn in
    let kept = pause_if (is_horizon f) c (keep_client c f) in
    if written
    then send
        (handed (thread_index work_thread_num codes) (judge_request ptr replyfd exec_num sn c)) kept
    else resp_to_front_no_judge_error c
        (record kept { front_req_list = erase sn kept.front_req_list })

-- A request of a client. `servers` is what jsoncpp reads of the Server-Array.
unfoldable pub all_req_callback :
    (servers : String → Option (List Server)) (size : String → ℕ) (ptr replyfd work_thread_num : ℕ)
    (written : Bool) (codes : List ℤ)
    → Client
    → Front
    → Front
all_req_callback servers size ptr replyfd work_thread_num written codes c f =
    let array = at "" "Server-Array" c.headers in
    if not (has "sid" c.headers)
    then resp_to_front_no_judge_error c f
    else if not (check_req_headers c.headers)
    then resp_to_front_no_judge_error c f
    else if not (check_mimic_host_and_server_array (servers array) (at "" "Mimic-Host" c.headers))
    then resp_to_front_no_judge_error c f
    else init_judge_data ptr replyfd (size array) work_thread_num written codes c f

-- The client is given the answer, while the lock is held.
unfoldable pub reply_to_client : BackendResp → Client → Front → Front
reply_to_client resp c f =
    let body = if resp.body_len == 0 then "" else resp.body in
    let done = send (answered c.req resp.headers body resp.status) f in
    if is_horizon f then send (resumed c.req) done else done

-- A client whose buffers are gone ends the function with the lock held.
unfoldable pub reply_found : BackendResp → Option Client → Front → Front
reply_found resp none f = record f { locked = false }
reply_found resp (some c) f =
    if not c.is_open
    then record f { locked = true }
    else record (reply_to_client resp c f) { locked = false }

-- `sn` is atoi of the header "mimic-sn".
unfoldable pub reply_to_front : BackendResp → (sn : ℕ) → Front → Front
reply_to_front resp sn f =
    if is_controller f then f else reply_found resp (find sn f.front_req_list) f

-- The end of a client's request. `sn` is atoi of the header "mimic-sn" of its answer.
unfoldable pub req_finish_cb : Option ℕ → Front → Front
req_finish_cb sn f =
    if is_controller f
    then record f { front_req_list = [] }
    else elim sn [ none ↦ f | some n ↦ record f { front_req_list = erase n f.front_req_list } ]
