-- ===== src/Proxy/Analyse.antt =====
-- src/proxy_task.cpp and src/mimic_proxy.cpp: analyseJudgeResult, the counting of sendToSchedule,
-- respToFront, and what the callbacks of an answer have in common.
pub mod Counts
pub mod Replies
use openstack_mimic_componen.Base.{
  ℕ, ◌+◌, Bool, true, false, not, ◌&&◌, String, String_discrete, List, [], ◌∷◌, ◌++◌, Option, none,
  some, if◌then◌else◌, ite, ltb, ◌==◌, length, find?, map,
}
use openstack_mimic_componen.Map.{Map, text_key, values, size, has, at, find, emplace, update}
use openstack_mimic_componen.Proxy.State.{JudgeData, null_data, DiffRecord, Records, Group, Task}
use openstack_mimic_componen.Proxy.Compare.{Comparer}
use openstack_mimic_componen.Proxy.Judge.{about, judge_data}

abbrev pub Details : Type 0
Details = Map String DiffRecord

abbrev pub set_detail : String → DiffRecord → Details → Details
set_detail key r = update r key (λ _. record r { judge_data_key = key })

-- The record of the difference between the answer `key` of the group of `first` and the result: the
-- one among the records of the result's group, or else the one among those of its own group.
unfoldable pub diff_from_result : Records → (ret_key first key : String) → Option DiffRecord
diff_from_result records ret_key first key = elim (find? (about key) (at [] ret_key records)) [
  | some r ↦ some r
  | none ↦ find? (about ret_key) (at [] first records)
]

unfoldable pub majority_keys : Records → (ret_key first : String) → List String → Details → Details
majority_keys records ret_key first [] m = m
majority_keys records ret_key first (key ∷ keys) m =
    majority_keys records ret_key first keys
      (elim (diff_from_result records ret_key first key) [ none ↦ m | some r ↦ set_detail key r m ])

-- Every record of the group is written under the key, so that the last one stays.
unfoldable pub last_record : String → List DiffRecord → Details → Details
last_record key [] m = m
last_record key (r ∷ records) m = last_record key records (set_detail key r m)

unfoldable pub other_keys : List DiffRecord → List String → Details → Details
other_keys records [] m = m
other_keys records (key ∷ keys) m = other_keys records keys (last_record key records m)

-- The groups but the result's, by the rule that gave the result.
unfoldable pub group_details :
    (is_majority : Bool) → Records → String → List Group → Details → Details
group_details is_majority records ret_key [] m = m
group_details is_majority records ret_key ((first, keys) ∷ groups) m =
    ite (String_discrete first.key ret_key) (group_details is_majority records ret_key groups m) (
      group_details is_majority records ret_key groups (
        if is_majority
        then majority_keys records ret_key first.key keys m
        else other_keys (at [] first.key records) keys m))

-- The calls that a service makes on the world: an answer to the client, a row of the judge log, and a
-- report to the scheduler.
pub data Call : Type 0 where
  reply_front : JudgeData → Call
  record_judge_log : Map String DiffRecord → Call
  report_error : List (String × String) → Call
  -- `delete` of the answers; their pointers stay in `judgeDataList`
  delete_data : (ptrs : List ℕ) → Call

-- A task with `judgeErrNum` and `judgeErrorCount` of its service, and the calls made, newest first.
-- `convert` is convertFromCincerOrNeutron.
pub record Service : Type 0 where
  pub task : Task
  pub judge_err_num : Map String ℕ
  pub judge_error_count : ℕ
  pub calls : List Call

-- One error of an executor against its counter: the new counter, and whether it is reported.
unfoldable pub count_error : (limit : ℕ) → Option ℕ → ℕ × Bool
count_error limit none = (1, false)
count_error limit (some n) = if ltb n limit then (n + 1, false) else (0, true)

unfoldable pub count_errors :
    (convert : String → String) (limit : ℕ)
    → Map String JudgeData
    → List (String × DiffRecord)
    → Map String ℕ
    → Map String ℕ × List (String × String)
count_errors convert limit answers [] counts = (counts, [])
count_errors convert limit answers ((key, r) ∷ l) counts =
    let addr = (at null_data key answers).exec_addr in
    let (n, reported) = count_error limit (find addr counts) in
    let (done, reports) = count_errors convert limit answers l (update 0 addr (λ _. n) counts) in
    if reported then (done, (convert addr, r.error_reason) ∷ reports) else (done, reports)

abbrev pub call : Call → Service → Service
call c s = record s { calls = c ∷ s.calls }

unfoldable pub send_to_schedule : (convert : String → String) → Service → Service
send_to_schedule convert s =
    if size s.task.analyse_error_detail == 0
    then s
    else let (counts, reports) =
        count_errors convert s.judge_error_count s.task.judge_data_list s.task.analyse_error_detail
          s.judge_err_num in
      let logged = call (record_judge_log s.task.analyse_error_detail) s in
      let counted : Service = record logged { judge_err_num = counts } in
      if length reports == 0 then counted else call (report_error reports) counted

abbrev pub is_majority : Task → Bool
is_majority t = ite (String_discrete t.judge_type "MAJORITY") true false

abbrev pub with_details : Task → Task
with_details t = record t {
  analyse_error_detail =
      group_details (is_majority t) t.cmp_ret_record t.ret_group_key (values t.judge_group)
        t.analyse_error_detail;
}

unfoldable pub analyse_judge_result : (convert : String → String) → Service → Service
analyse_judge_result convert s =
    ite (String_discrete s.task.ret_group_key "") s
      (send_to_schedule convert (record s { task = with_details s.task }))

-- A header that is there is set to "0".
unfoldable pub zero_header : String → Map String String → Map String String
zero_header name headers = if has name headers then update "" name (λ _. "0") headers else headers

unfoldable pub corrected : JudgeData → JudgeData
corrected d =
    if d.body_len == 0
    then record d {
      resp_headers = zero_header "content-length" (zero_header "Content-Length" d.resp_headers);
    }
    else d

unfoldable pub resp_to_front : Service → Service
resp_to_front s = elim s.task.judge_result [
  | none ↦ s
  | some d ↦ call (reply_front (corrected d)) s
]

unfoldable pub clear_new_data : Service → Service
clear_new_data s = call (delete_data (map (λ e. e.1.ptr) s.task.judge_data_list)) s

-- What the three callbacks do with the answer of an executor.
unfoldable pub take_answer :
    Comparer → (convert : String → String) → (random : ℕ) → JudgeData → Service → Service
take_answer c convert random d s =
    let t : Task = record s.task { judge_data_list = emplace d.key d s.task.judge_data_list } in
    let (ret, judged) = judge_data c random d.key t in
    let stored : Service = record s { task = judged } in
    let replied = if ret == 1 then resp_to_front stored else stored in
    if size replied.task.judge_data_list == length replied.task.addr_list
    then clear_new_data (analyse_judge_result convert replied)
    else replied
