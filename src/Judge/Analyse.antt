-- ===== src/Judge/Analyse.antt =====
-- src/judge_task.cpp: analyseJudgeResult, the counting of sendToSchedule, clearNewData, and
-- MimicJthread::clearTask; src/mimic_judge.cpp: convertFromCincerOrNeutron. `split` is
-- std::regex_match with "(.*):(.*)" and atoi of the second part.
use openstack_mimic_componen.Base.{
  ℕ, Bool, true, false, String, String_discrete, List, [], ◌∷◌, Option, none, some, if◌then◌else◌,
  ite, ◌==◌, ◌+s◌, to_string, length, map, includes,
}
use openstack_mimic_componen.Map.{Map, text_key, values, size, at, find, update}
use openstack_mimic_componen.Util.{cinder_to_nova, neutron_to_nova}
use openstack_mimic_componen.Suber.{Flags}
use openstack_mimic_componen.Proxy.State.{DiffRecord, Records}
use openstack_mimic_componen.Proxy.Analyse.{Details, majority_keys, other_keys, count_error}
use openstack_mimic_componen.Judge.State.{
  Request, null_request, Group, Task, call, Running, record_judge_log, report_error,
  delete_requests, clear_task as clear_call,
}
use openstack_mimic_componen.Judge.Compare.{Comparer}

-- What libevhtp makes of a request to the backend.
pub data Outcome : Type 0 where
  no_connection : Outcome
  no_request : Outcome
  not_sent : Outcome
  sent : Outcome

-- What a task asks of its service and of the libraries. `error_count` is atoi of the subscriber's
-- `judgeErrorCount`, `random` the random number at each judged key.
pub record Env : Type 0 where
  pub comparer : Comparer
  pub flags : Flags
  pub service_name : String
  pub error_count : ℕ
  pub split : String → Option (String × ℕ)
  pub random : String → ℕ
  pub backend : Request → Outcome

unfoldable pub convert_from_cincer_or_neutron :
    (split : String → Option (String × ℕ)) → String → String
convert_from_cincer_or_neutron split saddr = elim (split saddr) [
  | none ↦ saddr
  | some (ip, port) ↦
      if includes saddr "8776"
      then ip +s ":" +s to_string (cinder_to_nova port)
      else if includes saddr "9696"
      then ip +s ":" +s to_string (neutron_to_nova port)
      else saddr
]

-- The groups but the result's, by the rule that gave the result.
unfoldable pub group_details :
    (is_majority : Bool) → Records → String → List Group → Details → Details
group_details is_majority records ret_key [] m = m
group_details is_majority records ret_key ((first, keys) ∷ groups) m =
    ite (String_discrete first.key ret_key) (group_details is_majority records ret_key groups m) (
      group_details is_majority records ret_key groups (
        if is_majority
        then majority_keys records ret_key first.key keys m
        else other_keys (at [] first.key records) keys m))

unfoldable pub count_errors :
    (convert : String → String) (limit : ℕ)
    → Map String Request
    → List (String × DiffRecord)
    → Map String ℕ
    → Map String ℕ × List (String × String)
count_errors convert limit requests [] counts = (counts, [])
count_errors convert limit requests ((key, r) ∷ l) counts =
    let addr = (at null_request key requests).exec_addr in
    let (n, reported) = count_error limit (find addr counts) in
    let (done, reports) = count_errors convert limit requests l (update 0 addr (λ _. n) counts) in
    if reported then (done, (convert addr, r.error_reason) ∷ reports) else (done, reports)

unfoldable pub send_to_schedule : Env → Running → Running
send_to_schedule env r =
    if size r.task.analyse_error_detail == 0
    then r
    else let (counts, reports) =
        count_errors (convert_from_cincer_or_neutron env.split) env.error_count
          r.task.judge_data_list r.task.analyse_error_detail r.judge_err_num in
      let logged = call (record_judge_log r.task.analyse_error_detail) r in
      let counted : Running = record logged { judge_err_num = counts } in
      if length reports == 0 then counted else call (report_error reports) counted

abbrev pub is_majority : Task → Bool
is_majority t = ite (String_discrete t.judge_type "MAJORITY") true false

abbrev pub with_details : Task → Task
with_details t = record t {
  analyse_error_detail =
      group_details (is_majority t) t.cmp_ret_record t.ret_group_key (values t.judge_group)
        t.analyse_error_detail;
}

unfoldable pub analyse_judge_result : Env → Running → Running
analyse_judge_result env r =
    ite (String_discrete r.task.ret_group_key "") r
      (send_to_schedule env (record r { task = with_details r.task }))

unfoldable pub clear_new_data : Running → Running
clear_new_data r = call (delete_requests (map (λ e. e.1.ptr) r.task.judge_data_list)) r

-- The task is taken from `taskList`, with its timer, and deleted.
unfoldable pub clear_task : Running → Running
clear_task r = if r.listed then call (clear_call r.task.sid) (record r { listed = false }) else r

-- The end of a task, which responseToFrondReq and processJudgeData have in common.
unfoldable pub finish : Env → Running → Running
finish env r = clear_task (clear_new_data (analyse_judge_result env r))
