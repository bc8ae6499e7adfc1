-- ===== src/Proxy/State.antt =====
-- src/include/mimic_struct.hpp and src/include/mimic_task.hpp: the answers of the executors and the
-- state of a ProxyTask. `ptr` is the address of a LeftJudgeDada_t, by which std::map orders
-- `judgeGroup`; `group`, which is -1 everywhere, is left out.
use openstack_mimic_componen.Base.{ℕ, String, List, Option, []}
use openstack_mimic_componen.Map.{Map}

pub record JudgeData : Type 0 where
  pub ptr : ℕ
  pub key : String
  pub sid : String
  pub exec_addr : String
  pub urlfull : String
  pub params : String
  pub method : String
  pub resp_status : ℕ
  pub resp_headers : Map String String
  pub content_type : String
  pub body : String
  pub body_len : ℕ

-- The null pointer that `judgeDataList[key]` makes of a missing key.
abbrev pub null_data : JudgeData
null_data = record {
  ptr = 0;
  key = "";
  sid = "";
  exec_addr = "";
  urlfull = "";
  params = "";
  method = "";
  resp_status = 0;
  resp_headers = [];
  content_type = "";
  body = "";
  body_len = 0;
}

-- judgeDiffRecord_t
pub record DiffRecord : Type 0 where
  pub judge_data_key : String
  pub error_reason : String
  pub error_detail : String

abbrev pub Records : Type 0
Records = Map String (List DiffRecord)

-- A group of equal answers: the answer that the others were compared with, and the keys of them all.
abbrev pub Group : Type 0
Group = JudgeData × List String

abbrev pub Groups : Type 0
Groups = Map ℕ Group

pub record Task : Type 0 where
  pub sid : String
  pub urlfull : String
  pub params : String
  pub httpmethod : String
  pub addr_list : List String
  pub judge_rule : String
  pub failcount_list : Map String ℕ
  pub uptimelist : Map String ℕ
  pub judge_data_list : Map String JudgeData
  pub judge_group : Groups
  pub judge_result : Option JudgeData
  pub ret_group_key : String
  pub judge_type : String
  pub cmp_ret_record : Records
  pub analyse_error_detail : Map String DiffRecord
