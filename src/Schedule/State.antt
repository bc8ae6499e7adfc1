-- ===== src/Schedule/State.antt =====
-- src/include/mimic_struct.hpp, src/include/mimic_suber.hpp and src/include/mimic_schedule.hpp: the
-- executors, the policies and the state of MimicSchedule. Times, ids, ports and weights are natural
-- numbers; a status and `manualDownNum` are integers. What the scheduler writes to the database, to
-- its subscribers and to its threads is kept in `trace`, newest first.
use openstack_mimic_componen.Base.{ℕ, suc, Bool, String, List, ◌∷◌, ◌+s◌, to_string}
use openstack_mimic_componen.Base.Int.{ℤ, pos, negsuc, eq_ℤ}
use openstack_mimic_componen.Map.{Map, text_key, at, update}

pub record Executor : Type 0 where
  pub id : ℕ
  pub status : ℤ
  pub exec_zone : ℕ
  pub system_num : String
  pub arch : String
  pub note : String
  pub cpu : String
  pub ip : String
  pub port : ℕ
  pub web : String
  pub os : String
  pub scweight : ℕ
  pub active_time : ℕ
  pub fail_count : ℕ

-- The values of `status`, by the names that doQueryExecStats gives them.
abbrev pub initing : ℤ
initing = negsuc 1

abbrev pub offline : ℤ
offline = negsuc 0

abbrev pub online : ℤ
online = pos 0

abbrev pub active : ℤ
active = pos 1

abbrev pub cleaning : ℤ
cleaning = pos 2

-- `allExecList[addr]` at a missing address makes this one.
abbrev pub default_executor : Executor
default_executor = record {
  id = 0;
  status = pos 0;
  exec_zone = 0;
  system_num = "";
  arch = "";
  note = "";
  cpu = "";
  ip = "";
  port = 0;
  web = "";
  os = "";
  scweight = 0;
  active_time = 0;
  fail_count = 0;
}

-- `ip + ":" + std::to_string(port)`
unfoldable pub addr_of : Executor → String
addr_of e = e.ip +s ":" +s to_string e.port

abbrev pub has_status : ℤ → Executor → Bool
has_status n e = eq_ℤ e.status n

pub record Policys : Type 0 where
  pub judge_rule : String
  pub judge_error_count : String
  pub schedule_rule : String
  pub schedule_interval : String
  pub mimic_switch : String

-- What answers a request.
pub data Reply : Type 0 where
  echo : Reply
  up_execs : List String → Reply
  exec_stats : Map String String → Reply
  up_times : Map String ℕ → Reply

pub data Effect : Type 0 where
  update_db : (ip : String) (port : ℕ) (status : ℤ) → Effect
  exec_log : (addr related action status msg : String) → Effect
  spawn_clean : (addr : String) → Effect
  publish : (to : List ℕ) (all active_list : Map String Executor) (policys : Policys) → Effect
  respond : (bev : ℕ) (status : String) (reply : Reply) → Effect
  -- the table of executors is emptied, and filled again row by row
  clear_table : Effect
  insert_row : (addr : String) (status : ℤ) → Effect
  free_bev : (bev : ℕ) → Effect
  -- event_base_loopexit
  stop_loop : Effect
  -- `rand() % 0`: the process dies, and what follows in the trace means nothing
  fault : Effect

-- execBaseInfo_t: one executor of the configuration file.
pub record ExecBaseInfo : Type 0 where
  pub ip : String
  pub port : ℕ
  pub os : String
  pub web : String
  pub arch : String

-- globalConf, baseInfo, execInfo and the flags that the constructor sets.
pub record Config : Type 0 where
  pub exec_num : ℕ
  pub service_name : String
  pub is_horizon : Bool
  pub is_controller : Bool
  pub is_keystone : Bool
  pub exec_info : List ExecBaseInfo

pub record Scheduler : Type 0 where
  pub config : Config
  pub all_exec_list : Map String Executor
  pub active_exec_list : Map String Executor
  pub policys : Policys
  pub is_first_start : Bool
  pub manual_down_num : ℤ
  pub pre_clean_times : Map String ℕ
  pub subscribe_bevs : List ℕ
  pub report_running : Bool
  pub schedule_running : Bool
  pub reads : ℕ
  pub trace : List Effect

-- The clock, `rand()` after `srand(seed)`, and std::sort by the number of active executors. The
-- order that std::sort gives to equal elements is not specified, so it is a parameter.
pub record Env : Type 0 where
  pub clock : ℕ → ℕ
  pub rand : ℕ → ℕ
  pub sort_hosts : List (String × ℕ) → List (String × ℕ)

-- The next reading of MimicUtil::getRandSeed, and the state after it.
abbrev pub seed_now : Env → Scheduler → ℕ
seed_now env s = env.clock s.reads

abbrev pub after_read : Scheduler → Scheduler
after_read s = record s { reads = suc s.reads }

abbrev pub emit : Effect → Scheduler → Scheduler
emit f s = record s { trace = f ∷ s.trace }

-- `allExecList[addr]`, read.
abbrev pub exec_at : Scheduler → String → Executor
exec_at s addr = at default_executor addr s.all_exec_list

-- A change of `allExecList[addr]` in place.
abbrev pub change_exec : String → (Executor → Executor) → Scheduler → Scheduler
change_exec addr f s = record s { all_exec_list = update default_executor addr f s.all_exec_list }

abbrev pub set_status : ℤ → Executor → Executor
set_status n e = record e { status = n }
