-- ===== src/Suber.antt =====
-- src/mimic_suber.cpp: the subscriber, which rebuilds the lists of executors and the policies from what
-- the scheduler publishes, or from the database.
pub mod Replicates
mod Tests
use openstack_mimic_componen.Base.{
  ℕ, suc, Bool, true, false, not, ◌&&◌, ◌||◌, String, String_discrete, List, [], ◌∷◌, Option, none,
  some, if◌then◌else◌, ite, length, ◌==◌, ◌+s◌, to_string, includes,
}
use openstack_mimic_componen.Map.{Map, text_key, size, find, emplace}
use openstack_mimic_componen.Schedule.State.{
  Executor, ExecBaseInfo, Policys, addr_of, has_status, active, online,
}
use openstack_mimic_componen.Util.{nova_to_cinder, nova_to_neutron}

pub record Flags : Type 0 where
  pub is_horizon : Bool
  pub is_controller : Bool
  pub is_keystone : Bool
  pub is_schedule : Bool
  pub is_proxy : Bool
  pub is_nova : Bool
  pub is_cinder : Bool
  pub is_neutron : Bool
  pub should_be_convert : Bool

pub record Suber : Type 0 where
  pub flags : Flags
  pub is_init : Bool
  pub policys : Policys
  pub all_exec_list : Map String Executor
  pub active_exec_list : Map String Executor
  -- the intervals with which the timer of the scheduler was started again, newest first
  pub restarts : List String

unfoldable pub init_bool_flag : String → Flags
init_bool_flag sername =
    let is_proxy = includes sername "proxy" in
    let is_cinder = includes sername "cinder" in
    let is_neutron = includes sername "neutron" in
    let is_nova = includes sername "nova" in
    record {
      is_horizon = includes sername "horizon";
      is_controller = is_nova || is_cinder || is_neutron || includes sername "controller";
      is_keystone = includes sername "keystone";
      is_schedule = includes sername "schedule";
      is_proxy = is_proxy;
      is_nova = is_nova;
      is_cinder = is_cinder;
      is_neutron = is_neutron;
      should_be_convert = (is_proxy && is_cinder) || (is_proxy && is_neutron);
    }

unfoldable pub convert_to_cincer_or_neutron : Flags → ℕ → ℕ
convert_to_cincer_or_neutron f sport =
    if f.should_be_convert
    then if f.is_cinder
      then nova_to_cinder sport
      else if f.is_neutron
      then nova_to_neutron sport
      else sport
    else sport

-- The executor as the subscriber keeps it.
unfoldable pub received : Flags → Executor → Executor
received f e = record e {
  port = if f.is_proxy then convert_to_cincer_or_neutron f e.port else e.port;
}

-- `insert` into `allExecList`, in the order of the message.
unfoldable pub fill_all : Flags → List Executor → Map String Executor → Map String Executor
fill_all f [] m = m
fill_all f (e ∷ es) m = fill_all f es (emplace (addr_of (received f e)) (received f e) m)

-- `insert` into `activeExecList` of those whose status is 1.
unfoldable pub fill_active : Flags → List Executor → Map String Executor → Map String Executor
fill_active f [] m = m
fill_active f (e ∷ es) m =
    fill_active f es
      (if has_status active e then emplace (addr_of (received f e)) (received f e) m else m)

-- An empty list of executors changes nothing.
unfoldable pub fill_exec_map : List Executor → Suber → Suber
fill_exec_map es s = if length es == 0 then s else record s {
  all_exec_list = fill_all s.flags es [];
  active_exec_list = fill_active s.flags es [];
}

unfoldable pub set_policys : Policys → Suber → Suber
set_policys p s = record s { policys = p }

-- A message of the scheduler: the executors of `all_exec_list` and the policies.
unfoldable pub read_message : List Executor → Policys → Suber → Suber
read_message es p s = set_policys p (fill_exec_map es s)

-- The executors of the configuration file, when the database does not answer. `tmpiplist` stays empty,
-- so that every one of them is active.
unfoldable pub from_config : Flags → ℕ → List ExecBaseInfo → List Executor
from_config f id [] = []
from_config f id (b ∷ bs) = config_exec ∷ from_config f (suc id) bs
  where
    config_exec : Executor
    config_exec = record {
      id = suc id;
      status = active;
      exec_zone = suc id;
      system_num = "exec_" +s to_string (suc id);
      arch = b.arch;
      note = "-";
      cpu = b.arch;
      ip = b.ip;
      port = b.port;
      web = b.web;
      os = b.os;
      scweight = 100;
      active_time = 0;
      fail_count = 0;
    }

-- A row of the table, with the time and the failures of the executor that was known under its address.
unfoldable pub from_row : Map String Executor → Executor → Executor
from_row known e = elim (find (addr_of e) known) [
  | none ↦ record e { active_time = 0; fail_count = 0 }
  | some old ↦ record e { active_time = old.active_time; fail_count = old.fail_count }
]

unfoldable pub from_rows : Map String Executor → List Executor → List Executor
from_rows known [] = []
from_rows known (e ∷ es) = from_row known e ∷ from_rows known es

-- `rows` is what the database answers, `none` when the statement fails.
unfoldable pub sync_exec_from_mysql : List ExecBaseInfo → Option (List Executor) → Suber → Suber
sync_exec_from_mysql info rows s =
    if not (s.flags.is_horizon || s.flags.is_controller || s.flags.is_keystone)
    then s
    else elim rows [
      | some es ↦
          let list = from_rows s.all_exec_list es in
          record s {
            all_exec_list = fill_all s.flags list [];
            active_exec_list = fill_active s.flags list [];
          }
      | none ↦
          if not (size s.all_exec_list == 0) && not (size s.active_exec_list == 0)
          then s
          else let list = from_config s.flags 0 info in
            record s {
              all_exec_list = fill_all s.flags list s.all_exec_list;
              active_exec_list = fill_active s.flags list s.active_exec_list;
            }
    ]

-- The interval; a scheduler that has one, and has synchronised before, starts its timer again.
unfoldable pub set_interval : String → Suber → Suber
set_interval value s =
    let changed : Suber = record s { policys = record s.policys { schedule_interval = value } } in
    let again : Suber = record changed { restarts = value ∷ s.restarts } in
    ite (String_discrete s.policys.schedule_interval value) s (
      ite (String_discrete s.policys.schedule_interval "") changed
        (if s.flags.is_schedule && not s.is_init then again else changed))

-- One row of the configuration, for the service whose keys end in `suffix`.
unfoldable pub apply_policy : (suffix key value : String) → Suber → Suber
apply_policy suffix key value s =
    ite (String_discrete key ("judge_rule" +s suffix))
      (record s { policys = record s.policys { judge_rule = value } })
      (ite (String_discrete key ("judge_err_counts" +s suffix))
        (record s { policys = record s.policys { judge_error_count = value } })
        (ite (String_discrete key ("timer_schedule_interval" +s suffix)) (set_interval value s) (
          ite (String_discrete key ("schedule_rule" +s suffix))
            (record s { policys = record s.policys { schedule_rule = value } })
            (ite (String_discrete key "mimic_switch")
              (record s { policys = record s.policys { mimic_switch = value } }) s))))

unfoldable pub apply_row : String × String → Suber → Suber
apply_row (key, value) s =
    let h = if s.flags.is_horizon then apply_policy "_h" key value s else s in
    let n = if s.flags.is_controller then apply_policy "_n" key value h else h in
    if s.flags.is_keystone then apply_policy "_k" key value n else n

unfoldable pub apply_rows : List (String × String) → Suber → Suber
apply_rows [] s = s
apply_rows (r ∷ rows) s = apply_rows rows (apply_row r s)

unfoldable pub sync_policy_from_mysql : Option (List (String × String)) → Suber → Suber
sync_policy_from_mysql none s = s
sync_policy_from_mysql (some rows) s = record (apply_rows rows s) { is_init = false }
