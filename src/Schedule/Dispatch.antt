-- ===== src/Schedule/Dispatch.antt =====
-- src/mimic_schedule.cpp: readCb, which calls a handler for every line received, eventCb and
-- doUpdateScweight. A line is what jsoncpp reads of it; a line that is no JSON has the mode "".
pub mod Keeps
use openstack_mimic_componen.Base.{
  ℕ, Bool, true, false, ◌&&◌, ◌||◌, String, String_discrete, List, [], ◌∷◌, Option, none, some,
  if◌then◌else◌, ite, ◌==◌,
}
use openstack_mimic_componen.Schedule.State.{
  Executor, Scheduler, Env, Effect, Policys, Config, echo, emit,
}
use openstack_mimic_componen.Schedule.Updown.{sync_and_pub}
use openstack_mimic_componen.Schedule.Manual.{
  ManualRequest, resp_msg, do_manual_up_opt, do_manual_down_opt, do_manual_clean_opt,
  do_report_error, do_query_up_execs, do_query_exec_stats, do_query_up_times, do_hung_up,
  do_hung_down, do_update_config, do_subscribe,
}
use openstack_mimic_componen.Suber.{Flags, Suber, sync_exec_from_mysql}

pub record Request : Type 0 where
  pub mode : String
  pub no_data : Bool
  pub manual : Option ManualRequest
  pub reports : Option (List (String × String))
  pub service : String

-- What the database answers to syncPolicyFromMysql and syncExecFromMysql.
pub record Synced : Type 0 where
  pub policys : Policys
  pub rows : Option (List Executor)

-- The MimicSuber of a scheduler, which holds its two lists.
unfoldable pub suber_of : Scheduler → Suber
suber_of s = record {
  flags = record {
    is_horizon = s.config.is_horizon;
    is_controller = s.config.is_controller;
    is_keystone = s.config.is_keystone;
    is_schedule = true;
    is_proxy = false;
    is_nova = false;
    is_cinder = false;
    is_neutron = false;
    should_be_convert = false;
  };
  is_init = false;
  policys = s.policys;
  all_exec_list = s.all_exec_list;
  active_exec_list = s.active_exec_list;
  restarts = [];
}

unfoldable pub do_update_scweight : ℕ → Option (List Executor) → Scheduler → Scheduler
do_update_scweight bev rows s =
    let sub = sync_exec_from_mysql s.config.exec_info rows (suber_of s) in
    resp_msg bev "ok" echo (
      sync_and_pub none
        (record s { all_exec_list = sub.all_exec_list; active_exec_list = sub.active_exec_list }))

abbrev pub is_mode : String → String → Bool
is_mode m mode = ite (String_discrete mode m) true false

unfoldable pub needs_data : String → Bool
needs_data mode =
    is_mode "manual_up" mode
    || is_mode "manual_down" mode
    || is_mode "manual_clean" mode
    || is_mode "report_error" mode
    || is_mode "manual_hung-up" mode
    || is_mode "manual_hung-down" mode

-- The connection of a request that lacks its data is freed, and the request is handled all the same.
unfoldable pub check_data : ℕ → Request → Scheduler → Scheduler
check_data bev r s = if needs_data r.mode && r.no_data then emit (Effect.free_bev bev) s else s

-- The handler that the mode names; `none` for a mode that is not known.
unfoldable pub handler : Env → Synced → ℕ → Request → Scheduler → Option Scheduler
handler env a bev r s =
    if is_mode "manual_up" r.mode
    then some (do_manual_up_opt bev r.manual s)
    else if is_mode "manual_down" r.mode
    then some (do_manual_down_opt bev r.manual s)
    else if is_mode "manual_clean" r.mode
    then some (do_manual_clean_opt bev r.manual s)
    else if is_mode "report_error" r.mode
    then some (do_report_error env bev r.reports s)
    else if is_mode "query_upexecs" r.mode
    then some (do_query_up_execs bev s)
    else if is_mode "query_execstatus" r.mode
    then some (do_query_exec_stats bev s)
    else if is_mode "query_uptimes" r.mode
    then some (do_query_up_times bev s)
    else if is_mode "manual_hung-up" r.mode
    then some (do_hung_up bev r.service s)
    else if is_mode "manual_hung-down" r.mode
    then some (do_hung_down bev r.service s)
    else if is_mode "update_config" r.mode
    then some (do_update_config env bev a.policys s)
    else if is_mode "update_scweight" r.mode
    then some (do_update_scweight bev a.rows s)
    else if is_mode "subscribe" r.mode
    then some (do_subscribe bev s)
    else none

-- The loop ends at the first request with an unknown mode.
unfoldable pub read_cb : Env → Synced → ℕ → List Request → Scheduler → Scheduler
read_cb env a bev [] s = s
read_cb env a bev (r ∷ rs) s = elim (handler env a bev r (check_data bev r s)) [
  | some t ↦ read_cb env a bev rs t
  | none ↦ emit (Effect.free_bev bev) (check_data bev r s)
]

-- `std::find` and `erase` of the first occurrence.
unfoldable pub remove_bev : ℕ → List ℕ → List ℕ
remove_bev bev [] = []
remove_bev bev (b ∷ bs) = let rest = remove_bev bev bs in if b == bev then bs else b ∷ rest

-- A connection that is closed or broken.
unfoldable pub event_cb : ℕ → Scheduler → Scheduler
event_cb bev s =
    emit (Effect.free_bev bev) (record s { subscribe_bevs = remove_bev bev s.subscribe_bevs })
