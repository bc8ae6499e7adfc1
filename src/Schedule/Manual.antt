-- ===== src/Schedule/Manual.antt =====
-- src/mimic_schedule.cpp: the requests of the operators and of the proxies and judges, doManualUpOpt
-- to doSubscribe. A request for one executor is its `addr` and `opt`, or `none` when its data is no
-- object; an error report is a list of addresses and reasons, or `none` when its data is no array.
pub mod Keeps
pub mod Errors
pub mod Stale
pub mod Served
use openstack_mimic_componen.Base.{
  ℕ, zero, suc, ◌+◌, ◌%◌, Bool, true, false, not, ◌&&◌, ◌||◌, String, List, [], ◌∷◌, Option, none,
  some, if◌then◌else◌, ◌==◌, length, get_elem?, String_discrete, ite, map, ltb, ◌++◌,
}
use openstack_mimic_componen.Base.Int.{ℤ, pos, ◌-ℤ◌, ◌+ℤ◌, eq_ℤ}
use openstack_mimic_componen.Map.{Map, text_key, size, has, find, emplace, erase, keys}
use openstack_mimic_componen.Schedule.State.{
  Executor, Scheduler, Env, Effect, Reply, echo, Policys, offline, online, active, cleaning, emit,
  change_exec, exec_at, set_status, seed_now, after_read,
}
use openstack_mimic_componen.Schedule.Updown.{
  update_exec_status_db, sync_exec_log, sync_and_pub, clean_exec, do_updown,
}

abbrev pub resp_msg : ℕ → String → Reply → Scheduler → Scheduler
resp_msg bev status r = emit (Effect.respond bev status r)

abbrev pub refuse : ℕ → Scheduler → Scheduler
refuse bev = resp_msg bev "error" echo

pub record ManualRequest : Type 0 where
  pub addr : String
  pub opt : String

-- The two lists and `manualDownNum` after a manual operation.
abbrev pub upped : String → Scheduler → Scheduler
upped addr s =
    let up : Scheduler = change_exec addr (set_status active) s in
    record up {
      active_exec_list = emplace addr (exec_at up addr) up.active_exec_list;
      manual_down_num = up.manual_down_num -ℤ pos 1;
    }

unfoldable pub manual_up : String → Scheduler → Scheduler
manual_up addr s = sync_and_pub none (
    sync_exec_log addr "" "MANUALSCHEDULE" "ONLINE" "manually up one exec"
      (update_exec_status_db addr (upped addr s)))

unfoldable pub do_manual_up_opt : ℕ → Option ManualRequest → Scheduler → Scheduler
do_manual_up_opt bev none s = refuse bev s
do_manual_up_opt bev (some r) s =
    ite (String_discrete r.opt "up")
      (if not (has r.addr s.all_exec_list)
        then refuse bev s
        else if size s.active_exec_list == s.config.exec_num
        then refuse bev s
        else if has r.addr s.active_exec_list
        then refuse bev s
        else resp_msg bev "ok" echo (manual_up r.addr s))
      (refuse bev s)

abbrev pub downed : String → Scheduler → Scheduler
downed addr s =
    let down : Scheduler = change_exec addr (set_status online) s in
    record down {
      active_exec_list = erase addr down.active_exec_list;
      manual_down_num = down.manual_down_num +ℤ pos 1;
    }

unfoldable pub manual_down : String → Scheduler → Scheduler
manual_down addr s = sync_and_pub none (
    sync_exec_log addr "" "MANUALSCHEDULE" "OFFLINE" "manually down one exec"
      (update_exec_status_db addr (downed addr s)))

unfoldable pub do_manual_down_opt : ℕ → Option ManualRequest → Scheduler → Scheduler
do_manual_down_opt bev none s = refuse bev s
do_manual_down_opt bev (some r) s =
    ite (String_discrete r.opt "down")
      (if not (has r.addr s.all_exec_list)
        then refuse bev s
        else if size s.active_exec_list == 1
        then refuse bev s
        else if not (has r.addr s.active_exec_list)
        then refuse bev s
        else resp_msg bev "ok" echo (manual_down r.addr s))
      (refuse bev s)

unfoldable pub manual_clean : String → Scheduler → Scheduler
manual_clean addr s =
    sync_exec_log addr "" "MANUALCLEAN" "CLEAN" "manually clean one exec"
      (update_exec_status_db addr (clean_exec addr (change_exec addr (set_status cleaning) s)))

unfoldable pub do_manual_clean_opt : ℕ → Option ManualRequest → Scheduler → Scheduler
do_manual_clean_opt bev none s = refuse bev s
do_manual_clean_opt bev (some r) s =
    ite (String_discrete r.opt "clean")
      (if not (has r.addr s.all_exec_list)
        then refuse bev s
        else if eq_ℤ (exec_at s r.addr).status offline
        then resp_msg bev "ok" echo (manual_clean r.addr s)
        else refuse bev s)
      (refuse bev s)

-- The loop of doReportError: the reports before one that is not in the active list are carried out.
unfoldable pub report_errors : Env → ℕ → List (String × String) → Scheduler → Scheduler
report_errors env bev [] s = resp_msg bev "ok" echo s
report_errors env bev ((addr, msg) ∷ reports) s =
    let rest = report_errors env bev reports (do_updown env addr msg s) in
    if has addr s.active_exec_list then rest else refuse bev s

unfoldable pub do_report_error : Env → ℕ → Option (List (String × String)) → Scheduler → Scheduler
do_report_error env bev none s = refuse bev s
do_report_error env bev (some reports) s = report_errors env bev reports s

unfoldable pub status_name : ℤ → String
status_name n =
    if eq_ℤ n offline
    then "offline"
    else if eq_ℤ n online
    then "online"
    else if eq_ℤ n active
    then "active"
    else if eq_ℤ n cleaning
    then "cleaning"
    else "initing"

unfoldable pub do_query_up_execs : ℕ → Scheduler → Scheduler
do_query_up_execs bev s = resp_msg bev "ok" (Reply.up_execs (keys s.active_exec_list)) s

unfoldable pub do_query_exec_stats : ℕ → Scheduler → Scheduler
do_query_exec_stats bev s =
    resp_msg bev "ok" (Reply.exec_stats (map (λ e. (e.0, status_name e.1.status)) s.all_exec_list))
      s

unfoldable pub do_query_up_times : ℕ → Scheduler → Scheduler
do_query_up_times bev s =
    resp_msg bev "ok" (Reply.up_times (map (λ e. (e.0, e.1.active_time)) s.all_exec_list)) s

-- timerStop and timerSpawn, as far as `isRuning` shows them.
unfoldable pub do_hung_down : ℕ → String → Scheduler → Scheduler
do_hung_down bev service s =
    ite (String_discrete service s.config.service_name)
      (resp_msg bev "ok" echo (record s { report_running = false; schedule_running = false }))
      (refuse bev s)

unfoldable pub do_hung_up : ℕ → String → Scheduler → Scheduler
do_hung_up bev service s =
    ite (String_discrete service s.config.service_name)
      (resp_msg bev "ok" echo (record s { report_running = true; schedule_running = true }))
      (refuse bev s)

unfoldable pub do_subscribe : ℕ → Scheduler → Scheduler
do_subscribe bev s =
    sync_and_pub (some bev) (record s { subscribe_bevs = s.subscribe_bevs ++ (bev ∷ []) })

-- One round of the loop of doUpdateConfig: a random active executor becomes ready again.
unfoldable pub switch_down : Env → Scheduler → Scheduler
switch_down env s =
    elim (get_elem? (keys s.active_exec_list)
      (env.rand (seed_now env s) % length (keys s.active_exec_list))) [
        | none ↦ emit Effect.fault s
        | some down ↦
            let t : Scheduler = after_read (change_exec down (set_status online) s) in
            record t {
              active_exec_list = erase down t.active_exec_list;
              manual_down_num = t.manual_down_num +ℤ pos 1;
            }
      ]

-- `while (activeExecList.size() > 1)`, on fuel.
unfoldable pub switch_loop : Env → ℕ → Scheduler → Scheduler
switch_loop env zero s = s
switch_loop env (suc n) s = elim (ltb 1 (size s.active_exec_list)) [
  | true ↦ switch_loop env n (switch_down env s)
  | false ↦ s
]

unfoldable pub switch_off : Env → Scheduler → Scheduler
switch_off env s = switch_loop env (size s.active_exec_list) s

-- `synced` is the policy that syncPolicyFromMysql leaves.
unfoldable pub do_update_config : Env → ℕ → Policys → Scheduler → Scheduler
do_update_config env bev synced s =
    let t : Scheduler = record s { policys = synced } in
    let same = String_discrete s.policys.mimic_switch synced.mimic_switch in
    resp_msg bev "ok" echo (
      sync_and_pub none (
        ite same t (
          ite (String_discrete synced.mimic_switch "off") (switch_off env t) (
            ite (String_discrete synced.mimic_switch "on") (record t { manual_down_num = pos 0 })
              t))))
