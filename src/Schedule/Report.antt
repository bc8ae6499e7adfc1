-- ===== src/Schedule/Report.antt =====
-- src/mimic_schedule.cpp: execStatusReport's registration, execAutoReportCb, initMysqlAndPub and the
-- part of cleanThread that holds the lock. Whether a statement of initMysqlAndPub succeeds is what the
-- database says, an argument.
pub mod Steady
pub mod Keeps
use openstack_mimic_componen.Base.{
  ℕ, zero, suc, ◌+◌, ◌-◌, ◌*◌, ◌%◌, ◌^◌, Bool, true, false, not, ◌&&◌, ◌||◌, String, List, [], ◌∷◌,
  Option, none, some, if◌then◌else◌, leb, ltb, ◌==◌, length, ◌+s◌, to_string, String_discrete, ite,
  any, map,
}
use openstack_mimic_componen.Base.Int.{ℤ, pos, pos_part, ◌-ℤ◌, eq_ℤ}
use openstack_mimic_componen.Map.{Map, text_key, values, size, has, at, find, emplace, update, keys}
use openstack_mimic_componen.Schedule.State.{
  Executor, Scheduler, Env, Effect, ExecBaseInfo, Config, initing, offline, online, active,
  cleaning, emit, change_exec, exec_at, set_status, has_status, seed_now, after_read,
}
use openstack_mimic_componen.Schedule.Updown.{
  update_exec_status_db, sync_exec_log, clean_exec, do_updown, up_rounds, init_active_exec,
}

-- The entry that the first report makes for the executor number `n`.
unfoldable pub init_executor : Config → ℕ → ExecBaseInfo → Executor
init_executor c n b = record {
  id = n;
  status = initing;
  exec_zone = n;
  system_num = "exec_" +s to_string n;
  arch = b.arch;
  note = "init";
  cpu = b.arch;
  ip = b.ip;
  port = b.port;
  web = if c.is_horizon then b.web else "";
  os = b.os;
  scweight = 100;
  active_time = 0;
  fail_count = 0;
}

unfoldable pub register_execs :
    Config → ℕ → List ExecBaseInfo → Map String Executor → Map String Executor
register_execs c n [] m = m
register_execs c n (b ∷ bs) m =
    register_execs c (suc n) bs
      (emplace (b.ip +s ":" +s to_string b.port) (init_executor c (suc n) b) m)

-- What execStatusReport does to the state; the requests that it makes come back as calls of
-- `exec_auto_report_cb`.
unfoldable pub exec_status_report : Scheduler → Scheduler
exec_status_report s =
    if s.is_first_start
    then record s { all_exec_list = register_execs s.config 0 s.config.exec_info s.all_exec_list }
    else s

-- `none` is a request that failed or a response code of 0.
unfoldable pub reported_status : Config → Option ℕ → ℤ
reported_status c none = offline
reported_status c (some zero) = offline
reported_status c (some (suc n)) =
    if c.is_horizon || c.is_keystone
    then (if suc n == 200 then online else offline)
    else if c.is_controller
    then (if suc n == 401 then online else offline)
    else offline

-- The answers of the database to the statements of initMysqlAndPub.
pub record InitAnswers : Type 0 where
  pub count_ok : Bool
  pub count_zero : Bool
  pub delete_ok : Bool
  pub insert_ok : String → Bool

-- The rows written before the first one that fails, and whether all were.
unfoldable pub insert_rows : (String → Bool) → Map String Executor → Scheduler → Bool × Scheduler
insert_rows answer [] s = (true, s)
insert_rows answer ((addr, e) ∷ m) s =
    let rest =
      insert_rows answer m
        (emit (Effect.insert_row addr (if eq_ℤ e.status cleaning then offline else e.status)) s) in
    if answer addr then rest else (false, s)

unfoldable pub log_online : List String → Scheduler → Scheduler
log_online [] s = s
log_online (addr ∷ addrs) s =
    log_online addrs (sync_exec_log addr "" "INITSCHEDULE" "ONLINE" "初始化调度上线" s)

unfoldable pub publish_init : Scheduler → Scheduler
publish_init s =
    if length s.subscribe_bevs == 0
    then s
    else emit (Effect.publish s.subscribe_bevs s.all_exec_list s.active_exec_list s.policys) s

unfoldable pub fill_table : InitAnswers → Scheduler → Bool × Scheduler
fill_table a s =
    let (done, t) = insert_rows a.insert_ok s.all_exec_list s in
    if done then (true, publish_init (log_online (keys s.active_exec_list) t)) else (false, t)

unfoldable pub init_mysql_and_pub : InitAnswers → Scheduler → Bool × Scheduler
init_mysql_and_pub a s =
    if not a.count_ok
    then (false, s)
    else if a.count_zero
    then fill_table a s
    else if a.delete_ok
    then fill_table a (emit Effect.clear_table s)
    else (false, s)

abbrev pub all_tested : Scheduler → Bool
all_tested s = not (any (has_status initing) (values s.all_exec_list))

unfoldable pub reset_all : Map String Executor → Map String Executor
reset_all = map (λ e. (e.0, set_status initing e.1))

unfoldable pub finish_init : Bool × Scheduler → Scheduler
finish_init (true, s) = record s { is_first_start = false }
finish_init (false, s) = record s { all_exec_list = reset_all s.all_exec_list }

unfoldable pub first_report : Env → InitAnswers → String → ℤ → Scheduler → Scheduler
first_report env a addr status s =
    let t : Scheduler = change_exec addr (set_status status) s in
    if (size t.all_exec_list == length t.config.exec_info) && all_tested t
    then finish_init (init_mysql_and_pub a (init_active_exec env t))
    else t

-- uint64_t subtraction, and the sixty seconds between two cleanings.
unfoldable pub clean_due : ℕ → Option ℕ → Bool
clean_due now none = true
clean_due now (some last) = leb 60000000 ((now + 2 ^ 64 - last) % 2 ^ 64)

abbrev pub start_clean : String → Scheduler → Scheduler
start_clean addr s = clean_exec addr (change_exec addr (set_status cleaning) s)

-- The chain of tests on the old status and the reported one.
unfoldable pub settle_status : Env → String → ℤ → Scheduler → Scheduler
settle_status env addr status s =
    let old = (exec_at s addr).status in
    if eq_ℤ old active && eq_ℤ status offline
    then (if has addr s.active_exec_list then do_updown env addr "Schedule" s else s)
    else if eq_ℤ old online && eq_ℤ status offline
    then start_clean addr s
    else if eq_ℤ old offline && eq_ℤ status online
    then change_exec addr (set_status online) s
    else if eq_ℤ old offline && eq_ℤ status offline
    then (if clean_due (seed_now env s) (find addr s.pre_clean_times)
        then start_clean addr (after_read s)
        else after_read s)
    else if eq_ℤ old initing
    then emit Effect.stop_loop s
    else s

unfoldable pub record_status : String → ℤ → Scheduler → Scheduler
record_status addr status s =
    if eq_ℤ (exec_at s addr).status active && eq_ℤ status offline
    then s
    else update_exec_status_db addr s

-- `(execNum - manualDownNum) - activeExecList.size()`, the executors to bring up.
abbrev pub missing_execs : Scheduler → ℕ
missing_execs s =
    pos_part (pos s.config.exec_num -ℤ s.manual_down_num -ℤ pos (size s.active_exec_list))

unfoldable pub refill : Env → Scheduler → Scheduler
refill env s =
    if ltb (size s.active_exec_list) s.config.exec_num then up_rounds env (missing_execs s) s else s

unfoldable pub exec_auto_report_cb : Env → InitAnswers → String → Option ℕ → Scheduler → Scheduler
exec_auto_report_cb env a addr code s =
    let status = reported_status s.config code in
    if s.is_first_start
    then first_report env a addr status s
    else refill env
        (record_status addr status (settle_status env addr status (change_exec addr (λ e. e) s)))

-- cleanThread after its command has run: the executor is offline, and may be cleaned again later.
unfoldable pub clean_thread_end : Env → String → Scheduler → Scheduler
clean_thread_end env addr s =
    let t : Scheduler = update_exec_status_db addr (change_exec addr (set_status offline) s) in
    after_read
      (record t { pre_clean_times = update 0 addr (λ _. seed_now env t) t.pre_clean_times })
