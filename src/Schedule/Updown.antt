-- ===== src/Schedule/Updown.antt =====
-- src/mimic_schedule.cpp: updateExecStatusDb, syncExecLog, syncAndPub, cleanExec, doUpdown,
-- initActiveExec and execAtuoSchedule.
pub mod Reports
pub mod Keeps
pub mod Main
pub mod Oldest
pub mod Auto
use openstack_mimic_componen.Base.{
  ℕ, zero, suc, ◌+◌, Bool, true, false, not, ◌&&◌, ◌||◌, String, List, [], ◌∷◌, Option, none, some,
  if◌then◌else◌, leb, ◌==◌, find?, String_discrete, ite, is_some,
}
use openstack_mimic_componen.Base.Int.{ℤ, pos, pos_part, ◌-ℤ◌, eq_ℤ}
use openstack_mimic_componen.Map.{Map, text_key, values, size, has, find}
use openstack_mimic_componen.Schedule.State.{
  Executor, Scheduler, Env, Effect, initing, offline, cleaning, emit, change_exec, exec_at,
}
use openstack_mimic_componen.Schedule.Policy.{
  Outcome, returned, thrown, undefined, policy_weight, policy_all_random, policy_host_random,
  take_down,
}

-- What the database column holds: an executor in cleaning or not yet tested is offline.
unfoldable pub db_status : ℤ → ℤ
db_status n = if eq_ℤ n cleaning || eq_ℤ n initing then offline else n

-- `updateExecStatusDb(allExecList[addr].ip, allExecList[addr].port, allExecList[addr].status)`
unfoldable pub update_exec_status_db : String → Scheduler → Scheduler
update_exec_status_db addr s =
    let seen : Scheduler = change_exec addr (λ e. e) s in
    let e = exec_at seen addr in emit (Effect.update_db e.ip e.port (db_status e.status)) seen

unfoldable pub sync_exec_log : (addr related action status msg : String) → Scheduler → Scheduler
sync_exec_log addr related action status msg s =
    emit (Effect.exec_log addr related action status msg) (change_exec addr (λ e. e) s)

-- `none` publishes to every subscriber, `some bev` to that one.
unfoldable pub sync_and_pub : Option ℕ → Scheduler → Scheduler
sync_and_pub to s =
    if s.is_first_start
    then s
    else emit (Effect.publish bevs s.all_exec_list s.active_exec_list s.policys) s
  where
    bevs : List ℕ
    bevs = elim to [ none ↦ s.subscribe_bevs | some bev ↦ bev ∷ [] ]

abbrev pub clean_exec : String → Scheduler → Scheduler
clean_exec addr = emit (Effect.spawn_clean addr)

abbrev pub int_max : ℕ
int_max = 2147483647

unfoldable pub count_failure : Executor → Executor
count_failure e = record e {
  fail_count = if e.fail_count + 1 == int_max then 1 else e.fail_count + 1;
}

-- The policy that `scheduleRule` names, if it names one.
unfoldable pub run_policy : Env → String → Scheduler → Option (Outcome × Scheduler)
run_policy env down s =
    ite (String_discrete s.policys.schedule_rule "scweight") (some (policy_weight env down s)) (
      ite (String_discrete s.policys.schedule_rule "random") (some (policy_all_random env down s)) (
        ite (String_discrete s.policys.schedule_rule "host_random")
          (some (policy_host_random env down s)) none))

-- The two branches that report an executor taken down or brought up.
unfoldable pub report_down : (down key action msg : String) → Scheduler → Scheduler
report_down down key action msg s =
    ite (String_discrete down "") s
      (clean_exec down (sync_exec_log down key action "OFFLINE" msg (update_exec_status_db down s)))

unfoldable pub report_up : (key down action msg : String) → Scheduler → Scheduler
report_up key down action msg s =
    ite (String_discrete key "") s
      (sync_exec_log key down action "ONLINE" msg (update_exec_status_db key s))

unfoldable pub report_pub : (down key : String) → Scheduler → Scheduler
report_pub down key s =
    ite (String_discrete down "") (ite (String_discrete key "") s (sync_and_pub none s))
      (sync_and_pub none s)

unfoldable pub report_updown : (down key action msg : String) → Scheduler → Scheduler
report_updown down key action msg s =
    report_pub down key (report_up key down action msg (report_down down key action msg s))

-- What doUpdown does with the outcome of the policy; a throw takes `downAddr` down all the same.
unfoldable pub after_policy :
    (down action msg : String) → Scheduler → Option (Outcome × Scheduler) → Scheduler
after_policy down action msg s none = s
after_policy down action msg s (some (returned key, t)) = report_updown down key action msg t
after_policy down action msg s (some (thrown _, t)) =
    report_updown down "" action msg (take_down down t)
after_policy down action msg s (some (undefined, t)) = emit Effect.fault t

unfoldable pub counted_failure : (addr msg : String) → Scheduler → Scheduler
counted_failure addr msg s =
    ite (String_discrete msg "Schedule") s
      (ite (String_discrete addr "") s (change_exec addr count_failure s))

abbrev pub updown_action : String → String
updown_action msg = ite (String_discrete msg "Schedule") "AUTOSCHEDULE" "JUDGEERROR"

abbrev pub updown_msg : String → String
updown_msg msg = ite (String_discrete msg "Schedule") msg "JudgeError"

unfoldable pub do_updown : Env → (addr msg : String) → Scheduler → Scheduler
do_updown env addr msg s =
    if has addr s.active_exec_list && (size s.active_exec_list == 1)
    then s
    else let counted : Scheduler = counted_failure addr msg s in
      after_policy addr (updown_action msg) (updown_msg msg) counted (run_policy env addr counted)

-- `for (i = 0; i < upexec_nums; i++) doUpdown("", "Schedule")`
unfoldable pub up_rounds : Env → ℕ → Scheduler → Scheduler
up_rounds env zero s = s
up_rounds env (suc n) s = up_rounds env n (do_updown env "" "Schedule" s)

-- The rounds of initActiveExec; an exception of a policy ends its round only.
unfoldable pub init_rounds : Env → ℕ → Scheduler → Scheduler
init_rounds env zero s = s
init_rounds env (suc n) s = elim (run_policy env "" s) [
  | none ↦ s
  | some (returned _, t) ↦ init_rounds env n t
  | some (thrown _, t) ↦ init_rounds env n t
  | some (undefined, t) ↦ emit Effect.fault t
]

unfoldable pub init_active_exec : Env → Scheduler → Scheduler
init_active_exec env s =
    init_rounds env (pos_part (pos s.config.exec_num -ℤ s.manual_down_num))
      (record s { active_exec_list = [] })

-- minTime of execAtuoSchedule, where 0 means that no time is known yet.
unfoldable pub min_time : ℕ → List Executor → ℕ
min_time m [] = m
min_time m (e ∷ es) =
    min_time (if m == 0 then e.active_time else if leb e.active_time m then e.active_time else m) es

unfoldable pub exec_atuo_schedule : Env → Scheduler → Scheduler
exec_atuo_schedule env s =
    if s.is_first_start || (size s.active_exec_list == 0)
    then s
    else elim (find? (λ e. e.1.active_time == min_time 0 (values s.active_exec_list))
        s.active_exec_list) [ none ↦ s | some (addr, e) ↦ do_updown env addr "Schedule" s ]
