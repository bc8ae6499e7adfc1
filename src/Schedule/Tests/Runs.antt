-- ===== src/Schedule/Tests/Runs.antt =====
-- The scheduler of the tests from its start on, and in the order of its steps.
use openstack_mimic_componen.Base.{
  to_string, ◌≤◌, ◌<◌, ◌≡◌, refl, true, false, String, String_discrete, [], ◌∷◌, none, some, arith,
}
use openstack_mimic_componen.Map.{text_key, find, size, at, emplace, place, update, adjust}
use openstack_mimic_componen.Schedule.Tests.Requests.{
  test_answers, test_synced, three_requests, no_scweight,
}
use openstack_mimic_componen.Schedule.State.{Scheduler, ExecBaseInfo, addr_of}
use openstack_mimic_componen.Schedule.Lists.{Consistent}
use openstack_mimic_componen.Schedule.Report.{
  exec_status_report, exec_auto_report_cb, register_execs, first_report, reported_status,
  init_executor, finish_init, init_mysql_and_pub, fill_table, insert_rows, log_online, publish_init,
}
use openstack_mimic_componen.Schedule.Dispatch.{read_cb, event_cb}
use openstack_mimic_componen.Schedule.Updown.{
  exec_atuo_schedule, init_active_exec, init_rounds, run_policy, sync_exec_log,
}
use openstack_mimic_componen.Schedule.Life.{
  Reach, here, next, scheduled, received, closed, service_kept,
}
use openstack_mimic_componen.Schedule.Policy.{policy_all_random, choose_random, bring_up, take_down}
use openstack_mimic_componen.Schedule.Tests.{
  test_policys, test_config, test_scheduler, four, test_env, four-Consistent,
}
use openstack_mimic_componen.Schedule.Start.{Starts, loaded, polled, answered, first_start_bound}

-- The oldest executor is replaced, three requests come, and their connection ends.
abbrev after_requests : Scheduler
after_requests = read_cb test_env test_synced 7 three_requests (exec_atuo_schedule test_env four)

four-path : Reach four (event_cb 7 after_requests)
four-path =
    next
      (next (next here (scheduled test_env))
        (received test_env test_synced 7 three_requests no_scweight))
      (closed 7)

service_kept_example :
    Consistent (event_cb 7 after_requests) × (0 < size (event_cb 7 after_requests).active_exec_list)
service_kept_example = service_kept four-path four-Consistent (omega arith)

abbrev test_info : String → ExecBaseInfo
test_info ip = record { arch = "x86"; ip = ip; port = 80; web = ""; os = "linux" }

-- Two executors are configured, and none is known yet.
abbrev unstarted : Scheduler
unstarted = record (test_scheduler [] []) {
  config = record test_config { exec_info = test_info "10.0.0.1" ∷ test_info "10.0.0.2" ∷ [] };
  policys = record test_policys { schedule_rule = "random" };
  is_first_start = true;
}

abbrev registered : Scheduler
registered = exec_status_report unstarted

abbrev one_answered : Scheduler
one_answered = exec_auto_report_cb test_env test_answers "10.0.0.1:80" (some 401) registered

abbrev running : Scheduler
running = exec_auto_report_cb test_env test_answers "10.0.0.2:80" none one_answered

unstarted-Starts : Starts unstarted running
unfolding find String_discrete to_string emplace place exec_auto_report_cb exec_status_report
    register_execs first_report update adjust reported_status init_executor
unstarted-Starts =
    answered test_env test_answers "10.0.0.2:80" none
      (answered test_env test_answers "10.0.0.1:80" (some 401) (polled loaded refl) refl refl) refl
      refl

running_started : running.is_first_start ≡ false
unfolding find addr_of String_discrete to_string emplace place exec_auto_report_cb
    exec_status_report register_execs first_report update adjust reported_status init_executor
    finish_init init_mysql_and_pub fill_table insert_rows init_active_exec init_rounds run_policy
    policy_all_random choose_random bring_up take_down at log_online publish_init sync_exec_log
running_started = refl

first_start_bound_example :
    Consistent running × (size running.active_exec_list ≤ running.config.exec_num)
first_start_bound_example = first_start_bound unstarted-Starts refl refl refl running_started
