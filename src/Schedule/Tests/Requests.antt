-- ===== src/Schedule/Tests/Requests.antt =====
-- The reports and the requests, applied to the scheduler of the tests.
use openstack_mimic_componen.Base.{
  ◌≤◌, ◌<◌, ◌≡◌, ◌≢◌, refl, true, false, String, String_discrete, List, [], ◌∷◌, none, some, arith,
  All,
}
use openstack_mimic_componen.Base.Int.{pos}
use openstack_mimic_componen.Map.{text_key, find, size, at}
use openstack_mimic_componen.Schedule.State.{Policys}
use openstack_mimic_componen.Schedule.Lists.{Consistent}
use openstack_mimic_componen.Schedule.Report.{InitAnswers, exec_auto_report_cb}
use openstack_mimic_componen.Schedule.Report.Keeps.{IsRunning, exec_auto_report_cb_bound}
use openstack_mimic_componen.Schedule.Manual.{
  ManualRequest, do_manual_up_opt, do_manual_down_opt, do_manual_clean_opt, do_report_error,
  do_update_config,
}
use openstack_mimic_componen.Schedule.Manual.Keeps.{manual_requests-Consistent}
use openstack_mimic_componen.Schedule.Manual.Errors.{do_report_error-Alive, do_update_config_off}
use openstack_mimic_componen.Schedule.Manual.Stale.{UpThenStale, do_manual_up_opt-clean_thread_end}
use openstack_mimic_componen.Schedule.Dispatch.{Request, Synced, read_cb}
use openstack_mimic_componen.Schedule.Dispatch.Keeps.{read_cb-Consistent}
use openstack_mimic_componen.Schedule.Tests.{
  test_policys, four, test_env, refuted, off_on, four-Consistent,
}

four-IsRunning : IsRunning four
four-IsRunning = record {
  consistent = four-Consistent;
  started = refl;
  bounded = omega arith;
  manual = (0, refl);
}

abbrev pub test_answers : InitAnswers
test_answers = record {
  count_ok = true;
  count_zero = true;
  delete_ok = true;
  insert_ok = λ _. true;
}

-- The fourth executor fails to answer.
exec_auto_report_cb_bound_example :
    Consistent (exec_auto_report_cb test_env test_answers "10.0.0.4:80" none four)
    × (size (exec_auto_report_cb test_env test_answers "10.0.0.4:80" none four).active_exec_list
        ≤ 3)
unfolding find String_discrete
exec_auto_report_cb_bound_example =
    exec_auto_report_cb_bound test_env test_answers "10.0.0.4:80" none four four-IsRunning refl

abbrev up_second : ManualRequest
up_second = record { addr = "10.0.0.2:80"; opt = "up" }

manual_requests-Consistent_example :
    Consistent (do_manual_up_opt 7 (some up_second) four)
    × Consistent (do_manual_down_opt 7 (some up_second) four)
    × Consistent (do_manual_clean_opt 7 (some up_second) four)
manual_requests-Consistent_example =
    manual_requests-Consistent 7 (some up_second) four four-Consistent

abbrev two_reports : List (String × String)
two_reports = ("10.0.0.1:80", "BODYVALUE") ∷ ("10.0.0.4:80", "CONTENTTYPE") ∷ []

do_report_error-Alive_example :
    Consistent (do_report_error test_env 7 (some two_reports) four)
    × (0 < size (do_report_error test_env 7 (some two_reports) four).active_exec_list)
do_report_error-Alive_example =
    do_report_error-Alive test_env 7 (some two_reports) four four-Consistent (omega arith)

abbrev policys_off : Policys
policys_off = record test_policys { mimic_switch = "off" }

do_update_config_off_example :
    Consistent (do_update_config test_env 7 policys_off four)
    × (size (do_update_config test_env 7 policys_off four).active_exec_list ≡ 1)
    × ((do_update_config test_env 7 policys_off four).manual_down_num ≡ pos 1)
do_update_config_off_example =
    do_update_config_off test_env 7 0 policys_off four four-Consistent (omega arith) refl off_on
      refl

do_manual_up_opt-clean_thread_end_example :
    UpThenStale test_env 7 "10.0.0.3:80"
      (do_manual_up_opt 7 (some (record { addr = "10.0.0.3:80"; opt = "up" })) four)
unfolding find String_discrete at
do_manual_up_opt-clean_thread_end_example =
    do_manual_up_opt-clean_thread_end test_env 7 "10.0.0.3:80" four four-Consistent refl refl
      (λ e. omega (arith, e))

abbrev test_request : String → Request
test_request mode = record {
  mode = mode;
  no_data = false;
  manual = some up_second;
  reports = some two_reports;
  service = "controller";
}

abbrev pub three_requests : List Request
three_requests =
    test_request "manual_up" ∷ test_request "report_error" ∷ test_request "update_config" ∷ []

abbrev pub test_synced : Synced
test_synced = record { policys = policys_off; rows = none }

abbrev NoScweight : Request → Type 0
NoScweight r = r.mode ≢ "update_scweight"

pub no_scweight : All NoScweight three_requests
unfolding String_discrete
no_scweight = (
  refuted "manual_up" "update_scweight" (String_discrete "manual_up" "update_scweight") refl,
  (
    refuted "report_error" "update_scweight" (String_discrete "report_error" "update_scweight")
        refl,
    (
      refuted "update_config" "update_scweight" (String_discrete "update_config" "update_scweight")
          refl,
      tt,
    ),
  ),
)

read_cb-Consistent_example : Consistent (read_cb test_env test_synced 7 three_requests four)
read_cb-Consistent_example =
    read_cb-Consistent test_env test_synced 7 three_requests four no_scweight four-Consistent
