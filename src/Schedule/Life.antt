-- ===== src/Schedule/Life.antt =====
-- src/mimic_schedule.cpp: the life of a scheduler that has started, as steps of its event base and its
-- threads in any order.
use openstack_mimic_componen.Base.{ℕ, ◌<◌, ◌≡◌, ◌≢◌, true, false, String, List, Option, All, arith}
use openstack_mimic_componen.Map.{text_key, has, size}
use openstack_mimic_componen.Schedule.State.{Scheduler, Env, set_status, change_exec, offline}
use openstack_mimic_componen.Schedule.Lists.{Consistent, Alive, stay-IsConsistent}
use openstack_mimic_componen.Schedule.Swaps.{has-update, set_status-addr}
use openstack_mimic_componen.Schedule.Updown.{exec_atuo_schedule}
use openstack_mimic_componen.Schedule.Updown.Reports.{update_exec_status_db-Traced}
use openstack_mimic_componen.Schedule.Updown.Auto.{exec_atuo_schedule-Consistent}
use openstack_mimic_componen.Schedule.Manual.Keeps.{Traced-Consistent}
use openstack_mimic_componen.Schedule.Manual.Served.{Traced-Served}
use openstack_mimic_componen.Schedule.Report.{InitAnswers, exec_auto_report_cb, clean_thread_end}
use openstack_mimic_componen.Schedule.Report.Keeps.{exec_auto_report_cb-Alive}
use openstack_mimic_componen.Schedule.Dispatch.{Request, Synced, read_cb, event_cb}
use openstack_mimic_componen.Schedule.Dispatch.Keeps.{read_cb-kept, Alive-IsKept}

-- What may happen next: a report on a registered executor, the timer of execAtuoSchedule, requests
-- that are no update of the weights from the database, the end of a connection, or the end of the
-- cleaning of an executor that no operator has brought up meanwhile.
pub data Step (s : Scheduler) : Scheduler → Type 0 where
  reported :
      (env : Env) (a : InitAnswers) (addr : String) (code : Option ℕ)
      → s.is_first_start ≡ false
      → has addr s.all_exec_list ≡ true
      → Step s (exec_auto_report_cb env a addr code s)
  scheduled : (env : Env) → Step s (exec_atuo_schedule env s)
  received :
      (env : Env) (a : Synced) (bev : ℕ) (rs : List Request)
      → All (λ r. r.mode ≢ "update_scweight") rs
      → Step s (read_cb env a bev rs s)
  closed : (bev : ℕ) → Step s (event_cb bev s)
  cleaned :
      (env : Env) (addr : String)
      → has addr s.all_exec_list ≡ true
      → has addr s.active_exec_list ≡ false
      → Step s (clean_thread_end env addr s)

pub data Reach (s : Scheduler) : Scheduler → Type 0 where
  here : Reach s s
  next : {t u : Scheduler} → Reach s t → Step t u → Reach s u

event_cb-Alive : (bev : ℕ) (s : Scheduler) → Alive s → Alive (event_cb bev s)
unfolding event_cb
event_cb-Alive bev s c = c

offline-Consistent :
    (addr : String) (s : Scheduler)
    → has addr s.all_exec_list ≡ true
    → has addr s.active_exec_list ≡ false
    → Consistent s
    → Consistent (change_exec addr (set_status offline) s)
offline-Consistent addr s h down c =
    stay-IsConsistent addr (set_status offline) s.all_exec_list s.active_exec_list
      (set_status-addr offline) c h (ground arith)

clean_thread_end-Alive :
    (env : Env) (addr : String) (s : Scheduler)
    → has addr s.all_exec_list ≡ true
    → has addr s.active_exec_list ≡ false
    → Alive s
    → Alive (clean_thread_end env addr s)
unfolding clean_thread_end
clean_thread_end-Alive env addr s h down c =
    let u : Scheduler = change_exec addr (set_status offline) s in
    let wrote =
      update_exec_status_db-Traced addr u
        (has-update addr addr (set_status offline) s.all_exec_list h) in
    (
      Traced-Consistent u _ wrote (offline-Consistent addr s h down c.0),
      Traced-Served u _ wrote c.1,
    )

Step-Alive : {s t : Scheduler} → Step s t → Alive s → Alive t
Step-Alive (reported env a addr code started h) c =
    exec_auto_report_cb-Alive env a addr code _ started h c
Step-Alive (scheduled env) c = exec_atuo_schedule-Consistent env _ c.0 c.1
Step-Alive (received env a bev rs n) c = read_cb-kept Alive-IsKept env a bev rs _ n c
Step-Alive (closed bev) c = event_cb-Alive bev _ c
Step-Alive (cleaned env addr h down) c = clean_thread_end-Alive env addr _ h down c

-- From a scheduler whose lists are in step and that has an executor active, the lists stay in step and
-- an executor stays active whatever happens, in whatever order: reports of registered executors after
-- the start, the timer of execAtuoSchedule, connections that end, cleanings that end while their
-- executor is not active, and requests that are no update of the weights from the database.
pub service_kept :
    {s t : Scheduler}
    → Reach s t
    → Consistent s
    → 0 < size s.active_exec_list
    → Consistent t × (0 < size t.active_exec_list)
service_kept here c n = (c, n)
service_kept (next path step) c n = Step-Alive step (service_kept path c n)
