-- ===== src/Schedule/Dispatch/Keeps.antt =====
-- src/mimic_schedule.cpp: readCb against the two lists, whatever is received.
use openstack_mimic_componen.Base.{
  ℕ, zero, suc, ◌≡◌, ◌≢◌, true, ◌&&◌, String, String_discrete, List, [], ◌∷◌, Option, none, some,
  if_cases, ite_cases, inl, inr, All, ltb, arith, Bool-cases,
}
use openstack_mimic_componen.Map.{text_key, has, size}
use openstack_mimic_componen.Schedule.State.{Scheduler, Env, Effect, Policys, emit}
use openstack_mimic_componen.Schedule.Lists.{Consistent, Alive}
use openstack_mimic_componen.Schedule.Updown.{sync_and_pub}
use openstack_mimic_componen.Schedule.Updown.Reports.{sync_and_pub-Traced}
use openstack_mimic_componen.Schedule.Updown.Main.{up_known, do_updown-Keeps}
use openstack_mimic_componen.Schedule.Manual.{
  ManualRequest, do_manual_up_opt, do_manual_down_opt, do_manual_clean_opt, report_errors,
  do_report_error, switch_loop, switch_off, do_update_config, do_subscribe, do_hung_up,
  do_hung_down, do_query_up_execs, do_query_exec_stats, do_query_up_times,
}
use openstack_mimic_componen.Schedule.Manual.Keeps.{Traced-Consistent, manual_requests-Consistent}
use openstack_mimic_componen.Schedule.Manual.Errors.{
  do_report_error-Alive, switch_down-shed, shed-Consistent,
}
use openstack_mimic_componen.Schedule.Manual.Served.{
  published-Served, manual_requests-Alive, do_update_config-Served,
}
use openstack_mimic_componen.Schedule.Dispatch.{
  Request, Synced, is_mode, needs_data, check_data, handler, read_cb,
}

published : (to : Option ℕ) (s : Scheduler) → Consistent s → Consistent (sync_and_pub to s)
published to s c = Traced-Consistent s _ (sync_and_pub-Traced to s) c

report_errors-Consistent :
    (env : Env) (bev : ℕ) (reports : List (String × String)) (s : Scheduler)
    → Consistent s
    → Consistent (report_errors env bev reports s)
unfolding report_errors
report_errors-Consistent env bev [] s c = c
report_errors-Consistent env bev ((addr, msg) ∷ reports) s c =
    if_cases Consistent (has addr s.active_exec_list)
      (λ up.
        report_errors-Consistent env bev reports _
          (do_updown-Keeps env addr msg s c (inr (up_known addr s c up))).consistent)
      (λ _. c)

do_report_error-Consistent :
    (env : Env) (bev : ℕ) (reports : Option (List (String × String))) (s : Scheduler)
    → Consistent s
    → Consistent (do_report_error env bev reports s)
unfolding do_report_error
do_report_error-Consistent env bev none s c = c
do_report_error-Consistent env bev (some reports) s c = report_errors-Consistent env bev reports s c

switch_loop-Consistent :
    (env : Env) (f : ℕ) (s : Scheduler) → Consistent s → Consistent (switch_loop env f s)
unfolding switch_loop
switch_loop-Consistent env zero s c = c
switch_loop-Consistent env (suc f) s c = elim (Bool-cases (ltb 1 (size s.active_exec_list))) [
  | inr stop ↦ rw (stop, switch_loop) c
  | inl go ↦
      let (down, up, q) = switch_down-shed env s (ground arith) in
      rw (go, switch_loop, q) (switch_loop-Consistent env f _ (shed-Consistent down s c up))
]

do_update_config-Consistent :
    (env : Env) (bev : ℕ) (synced : Policys) (s : Scheduler)
    → Consistent s
    → Consistent (do_update_config env bev synced s)
unfolding do_update_config switch_off
do_update_config-Consistent env bev synced s c =
    let t : Scheduler = record s { policys = synced } in
    published none _ (
      ite_cases Consistent (String_discrete s.policys.mimic_switch synced.mimic_switch) (λ _. c)
        λ _.
          ite_cases Consistent (String_discrete synced.mimic_switch "off")
            (λ _. switch_loop-Consistent env (size t.active_exec_list) t c)
            λ _. ite_cases Consistent (String_discrete synced.mimic_switch "on") (λ _. c) (λ _. c))

do_hung-Consistent :
    (bev : ℕ) (service : String) (s : Scheduler)
    → Consistent s
    → Consistent (do_hung_up bev service s) × Consistent (do_hung_down bev service s)
unfolding do_hung_up do_hung_down
do_hung-Consistent bev service s c = (
  ite_cases Consistent (String_discrete service s.config.service_name) (λ _. c) (λ _. c),
  ite_cases Consistent (String_discrete service s.config.service_name) (λ _. c) (λ _. c),
)

is_mode_eq : (m mode : String) → is_mode m mode ≡ true → mode ≡ m
is_mode_eq m mode e = ground arith

-- What every handler of a request keeps.
pub record IsKept (P : Scheduler → Type 0) : Type 0 where
  pub emitted : (f : Effect) (s : Scheduler) → P s → P (emit f s)
  pub manual :
      (bev : ℕ) (r : Option ManualRequest) (s : Scheduler)
      → P s
      → P (do_manual_up_opt bev r s)
        × P (do_manual_down_opt bev r s)
        × P (do_manual_clean_opt bev r s)
  pub errors :
      (env : Env) (bev : ℕ) (reports : Option (List (String × String))) (s : Scheduler)
      → P s
      → P (do_report_error env bev reports s)
  pub hung :
      (bev : ℕ) (service : String) (s : Scheduler)
      → P s
      → P (do_hung_up bev service s) × P (do_hung_down bev service s)
  pub config :
      (env : Env) (bev : ℕ) (synced : Policys) (s : Scheduler)
      → P s
      → P (do_update_config env bev synced s)
  pub subscribed : (bev : ℕ) (s : Scheduler) → P s → P (do_subscribe bev s)

module _ {P : Scheduler → Type 0} (k : IsKept P) where
  check_data-kept : (bev : ℕ) (r : Request) (s : Scheduler) → P s → P (check_data bev r s)
  unfolding check_data
  check_data-kept bev r s c =
      if_cases P (needs_data r.mode && r.no_data) (λ _. k.emitted _ s c) (λ _. c)

  abbrev OnSome : Option Scheduler → Type 0
  OnSome none = Unit
  OnSome (some s) = P s

  handler-OnSome :
      (env : Env) (a : Synced) (bev : ℕ) (r : Request) (s : Scheduler)
      → r.mode ≢ "update_scweight"
      → P s
      → OnSome (handler env a bev r s)
  unfolding handler do_query_up_execs do_query_exec_stats do_query_up_times
  handler-OnSome env a bev r s n c =
      let manual = k.manual bev r.manual s c in
      let hung = k.hung bev r.service s c in
      if_cases OnSome (is_mode "manual_up" r.mode) (λ _. manual.0)
        λ _.
          if_cases OnSome (is_mode "manual_down" r.mode) (λ _. manual.1)
            λ _.
              if_cases OnSome (is_mode "manual_clean" r.mode) (λ _. manual.2)
                λ _.
                  if_cases OnSome (is_mode "report_error" r.mode)
                    (λ _. k.errors env bev r.reports s c)
                    λ _.
                      if_cases OnSome (is_mode "query_upexecs" r.mode) (λ _. k.emitted _ s c)
                        λ _.
                          if_cases OnSome (is_mode "query_execstatus" r.mode) (λ _. k.emitted _ s c)
                            λ _.
                              if_cases OnSome (is_mode "query_uptimes" r.mode)
                                (λ _. k.emitted _ s c)
                                λ _.
                                  if_cases OnSome (is_mode "manual_hung-up" r.mode) (λ _. hung.0)
                                    λ _.
                                      if_cases OnSome (is_mode "manual_hung-down" r.mode)
                                        (λ _. hung.1)
                                        λ _.
                                          if_cases OnSome (is_mode "update_config" r.mode)
                                            (λ _. k.config env bev a.policys s c)
                                            λ _.
                                              if_cases OnSome (is_mode "update_scweight" r.mode)
                                                (λ e.
                                                  absurd
                                                    (n (is_mode_eq "update_scweight" r.mode e)))
                                                λ _.
                                                  if_cases OnSome (is_mode "subscribe" r.mode)
                                                    (λ _. k.subscribed bev s c) λ _. tt

  after_handler :
      (o : Option Scheduler) (more : Scheduler → Scheduler) (freed : Scheduler)
      → OnSome o
      → P freed
      → ((t : Scheduler) → P t → P (more t))
      → P (elim o as (λ _. Scheduler) [ some t ↦ more t | none ↦ freed ])
  after_handler none more freed h c next = c
  after_handler (some t) more freed h c next = next t h

  pub read_cb-kept :
      (env : Env) (a : Synced) (bev : ℕ) (rs : List Request) (s : Scheduler)
      → All (λ r. r.mode ≢ "update_scweight") rs
      → P s
      → P (read_cb env a bev rs s)
  unfolding read_cb
  read_cb-kept env a bev [] s n c = c
  read_cb-kept env a bev (r ∷ rs) s n c =
      let checked = check_data-kept bev r s c in
      after_handler (handler env a bev r (check_data bev r s)) (read_cb env a bev rs)
        (emit (Effect.free_bev bev) (check_data bev r s))
        (handler-OnSome env a bev r (check_data bev r s) n.0 checked) (k.emitted _ _ checked)
        (λ t h. read_cb-kept env a bev rs t n.1 h)

Consistent-IsKept : IsKept Consistent
unfolding do_subscribe
Consistent-IsKept = record {
  emitted = λ f s c. c;
  manual = manual_requests-Consistent;
  errors = do_report_error-Consistent;
  hung = do_hung-Consistent;
  config = do_update_config-Consistent;
  subscribed = λ bev s c. published (some bev) _ c;
}

-- readCb keeps the lists in step, whatever requests are received, in whatever order, known or not, with
-- their data or without, as long as none of them is an update of the weights from the database.
pub read_cb-Consistent :
    (env : Env) (a : Synced) (bev : ℕ) (rs : List Request) (s : Scheduler)
    → All (λ r. r.mode ≢ "update_scweight") rs
    → Consistent s
    → Consistent (read_cb env a bev rs s)
read_cb-Consistent = read_cb-kept Consistent-IsKept

do_hung-Alive :
    (bev : ℕ) (service : String) (s : Scheduler)
    → Alive s
    → Alive (do_hung_up bev service s) × Alive (do_hung_down bev service s)
unfolding do_hung_up do_hung_down
do_hung-Alive bev service s c = (
  ite_cases Alive (String_discrete service s.config.service_name) (λ _. c) (λ _. c),
  ite_cases Alive (String_discrete service s.config.service_name) (λ _. c) (λ _. c),
)

pub Alive-IsKept : IsKept Alive
unfolding do_subscribe
Alive-IsKept = record {
  emitted = λ f s c. c;
  manual = manual_requests-Alive;
  errors = λ env bev reports s c. do_report_error-Alive env bev reports s c.0 c.1;
  hung = do_hung-Alive;
  config = λ env bev synced s c. (
    do_update_config-Consistent env bev synced s c.0,
    do_update_config-Served env bev synced s c.1,
  );
  subscribed = λ bev s c. (published (some bev) _ c.0, published-Served (some bev) _ c.1);
}
