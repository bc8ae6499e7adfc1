-- ===== src/Schedule/Manual/Served.antt =====
-- src/mimic_schedule.cpp: the requests of the operators and of the policy against the active list.
use openstack_mimic_componen.Base.{
  ℕ, zero, suc, inl, inr, ltb, Bool-cases, ◌<◌, ◌≡◌, true, not, String, String_discrete, Option,
  none, some, arith, ◌==◌, if_cases, ite_cases,
}
use openstack_mimic_componen.Base.Int.{eq_ℤ}
use openstack_mimic_componen.Map.{text_key, has, size}
use openstack_mimic_componen.Map.Distinct.{size-emplace, size-erase}
use openstack_mimic_componen.Schedule.State.{
  Scheduler, Env, Policys, set_status, change_exec, exec_at, offline, online, active,
}
use openstack_mimic_componen.Schedule.Lists.{Alive}
use openstack_mimic_componen.Schedule.Swaps.{has-update}
use openstack_mimic_componen.Schedule.Updown.{update_exec_status_db, sync_exec_log, sync_and_pub}
use openstack_mimic_componen.Schedule.Updown.Reports.{Traced, sync_and_pub-Traced}
use openstack_mimic_componen.Schedule.Manual.{
  ManualRequest, manual_up, do_manual_up_opt, manual_down, do_manual_down_opt, manual_clean,
  do_manual_clean_opt, upped, downed, do_update_config, switch_off, switch_loop,
}
use openstack_mimic_componen.Schedule.Manual.Keeps.{finished-Traced, manual_requests-Consistent}
use openstack_mimic_componen.Schedule.Manual.Errors.{switch_down-shed}

-- Someone is active.
abbrev pub Served : Scheduler → Type 0
Served s = 0 < size s.active_exec_list

pub Traced-Served : (s t : Scheduler) → Traced s t → Served s → Served t
Traced-Served s t (ts, p) n = rw p n

pub published-Served : (to : Option ℕ) (s : Scheduler) → Served s → Served (sync_and_pub to s)
published-Served to s n = Traced-Served s _ (sync_and_pub-Traced to s) n

manual_up-Served :
    (addr : String) (s : Scheduler)
    → has addr s.all_exec_list ≡ true
    → Served s
    → Served (manual_up addr s)
unfolding manual_up
manual_up-Served addr s h n =
    Traced-Served (upped addr s) _
      (finished-Traced addr "MANUALSCHEDULE" "ONLINE" "manually up one exec" _
        (has-update addr addr (set_status active) s.all_exec_list h))
      (ground (
        arith,
        size-emplace addr (exec_at (change_exec addr (set_status active) s) addr)
            s.active_exec_list,
      ))

manual_down-Served :
    (addr : String) (s : Scheduler)
    → has addr s.all_exec_list ≡ true
    → 1 < size s.active_exec_list
    → Served (manual_down addr s)
unfolding manual_down
manual_down-Served addr s h n =
    Traced-Served (downed addr s) _
      (finished-Traced addr "MANUALSCHEDULE" "OFFLINE" "manually down one exec" _
        (has-update addr addr (set_status online) s.all_exec_list h))
      (ground (arith, size-erase addr s.active_exec_list))

manual_clean-Served : (addr : String) (s : Scheduler) → Served s → Served (manual_clean addr s)
unfolding manual_clean sync_exec_log update_exec_status_db
manual_clean-Served addr s n = n

manual_requests-Served :
    (bev : ℕ) (r : Option ManualRequest) (s : Scheduler)
    → Served s
    → Served (do_manual_up_opt bev r s)
      × Served (do_manual_down_opt bev r s)
      × Served (do_manual_clean_opt bev r s)
unfolding do_manual_up_opt do_manual_down_opt do_manual_clean_opt
manual_requests-Served bev none s n = (n, n, n)
manual_requests-Served bev (some r) s n = (
  ite_cases Served (String_discrete r.opt "up")
      (λ _.
        if_cases Served (not (has r.addr s.all_exec_list)) (λ _. n)
          λ h.
            if_cases Served (size s.active_exec_list == s.config.exec_num) (λ _. n)
              λ _.
                if_cases Served (has r.addr s.active_exec_list) (λ _. n)
                  λ _. manual_up-Served r.addr s (ground arith) n)
      (λ _. n),
  ite_cases Served (String_discrete r.opt "down")
      (λ _.
        if_cases Served (not (has r.addr s.all_exec_list)) (λ _. n)
          λ h.
            if_cases Served (size s.active_exec_list == 1) (λ _. n)
              λ m.
                if_cases Served (not (has r.addr s.active_exec_list)) (λ _. n)
                  λ _. manual_down-Served r.addr s (ground arith) (ground arith))
      (λ _. n),
  ite_cases Served (String_discrete r.opt "clean")
      (λ _.
        if_cases Served (not (has r.addr s.all_exec_list)) (λ _. n)
          λ h.
            if_cases Served (eq_ℤ (exec_at s r.addr).status offline)
              (λ _. manual_clean-Served r.addr s n) (λ _. n))
      (λ _. n),
)

pub manual_requests-Alive :
    (bev : ℕ) (r : Option ManualRequest) (s : Scheduler)
    → Alive s
    → Alive (do_manual_up_opt bev r s)
      × Alive (do_manual_down_opt bev r s)
      × Alive (do_manual_clean_opt bev r s)
manual_requests-Alive bev r s (c, n) =
    let k = manual_requests-Consistent bev r s c in
    let m = manual_requests-Served bev r s n in ((k.0, m.0), (k.1, m.1), (k.2, m.2))

switch_loop-Served : (env : Env) (f : ℕ) (s : Scheduler) → Served s → Served (switch_loop env f s)
unfolding switch_loop
switch_loop-Served env zero s n = n
switch_loop-Served env (suc f) s n = elim (Bool-cases (ltb 1 (size s.active_exec_list))) [
  | inr stop ↦ rw (stop, switch_loop) n
  | inl go ↦
      let (down, up, q) = switch_down-shed env s (ground arith) in
      rw (go, switch_loop, q)
        (switch_loop-Served env f _ (ground (arith, size-erase down s.active_exec_list)))
]

pub do_update_config-Served :
    (env : Env) (bev : ℕ) (synced : Policys) (s : Scheduler)
    → Served s
    → Served (do_update_config env bev synced s)
unfolding do_update_config switch_off
do_update_config-Served env bev synced s n =
    let t : Scheduler = record s { policys = synced } in
    published-Served none _ (
      ite_cases Served (String_discrete s.policys.mimic_switch synced.mimic_switch) (λ _. n)
        λ _.
          ite_cases Served (String_discrete synced.mimic_switch "off")
            (λ _. switch_loop-Served env (size t.active_exec_list) t n)
            λ _. ite_cases Served (String_discrete synced.mimic_switch "on") (λ _. n) (λ _. n))
