-- ===== src/Schedule/Manual/Keeps.antt =====
-- src/mimic_schedule.cpp: the requests of the operators against the two lists.
use openstack_mimic_componen.Base.{
  ℕ, ◌≡◌, refl, ap, true, not, String, String_discrete, Option, none, some, arith, ◌==◌, if_cases,
  ite_cases,
}
use openstack_mimic_componen.Base.Int.{eq_ℤ, eq_ℤ_iff}
use openstack_mimic_componen.Map.{text_key, has, size}
use openstack_mimic_componen.Map.Laws.{find-at}
use openstack_mimic_componen.Schedule.State.{
  Scheduler, default_executor, set_status, change_exec, exec_at, offline, online, active, cleaning,
}
use openstack_mimic_componen.Schedule.Lists.{
  Consistent, stay-IsConsistent, join-IsConsistent, leave-IsConsistent,
}
use openstack_mimic_componen.Schedule.Swaps.{has-update, set_status-addr}
use openstack_mimic_componen.Schedule.Updown.Reports.{
  Traced, Traced-then, update_exec_status_db-Traced, sync_exec_log-Traced, sync_and_pub-Traced,
  still,
}
use openstack_mimic_componen.Schedule.Updown.{
  update_exec_status_db, sync_exec_log, sync_and_pub, clean_exec,
}
use openstack_mimic_componen.Schedule.Manual.{
  ManualRequest, manual_up, do_manual_up_opt, manual_down, do_manual_down_opt, manual_clean,
  do_manual_clean_opt, refuse, upped, downed,
}

pub Traced-Consistent : (s t : Scheduler) → Traced s t → Consistent s → Consistent t
Traced-Consistent s t (ts, p) c = rw p c

-- The three writes that end a manual operation.
logged-Traced :
    (addr action status msg : String) (s : Scheduler)
    → has addr s.all_exec_list ≡ true
    → Traced s (sync_exec_log addr "" action status msg (update_exec_status_db addr s))
logged-Traced addr action status msg s h =
    let a = update_exec_status_db-Traced addr s h in
    Traced-then s _ _ a (sync_exec_log-Traced addr "" action status msg _ (still addr s _ a h))

pub finished-Traced :
    (addr action status msg : String) (s : Scheduler)
    → has addr s.all_exec_list ≡ true
    → Traced s
        (sync_and_pub none (sync_exec_log addr "" action status msg (update_exec_status_db addr s)))
finished-Traced addr action status msg s h =
    Traced-then s _ _ (logged-Traced addr action status msg s h) (sync_and_pub-Traced none _)

manual_up-Consistent :
    (addr : String) (s : Scheduler)
    → has addr s.all_exec_list ≡ true
    → Consistent s
    → Consistent (manual_up addr s)
unfolding manual_up
manual_up-Consistent addr s h c =
    Traced-Consistent (upped addr s) _
      (finished-Traced addr "MANUALSCHEDULE" "ONLINE" "manually up one exec" _
        (has-update addr addr (set_status active) s.all_exec_list h))
      (join-IsConsistent addr (set_status active) s.all_exec_list s.active_exec_list
        (set_status-addr active) c h _ refl)

manual_down-Consistent :
    (addr : String) (s : Scheduler)
    → has addr s.all_exec_list ≡ true
    → Consistent s
    → Consistent (manual_down addr s)
unfolding manual_down
manual_down-Consistent addr s h c =
    Traced-Consistent (downed addr s) _
      (finished-Traced addr "MANUALSCHEDULE" "OFFLINE" "manually down one exec" _
        (has-update addr addr (set_status online) s.all_exec_list h))
      (leave-IsConsistent addr (set_status online) s.all_exec_list s.active_exec_list
        (set_status-addr online) c h refl)

manual_clean-Consistent :
    (addr : String) (s : Scheduler)
    → has addr s.all_exec_list ≡ true
    → eq_ℤ (exec_at s addr).status offline ≡ true
    → Consistent s
    → Consistent (manual_clean addr s)
unfolding manual_clean
manual_clean-Consistent addr s h o c =
    Traced-Consistent (clean_exec addr (change_exec addr (set_status cleaning) s)) _
      (logged-Traced addr "MANUALCLEAN" "CLEAN" "manually clean one exec" _
        (has-update addr addr (set_status cleaning) s.all_exec_list h))
      (stay-IsConsistent addr (set_status cleaning) s.all_exec_list s.active_exec_list
        (set_status-addr cleaning) c h
        (ground (
          arith,
          c.in_step addr,
          find-at default_executor addr s.all_exec_list h,
          eq_ℤ_iff (exec_at s addr).status offline,
          ap (λ n. eq_ℤ n active),
        )))

-- What a request leaves: the refusal or the operation, and an answer.
refuse-Consistent : (bev : ℕ) (s : Scheduler) → Consistent s → Consistent (refuse bev s)
refuse-Consistent bev s c = c

-- Every request of an operator keeps the lists in step, whether it is carried out or refused.
pub manual_requests-Consistent :
    (bev : ℕ) (r : Option ManualRequest) (s : Scheduler)
    → Consistent s
    → Consistent (do_manual_up_opt bev r s)
      × Consistent (do_manual_down_opt bev r s)
      × Consistent (do_manual_clean_opt bev r s)
unfolding do_manual_up_opt do_manual_down_opt do_manual_clean_opt
manual_requests-Consistent bev none s c = (c, c, c)
manual_requests-Consistent bev (some r) s c = (
  ite_cases Consistent (String_discrete r.opt "up")
      (λ _.
        if_cases Consistent (not (has r.addr s.all_exec_list)) (λ _. c)
          λ h.
            if_cases Consistent (size s.active_exec_list == s.config.exec_num) (λ _. c)
              λ _.
                if_cases Consistent (has r.addr s.active_exec_list) (λ _. c)
                  λ _. manual_up-Consistent r.addr s (ground arith) c)
      (λ _. c),
  ite_cases Consistent (String_discrete r.opt "down")
      (λ _.
        if_cases Consistent (not (has r.addr s.all_exec_list)) (λ _. c)
          λ h.
            if_cases Consistent (size s.active_exec_list == 1) (λ _. c)
              λ _.
                if_cases Consistent (not (has r.addr s.active_exec_list)) (λ _. c)
                  λ _. manual_down-Consistent r.addr s (ground arith) c)
      (λ _. c),
  ite_cases Consistent (String_discrete r.opt "clean")
      (λ _.
        if_cases Consistent (not (has r.addr s.all_exec_list)) (λ _. c)
          λ h.
            if_cases Consistent (eq_ℤ (exec_at s r.addr).status offline)
              (λ o. manual_clean-Consistent r.addr s (ground arith) o c) (λ _. c))
      (λ _. c),
)
