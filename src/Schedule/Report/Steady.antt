-- ===== src/Schedule/Report/Steady.antt =====
-- src/mimic_schedule.cpp: what the tests of execAutoReportCb on the old and the new status keep.
use openstack_mimic_componen.Base.{
  ◌≤◌, ◌<◌, ◌≡◌, refl, ap, inr, Bool, true, false, ◌&&◌, String, arith, if_cases,
}
use openstack_mimic_componen.Base.Int.{ℤ, eq_ℤ, eq_ℤ_iff}
use openstack_mimic_componen.Map.{text_key, has, size, find}
use openstack_mimic_componen.Map.Laws.{find-at}
use openstack_mimic_componen.Schedule.State.{
  Scheduler, Env, Effect, default_executor, set_status, emit, change_exec, exec_at, has_status,
  initing, offline, online, active, cleaning, after_read, seed_now,
}
use openstack_mimic_componen.Schedule.Lists.{Consistent, stay-IsConsistent}
use openstack_mimic_componen.Schedule.Swaps.{has-update, set_status-addr}
use openstack_mimic_componen.Schedule.Updown.Reports.{Traced, update_exec_status_db-Traced}
use openstack_mimic_componen.Schedule.Updown.Main.{do_updown-Keeps, do_updown_nonempty}
use openstack_mimic_componen.Schedule.Updown.{do_updown}
use openstack_mimic_componen.Schedule.Report.{settle_status, start_clean, clean_due, record_status}

-- Consistent lists, with the counters that the refill reads as they were.
pub record Steady (s t : Scheduler) : Type 0 where
  pub consistent : Consistent t
  pub same_config : t.config ≡ s.config
  pub same_manual : t.manual_down_num ≡ s.manual_down_num
  pub no_more : size t.active_exec_list ≤ size s.active_exec_list
  pub known : (addr : String) → has addr s.all_exec_list ≡ true → has addr t.all_exec_list ≡ true
  pub some_left : 0 < size s.active_exec_list → 0 < size t.active_exec_list

pub same-Steady : (s : Scheduler) → Consistent s → Steady s s
same-Steady s c = record {
  consistent = c;
  same_config = refl;
  same_manual = refl;
  no_more = omega arith;
  known = λ addr h. h;
  some_left = λ p. p;
}

-- A change of status between the states that are not active.
pub status-Steady :
    (n : ℤ) (addr : String) (s : Scheduler)
    → Consistent s
    → has addr s.all_exec_list ≡ true
    → has_status active (exec_at s addr) ≡ false
    → eq_ℤ n active ≡ false
    → Steady s (change_exec addr (set_status n) s)
status-Steady n addr s c h old new = record {
  consistent =
      stay-IsConsistent addr (set_status n) s.all_exec_list s.active_exec_list (set_status-addr n) c
        h (ground (arith, c.in_step addr, find-at default_executor addr s.all_exec_list h));
  same_config = refl;
  same_manual = refl;
  no_more = omega arith;
  known = λ a k. has-update addr a (set_status n) s.all_exec_list k;
  some_left = λ p. p;
}

updown-Steady :
    (env : Env) (addr msg : String) (s : Scheduler)
    → Consistent s
    → has addr s.all_exec_list ≡ true
    → has addr s.active_exec_list ≡ true
    → Steady s (do_updown env addr msg s)
updown-Steady env addr msg s c h up =
    let k = do_updown-Keeps env addr msg s c (inr h) in
    record {
      consistent = k.consistent;
      same_config = k.same_config;
      same_manual = k.same_manual;
      no_more = ground (arith, k.at_most);
      known = k.known;
      some_left = λ p. do_updown_nonempty env addr msg s c (inr h) p;
    }

read-Steady : (s t : Scheduler) → Steady (after_read s) t → Steady s t
read-Steady s t k = record {
  consistent = k.consistent;
  same_config = k.same_config;
  same_manual = k.same_manual;
  no_more = k.no_more;
  known = k.known;
  some_left = k.some_left;
}

cleaned-Steady :
    (addr : String) (s : Scheduler)
    → Steady s (change_exec addr (set_status cleaning) s)
    → Steady s (start_clean addr s)
cleaned-Steady addr s k = record {
  consistent = k.consistent;
  same_config = k.same_config;
  same_manual = k.same_manual;
  no_more = k.no_more;
  known = k.known;
  some_left = k.some_left;
}

stopped-Steady : (f : Effect) (s : Scheduler) → Consistent s → Steady s (emit f s)
stopped-Steady f s c = record {
  consistent = c;
  same_config = refl;
  same_manual = refl;
  no_more = omega arith;
  known = λ a k. k;
  some_left = λ p. p;
}

-- Only active equals active: an executor seen with another status is not up.
other_status :
    (old n : ℤ) (b : Bool)
    → eq_ℤ n active ≡ false
    → eq_ℤ old n && b ≡ true
    → eq_ℤ old active ≡ false
other_status old n b d h = ground (arith, eq_ℤ_iff old n, ap (λ m. eq_ℤ m active))

pub settle_status-Steady :
    (env : Env) (addr : String) (n : ℤ) (s : Scheduler)
    → Consistent s
    → has addr s.all_exec_list ≡ true
    → Steady s (settle_status env addr n s)
unfolding settle_status
settle_status-Steady env addr n s c h =
    let old = (exec_at s addr).status in
    if_cases (Steady s) (eq_ℤ old active && eq_ℤ n offline)
      (λ e.
        if_cases (Steady s) (has addr s.active_exec_list)
          (λ up. updown-Steady env addr "Schedule" s c h up) (λ _. same-Steady s c))
      λ e.
        if_cases (Steady s) (eq_ℤ old online && eq_ℤ n offline)
          (λ f.
            cleaned-Steady addr s
              (status-Steady cleaning addr s c h (other_status old online _ refl f) refl))
          λ _.
            if_cases (Steady s) (eq_ℤ old offline && eq_ℤ n online)
              (λ f. status-Steady online addr s c h (other_status old offline _ refl f) refl)
              λ _.
                if_cases (Steady s) (eq_ℤ old offline && eq_ℤ n offline)
                  (λ f.
                    if_cases (Steady s) (clean_due (seed_now env s) (find addr s.pre_clean_times))
                      (λ _. read-Steady s _ (
                        cleaned-Steady addr (after_read s) (
                          status-Steady cleaning addr (after_read s) c h
                            (other_status old offline _ refl f) refl)))
                      (λ _. read-Steady s _ (same-Steady (after_read s) c)))
                  λ _.
                    if_cases (Steady s) (eq_ℤ old initing)
                      (λ _. stopped-Steady Effect.stop_loop s c) (λ _. same-Steady s c)

Traced-Steady : (s t u : Scheduler) → Steady s t → Traced t u → Steady s u
Traced-Steady s t u k (ts, p) = rw p (record {
  consistent = k.consistent;
  same_config = k.same_config;
  same_manual = k.same_manual;
  no_more = k.no_more;
  known = k.known;
  some_left = k.some_left;
})

pub record_status-Steady :
    (addr : String) (n : ℤ) (s t : Scheduler)
    → Steady s t
    → has addr s.all_exec_list ≡ true
    → Steady s (record_status addr n t)
unfolding record_status
record_status-Steady addr n s t k h =
    if_cases (Steady s) (eq_ℤ (exec_at t addr).status active && eq_ℤ n offline) (λ _. k)
      (λ _. Traced-Steady s t _ k (update_exec_status_db-Traced addr t (k.known addr h)))
