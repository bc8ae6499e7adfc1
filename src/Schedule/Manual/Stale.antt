-- ===== src/Schedule/Manual/Stale.antt =====
-- src/mimic_schedule.cpp: a cleaning that ends after an operator has brought its executor up.
use openstack_mimic_componen.Base.{
  List, ◌∷◌, ℕ, ◌≡◌, ◌≢◌, refl, sym, ap, subst, ◌∙◌, true, false, false≢true, not, String,
  String_discrete, some, arith, if_cases, ite_cases, ◌==◌,
}
use openstack_mimic_componen.Base.Int.{eq_ℤ}
use openstack_mimic_componen.Map.{text_key, has, find, update, size, at}
use openstack_mimic_componen.Map.Laws.{at-some, find-at, find-update, find-emplace}
use openstack_mimic_componen.Schedule.State.{
  Executor, Scheduler, Env, Effect, default_executor, set_status, change_exec, exec_at, active,
  offline, cleaning, has_status, echo,
}
use openstack_mimic_componen.Schedule.Lists.{Consistent, is_up}
use openstack_mimic_componen.Schedule.Swaps.{has-update}
use openstack_mimic_componen.Schedule.Updown.{update_exec_status_db}
use openstack_mimic_componen.Schedule.Report.{clean_thread_end}
use openstack_mimic_componen.Schedule.Manual.{do_manual_up_opt, manual_up, upped, resp_msg}
use openstack_mimic_componen.Schedule.Manual.Keeps.{finished-Traced}

-- Marked offline, although the active list still has it.
abbrev pub IsStale : String → Scheduler → Type 0
IsStale addr t =
    ((exec_at t addr).status ≡ offline) × (has addr t.active_exec_list ≡ true) × (¬ Consistent t)

-- The end of a cleaning puts an active executor out of step.
clean_thread_end-IsStale :
    (env : Env) (addr : String) (s : Scheduler)
    → has addr s.all_exec_list ≡ true
    → has addr s.active_exec_list ≡ true
    → IsStale addr (clean_thread_end env addr s)
unfolding clean_thread_end update_exec_status_db
clean_thread_end-IsStale env addr s h up =
    let marked = update default_executor addr (set_status offline) s.all_exec_list in
    let seen = update default_executor addr (λ e. e) marked in
    let down : find addr marked ≡ some (set_status offline (exec_at s addr)) =
      ground (arith, find-update default_executor addr addr (set_status offline) s.all_exec_list) in
    let still_down : at default_executor addr marked ≡ set_status offline (exec_at s addr) =
      at-some default_executor addr marked down in
    let found : find addr seen ≡ some (at default_executor addr marked) =
      ground (arith, find-update default_executor addr addr (λ e. e) marked) in
    let read : is_up (find addr seen) ≡ false =
      ap is_up found ∙ ap (λ (e : Executor). has_status active e) still_down in
    (
      ap (λ (e : Executor). e.status)
          (at-some default_executor addr seen (found ∙ ap some still_down)),
      up,
      λ c.
          let step : has addr s.active_exec_list ≡ is_up (find addr seen) = c.in_step addr in
          false≢true (sym read ∙ sym step ∙ up),
    )

upped-has :
    (addr : String) (s : Scheduler)
    → has addr s.all_exec_list ≡ true
    → (has addr (upped addr s).all_exec_list ≡ true)
      × (has addr (upped addr s).active_exec_list ≡ true)
upped-has addr s h = (
  has-update addr addr (set_status active) s.all_exec_list h,
  ground (
    arith,
    find-emplace addr addr (exec_at (change_exec addr (set_status active) s) addr)
        s.active_exec_list,
  ),
)

upped-active : (addr : String) (s : Scheduler) → (exec_at (upped addr s) addr).status ≡ active
upped-active addr s =
    let marked = update default_executor addr (set_status active) s.all_exec_list in
    let found : find addr marked ≡ some (set_status active (exec_at s addr)) =
      ground (arith, find-update default_executor addr addr (set_status active) s.all_exec_list) in
    ap (λ (e : Executor). e.status) (at-some default_executor addr marked found)

cleaning_not_up :
    (addr : String) (s : Scheduler)
    → Consistent s
    → has addr s.all_exec_list ≡ true
    → (exec_at s addr).status ≡ cleaning
    → has addr s.active_exec_list ≡ false
cleaning_not_up addr s c h e = ground (
  arith,
  c.in_step addr,
  find-at default_executor addr s.all_exec_list h,
  ap (λ n. eq_ℤ n active) e,
)

-- What becomes of the operator's request, and what the end of the cleaning makes of it.
abbrev pub UpThenStale : Env → ℕ → String → Scheduler → Type 0
UpThenStale env bev addr t =
    ((earlier : List Effect) × (t.trace ≡ Effect.respond bev "ok" echo ∷ earlier))
    × ((exec_at t addr).status ≡ active)
    × (has addr t.active_exec_list ≡ true)
    × IsStale addr (clean_thread_end env addr t)

answered :
    (env : Env) (bev : ℕ) (addr : String) (s : Scheduler)
    → has addr s.all_exec_list ≡ true
    → UpThenStale env bev addr (resp_msg bev "ok" echo (manual_up addr s))
unfolding manual_up
answered env bev addr s h =
    let u = upped-has addr s h in
    let (ts, p) =
      finished-Traced addr "MANUALSCHEDULE" "ONLINE" "manually up one exec" (upped addr s) u.0 in
    subst (λ t. UpThenStale env bev addr (resp_msg bev "ok" echo t)) (sym p)
      (
        (ts, refl),
        upped-active addr s,
        u.1,
        clean_thread_end-IsStale env addr
            (resp_msg bev "ok" echo (record (upped addr s) { trace = ts })) u.0 u.1,
      )

-- From a consistent state with a free place, an operator's "up" of an executor that is being cleaned is
-- answered with "ok" and carried out: its status is active and the active list has it. When the
-- cleaning then ends, its status is offline while the active list still has it: the lists are out of
-- step.
pub do_manual_up_opt-clean_thread_end :
    (env : Env) (bev : ℕ) (addr : String) (s : Scheduler)
    → Consistent s
    → has addr s.all_exec_list ≡ true
    → (exec_at s addr).status ≡ cleaning
    → size s.active_exec_list ≢ s.config.exec_num
    → UpThenStale env bev addr (do_manual_up_opt bev (some (record { addr = addr; opt = "up" })) s)
unfolding do_manual_up_opt
do_manual_up_opt-clean_thread_end env bev addr s c h e free =
    let P = UpThenStale env bev addr in
    ite_cases P (String_discrete "up" "up")
      (λ _.
        if_cases P (not (has addr s.all_exec_list)) (λ n. absurd (ground (arith, h, n)))
          λ _.
            if_cases P (size s.active_exec_list == s.config.exec_num)
              (λ full. absurd (free (ground (arith, full))))
              λ _.
                if_cases P (has addr s.active_exec_list)
                  (λ up. absurd (ground (arith, up, cleaning_not_up addr s c h e)))
                  λ _. answered env bev addr s h)
      (λ n. absurd (n refl))
