-- ===== src/Schedule/Report/Keeps.antt =====
-- src/mimic_schedule.cpp: execAutoReportCb and cleanThread against the two lists.
use openstack_mimic_componen.Base.{
  ℕ, zero, suc, ◌+◌, ◌≤◌, ◌<◌, ◌≡◌, refl, sym, ap, subst, inl, true, false, String, Option, arith,
  ltb, if_cases,
}
use openstack_mimic_componen.Base.Int.{pos}
use openstack_mimic_componen.Map.{text_key, has, size}
use openstack_mimic_componen.Schedule.State.{Scheduler, Env, Config}
use openstack_mimic_componen.Schedule.Lists.{Consistent, Alive}
use openstack_mimic_componen.Schedule.HostPicks.{change_exec_same}
use openstack_mimic_componen.Schedule.Updown.Keeps.{blank_not_up}
use openstack_mimic_componen.Schedule.Updown.Main.{do_updown-Keeps, do_updown_nonempty}
use openstack_mimic_componen.Schedule.Updown.{do_updown, up_rounds}
use openstack_mimic_componen.Schedule.Report.{
  InitAnswers, reported_status, settle_status, record_status, missing_execs, refill,
  exec_auto_report_cb,
}
use openstack_mimic_componen.Schedule.Report.Steady.{
  Steady, settle_status-Steady, record_status-Steady,
}

-- The rounds that bring executors up: each brings up at most one, and takes none down.
record Grown (n : ℕ) (s t : Scheduler) : Type 0 where
  consistent : Consistent t
  most : size t.active_exec_list ≤ size s.active_exec_list + n
  some_left : 0 < size s.active_exec_list → 0 < size t.active_exec_list

up_rounds-Grown : (env : Env) (n : ℕ) (s : Scheduler) → Consistent s → Grown n s (up_rounds env n s)
unfolding up_rounds
up_rounds-Grown env zero s c = record { consistent = c; most = omega arith; some_left = λ p. p }
up_rounds-Grown env (suc n) s c =
    let k = do_updown-Keeps env "" "Schedule" s c (inl refl) in
    let g = up_rounds-Grown env n (do_updown env "" "Schedule" s) k.consistent in
    record {
      consistent = g.consistent;
      most = ground (arith, g.most, k.at_most, blank_not_up s c);
      some_left = λ p. g.some_left (do_updown_nonempty env "" "Schedule" s c (inl refl) p);
    }

-- A scheduler that runs with no more executors than `execNum` allows.
pub record IsRunning (s : Scheduler) : Type 0 where
  pub consistent : Consistent s
  pub started : s.is_first_start ≡ false
  pub bounded : size s.active_exec_list ≤ s.config.exec_num
  pub manual : (m : ℕ) × (s.manual_down_num ≡ pos m)

refill-bound :
    (env : Env) (s t : Scheduler) (m : ℕ)
    → Steady s t
    → size s.active_exec_list ≤ s.config.exec_num
    → s.manual_down_num ≡ pos m
    → Consistent (refill env t) × (size (refill env t).active_exec_list ≤ s.config.exec_num)
unfolding refill
refill-bound env s t m k b e =
    let g = up_rounds-Grown env (missing_execs t) t k.consistent in
    if_cases (λ u. Consistent u × (size u.active_exec_list ≤ s.config.exec_num))
      (ltb (size t.active_exec_list) t.config.exec_num)
      (λ _. (
        g.consistent,
        ground (
          arith,
          g.most,
          e,
          k.same_manual,
          k.no_more,
          ap (λ (c : Config). c.exec_num) k.same_config,
        ),
      ))
      (λ _. (k.consistent, ground (arith, k.no_more)))

-- A report on a registered executor, whatever it says and whatever the policy finds, leaves the lists
-- in step and no more executors active than `execNum`, from a running scheduler whose
-- `manualDownNum` is not negative.
pub exec_auto_report_cb_bound :
    (env : Env) (a : InitAnswers) (addr : String) (code : Option ℕ) (s : Scheduler)
    → IsRunning s
    → has addr s.all_exec_list ≡ true
    → Consistent (exec_auto_report_cb env a addr code s)
      × (size (exec_auto_report_cb env a addr code s).active_exec_list ≤ s.config.exec_num)
unfolding exec_auto_report_cb
exec_auto_report_cb_bound env a addr code s r h =
    let n = reported_status s.config code in
    if_cases (λ u. Consistent u × (size u.active_exec_list ≤ s.config.exec_num)) s.is_first_start
      (λ first. absurd (ground (arith, r.started)))
      λ _.
        subst
          (λ t.
            let u = refill env (record_status addr n (settle_status env addr n t)) in
            Consistent u × (size u.active_exec_list ≤ s.config.exec_num))
          (sym (change_exec_same addr s h))
          (refill-bound env s _ r.manual.0
            (record_status-Steady addr n s _ (settle_status-Steady env addr n s r.consistent h) h)
            r.bounded r.manual.1)

refill-Alive :
    (env : Env) (s t : Scheduler) → Steady s t → 0 < size s.active_exec_list → Alive (refill env t)
unfolding refill
refill-Alive env s t k h =
    let g = up_rounds-Grown env (missing_execs t) t k.consistent in
    if_cases Alive (ltb (size t.active_exec_list) t.config.exec_num)
      (λ _. (g.consistent, g.some_left (k.some_left h))) (λ _. (k.consistent, k.some_left h))

pub exec_auto_report_cb-Alive :
    (env : Env) (a : InitAnswers) (addr : String) (code : Option ℕ) (s : Scheduler)
    → s.is_first_start ≡ false
    → has addr s.all_exec_list ≡ true
    → Alive s
    → Alive (exec_auto_report_cb env a addr code s)
unfolding exec_auto_report_cb
exec_auto_report_cb-Alive env a addr code s started h c =
    let n = reported_status s.config code in
    if_cases Alive s.is_first_start (λ first. absurd (ground arith))
      λ _.
        subst (λ t. Alive (refill env (record_status addr n (settle_status env addr n t))))
          (sym (change_exec_same addr s h))
          (refill-Alive env s _
            (record_status-Steady addr n s _ (settle_status-Steady env addr n s c.0 h) h) c.1)
