-- ===== src/Schedule/Updown/Auto.antt =====
-- src/mimic_schedule.cpp: what execAtuoSchedule keeps.
use openstack_mimic_componen.Base.{
  ℕ, zero, suc, ◌<◌, ◌≡◌, ◌||◌, inl, inr, String, [], ◌∷◌, some, if_cases, Option-cases, get_elem?,
  find?, ◌==◌, arith, true,
}
use openstack_mimic_componen.Map.{Map, text_key, has, find, size, values}
use openstack_mimic_componen.Schedule.State.{Executor, Scheduler, Env}
use openstack_mimic_componen.Schedule.Lists.{Consistent}
use openstack_mimic_componen.Schedule.Updown.{min_time, exec_atuo_schedule}
use openstack_mimic_componen.Schedule.Updown.Oldest.{find?-found}
use openstack_mimic_componen.Schedule.Updown.Main.{do_updown-Keeps, do_updown_nonempty, up_known}

-- An entry of a map has its key in the map.
entry-has :
    (m : Map String Executor) (i : ℕ) (r : String × Executor)
    → get_elem? m i ≡ some r
    → has r.0 m ≡ true
unfolding find
entry-has [] i r e = cc
entry-has (q ∷ m) zero r e = let same : q ≡ r = cc in rw (← same) (ground arith)
entry-has (q ∷ m) (suc i) r e = ground (arith, entry-has m i r e)

-- execAtuoSchedule, from a consistent state with an active executor, keeps the lists in step and an
-- executor active.
pub exec_atuo_schedule-Consistent :
    (env : Env) (s : Scheduler)
    → Consistent s
    → 0 < size s.active_exec_list
    → Consistent (exec_atuo_schedule env s) × (0 < size (exec_atuo_schedule env s).active_exec_list)
unfolding exec_atuo_schedule
exec_atuo_schedule-Consistent env s c n =
    if_cases (λ (t : Scheduler). Consistent t × (0 < size t.active_exec_list))
      (s.is_first_start || (size s.active_exec_list == 0)) (λ _. (c, n))
      λ _.
        elim (Option-cases (
          find? (λ e. e.1.active_time == min_time 0 (values s.active_exec_list))
            s.active_exec_list)) [
              | inl e ↦ rw e (c, n)
              | inr (r, e) ↦
                  let (i, q, t) = find?-found _ s.active_exec_list r e in
                  let h = up_known r.0 s c (entry-has s.active_exec_list i r q) in
                  rw e (
                    (do_updown-Keeps env r.0 "Schedule" s c (inr h)).consistent,
                    do_updown_nonempty env r.0 "Schedule" s c (inr h) n,
                  )
            ]
