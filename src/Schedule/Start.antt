-- ===== src/Schedule/Start.antt =====
-- src/mimic_schedule.cpp: the first start, from the registration of the executors in execStatusReport to
-- the report with which initActiveExec and initMysqlAndPub are called.
mod Registered
mod Rounds
mod Table
use openstack_mimic_componen.Base.{
  ℕ, zero, suc, ◌+◌, ◌≤◌, ◌≡◌, refl, ap, ◌⊎◌, ◌∙◌, inl, inr, true, false, Bool, ◌&&◌, ◌==◌, not,
  if◌then◌else◌, String, List, [], ◌∷◌, Option, none, some, length, arith, All, if_cases,
  Option-cases,
}
use openstack_mimic_componen.Base.Int.{ℤ, pos, pos_part, ◌-ℤ◌, eq_ℤ}
use openstack_mimic_componen.Map.{Map, text_key, find, has, size, keys}
use openstack_mimic_componen.Map.Laws.{find-at}
use openstack_mimic_componen.Map.Distinct.{Distinct}
use openstack_mimic_componen.Map.Order.{All-find}
use mathlib.Core.Option
use openstack_mimic_componen.Schedule.State.{
  Config, Executor, Scheduler, Env, Effect, addr_of, default_executor, set_status, change_exec,
  has_status, active, offline, online, initing, cleaning, after_read, emit,
}
use openstack_mimic_componen.Schedule.Policy.{Outcome, returned, bring_up, take_down}
use openstack_mimic_componen.Schedule.Lists.{IsConsistent, Consistent, stay-IsConsistent}
use openstack_mimic_componen.Schedule.Picks.{Picks, swapped, refused, missed, died}
use openstack_mimic_componen.Schedule.Swaps.{set_status-addr}
use openstack_mimic_componen.Schedule.Updown.{run_policy, init_rounds, init_active_exec}
use openstack_mimic_componen.Schedule.Updown.Reports.{Traced, Traced-then, sync_exec_log-Traced}
use openstack_mimic_componen.Schedule.Updown.Keeps.{swap-Keeps, blank_not_up}
use openstack_mimic_componen.Schedule.Updown.Main.{run_policy-Picks, up_known}
use openstack_mimic_componen.Schedule.Report.{
  InitAnswers, reported_status, insert_rows, log_online, publish_init, fill_table,
  init_mysql_and_pub, reset_all, finish_init, first_report, exec_status_report, all_tested,
  exec_auto_report_cb,
}
use openstack_mimic_componen.Schedule.Report.Keeps.{IsRunning}
use openstack_mimic_componen.Schedule.Start.Registered.{exec_status_report-IsConsistent}
use openstack_mimic_componen.Schedule.Start.Rounds.{init_active_exec-Begun}
use openstack_mimic_componen.Schedule.Start.Table.{init_mysql_and_pub-Traced, up_keys}

find-reset_all :
    (k : String) (m : Map String Executor)
    → find k (reset_all m) ≡ Option.map (set_status initing) (find k m)
unfolding reset_all find
find-reset_all k [] = refl
find-reset_all k ((j, e) ∷ m) = ground (arith, find-reset_all k m)

reset_all-Distinct : (m : Map String Executor) → Distinct m → Distinct (reset_all m)
unfolding reset_all
reset_all-Distinct [] d = tt
reset_all-Distinct ((j, e) ∷ m) d =
    (find-reset_all j m ∙ ap (Option.map (set_status initing)) d.0, reset_all-Distinct m d.1)

reset_all-IsConsistent :
    (all up : Map String Executor) → IsConsistent all up → IsConsistent (reset_all all) []
unfolding find
reset_all-IsConsistent all up c = record {
  all_distinct = reset_all-Distinct all c.all_distinct;
  up_distinct = tt;
  keyed = λ k e p. elim (Option-cases (find k all)) [
    | inl q ↦ absurd (ground (arith, find-reset_all k all))
    | inr (a, q) ↦
        let same : set_status initing a ≡ e = ground (arith, find-reset_all k all) in
        rw (← same) (set_status-addr initing a ∙ c.keyed k a q)
  ];
  no_blank = find-reset_all "" all ∙ ap (Option.map (set_status initing)) c.no_blank;
  in_step = λ k. elim (Option-cases (find k all)) [
    | inl q ↦ ground (arith, find-reset_all k all)
    | inr (a, q) ↦ ground (arith, find-reset_all k all)
  ];
}

-- A scheduler before its first start is over: no executor is active yet.
pub record IsStarting (s : Scheduler) : Type 0 where
  pub first : s.is_first_start ≡ true
  pub nobody : IsConsistent s.all_exec_list []
  pub manual : (m : ℕ) × (s.manual_down_num ≡ pos m)

abbrev pub Opened : Scheduler → Type 0
Opened s = IsStarting s ⊎ IsRunning s

finish_init-Opened :
    (r : Bool × Scheduler) (s : Scheduler)
    → Consistent s
    → s.is_first_start ≡ true
    → size s.active_exec_list ≤ s.config.exec_num
    → (m : ℕ) × (s.manual_down_num ≡ pos m)
    → Traced s r.1
    → Opened (finish_init r)
unfolding finish_init
finish_init-Opened (true, t) s c f b m (ts, p) =
    rw p (inr (record { consistent = c; started = refl; bounded = b; manual = m }))
finish_init-Opened (false, t) s c f b m (ts, p) =
    rw p (inl (record { first = f; nobody = reset_all-IsConsistent _ _ c; manual = m }))

nobody_listed : IsConsistent [] []
unfolding find
nobody_listed = record {
  all_distinct = tt;
  up_distinct = tt;
  keyed = λ k e p. ground arith;
  no_blank = refl;
  in_step = λ k. refl;
}

reported_status_down :
    (s : Scheduler) (code : Option ℕ) → eq_ℤ (reported_status s.config code) active ≡ false
unfolding reported_status
reported_status_down s none = refl
reported_status_down s (some zero) = refl
reported_status_down s (some (suc n)) = ground arith

first_report-Opened :
    (env : Env) (a : InitAnswers) (addr : String) (n : ℤ) (s : Scheduler)
    → IsStarting s
    → has addr s.all_exec_list ≡ true
    → eq_ℤ n active ≡ false
    → Opened (first_report env a addr n s)
unfolding first_report find
first_report-Opened env a addr n s i h d =
    let t : Scheduler = change_exec addr (set_status n) s in
    let c =
      stay-IsConsistent addr (set_status n) s.all_exec_list [] (set_status-addr n) i.nobody h d in
    let b = init_active_exec-Begun env i.manual.0 t c i.manual.1 in
    let u = init_active_exec env t in
    let most : size u.active_exec_list ≤ u.config.exec_num =
      ground (arith, b.most, ap (λ (g : Config). g.exec_num) b.same_config) in
    if_cases Opened ((size t.all_exec_list == length t.config.exec_info) && all_tested t)
      (λ _.
        finish_init-Opened (init_mysql_and_pub a u) u b.consistent (b.same_start ∙ i.first) most
          (i.manual.0, b.same_manual ∙ i.manual.1)
          (init_mysql_and_pub-Traced a u (up_keys u b.consistent)))
      (λ _. inl (record { first = i.first; nobody = c; manual = i.manual }))

exec_auto_report_cb-Opened :
    (env : Env) (a : InitAnswers) (addr : String) (code : Option ℕ) (s : Scheduler)
    → IsStarting s
    → has addr s.all_exec_list ≡ true
    → Opened (exec_auto_report_cb env a addr code s)
unfolding exec_auto_report_cb
exec_auto_report_cb-Opened env a addr code s i h =
    if_cases Opened s.is_first_start
      (λ _.
        first_report-Opened env a addr (reported_status s.config code) s i h
          (reported_status_down s code))
      (λ q. absurd (ground (arith, i.first)))

exec_status_report-IsStarting : (s : Scheduler) → IsStarting s → IsStarting (exec_status_report s)
unfolding exec_status_report
exec_status_report-IsStarting s i =
    let c = exec_status_report-IsConsistent s i.nobody in
    if_cases (λ t. IsConsistent t.all_exec_list [] → IsStarting t) s.is_first_start
      (λ _ k. record { first = i.first; nobody = k; manual = i.manual }) (λ _ k. i) c

-- The first start: the executors are polled, and reports come in, until one ends it.
pub data Starts (s : Scheduler) : Scheduler → Type 0 where
  loaded : Starts s s
  polled : {t : Scheduler} → Starts s t → t.is_first_start ≡ true → Starts s (exec_status_report t)
  answered :
      {t : Scheduler} (env : Env) (a : InitAnswers) (addr : String) (code : Option ℕ)
      → Starts s t
      → t.is_first_start ≡ true
      → has addr t.all_exec_list ≡ true
      → Starts s (exec_auto_report_cb env a addr code t)

still-IsStarting : (s : Scheduler) → Opened s → s.is_first_start ≡ true → IsStarting s
still-IsStarting s (inl i) f = i
still-IsStarting s (inr r) f = absurd (ground (arith, r.started))

starts-Opened : {s t : Scheduler} → Starts s t → IsStarting s → Opened t
starts-Opened loaded i = inl i
starts-Opened (polled path f) i =
    inl (exec_status_report-IsStarting _ (still-IsStarting _ (starts-Opened path i) f))
starts-Opened (answered env a addr code path f h) i =
    exec_auto_report_cb-Opened env a addr code _ (still-IsStarting _ (starts-Opened path i) f) h

-- From empty lists, however often the executors are polled and whatever they and the database answer,
-- in whatever order, the end of the first start leaves the lists in step and at most `execNum`
-- executors active.
pub first_start_bound :
    {s t : Scheduler}
    → Starts s t
    → s.all_exec_list ≡ []
    → s.is_first_start ≡ true
    → s.manual_down_num ≡ pos 0
    → t.is_first_start ≡ false
    → Consistent t × (size t.active_exec_list ≤ t.config.exec_num)
first_start_bound path none_yet f m done =
    elim (starts-Opened path
      (record { first = f; nobody = rw none_yet nobody_listed; manual = (0, m) })) [
        | inl i ↦ absurd (ground (arith, i.first, done))
        | inr r ↦ (r.consistent, r.bounded)
      ]
