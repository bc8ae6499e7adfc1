-- ===== src/Schedule/Tests.antt =====
-- A scheduler with two active executors, one ready and one in cleaning, on which the theorems about
-- src/mimic_schedule.cpp are applied.
mod Requests
mod Runs
use openstack_mimic_componen.Base.{
  if◌then◌else◌, get_elem?, leb, ℕ, ◌≤◌, ◌<◌, ◌≡◌, ◌≢◌, inl, inr, refl, true, false, String,
  String_discrete, List, [], ◌∷◌, none, some, arith, sym, ap, ◌∙◌, if_pos, if_neg, if_cases, filter,
  Bool-cases, All, to_string, ite, ◌+◌, ◌%◌,
}
use openstack_mimic_componen.Base.Int.{ℤ, pos}
use openstack_mimic_componen.Map.{Map, text_key, has, find, size, at}
use openstack_mimic_componen.Map.Distinct.{Distinct}
use openstack_mimic_componen.Schedule.State.{
  Executor, has_status, Scheduler, Env, Policys, Config, default_executor, online, active, cleaning,
  addr_of, after_read,
}
use openstack_mimic_componen.Schedule.Policy.{returned, policy_weight, swap_in, total_weight}
use openstack_mimic_componen.Schedule.Lists.{Consistent, is_up}
use openstack_mimic_componen.Schedule.Updown.Auto.{exec_atuo_schedule-Consistent}
use openstack_mimic_componen.Schedule.Updown.Oldest.{exec_atuo_schedule_oldest}
use openstack_mimic_componen.Schedule.LeastLoaded.{Counts}
use mathlib.Core.List.{Permᴰ}
use mathlib.Core.List.Permᴰ
use openstack_mimic_componen.Schedule.Updown.{exec_atuo_schedule, do_updown}
use openstack_mimic_componen.Schedule.Weights.{
  pick_by_weight, policy_weight-pick_by_weight, policy_weight_zero,
}
use openstack_mimic_componen.Schedule.Report.{InitAnswers, exec_auto_report_cb, clean_thread_end}
use openstack_mimic_componen.Schedule.Report.Keeps.{IsRunning, exec_auto_report_cb_bound}
use openstack_mimic_componen.Schedule.Manual.{
  ManualRequest, do_manual_up_opt, do_manual_down_opt, do_manual_clean_opt, do_report_error,
  do_update_config,
}
use openstack_mimic_componen.Schedule.Manual.Keeps.{manual_requests-Consistent}
use openstack_mimic_componen.Schedule.Manual.Errors.{do_report_error-Alive, do_update_config_off}
use openstack_mimic_componen.Schedule.Manual.Stale.{do_manual_up_opt-clean_thread_end}
use openstack_mimic_componen.Schedule.Dispatch.{Request, Synced, read_cb}
use openstack_mimic_componen.Schedule.Dispatch.Keeps.{read_cb-Consistent}
use openstack_mimic_componen.Schedule.Updown.Main.{do_updown_nonempty, do_updown-Consistent}

abbrev test_exec : String → ℤ → ℕ → Executor
test_exec ip status weight = record default_executor {
  ip = ip;
  port = 80;
  status = status;
  scweight = weight;
}

abbrev first : Executor
first = test_exec "10.0.0.1" active 100

abbrev second : Executor
second = test_exec "10.0.0.2" online 100

abbrev third : Executor
third = test_exec "10.0.0.3" cleaning 100

abbrev fourth : Executor
fourth = test_exec "10.0.0.4" active 100

abbrev test_policys : Policys
test_policys = record {
  judge_rule = "weight";
  judge_error_count = "3";
  schedule_rule = "scweight";
  schedule_interval = "60";
  mimic_switch = "on";
}

abbrev test_config : Config
test_config = record {
  exec_num = 3;
  service_name = "controller";
  is_horizon = false;
  is_controller = true;
  is_keystone = false;
  exec_info = [];
}

abbrev test_scheduler : Map String Executor → Map String Executor → Scheduler
test_scheduler all up = record {
  config = test_config;
  all_exec_list = all;
  active_exec_list = up;
  policys = test_policys;
  is_first_start = false;
  manual_down_num = pos 0;
  pre_clean_times = [];
  subscribe_bevs = 7 ∷ [];
  report_running = true;
  schedule_running = true;
  reads = 0;
  trace = [];
}

abbrev pub four : Scheduler
four =
    test_scheduler
      (("10.0.0.1:80", first)
        ∷ ("10.0.0.2:80", second)
        ∷ ("10.0.0.3:80", third)
        ∷ ("10.0.0.4:80", fourth)
        ∷ [])
      (("10.0.0.1:80", first) ∷ ("10.0.0.4:80", fourth) ∷ [])

abbrev test_env : Env
test_env = record { clock = λ n. 1000 + n; rand = λ n. n; sort_hosts = λ l. l }

refuted : (s t : String) (d : Dec (s ≡ t)) → ite d true false ≡ false → s ≢ t
refuted s t (yes p) e = cc
refuted s t (no n) e = n

off_on : test_policys.mimic_switch ≢ "off"
unfolding String_discrete
off_on = refuted "on" "off" (String_discrete "on" "off") refl

some-none : {x : Executor} → some x ≡ none → ⊥
some-none e = cc

-- A list of executors is keyed when every entry is.
find-keyed :
    (m : Map String Executor) (k : String) (e : Executor)
    → All (λ r. addr_of r.1 ≡ r.0) m
    → find k m ≡ some e
    → addr_of e ≡ k
unfolding find
find-keyed [] k e a h = cc
find-keyed ((j, v) ∷ m) k e a h = ground (arith, find-keyed m k e a.1, a.0)

keyed_four : All (λ r. addr_of r.1 ≡ r.0) four.all_exec_list
unfolding addr_of to_string
keyed_four = (refl, (refl, (refl, (refl, tt))))

-- The active executors of a list.
abbrev actives : Map String Executor → Map String Executor
actives = filter (λ r. has_status active r.1)

find-actives-none :
    (m : Map String Executor) (k : String) → find k m ≡ none → find k (actives m) ≡ none
unfolding find
find-actives-none [] k h = refl
find-actives-none ((j, v) ∷ m) k h = elim (String_discrete k j) [
  | yes e ↦ absurd (some-none (sym (if_pos (String_discrete k j) e (some v) (find k m)) ∙ h))
  | no n ↦
      let later =
        find-actives-none m k (sym (if_neg (String_discrete k j) n (some v) (find k m)) ∙ h) in
      if_cases (λ (l : Map String Executor). find k l ≡ none) (has_status active v)
        (λ _. if_neg (String_discrete k j) n (some v) (find k (actives m)) ∙ later) (λ _. later)
]

has-actives :
    (m : Map String Executor) (k : String) → Distinct m → has k (actives m) ≡ is_up (find k m)
unfolding find
has-actives [] k d = refl
has-actives ((j, v) ∷ m) k d = elim (Bool-cases (has_status active v)) [
  | inl a ↦ rw a (ground (arith, a, has-actives m k d.1))
  | inr a ↦ rw a (
      ground
        (arith, a, has-actives m k d.1, find-actives-none m j d.0, ap (λ i. find i (actives m))))
]

four-Distinct : Distinct four.all_exec_list
unfolding find String_discrete
four-Distinct = (refl, (refl, (refl, (refl, tt))))

pub four-Consistent : Consistent four
unfolding find String_discrete
four-Consistent = record {
  all_distinct = four-Distinct;
  up_distinct = (refl, (refl, tt));
  keyed = λ k e h. find-keyed four.all_exec_list k e keyed_four h;
  no_blank = refl;
  in_step = λ k. has-actives four.all_exec_list k four-Distinct;
}

-- The first executor is reported with a wrong answer, and the second takes its place.
do_updown_nonempty_example :
    0 < size (do_updown test_env "10.0.0.1:80" "BODYVALUE" four).active_exec_list
unfolding find String_discrete
do_updown_nonempty_example =
    do_updown_nonempty test_env "10.0.0.1:80" "BODYVALUE" four four-Consistent (inr refl)
      (omega arith)

do_updown-Consistent_example :
    Consistent (do_updown test_env "10.0.0.1:80" "BODYVALUE" four)
    × ((k : String)
        → k ≢ "10.0.0.1:80"
        → has k four.active_exec_list ≡ true
        → has k (do_updown test_env "10.0.0.1:80" "BODYVALUE" four).active_exec_list ≡ true)
    × (2 ≤ size (do_updown test_env "10.0.0.1:80" "BODYVALUE" four).active_exec_list + 1)
    × (size (do_updown test_env "10.0.0.1:80" "BODYVALUE" four).active_exec_list ≤ 2)
unfolding find String_discrete
do_updown-Consistent_example =
    do_updown-Consistent test_env "10.0.0.1:80" "BODYVALUE" four four-Consistent (inr refl)

policy_weight-pick_by_weight_example :
    (x : Executor) × (pick_by_weight (second ∷ []) (test_env.rand 1000 % 100) ≡ some x
      × policy_weight test_env "10.0.0.1:80" four
        ≡ swap_in (addr_of x) "10.0.0.1:80" 1000 (after_read four))
unfolding total_weight
policy_weight-pick_by_weight_example =
    policy_weight-pick_by_weight test_env "10.0.0.1:80" four (omega arith) (omega arith, tt)
      (omega arith)

-- Two ready executors, of which the first has weight 0.
abbrev weightless : Scheduler
weightless =
    test_scheduler
      (("10.0.0.1:80", first)
        ∷ ("10.0.0.2:80", test_exec "10.0.0.2" online 0)
        ∷ ("10.0.0.4:80", test_exec "10.0.0.4" online 50)
        ∷ [])
      (("10.0.0.1:80", first) ∷ [])

policy_weight_zero_example :
    policy_weight test_env "10.0.0.1:80" weightless ≡ (returned "", after_read weightless)
policy_weight_zero_example =
    policy_weight_zero test_env "10.0.0.1:80" weightless (test_exec "10.0.0.2" online 0)
      (test_exec "10.0.0.4" online 50) refl refl (omega arith) (omega arith)

-- Two active executors, of which the second has been active longer.
abbrev timed : Scheduler
timed =
    let since : ℕ → Executor → Executor = λ n e. record e { active_time = n } in
    test_scheduler
      (("10.0.0.1:80", since 500 first)
        ∷ ("10.0.0.2:80", second)
        ∷ ("10.0.0.4:80", since 300 fourth)
        ∷ [])
      (("10.0.0.1:80", since 500 first) ∷ ("10.0.0.4:80", since 300 fourth) ∷ [])

exec_atuo_schedule_oldest_example :
    (i : ℕ) × (r : String × Executor) × (get_elem? timed.active_exec_list i ≡ some r)
    × All (λ q. r.1.active_time ≤ q.1.active_time) timed.active_exec_list
    × (exec_atuo_schedule test_env timed ≡ do_updown test_env r.0 "Schedule" timed)
exec_atuo_schedule_oldest_example =
    exec_atuo_schedule_oldest test_env timed refl (omega arith) (omega arith, (omega arith, tt))

-- std::sort by insertion.
insert_host : String × ℕ → Counts → Counts
insert_host h [] = h ∷ []
insert_host h (g ∷ hosts) =
    let rest = insert_host h hosts in if leb h.1 g.1 then h ∷ g ∷ hosts else g ∷ rest

insert_hosts : Counts → Counts
insert_hosts [] = []
insert_hosts (h ∷ hosts) = insert_host h (insert_hosts hosts)

abbrev sorting_env : Env
sorting_env = record test_env { sort_hosts = insert_hosts }
