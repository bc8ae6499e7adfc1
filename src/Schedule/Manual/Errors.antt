-- ===== src/Schedule/Manual/Errors.antt =====
-- src/mimic_schedule.cpp: doReportError and doUpdateConfig against the two lists.
use openstack_mimic_componen.Base.{
  ℕ, zero, suc, ◌+◌, ◌-◌, ◌≤◌, ◌<◌, ◌%◌, ◌≡◌, ◌≢◌, refl, ap, ◌∙◌, inl, inr, true, String,
  String_discrete, List, [], ◌∷◌, Option, none, some, Bool-cases, arith, ltb, if_cases, ite_cases,
  length, get_elem?, get_elem?_lt,
}
use openstack_mimic_componen.Base.Int.{pos}
use openstack_mimic_componen.Map.{Map, text_key, keys, has, size, find}
use openstack_mimic_componen.Map.Distinct.{size-erase}
use openstack_mimic_componen.Schedule.State.{
  Scheduler, Env, Policys, set_status, online, after_read, seed_now,
}
use openstack_mimic_componen.Schedule.Lists.{Consistent, Alive, leave-IsConsistent}
use openstack_mimic_componen.Schedule.Swaps.{set_status-addr}
use openstack_mimic_componen.Schedule.Updown.Reports.{sync_and_pub-Traced}
use openstack_mimic_componen.Schedule.Updown.Main.{do_updown-Keeps, do_updown_nonempty, up_known}
use openstack_mimic_componen.Schedule.Updown.{do_updown, sync_and_pub}
use openstack_mimic_componen.Schedule.Manual.{
  report_errors, do_report_error, switch_down, switch_loop, switch_off, do_update_config, downed,
}

report_errors-Alive :
    (env : Env) (bev : ℕ) (reports : List (String × String)) (s : Scheduler)
    → Alive s
    → Alive (report_errors env bev reports s)
unfolding report_errors
report_errors-Alive env bev [] s c = c
report_errors-Alive env bev ((addr, msg) ∷ reports) s c =
    if_cases Alive (has addr s.active_exec_list)
      (λ up.
        let h = up_known addr s c.0 up in
        report_errors-Alive env bev reports (do_updown env addr msg s) (
          (do_updown-Keeps env addr msg s c.0 (inr h)).consistent,
          do_updown_nonempty env addr msg s c.0 (inr h) c.1,
        ))
      (λ _. c)

-- A report of errors, however many executors it names and however often, keeps the lists in step and
-- an executor active.
pub do_report_error-Alive :
    (env : Env) (bev : ℕ) (reports : Option (List (String × String))) (s : Scheduler)
    → Consistent s
    → 0 < size s.active_exec_list
    → Consistent (do_report_error env bev reports s)
      × (0 < size (do_report_error env bev reports s).active_exec_list)
unfolding do_report_error
do_report_error-Alive env bev none s c h = (c, h)
do_report_error-Alive env bev (some reports) s c h = report_errors-Alive env bev reports s (c, h)

-- The keys of a map are in it.
keys-has :
    {V : Type 0} (m : Map String V) (i : ℕ) (k : String)
    → get_elem? (keys m) i ≡ some k
    → has k m ≡ true
unfolding find
keys-has [] i k e = cc
keys-has ((j, v) ∷ m) zero k e = ground arith
keys-has ((j, v) ∷ m) (suc i) k e = ground (arith, keys-has m i k e)

length-keys : {V : Type 0} (m : Map String V) → length (keys m) ≡ size m
length-keys [] = refl
length-keys (e ∷ m) = ap suc (length-keys m)

-- The state of a round of the loop, for the executor that it takes.
abbrev pub shed : String → Scheduler → Scheduler
shed down s = after_read (downed down s)

pub switch_down-shed :
    (env : Env) (s : Scheduler)
    → 1 < size s.active_exec_list
    → (down : String) × (has down s.active_exec_list ≡ true) × (switch_down env s ≡ shed down s)
unfolding switch_down
switch_down-shed env s h =
    let i = env.rand (seed_now env s) % length (keys s.active_exec_list) in
    let lt : i < length (keys s.active_exec_list) = grind (arith, length-keys s.active_exec_list) in
    let (down, e) = get_elem?_lt (keys s.active_exec_list) i lt in
    (down, keys-has s.active_exec_list i down e, rw (e, switch_down))

-- What the loop has done when it stops.
record Shed (m : ℕ) (s t : Scheduler) : Type 0 where
  consistent : Consistent t
  at_most_one : size t.active_exec_list ≤ 1
  some_left : 0 < size s.active_exec_list → 0 < size t.active_exec_list
  counted : t.manual_down_num ≡ pos (m + (size s.active_exec_list - size t.active_exec_list))

pub shed-Consistent :
    (down : String) (s : Scheduler)
    → Consistent s
    → has down s.active_exec_list ≡ true
    → Consistent (shed down s)
shed-Consistent down s c up =
    leave-IsConsistent down (set_status online) s.all_exec_list s.active_exec_list
      (set_status-addr online) c (up_known down s c up) refl

switch_loop-Shed :
    (env : Env) (f m : ℕ) (s : Scheduler)
    → Consistent s
    → s.manual_down_num ≡ pos m
    → size s.active_exec_list ≤ f + 1
    → Shed m s (switch_loop env f s)
unfolding switch_loop
switch_loop-Shed env zero m s c e h = record {
  consistent = c;
  at_most_one = omega arith;
  some_left = λ p. p;
  counted = ground arith;
}
switch_loop-Shed env (suc f) m s c e h = elim (Bool-cases (ltb 1 (size s.active_exec_list))) [
  | inr stop ↦
      rw (stop, switch_loop)
        (record {
          consistent = c;
          at_most_one = ground arith;
          some_left = λ p. p;
          counted = ground arith;
        })
  | inl go ↦
      let (down, up, q) = switch_down-shed env s (ground arith) in
      let less = size-erase down s.active_exec_list in
      let k =
        switch_loop-Shed env f (m + 1) (shed down s) (shed-Consistent down s c up) (ground arith)
          (ground (arith, less)) in
      rw (go, switch_loop, q)
        (record {
          consistent = k.consistent;
          at_most_one = k.at_most_one;
          some_left = λ p. k.some_left (ground (arith, less));
          counted = k.counted ∙ ap pos (ground (arith, less, k.at_most_one));
        })
]

switch_off-Shed :
    (env : Env) (m : ℕ) (s : Scheduler)
    → Consistent s
    → s.manual_down_num ≡ pos m
    → Shed m s (switch_off env s)
unfolding switch_off
switch_off-Shed env m s c e = switch_loop-Shed env _ m s c e (omega arith)

-- What a switch to "off" leaves: one active executor, the others counted in `manualDownNum`.
record OneLeft (m : ℕ) (s t : Scheduler) : Type 0 where
  consistent : Consistent t
  one : size t.active_exec_list ≡ 1
  counted : t.manual_down_num ≡ pos (m + (size s.active_exec_list - 1))

Shed-OneLeft :
    (m : ℕ) (s t : Scheduler)
    → 0 < size s.active_exec_list
    → Shed m s t
    → OneLeft m s (sync_and_pub none t)
Shed-OneLeft m s t h k =
    let one : size t.active_exec_list ≡ 1 = omega (arith, k.at_most_one, k.some_left h) in
    let (ts, p) = sync_and_pub-Traced none t in
    rw p (record {
      consistent = k.consistent;
      one = one;
      counted = k.counted ∙ ap (λ n. pos (m + (size s.active_exec_list - n))) one;
    })

update_off :
    (env : Env) (bev m : ℕ) (synced : Policys) (s : Scheduler)
    → Consistent s
    → 0 < size s.active_exec_list
    → s.manual_down_num ≡ pos m
    → s.policys.mimic_switch ≢ "off"
    → synced.mimic_switch ≡ "off"
    → OneLeft m s (do_update_config env bev synced s)
unfolding do_update_config
update_off env bev m synced s c h e old new =
    let k = switch_off-Shed env m (record s { policys = synced }) c e in
    let done = Shed-OneLeft m s _ h (record {
      consistent = k.consistent;
      at_most_one = k.at_most_one;
      some_left = k.some_left;
      counted = k.counted;
    }) in
    let r =
      ite_cases (λ t. OneLeft m s (sync_and_pub none t))
        (String_discrete s.policys.mimic_switch synced.mimic_switch)
        (λ same. absurd (old (same ∙ new)))
        λ _.
          ite_cases (λ t. OneLeft m s (sync_and_pub none t))
            (String_discrete synced.mimic_switch "off") (λ _. done) (λ on. absurd (on new)) in
    record { consistent = r.consistent; one = r.one; counted = r.counted }

-- When the mimic switch goes off with an executor active, exactly one stays active, whatever the
-- random choices, the lists stay in step, and `manualDownNum` counts the executors taken down.
pub do_update_config_off :
    (env : Env) (bev m : ℕ) (synced : Policys) (s : Scheduler)
    → Consistent s
    → 0 < size s.active_exec_list
    → s.manual_down_num ≡ pos m
    → s.policys.mimic_switch ≢ "off"
    → synced.mimic_switch ≡ "off"
    → Consistent (do_update_config env bev synced s)
      × (size (do_update_config env bev synced s).active_exec_list ≡ 1)
      × ((do_update_config env bev synced s).manual_down_num
          ≡ pos (m + (size s.active_exec_list - 1)))
do_update_config_off env bev m synced s c h e old new =
    let r = update_off env bev m synced s c h e old new in (r.consistent, r.one, r.counted)
