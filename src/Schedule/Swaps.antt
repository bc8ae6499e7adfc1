-- ===== src/Schedule/Swaps.antt =====
-- src/mimic_schedule.cpp: bringing an executor up and taking one down keep the lists in step.
use openstack_mimic_componen.Base.{
  ℕ, ◌+◌, ◌-◌, ◌≡◌, ◌≢◌, refl, ◌⊎◌, inl, inr, true, String, String_discrete, if_pos, if_neg,
  if◌then◌else◌, arith,
}
use openstack_mimic_componen.Base.Int.{ℤ}
use openstack_mimic_componen.Map.{Map, text_key, has, size, update, erase}
use openstack_mimic_componen.Map.Laws.{find-update}
use openstack_mimic_componen.Map.Distinct.{size-emplace, size-erase}
use openstack_mimic_componen.Schedule.State.{
  Executor, Scheduler, addr_of, default_executor, set_status, change_exec, exec_at, active,
  cleaning,
}
use openstack_mimic_componen.Schedule.Policy.{bring_up, take_down}
use openstack_mimic_componen.Schedule.Lists.{Consistent, join-IsConsistent, leave-IsConsistent}
use openstack_mimic_componen.Schedule.Picks.{Ready}

-- An address that an operation may take down: none, or one of the list.
abbrev pub Known : String → Scheduler → Type 0
Known addr s = (addr ≡ "") ⊎ (has addr s.all_exec_list ≡ true)

pub set_status-addr : (n : ℤ) (e : Executor) → addr_of (set_status n e) ≡ addr_of e
unfolding addr_of
set_status-addr n e = refl

-- Taking an executor down, without the test on its address.
abbrev pub gone : String → Scheduler → Scheduler
gone down s =
    let t : Scheduler = change_exec down (set_status cleaning) s in
    record t { active_exec_list = erase down t.active_exec_list }

pub take_down_known : (down : String) (s : Scheduler) → down ≢ "" → take_down down s ≡ gone down s
unfolding take_down
take_down_known down s p = if_neg (String_discrete down "") p s (gone down s)

pub take_down_blank : (down : String) (s : Scheduler) → down ≡ "" → take_down down s ≡ s
unfolding take_down
take_down_blank down s p = if_pos (String_discrete down "") p s (gone down s)

pub take_down-Consistent :
    (down : String) (s : Scheduler) → Known down s → Consistent s → Consistent (take_down down s)
take_down-Consistent down s d c = elim (String_discrete down "") [
  | yes p ↦ rw (take_down_blank down s p) c
  | no p ↦ rw (take_down_known down s p) (elim d [
    | inl q ↦ absurd (p q)
    | inr q ↦
        leave-IsConsistent down (set_status cleaning) s.all_exec_list s.active_exec_list
          (set_status-addr cleaning) c q refl
  ])
]

abbrev pub with_time : ℕ → Executor → Executor
with_time seed e = record e { status = active; active_time = seed }

with_time-addr : (seed : ℕ) (e : Executor) → addr_of (with_time seed e) ≡ addr_of e
unfolding addr_of
with_time-addr seed e = refl

pub bring_up-Consistent :
    (e : Executor) (seed : ℕ) (s : Scheduler)
    → Ready s e
    → Consistent s
    → Consistent (bring_up (addr_of e) seed s)
unfolding bring_up
bring_up-Consistent e seed s r c =
    join-IsConsistent (addr_of e) (with_time seed) s.all_exec_list s.active_exec_list
      (with_time-addr seed) c (ground (arith, r.0)) _ refl

-- An address stays in the list of all executors.
pub has-update :
    (k j : String) (f : Executor → Executor) (m : Map String Executor)
    → has j m ≡ true
    → has j (update default_executor k f m) ≡ true
has-update k j f m h = ground (arith, find-update default_executor k j f m)

pub bring_up-Known :
    (key : String) (seed : ℕ) (down : String) (s : Scheduler)
    → Known down s
    → Known down (bring_up key seed s)
unfolding bring_up
bring_up-Known key seed down s (inl p) = inl p
bring_up-Known key seed down s (inr q) =
    inr (has-update key down (with_time seed) s.all_exec_list q)

-- A ready executor is not in the active list, so bringing it up makes the list longer by one.
pub size-bring_up :
    (e : Executor) (seed : ℕ) (s : Scheduler)
    → Ready s e
    → Consistent s
    → size (bring_up (addr_of e) seed s).active_exec_list ≡ size s.active_exec_list + 1
unfolding bring_up
size-bring_up e seed s r c = ground (
  arith,
  r.0,
  r.1,
  c.in_step (addr_of e),
  size-emplace (addr_of e) (exec_at (change_exec (addr_of e) (with_time seed) s) (addr_of e))
      s.active_exec_list,
)

pub size-take_down :
    (down : String) (s : Scheduler)
    → down ≢ ""
    → size (take_down down s).active_exec_list ≡ (
        if has down s.active_exec_list
        then size s.active_exec_list - 1
        else size s.active_exec_list)
size-take_down down s p = rw (take_down_known down s p) (size-erase down s.active_exec_list)
