-- ===== src/Schedule/Updown/Keeps.antt =====
-- src/mimic_schedule.cpp: doUpdown keeps the two lists in step, takes down at most the executor that
-- it was asked to, and brings at most one up.
use openstack_mimic_componen.Base.{
  ◌≢◌, sym, is_some, ℕ, ◌+◌, ◌-◌, ◌≤◌, ◌≡◌, refl, ap, ◌∙◌, true, false, String, String_discrete,
  if◌then◌else◌, arith,
}
use openstack_mimic_componen.Map.Laws.{find-erase_ne, find-emplace}
use openstack_mimic_componen.Map.{text_key, has, size}
use openstack_mimic_componen.Schedule.State.{Executor, Scheduler, addr_of, change_exec, exec_at}
use openstack_mimic_componen.Schedule.Policy.{bring_up, take_down}
use openstack_mimic_componen.Schedule.Lists.{Consistent}
use openstack_mimic_componen.Schedule.Picks.{Ready}
use openstack_mimic_componen.Schedule.Swaps.{
  take_down_blank, take_down_known, Known, take_down-Consistent, take_down_known, take_down_blank,
  bring_up-Consistent, bring_up-Known, has-update, size-bring_up, size-take_down, with_time,
}
use openstack_mimic_componen.Schedule.Updown.Reports.{Traced}

-- What a change of the lists around `down` keeps.
pub record Keeps (down : String) (s t : Scheduler) : Type 0 where
  pub consistent : Consistent t
  pub same_config : t.config ≡ s.config
  pub same_policys : t.policys ≡ s.policys
  pub same_manual : t.manual_down_num ≡ s.manual_down_num
  pub same_start : t.is_first_start ≡ s.is_first_start
  pub known : (addr : String) → has addr s.all_exec_list ≡ true → has addr t.all_exec_list ≡ true
  pub others :
      (k : String) → k ≢ down → has k s.active_exec_list ≡ true → has k t.active_exec_list ≡ true
  pub at_least :
      size s.active_exec_list
      ≤ size t.active_exec_list + (if has down s.active_exec_list then 1 else 0)
  pub at_most :
      size t.active_exec_list
      ≤ size s.active_exec_list + (if has down s.active_exec_list then 0 else 1)

take_down-frame :
    (down : String) (s : Scheduler)
    → ((take_down down s).config ≡ s.config)
      × ((take_down down s).policys ≡ s.policys)
      × ((take_down down s).manual_down_num ≡ s.manual_down_num)
      × ((take_down down s).is_first_start ≡ s.is_first_start)
unfolding take_down
take_down-frame down s = ground arith

take_down-known :
    (down : String) (s : Scheduler) (addr : String)
    → has addr s.all_exec_list ≡ true
    → has addr (take_down down s).all_exec_list ≡ true
take_down-known down s addr h = elim (String_discrete down "") [
  | yes p ↦ rw (take_down_blank down s p) h
  | no p ↦ rw (take_down_known down s p) (has-update down addr _ s.all_exec_list h)
]

-- The blank address is in neither list.
pub blank_not_up : (s : Scheduler) → Consistent s → has "" s.active_exec_list ≡ false
blank_not_up s c = ground (arith, c.in_step "", c.no_blank)

size-take_down_lem :
    (down : String) (s : Scheduler)
    → Consistent s
    → size (take_down down s).active_exec_list ≡ (
        if has down s.active_exec_list
        then size s.active_exec_list - 1
        else size s.active_exec_list)
size-take_down_lem down s c = elim (String_discrete down "") [
  | yes p ↦
      rw (take_down_blank down s p)
        (ground (arith, ap (λ k. has k s.active_exec_list) p, blank_not_up s c))
  | no p ↦ size-take_down down s p
]

has-bring_up :
    (key down : String) (seed : ℕ) (s : Scheduler)
    → has down s.active_exec_list ≡ true
    → has down (bring_up key seed s).active_exec_list ≡ true
unfolding bring_up
has-bring_up key down seed s h = ground (
  arith,
  find-emplace key down (exec_at (change_exec key (with_time seed) s) key) s.active_exec_list,
)

bring_up-known :
    (key : String) (seed : ℕ) (s : Scheduler) (addr : String)
    → has addr s.all_exec_list ≡ true
    → has addr (bring_up key seed s).all_exec_list ≡ true
unfolding bring_up
bring_up-known key seed s addr h = has-update key addr (with_time seed) s.all_exec_list h

bring_up-frame :
    (key : String) (seed : ℕ) (s : Scheduler)
    → ((bring_up key seed s).config ≡ s.config)
      × ((bring_up key seed s).policys ≡ s.policys)
      × ((bring_up key seed s).manual_down_num ≡ s.manual_down_num)
      × ((bring_up key seed s).is_first_start ≡ s.is_first_start)
unfolding bring_up
bring_up-frame key seed s = (refl, refl, refl, refl)

take_down-others :
    (down : String) (s : Scheduler) (k : String)
    → k ≢ down
    → has k s.active_exec_list ≡ true
    → has k (take_down down s).active_exec_list ≡ true
take_down-others down s k n h = elim (String_discrete down "") [
  | yes p ↦ rw (take_down_blank down s p) h
  | no p ↦
      rw (take_down_known down s p)
        (ap is_some (find-erase_ne down k s.active_exec_list (λ e. n (sym e))) ∙ h)
]

bring_up-others :
    (key : String) (seed : ℕ) (s : Scheduler) (k : String)
    → has k s.active_exec_list ≡ true
    → has k (bring_up key seed s).active_exec_list ≡ true
unfolding bring_up
bring_up-others key seed s k h =
    let up : Scheduler = change_exec key (with_time seed) s in
    ground (arith, find-emplace key k (exec_at up key) s.active_exec_list, h)

pub swap-Keeps :
    (e : Executor) (down : String) (seed : ℕ) (s : Scheduler)
    → Consistent s
    → Known down s
    → Ready s e
    → Keeps down s (take_down down (bring_up (addr_of e) seed s))
swap-Keeps e down seed s c d r =
    let up = bring_up (addr_of e) seed s in
    let cu = bring_up-Consistent e seed s r c in
    let f = take_down-frame down up in
    let g = bring_up-frame (addr_of e) seed s in
    record {
      consistent = take_down-Consistent down up (bring_up-Known (addr_of e) seed down s d) cu;
      same_config = f.0 ∙ g.0;
      same_policys = f.1 ∙ g.1;
      same_manual = f.2 ∙ g.2;
      same_start = f.3 ∙ g.3;
      known = λ addr h. take_down-known down up addr (bring_up-known (addr_of e) seed s addr h);
      others = λ k n h. take_down-others down up k n (bring_up-others (addr_of e) seed s k h);
      at_least = ground (arith, size-take_down_lem down up cu, size-bring_up e seed s r c);
      at_most = ground (
        arith,
        size-take_down_lem down up cu,
        size-bring_up e seed s r c,
        has-bring_up (addr_of e) down seed s,
      );
    }

pub take_down-Keeps :
    (down : String) (s : Scheduler) → Consistent s → Known down s → Keeps down s (take_down down s)
take_down-Keeps down s c d =
    let f = take_down-frame down s in
    record {
      consistent = take_down-Consistent down s d c;
      same_config = f.0;
      same_policys = f.1;
      same_manual = f.2;
      same_start = f.3;
      known = take_down-known down s;
      others = take_down-others down s;
      at_least = ground (arith, size-take_down_lem down s c);
      at_most = ground (arith, size-take_down_lem down s c);
    }

pub same-Keeps : (down : String) (s : Scheduler) → Consistent s → Keeps down s s
same-Keeps down s c = record {
  consistent = c;
  same_config = refl;
  same_policys = refl;
  same_manual = refl;
  same_start = refl;
  known = λ addr h. h;
  others = λ k n h. h;
  at_least = omega arith;
  at_most = omega arith;
}

-- The trace and the clock are no part of what is kept.
pub Traced-Keeps :
    (down : String) (s t u : Scheduler) → Keeps down s t → Traced t u → Keeps down s u
Traced-Keeps down s t u k (ts, p) = rw p (record {
  consistent = k.consistent;
  same_config = k.same_config;
  same_policys = k.same_policys;
  same_manual = k.same_manual;
  same_start = k.same_start;
  known = k.known;
  others = k.others;
  at_least = k.at_least;
  at_most = k.at_most;
})
