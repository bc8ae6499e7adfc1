-- ===== src/Schedule/Updown/Main.antt =====
-- src/mimic_schedule.cpp: doUpdown as a whole.
use openstack_mimic_componen.Base.{
  ◌+◌, ◌≤◌, ◌<◌, ◌≡◌, ◌≢◌, refl, ◌∙◌, inl, inr, true, ◌&&◌, String, String_discrete, some, if_pos,
  if_neg, if◌then◌else◌, Bool-cases, Option-cases, arith, ◌==◌,
}
use openstack_mimic_componen.Map.{text_key, has, size}
use openstack_mimic_componen.Map.Laws.{find-at}
use openstack_mimic_componen.Schedule.State.{
  Executor, Scheduler, Env, addr_of, default_executor, change_exec, after_read,
}
use openstack_mimic_componen.Schedule.Policy.{Outcome}
use openstack_mimic_componen.Schedule.Lists.{Consistent, stay-IsConsistent}
use openstack_mimic_componen.Schedule.Picks.{
  Picks, swapped, refused, missed, died, policy_weight-Picks, policy_all_random-Picks,
}
use openstack_mimic_componen.Schedule.HostPicks.{policy_host_random-Picks}
use openstack_mimic_componen.Schedule.Swaps.{Known, has-update}
use openstack_mimic_componen.Schedule.Updown.Reports.{report_updown-Traced}
use openstack_mimic_componen.Schedule.Updown.Keeps.{
  Keeps, swap-Keeps, take_down-Keeps, same-Keeps, Traced-Keeps,
}
use openstack_mimic_componen.Schedule.Updown.{
  count_failure, run_policy, after_policy, report_updown, counted_failure, do_updown, updown_action,
  updown_msg,
}

count_failure-addr : (e : Executor) → addr_of (count_failure e) ≡ addr_of e
unfolding addr_of count_failure
count_failure-addr e = refl

-- An address that is in the active list is in the list of all executors.
pub up_known :
    (addr : String) (s : Scheduler)
    → Consistent s
    → has addr s.active_exec_list ≡ true
    → has addr s.all_exec_list ≡ true
up_known addr s c h = ground (arith, c.in_step addr)

counted-Keeps :
    (addr : String) (s : Scheduler)
    → Consistent s
    → has addr s.all_exec_list ≡ true
    → Keeps addr s (change_exec addr count_failure s)
unfolding count_failure
counted-Keeps addr s c h = record {
  consistent =
      stay-IsConsistent addr count_failure s.all_exec_list s.active_exec_list count_failure-addr c h
        (ground (arith, c.in_step addr, find-at default_executor addr s.all_exec_list h));
  same_config = refl;
  same_policys = refl;
  same_manual = refl;
  same_start = refl;
  known = λ a k. has-update addr a count_failure s.all_exec_list k;
  others = λ k n h. h;
  at_least = omega arith;
  at_most = omega arith;
}

-- The failure count is no part of the lists' order.
record Counted (addr : String) (s t : Scheduler) : Type 0 where
  keeps : Keeps addr s t
  same_up : t.active_exec_list ≡ s.active_exec_list

counted_failure-Counted :
    (addr msg : String) (s : Scheduler)
    → Consistent s
    → Known addr s
    → Counted addr s (counted_failure addr msg s)
unfolding counted_failure
counted_failure-Counted addr msg s c k = elim (String_discrete msg "Schedule") [
  | yes p ↦
      rw (if_pos (String_discrete msg "Schedule") p s _)
        (record { keeps = same-Keeps addr s c; same_up = refl })
  | no p ↦ rw (if_neg (String_discrete msg "Schedule") p s _) (elim (String_discrete addr "") [
    | yes q ↦
        rw (if_pos (String_discrete addr "") q s _)
          (record { keeps = same-Keeps addr s c; same_up = refl })
    | no q ↦ rw (if_neg (String_discrete addr "") q s _) (elim k [
      | inl b ↦ absurd (q b)
      | inr h ↦ record { keeps = counted-Keeps addr s c h; same_up = refl }
    ])
  ])
]

pub run_policy-Picks :
    (env : Env) (addr : String) (s : Scheduler) (r : Outcome × Scheduler)
    → Consistent s
    → Known addr s
    → run_policy env addr s ≡ some r
    → Picks addr s r
unfolding run_policy
run_policy-Picks env addr s r c k e = ground (
  arith,
  policy_weight-Picks env addr s c,
  policy_all_random-Picks env addr s c,
  policy_host_random-Picks env addr s c k,
)

-- What was kept since a reading of the clock, or since a failure was counted, was kept before.
read-Keeps : (addr : String) (s t : Scheduler) → Keeps addr (after_read s) t → Keeps addr s t
read-Keeps addr s t k = record {
  consistent = k.consistent;
  same_config = k.same_config;
  same_policys = k.same_policys;
  same_manual = k.same_manual;
  same_start = k.same_start;
  known = k.known;
  others = k.others;
  at_least = k.at_least;
  at_most = k.at_most;
}

Counted-then :
    (addr : String) (s t u : Scheduler) → Counted addr s t → Keeps addr t u → Keeps addr s u
Counted-then addr s t u c k = record {
  consistent = k.consistent;
  same_config = k.same_config ∙ c.keeps.same_config;
  same_policys = k.same_policys ∙ c.keeps.same_policys;
  same_manual = k.same_manual ∙ c.keeps.same_manual;
  same_start = k.same_start ∙ c.keeps.same_start;
  known = λ a h. k.known a (c.keeps.known a h);
  others = rw (← c.same_up) k.others;
  at_least = rw (← c.same_up) k.at_least;
  at_most = rw (← c.same_up) k.at_most;
}

Keeps-Known : (addr : String) (s t : Scheduler) → Keeps addr s t → Known addr s → Known addr t
Keeps-Known addr s t k (inl p) = inl p
Keeps-Known addr s t k (inr h) = inr (k.known addr h)

reported-Keeps :
    (down key action msg : String) (s t : Scheduler)
    → Keeps down s t
    → Known down s
    → Known key t
    → Keeps down s (report_updown down key action msg t)
reported-Keeps down key action msg s t k d h =
    Traced-Keeps down s t _ k
      (report_updown-Traced down key action msg t (Keeps-Known down s t k d) h)

after_policy-Keeps :
    (down action msg : String) (s : Scheduler) (r : Outcome × Scheduler)
    → Consistent s
    → Known down s
    → Picks down s r
    → Keeps down s (after_policy down action msg s (some r))
unfolding after_policy
after_policy-Keeps down action msg s _ c d (swapped e seed r g p) =
    let k = read-Keeps down s _ (swap-Keeps e down seed (after_read s) c d g) in
    rw p (
      reported-Keeps down (addr_of e) action msg s _ k d
        (inr (k.known (addr_of e) (ground (arith, g.0)))))
after_policy-Keeps down action msg s _ c d (refused why r p) =
    rw p (reported-Keeps down "" action msg s _ (take_down-Keeps down s c d) d (inl refl))
after_policy-Keeps down action msg s _ c d (missed r p) = rw p (
    reported-Keeps down "" action msg s _ (read-Keeps down s _ (same-Keeps down (after_read s) c)) d
      (inl refl))
after_policy-Keeps down action msg s _ c d (died r p) =
    rw p (Traced-Keeps down s s _ (same-Keeps down s c) (_, refl))

updown_counted-Keeps :
    (env : Env) (addr action msg : String) (s : Scheduler)
    → Consistent s
    → Known addr s
    → Keeps addr s (after_policy addr action msg s (run_policy env addr s))
updown_counted-Keeps env addr action msg s c k = elim (Option-cases (run_policy env addr s)) [
  | inl e ↦ rw e (unfold after_policy in same-Keeps addr s c)
  | inr (r, e) ↦
      rw e (after_policy-Keeps addr action msg s r c k (run_policy-Picks env addr s r c k e))
]

pub do_updown-Keeps :
    (env : Env) (addr msg : String) (s : Scheduler)
    → Consistent s
    → Known addr s
    → Keeps addr s (do_updown env addr msg s)
unfolding do_updown
do_updown-Keeps env addr msg s c k =
    elim (Bool-cases (has addr s.active_exec_list && (size s.active_exec_list == 1))) [
      | inl e ↦ rw e (same-Keeps addr s c)
      | inr e ↦ rw e (
          let n = counted_failure-Counted addr msg s c k in
          Counted-then addr s _ _ n (
            updown_counted-Keeps env addr (updown_action msg) (updown_msg msg) _ n.keeps.consistent
              (Keeps-Known addr s _ n.keeps k)))
    ]

do_updown_last :
    (env : Env) (addr msg : String) (s : Scheduler)
    → has addr s.active_exec_list ≡ true
    → size s.active_exec_list ≡ 1
    → do_updown env addr msg s ≡ s
unfolding do_updown
do_updown_last env addr msg s h e = ground arith

-- doUpdown never empties the active list: from a consistent state with an active executor, whatever
-- known address it is told to take down and whatever the policy finds, an executor stays active.
pub do_updown_nonempty :
    (env : Env) (addr msg : String) (s : Scheduler)
    → Consistent s
    → Known addr s
    → 0 < size s.active_exec_list
    → 0 < size (do_updown env addr msg s).active_exec_list
do_updown_nonempty env addr msg s c k h =
    let kept = do_updown-Keeps env addr msg s c k in
    elim (Bool-cases (has addr s.active_exec_list)) [
      | inr e ↦ ground (arith, kept.at_least)
      | inl e ↦ elim (Bool-cases (size s.active_exec_list == 1)) [
        | inl one ↦ rw (do_updown_last env addr msg s e (ground arith)) h
        | inr more ↦ ground (arith, kept.at_least)
      ]
    ]

-- doUpdown, from a consistent state and a known address, keeps the lists in step, leaves every other
-- executor that is active in the active list, and makes the list longer by one at most, and no longer
-- at all if the address was active.
pub do_updown-Consistent :
    (env : Env) (addr msg : String) (s : Scheduler)
    → Consistent s
    → Known addr s
    → Consistent (do_updown env addr msg s)
      × ((k : String)
          → k ≢ addr
          → has k s.active_exec_list ≡ true
          → has k (do_updown env addr msg s).active_exec_list ≡ true)
      × (size s.active_exec_list
          ≤ size (do_updown env addr msg s).active_exec_list
            + (if has addr s.active_exec_list then 1 else 0))
      × (size (do_updown env addr msg s).active_exec_list
          ≤ size s.active_exec_list + (if has addr s.active_exec_list then 0 else 1))
do_updown-Consistent env addr msg s c k =
    let r = do_updown-Keeps env addr msg s c k in (r.consistent, r.others, r.at_least, r.at_most)
