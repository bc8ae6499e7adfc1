-- ===== src/Schedule/Lists.antt =====
-- src/mimic_schedule.cpp: how the two lists of executors, `allExecList` and `activeExecList`, stay in
-- step when an executor is brought up or taken down.
use openstack_mimic_componen.Base.{◌<◌, ◌≡◌, Bool, true, false, String, Option, none, some, arith}
use openstack_mimic_componen.Map.{Map, text_key, size, find, has, at, update, emplace, erase}
use openstack_mimic_componen.Map.Laws.{find-emplace, find-update, find-erase_ne, find-at}
use openstack_mimic_componen.Map.Distinct.{
  Distinct, emplace-Distinct, update-Distinct, erase-Distinct, find-erase_self,
}
use openstack_mimic_componen.Schedule.State.{
  Executor, Scheduler, addr_of, default_executor, has_status, active,
}

abbrev pub is_up : Option Executor → Bool
is_up none = false
is_up (some e) = has_status active e

-- No address comes twice, every executor stands under its own address, none under "", and the active
-- list holds exactly the executors whose status is active.
pub record IsConsistent (all up : Map String Executor) : Type 0 where
  pub all_distinct : Distinct all
  pub up_distinct : Distinct up
  pub keyed : (k : String) (e : Executor) → find k all ≡ some e → addr_of e ≡ k
  pub no_blank : find "" all ≡ none
  pub in_step : (k : String) → has k up ≡ is_up (find k all)

abbrev pub Consistent : Scheduler → Type 0
Consistent s = IsConsistent s.all_exec_list s.active_exec_list

-- Lists in step with someone active.
abbrev pub Alive : Scheduler → Type 0
Alive s = Consistent s × (0 < size s.active_exec_list)

-- A change of an executor that keeps its address keeps the addresses in order.
update-keyed :
    (k j : String) (f : Executor → Executor) (all : Map String Executor) {e : Executor}
    → ((a : Executor) → addr_of (f a) ≡ addr_of a)
    → ((i : String) (a : Executor) → find i all ≡ some a → addr_of a ≡ i)
    → has k all ≡ true
    → find j (update default_executor k f all) ≡ some e
    → addr_of e ≡ j
update-keyed k j f all {e} same keyed h p = ground (
  arith,
  find-update default_executor k j f all,
  find-at default_executor k all h,
  keyed k (at default_executor k all),
  keyed j e,
  same (at default_executor k all),
)

-- An executor whose status changes together with its place in the active list.
module _ (k : String) (f : Executor → Executor) (all up : Map String Executor)
    (same : (a : Executor) → addr_of (f a) ≡ addr_of a) (c : IsConsistent all up)
    (h : has k all ≡ true) where
  pub join-IsConsistent :
      (e : Executor)
      → has_status active (f (at default_executor k all)) ≡ true
      → IsConsistent (update default_executor k f all) (emplace k e up)
  join-IsConsistent e a = record {
    all_distinct = update-Distinct default_executor k f all c.all_distinct;
    up_distinct = emplace-Distinct k e up c.up_distinct;
    keyed = λ j e p. update-keyed k j f all same c.keyed h p;
    no_blank = ground (arith, find-update default_executor k "" f all, c.no_blank);
    in_step = λ j.
        ground (arith, find-update default_executor k j f all, find-emplace k j e up, c.in_step j);
  }

  pub leave-IsConsistent :
      has_status active (f (at default_executor k all)) ≡ false
      → IsConsistent (update default_executor k f all) (erase k up)
  leave-IsConsistent a = record {
    all_distinct = update-Distinct default_executor k f all c.all_distinct;
    up_distinct = erase-Distinct k up c.up_distinct;
    keyed = λ j e p. update-keyed k j f all same c.keyed h p;
    no_blank = ground (arith, find-update default_executor k "" f all, c.no_blank);
    in_step = λ j. ground (
      arith,
      find-update default_executor k j f all,
      find-erase_self k up c.up_distinct,
      find-erase_ne k j up,
      c.in_step j,
    );
  }

  -- A change that neither makes nor ends an active executor leaves the active list alone.
  pub stay-IsConsistent :
      has_status active (f (at default_executor k all)) ≡ has k up
      → IsConsistent (update default_executor k f all) up
  stay-IsConsistent a = record {
    all_distinct = update-Distinct default_executor k f all c.all_distinct;
    up_distinct = c.up_distinct;
    keyed = λ j e p. update-keyed k j f all same c.keyed h p;
    no_blank = ground (arith, find-update default_executor k "" f all, c.no_blank);
    in_step = λ j. ground (arith, find-update default_executor k j f all, c.in_step j);
  }
