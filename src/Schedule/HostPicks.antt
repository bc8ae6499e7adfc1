-- ===== src/Schedule/HostPicks.antt =====
-- src/mimic_schedule.cpp: policy_host_random chooses like the other policies, from one host's group.
use openstack_mimic_componen.Base.{
  ℕ, ◌≡◌, refl, ap, ◌⊎◌, inl, inr, true, String, String_discrete, List, [], ◌∷◌, ◌++◌, if_pos,
  if_neg, arith, Bool-cases, All, length, ◌==◌,
}
use openstack_mimic_componen.Map.{Map, text_key, find, has, size, at, values}
use openstack_mimic_componen.Map.Laws.{find-update, update_same}
use openstack_mimic_componen.Schedule.State.{
  Executor, Scheduler, Env, default_executor, change_exec, exec_at,
}
use openstack_mimic_componen.Schedule.Policy.{
  ready_execs, add_to_group, group_hosts, ready_groups, choose_host, on_same_host, used_hosts,
  policy_host_random,
}
use openstack_mimic_componen.Schedule.Lists.{Consistent}
use openstack_mimic_componen.Schedule.Picks.{
  Ready, Picks, refused, ready_execs-All, choose_random-Picks,
}

-- `allExecList[addr]` at an address that is there only reads.
pub change_exec_same :
    (addr : String) (s : Scheduler)
    → has addr s.all_exec_list ≡ true
    → change_exec addr (λ e. e) s ≡ s
change_exec_same addr s h =
    ap (λ m. record s { all_exec_list = m }) (update_same default_executor addr s.all_exec_list h)

append-All {ℓ} :
    {A : Type ℓ} (P : A → Type 0) (xs : List A) (a : A) → All P xs → P a → All P (xs ++ (a ∷ []))
append-All P [] a h p = (p, tt)
append-All P (x ∷ xs) a h p = (h.0, append-All P xs a h.1 p)

abbrev pub GroupsOf : (Executor → Type 0) → Map String (List Executor) → Type 0
GroupsOf P m = (host : String) → All P (at [] host m)

add_to_group-GroupsOf :
    (P : Executor → Type 0) (e : Executor) (m : Map String (List Executor))
    → P e
    → GroupsOf P m
    → GroupsOf P (add_to_group e m)
unfolding add_to_group at
add_to_group-GroupsOf P e m p h host = ground (
  arith,
  find-update [] e.ip host (λ g. g ++ (e ∷ [])) m,
  append-All P (at [] e.ip m) e (h e.ip) p,
  h host,
)

group_hosts-GroupsOf :
    (P : Executor → Type 0) (es : List Executor) (m : Map String (List Executor))
    → All P es
    → GroupsOf P m
    → GroupsOf P (group_hosts es m)
unfolding group_hosts
group_hosts-GroupsOf P [] m p h = h
group_hosts-GroupsOf P (e ∷ es) m p h =
    group_hosts-GroupsOf P es (add_to_group e m) p.1 (add_to_group-GroupsOf P e m p.0 h)

pub ready_groups-GroupsOf : (s : Scheduler) → Consistent s → GroupsOf (Ready s) (ready_groups s)
unfolding at find
ready_groups-GroupsOf s c =
    group_hosts-GroupsOf (Ready s) (ready_execs s) [] (ready_execs-All s c) (λ _. tt)

choose_host-Picks :
    (env : Env) (hosts : List (String × ℕ)) (m : Map String (List Executor)) (down : String)
    (s : Scheduler)
    → GroupsOf (Ready s) m
    → Picks down s (choose_host env hosts m down s)
unfolding choose_host
choose_host-Picks env [] m down s h = refused _ _ refl
choose_host-Picks env ((host, n) ∷ hosts) m down s h =
    elim (Bool-cases (length (at [] host m) == 0)) [
      | inl e ↦ rw e (choose_host-Picks env hosts m down s h)
      | inr e ↦ rw e (choose_random-Picks env _ down s (h host))
    ]

on_same_host-Picks :
    (env : Env) (down : String) (s : Scheduler)
    → Consistent s
    → has down s.all_exec_list ≡ true
    → Picks down s (on_same_host env down s)
unfolding on_same_host
on_same_host-Picks env down s c h =
    let seen = change_exec down (λ e. e) s in
    elim (Bool-cases (length (at [] (exec_at seen down).ip (ready_groups s)) == 0)) [
      | inl e ↦
          rw (e, change_exec_same down s h)
            (choose_host-Picks env _ _ down s (ready_groups-GroupsOf s c))
      | inr e ↦
          rw (e, change_exec_same down s h)
            (choose_random-Picks env _ down s (ready_groups-GroupsOf s c _))
    ]

pub policy_host_random-Picks :
    (env : Env) (down : String) (s : Scheduler)
    → Consistent s
    → (down ≡ "") ⊎ (has down s.all_exec_list ≡ true)
    → Picks down s (policy_host_random env down s)
unfolding policy_host_random
policy_host_random-Picks env down s c d =
    elim (Bool-cases (size (used_hosts (values s.active_exec_list)) == s.config.exec_num)) [
      | inl e ↦ rw e (elim (String_discrete down "") [
        | yes p ↦ rw (if_pos _ p) (refused _ _ refl)
        | no p ↦
            rw (if_neg _ p)
              (elim d [ inl q ↦ absurd (p q) | inr q ↦ on_same_host-Picks env down s c q ])
      ])
      | inr e ↦ rw e (choose_host-Picks env _ _ down s (ready_groups-GroupsOf s c))
    ]
