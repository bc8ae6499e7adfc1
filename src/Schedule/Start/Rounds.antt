-- ===== src/Schedule/Start/Rounds.antt =====
-- src/mimic_schedule.cpp: the rounds of initActiveExec against the two lists.
use openstack_mimic_componen.Base.{
  ℕ, zero, suc, ◌+◌, ◌≤◌, ◌≡◌, refl, ap, ◌∙◌, inl, inr, [], some, arith, Option-cases,
}
use openstack_mimic_componen.Base.Int.{pos, pos_part, ◌-ℤ◌}
use openstack_mimic_componen.Map.{text_key, size}
use openstack_mimic_componen.Schedule.State.{Scheduler, Env, addr_of, after_read}
use openstack_mimic_componen.Schedule.Policy.{Outcome, returned, bring_up, take_down}
use openstack_mimic_componen.Schedule.Lists.{IsConsistent, Consistent}
use openstack_mimic_componen.Schedule.Picks.{Picks, swapped, refused, missed, died}
use openstack_mimic_componen.Schedule.Updown.{run_policy, init_rounds, init_active_exec}
use openstack_mimic_componen.Schedule.Updown.Keeps.{swap-Keeps, blank_not_up}
use openstack_mimic_componen.Schedule.Updown.Main.{run_policy-Picks}

-- What the rounds of initActiveExec have done.
pub record Begun (n : ℕ) (s t : Scheduler) : Type 0 where
  pub consistent : Consistent t
  pub most : size t.active_exec_list ≤ size s.active_exec_list + n
  pub same_config : t.config ≡ s.config
  pub same_manual : t.manual_down_num ≡ s.manual_down_num
  pub same_start : t.is_first_start ≡ s.is_first_start

same-Begun : (n : ℕ) (s : Scheduler) → Consistent s → Begun n s s
same-Begun n s c = record {
  consistent = c;
  most = omega arith;
  same_config = refl;
  same_manual = refl;
  same_start = refl;
}

round-Begun :
    (env : Env) (n : ℕ) (s : Scheduler) (r : Outcome × Scheduler)
    → ((t : Scheduler) → Consistent t → Begun n t (init_rounds env n t))
    → Consistent s
    → Picks "" s r
    → run_policy env "" s ≡ some r
    → Begun (suc n) s (init_rounds env (suc n) s)
unfolding init_rounds
round-Begun env n s r rest c (swapped e seed _ g p) q =
    let k = swap-Keeps e "" seed (after_read s) c (inl refl) g in
    let t = take_down "" (bring_up (addr_of e) seed (after_read s)) in
    let swap : r ≡ (returned (addr_of e), t) = p in
    let b = rest t k.consistent in
    rw (q ∙ ap some swap, init_rounds)
      (record {
        consistent = b.consistent;
        most = ground (arith, b.most, k.at_most, blank_not_up (after_read s) c);
        same_config = b.same_config ∙ k.same_config;
        same_manual = b.same_manual ∙ k.same_manual;
        same_start = b.same_start ∙ k.same_start;
      })
round-Begun env n s r rest c (refused why _ p) q =
    let b = rest s c in
    rw (q ∙ ap some p, init_rounds)
      (record {
        consistent = b.consistent;
        most = omega (arith, b.most);
        same_config = b.same_config;
        same_manual = b.same_manual;
        same_start = b.same_start;
      })
round-Begun env n s r rest c (missed _ p) q =
    let b = rest (after_read s) c in
    rw (q ∙ ap some p, init_rounds)
      (record {
        consistent = b.consistent;
        most = omega (arith, b.most);
        same_config = b.same_config;
        same_manual = b.same_manual;
        same_start = b.same_start;
      })
round-Begun env n s r rest c (died _ p) q =
    rw (q ∙ ap some p, init_rounds)
      (record {
        consistent = c;
        most = omega arith;
        same_config = refl;
        same_manual = refl;
        same_start = refl;
      })

init_rounds-Begun :
    (env : Env) (n : ℕ) (s : Scheduler) → Consistent s → Begun n s (init_rounds env n s)
unfolding init_rounds
init_rounds-Begun env zero s c = same-Begun 0 s c
init_rounds-Begun env (suc n) s c = elim (Option-cases (run_policy env "" s)) [
  | inl e ↦ rw (e, init_rounds) (same-Begun (suc n) s c)
  | inr (r, e) ↦
      round-Begun env n s r (init_rounds-Begun env n) c (run_policy-Picks env "" s r c (inl refl) e)
        e
]

pub init_active_exec-Begun :
    (env : Env) (m : ℕ) (s : Scheduler)
    → IsConsistent s.all_exec_list []
    → s.manual_down_num ≡ pos m
    → Begun s.config.exec_num (record s { active_exec_list = [] }) (init_active_exec env s)
unfolding init_active_exec
init_active_exec-Begun env m s c e =
    let n = pos_part (pos s.config.exec_num -ℤ s.manual_down_num) in
    let b = init_rounds-Begun env n (record s { active_exec_list = [] }) c in
    record {
      consistent = b.consistent;
      most = ground (arith, b.most, e);
      same_config = b.same_config;
      same_manual = b.same_manual;
      same_start = b.same_start;
    }
