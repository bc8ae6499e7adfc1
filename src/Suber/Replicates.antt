-- ===== src/Suber/Replicates.antt =====
-- src/mimic_suber.cpp and src/mimic_schedule.cpp: what a subscriber has after a message.
use openstack_mimic_componen.Base.{
  suc, ite, ◌<◌, ◌≡◌, refl, sym, ap, ◌∙◌, true, false, String, String_discrete, [], ◌∷◌, Option,
  none, some, if◌then◌else◌, if_cases, is_some, All, length, arith, ◌==◌,
}
use openstack_mimic_componen.Map.{Map, text_key, find, has, values, size, emplace, at}
use openstack_mimic_componen.Map.Laws.{find-emplace}
use openstack_mimic_componen.Map.Distinct.{Distinct}
use openstack_mimic_componen.Map.Order.{All-find}
use openstack_mimic_componen.Schedule.State.{Executor, Scheduler, addr_of, has_status, active}
use openstack_mimic_componen.Schedule.Lists.{Consistent, is_up}
use openstack_mimic_componen.Suber.{
  Flags, Suber, received, fill_all, fill_active, fill_exec_map, set_policys, read_message,
}

-- The first of two results.
abbrev first_of : Option Executor → Option Executor → Option Executor
first_of none o = o
first_of (some e) o = some e

first_none : (o : Option Executor) → o ≡ first_of o none
first_none none = refl
first_none (some e) = refl

length-values : (m : Map String Executor) → length (values m) ≡ size m
length-values [] = refl
length-values (e ∷ m) = ap suc (length-values m)

abbrev only_up : Option Executor → Option Executor
only_up none = none
only_up (some e) = if has_status active e then some e else none

abbrev Keyed : Map String Executor → Type 0
Keyed m = All (λ r. addr_of r.1 ≡ r.0) m

received_same : (f : Flags) (e : Executor) → f.is_proxy ≡ false → received f e ≡ e
unfolding received
received_same f e h = rw h refl

-- An entry that the key and the flags leave as it is.
entry_same :
    (f : Flags) (j : String) (e : Executor) (acc : Map String Executor)
    → f.is_proxy ≡ false
    → addr_of e ≡ j
    → emplace (addr_of (received f e)) (received f e) acc ≡ emplace j e acc
entry_same f j e acc h a =
    ap (λ x. emplace (addr_of x) x acc) (received_same f e h) ∙ ap (λ k. emplace k e acc) a

find-emplace-first_of :
    (j k : String) (e : Executor) (acc : Map String Executor) (o : Option Executor)
    → first_of (find k (emplace j e acc)) o
      ≡ first_of (find k acc) (ite (String_discrete k j) (some e) o)
unfolding at
find-emplace-first_of j k e acc o = ground (arith, find-emplace j k e acc, ap (λ i. find i acc))

fill_all-find :
    (f : Flags) (m acc : Map String Executor) (k : String)
    → f.is_proxy ≡ false
    → Keyed m
    → find k (fill_all f (values m) acc) ≡ first_of (find k acc) (find k m)
unfolding fill_all find
fill_all-find f [] acc k h a = first_none (find k acc)
fill_all-find f ((j, e) ∷ m) acc k h a =
    ap (λ n. find k (fill_all f (values m) n)) (entry_same f j e acc h a.0)
    ∙ fill_all-find f m (emplace j e acc) k h a.1
    ∙ find-emplace-first_of j k e acc (find k m)

only_up-none :
    (k j : String) (e : Executor) (acc m : Map String Executor)
    → has_status active e ≡ false
    → find j m ≡ none
    → first_of (find k acc) (only_up (find k m))
      ≡ first_of (find k acc) (only_up (ite (String_discrete k j) (some e) (find k m)))
only_up-none k j e acc m h n = ground (arith, h, n, ap (λ i. find i m))

only_up-some :
    (k j : String) (e : Executor) (acc m : Map String Executor)
    → has_status active e ≡ true
    → first_of (find k acc) (ite (String_discrete k j) (some e) (only_up (find k m)))
      ≡ first_of (find k acc) (only_up (ite (String_discrete k j) (some e) (find k m)))
only_up-some k j e acc m h = ground (arith, h)

fill_active-find :
    (f : Flags) (m acc : Map String Executor) (k : String)
    → f.is_proxy ≡ false
    → Keyed m
    → Distinct m
    → find k (fill_active f (values m) acc) ≡ first_of (find k acc) (only_up (find k m))
unfolding fill_active find
fill_active-find f [] acc k h a d = first_none (find k acc)
fill_active-find f ((j, e) ∷ m) acc k h a d =
    if_cases
      (λ n.
        find k (fill_active f (values m) n)
        ≡ first_of (find k acc) (only_up (ite (String_discrete k j) (some e) (find k m))))
      (has_status active e)
      (λ up.
        ap (λ n. find k (fill_active f (values m) n)) (entry_same f j e acc h a.0)
        ∙ fill_active-find f m (emplace j e acc) k h a.1 d.1
        ∙ find-emplace-first_of j k e acc (only_up (find k m))
        ∙ only_up-some k j e acc m up)
      (λ no. fill_active-find f m acc k h a.1 d.1 ∙ only_up-none k j e acc m no d.0)

Consistent-Keyed : (s : Scheduler) → Consistent s → Keyed s.all_exec_list
Consistent-Keyed s c = All-find (λ k e. addr_of e ≡ k) s.all_exec_list c.all_distinct c.keyed

has-only_up : (o : Option Executor) → is_some (only_up o) ≡ is_up o
has-only_up none = refl
has-only_up (some e) =
    if_cases (λ (x : Option Executor). is_some x ≡ has_status active e) (has_status active e)
      (λ t. sym t) (λ t. sym t)

-- A subscriber that is no proxy, after a message with all executors of a consistent scheduler, finds
-- under every address what the scheduler has there, has the same addresses in its active list, and has
-- the policies of the scheduler; the list of executors must not be empty.
pub read_message-replicates :
    (s : Scheduler) (sub : Suber) (k : String)
    → Consistent s
    → sub.flags.is_proxy ≡ false
    → 0 < size s.all_exec_list
    → (find k (read_message (values s.all_exec_list) s.policys sub).all_exec_list
        ≡ find k s.all_exec_list)
      × (has k (read_message (values s.all_exec_list) s.policys sub).active_exec_list
          ≡ has k s.active_exec_list)
      × ((read_message (values s.all_exec_list) s.policys sub).policys ≡ s.policys)
unfolding read_message set_policys fill_exec_map find
read_message-replicates s sub k c h n =
    if_cases
      (λ (t : Suber).
        (find k t.all_exec_list ≡ find k s.all_exec_list)
        × (has k t.active_exec_list ≡ has k s.active_exec_list)
        × (s.policys ≡ s.policys))
      (length (values s.all_exec_list) == 0)
      (λ e. absurd (ground (arith, e, n, length-values s.all_exec_list)))
      λ _. (
        fill_all-find sub.flags s.all_exec_list [] k h (Consistent-Keyed s c),
        ap is_some (
              fill_active-find sub.flags s.all_exec_list [] k h (Consistent-Keyed s c)
                c.all_distinct)
            ∙ has-only_up (find k s.all_exec_list)
            ∙ sym (c.in_step k),
        refl,
      )
