-- ===== src/Schedule/Picks.antt =====
-- src/mimic_schedule.cpp: what the three policies have in common, whichever executor they choose.
use openstack_mimic_componen.Base.{
  ltb, ◌||◌, ℕ, ◌+◌, ◌%◌, ◌≡◌, refl, inl, inr, Bool, true, String, List, [], ◌∷◌, some, arith,
  Bool-cases, Option-cases, All, filter, find?, length, ◌==◌, get_elem?, get_elem?-All,
}
use openstack_mimic_componen.Base.Int.{eq_ℤ_iff}
use openstack_mimic_componen.Map.{
  Map, text_key, number_key, find, has, size, emplace, values, place,
}
use openstack_mimic_componen.Map.Order.{All-find}
use openstack_mimic_componen.Schedule.State.{
  Executor, Scheduler, Env, addr_of, has_status, online, seed_now, after_read,
}
use openstack_mimic_componen.Schedule.Policy.{
  Outcome, returned, thrown, undefined, swap_in, ready_execs, choose_random, policy_all_random,
  Ranges, weight_ranges, in_range, choose_weighted, policy_weight, int_max,
}
use openstack_mimic_componen.Schedule.Lists.{Consistent}

-- An executor that may be brought up: it is in the list under its address, with status online.
abbrev pub Ready : Scheduler → Executor → Type 0
Ready s e = (find (addr_of e) s.all_exec_list ≡ some e) × (e.status ≡ online)

-- The outcomes of a policy: it swaps a ready executor in for `down`, or leaves the lists alone.
pub data Picks (down : String) (s : Scheduler) : Outcome × Scheduler → Type 0 where
  swapped :
      (e : Executor) (seed : ℕ) (r : Outcome × Scheduler)
      → Ready s e
      → r ≡ swap_in (addr_of e) down seed (after_read s)
      → Picks down s r
  refused : (why : String) (r : Outcome × Scheduler) → r ≡ (thrown why, s) → Picks down s r
  missed : (r : Outcome × Scheduler) → r ≡ (returned "", after_read s) → Picks down s r
  died : (r : Outcome × Scheduler) → r ≡ (undefined, s) → Picks down s r

filter-All {ℓ} :
    {A : Type ℓ} (P Q : A → Type 0) (p : A → Bool) (xs : List A)
    → ((a : A) → p a ≡ true → Q a → P a)
    → All Q xs
    → All P (filter p xs)
filter-All P Q p [] h q = tt
filter-All P Q p (x ∷ xs) h q = elim (Bool-cases (p x)) [
  | inl e ↦ rw e (h x e q.0, filter-All P Q p xs h q.1)
  | inr e ↦ rw e (filter-All P Q p xs h q.1)
]

abbrev Listed : Scheduler → Executor → Type 0
Listed s e = find (addr_of e) s.all_exec_list ≡ some e

values-All :
    {V : Type 0} (P : V → Type 0) (m : Map String V) → All (λ e. P e.1) m → All P (values m)
values-All P [] h = tt
values-All P (e ∷ m) h = (h.0, values-All P m h.1)

pub Listed-values : (s : Scheduler) → Consistent s → All (Listed s) (values s.all_exec_list)
Listed-values s c =
    values-All (Listed s) s.all_exec_list
      (All-find (λ _ e. Listed s e) s.all_exec_list c.all_distinct λ k e h. rw (c.keyed k e h) h)

pub ready_execs-All : (s : Scheduler) → Consistent s → All (Ready s) (ready_execs s)
ready_execs-All s c =
    filter-All (Ready s) (Listed s) (has_status online) (values s.all_exec_list)
      (λ e h l. (l, (eq_ℤ_iff e.status online).0 h)) (Listed-values s c)

pub choose_random-Picks :
    (env : Env) (execs : List Executor) (down : String) (s : Scheduler)
    → All (Ready s) execs
    → Picks down s (choose_random env execs down s)
unfolding choose_random
choose_random-Picks env execs down s h =
    elim (Option-cases (get_elem? execs (env.rand (seed_now env s) % length execs))) [
      | inl e ↦ rw (e, choose_random) (died _ refl)
      | inr (a, e) ↦
          rw (e, choose_random)
            (swapped a (seed_now env s) _ (get_elem?-All (Ready s) execs _ a h e) refl)
    ]

pub policy_all_random-Picks :
    (env : Env) (down : String) (s : Scheduler)
    → Consistent s
    → Picks down s (policy_all_random env down s)
unfolding policy_all_random
policy_all_random-Picks env down s c = elim (Bool-cases (length (ready_execs s) == 0)) [
  | inl e ↦ rw e (refused _ _ refl)
  | inr e ↦ rw e (choose_random-Picks env (ready_execs s) down s (ready_execs-All s c))
]

-- Every range belongs to an executor of the list.
abbrev RangesOf : (Executor → Type 0) → Ranges → Type 0
RangesOf P = All (λ r. P r.1.1)

place-RangesOf :
    (P : Executor → Type 0) (k : ℕ) (v : ℕ × Executor) (m : Ranges)
    → P v.1
    → RangesOf P m
    → RangesOf P (place k v m)
unfolding place
place-RangesOf P k v [] p h = (p, tt)
place-RangesOf P k v ((j, w) ∷ m) p h = ground (arith, place-RangesOf P k v m p h.1)

emplace-RangesOf :
    (P : Executor → Type 0) (k : ℕ) (v : ℕ × Executor) (m : Ranges)
    → P v.1
    → RangesOf P m
    → RangesOf P (emplace k v m)
unfolding emplace
emplace-RangesOf P k v m p h = elim (Bool-cases (has k m)) [
  | inl e ↦ rw e h
  | inr e ↦ rw e (place-RangesOf P k v m p h)
]

weight_ranges-RangesOf :
    (P : Executor → Type 0) (es : List Executor) (start : ℕ) (m : Ranges)
    → All P es
    → RangesOf P m
    → RangesOf P (weight_ranges es start m)
unfolding weight_ranges
weight_ranges-RangesOf P [] start m p h = h
weight_ranges-RangesOf P (e ∷ es) start m p h =
    weight_ranges-RangesOf P es _ _ p.1 (emplace-RangesOf P start (start + e.scweight, e) m p.0 h)

pub find?-All {ℓ} :
    {A : Type ℓ} (P : A → Type 0) (p : A → Bool) (xs : List A) (a : A)
    → All P xs
    → find? p xs ≡ some a
    → P a × (p a ≡ true)
find?-All P p [] a h e = cc
find?-All P p (x ∷ xs) a h e = ground (arith, h.0, find?-All P p xs a h.1)

choose_weighted-Picks :
    (env : Env) (ranges : Ranges) (total : ℕ) (down : String) (s : Scheduler)
    → RangesOf (Ready s) ranges
    → Picks down s (choose_weighted env ranges total down s)
unfolding choose_weighted
choose_weighted-Picks env ranges total down s h =
    elim (Bool-cases ((total == 0) || ltb int_max total)) [
      | inl z ↦ rw z (died _ refl)
      | inr z ↦
          rw z (elim (Option-cases (find? (in_range (env.rand (seed_now env s) % total)) ranges)) [
            | inl e ↦ rw (e, choose_weighted) (missed _ refl)
            | inr (r, e) ↦
                rw (e, choose_weighted)
                  (swapped r.1.1 (seed_now env s) _
                    (find?-All (λ t. Ready s t.1.1) _ ranges r h e).0 refl)
          ])
    ]

pub policy_weight-Picks :
    (env : Env) (down : String) (s : Scheduler)
    → Consistent s
    → Picks down s (policy_weight env down s)
unfolding policy_weight
policy_weight-Picks env down s c =
    elim (Bool-cases (size (weight_ranges (ready_execs s) 0 []) == 0)) [
      | inl e ↦ rw e (refused _ _ refl)
      | inr e ↦ rw e (
          choose_weighted-Picks env _ _ down s
            (weight_ranges-RangesOf (Ready s) (ready_execs s) 0 [] (ready_execs-All s c) tt))
    ]
