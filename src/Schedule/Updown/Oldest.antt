-- ===== src/Schedule/Updown/Oldest.antt =====
-- src/mimic_schedule.cpp: which executor execAtuoSchedule replaces.
use openstack_mimic_componen.Base.{
  ℕ, zero, suc, ◌≤◌, ◌<◌, ◌≡◌, ◌⊎◌, inl, inr, refl, sym, subst, ap, ◌∙◌, Bool, true, false,
  false≢true, ==_iff, String, [], ◌∷◌, Option, none, some, if◌then◌else◌, if_cases, Option-cases,
  Bool-cases, is_some, All, find?, get_elem?, leb, ◌==◌, ◌||◌, arith,
}
use openstack_mimic_componen.Map.{Map, values, size}
use openstack_mimic_componen.Schedule.State.{Executor, Scheduler, Env}
use openstack_mimic_componen.Schedule.Updown.{min_time, exec_atuo_schedule, do_updown}

abbrev Active : Type 0
Active = Map String Executor

abbrev pub HasTime : String × Executor → Type 0
HasTime r = 0 < r.1.active_time

abbrev at_time : ℕ → String × Executor → Bool
at_time n r = r.1.active_time == n

-- The time that the loop keeps after one executor.
abbrev next_time : ℕ → ℕ → ℕ
next_time m t = if m == 0 then t else if leb t m then t else m

next_time_min :
    (m t : ℕ)
    → 0 < m
    → 0 < t
    → (next_time m t ≤ m)
      × (next_time m t ≤ t)
      × (0 < next_time m t)
      × ((next_time m t ≡ m) ⊎ (next_time m t ≡ t))
next_time_min m t p q = ground arith

min_time_low :
    (m : ℕ) (l : Active)
    → 0 < m
    → All HasTime l
    → (min_time m (values l) ≤ m) × All (λ r. min_time m (values l) ≤ r.1.active_time) l
unfolding min_time
min_time_low m [] p h = (omega arith, tt)
min_time_low m (r ∷ l) p h =
    let (le, lt, pos, which) = next_time_min m r.1.active_time p h.0 in
    let (low, all) = min_time_low (next_time m r.1.active_time) l pos h.1 in
    (omega (arith, low, le), (omega (arith, low, lt), all))

found_later :
    (n : ℕ) (r : String × Executor) (l : Active)
    → is_some (find? (at_time n) l) ≡ true
    → is_some (find? (at_time n) (r ∷ l)) ≡ true
found_later n r l h =
    if_cases (λ (o : Option (String × Executor)). is_some o ≡ true) (at_time n r) (λ _. refl) λ _. h

found_here :
    (n : ℕ) (r : String × Executor) (l : Active)
    → n ≡ r.1.active_time
    → is_some (find? (at_time n) (r ∷ l)) ≡ true
found_here n r l h =
    if_cases (λ (o : Option (String × Executor)). is_some o ≡ true) (at_time n r) (λ _. refl)
      λ no. absurd (ground (arith, no, h))

-- The least time is the one given or that of an executor.
min_time_attained :
    (m : ℕ) (l : Active)
    → 0 < m
    → All HasTime l
    → (min_time m (values l) ≡ m) ⊎ (is_some (find? (at_time (min_time m (values l))) l) ≡ true)
unfolding min_time
min_time_attained m [] p h = inl refl
min_time_attained m (r ∷ l) p h =
    let (le, lt, pos, which) = next_time_min m r.1.active_time p h.0 in
    elim (min_time_attained (next_time m r.1.active_time) l pos h.1) [
      | inr later ↦ inr (found_later _ r l later)
      | inl same ↦ elim which [
        | inl kept ↦ inl (same ∙ kept)
        | inr taken ↦ inr (found_here _ r l (same ∙ taken))
      ]
    ]

oldest_found :
    (l : Active)
    → 0 < size l
    → All HasTime l
    → is_some (find? (at_time (min_time 0 (values l))) l) ≡ true
unfolding min_time
oldest_found [] p h = elim p [ ]
oldest_found (r ∷ l) p h = elim (min_time_attained r.1.active_time l h.0 h.1) [
  | inl same ↦ found_here _ r l same
  | inr later ↦ found_later _ r l later
]

oldest_low : (l : Active) → All HasTime l → All (λ r. min_time 0 (values l) ≤ r.1.active_time) l
unfolding min_time
oldest_low [] h = tt
oldest_low (r ∷ l) h = min_time_low r.1.active_time l h.0 h.1

-- What a search finds is in the list and passes the test.
pub find?-found :
    (p : String × Executor → Bool) (l : Active) (r : String × Executor)
    → find? p l ≡ some r
    → (i : ℕ) × (get_elem? l i ≡ some r) × (p r ≡ true)
find?-found p [] r h = cc
find?-found p (x ∷ l) r h = elim (Bool-cases (p x)) [
  | inl e ↦
      let same : x ≡ r = ground (arith, e, h) in
      (zero, ap some same, subst (λ y. p y ≡ true) same e)
  | inr e ↦ let (i, q, t) = find?-found p l r (ground (arith, e, h)) in (suc i, q, t)
]

-- After the first start, with active executors that all have a time of activation, execAtuoSchedule
-- runs doUpdown for an active executor that has been active at least as long as every other.
pub exec_atuo_schedule_oldest :
    (env : Env) (s : Scheduler)
    → s.is_first_start ≡ false
    → 0 < size s.active_exec_list
    → All HasTime s.active_exec_list
    → (i : ℕ) × (r : String × Executor) × (get_elem? s.active_exec_list i ≡ some r)
      × All (λ q. r.1.active_time ≤ q.1.active_time) s.active_exec_list
      × (exec_atuo_schedule env s ≡ do_updown env r.0 "Schedule" s)
unfolding exec_atuo_schedule
exec_atuo_schedule_oldest env s f n h =
    let l = s.active_exec_list in
    elim (Option-cases (find? (at_time (min_time 0 (values l))) l)) [
      | inl e ↦ absurd (false≢true (sym (ap is_some e) ∙ oldest_found l n h))
      | inr (r, e) ↦
          let (i, q, t) = find?-found (at_time (min_time 0 (values l))) l r e in
          let same : r.1.active_time ≡ min_time 0 (values l) = (==_iff _ _).0 t in
          (
            i,
            r,
            q,
            subst (λ m. All (λ q. m ≤ q.1.active_time) l) (sym same) (oldest_low l h),
            if_cases (λ u. u ≡ do_updown env r.0 "Schedule" s) (s.is_first_start || (size l == 0))
                (λ stop. absurd (ground (arith, stop, f, n)))
                λ _.
                  ap
                    (λ (o : Option (String × Executor)). elim o [
                      | none ↦ s
                      | some (addr, x) ↦ do_updown env addr "Schedule" s
                    ])
                    e,
          )
    ]
