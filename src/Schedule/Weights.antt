-- ===== src/Schedule/Weights.antt =====
-- src/mimic_schedule.cpp: policy_weight against the textbook choice by cumulated weights, and what
-- it does when a ready executor has weight 0.
use openstack_mimic_componen.Base.{
  ℕ, suc, ◌+◌, ◌-◌, ◌%◌, ◌≤◌, ◌<◌, ◌≡◌, refl, ap, ◌∙◌, Bool, true, false, ◌&&◌, ◌||◌, String, List,
  [], ◌∷◌, ◌++◌, Option, none, some, if◌then◌else◌, if_cases, arith, All, length, ◌==◌, ℕ_discrete,
  ltb, leb, find?,
}
use mathlib.Core.Option
use native.Mathlib.Nat.{mod-lt}
use openstack_mimic_componen.Map.{number_key, find, size, place, emplace}
use openstack_mimic_componen.Schedule.State.{
  Executor, Scheduler, Env, addr_of, after_read, seed_now,
}
use openstack_mimic_componen.Schedule.Policy.{
  Outcome, returned, swap_in, ready_execs, Ranges, weight_ranges, total_weight, in_range,
  choose_weighted, policy_weight, int_max,
}

-- The executor in whose share of the line the number `w` falls.
unfoldable pub pick_by_weight : List Executor → ℕ → Option Executor
pick_by_weight [] w = none
pick_by_weight (e ∷ es) w =
    let rest = pick_by_weight es (w - e.scweight) in if ltb w e.scweight then some e else rest

abbrev pub HasWeight : Executor → Type 0
HasWeight e = 0 < e.scweight

-- The ranges side by side.
line : List Executor → ℕ → Ranges
line [] start = []
line (e ∷ es) start = (start, (start + e.scweight, e)) ∷ line es (start + e.scweight)

abbrev Under : ℕ → Ranges → Type 0
Under start m = All (λ r. r.0 < start) m

place_last :
    (start : ℕ) (v : ℕ × Executor) (m : Ranges)
    → Under start m
    → emplace start v m ≡ m ++ ((start, v) ∷ [])
unfolding place find emplace
place_last start v [] u = refl
place_last start v ((j, w) ∷ m) u = ground (arith, place_last start v m u.1, u.0)

Under-append :
    (start n : ℕ) (v : ℕ × Executor) (m : Ranges)
    → 0 < n
    → Under start m
    → Under (start + n) (m ++ ((start, v) ∷ []))
Under-append start n v [] h u = (omega arith, tt)
Under-append start n v (r ∷ m) h u = (omega arith, Under-append start n v m h u.1)

append_cons :
    (m : Ranges) (r : ℕ × (ℕ × Executor)) (n : Ranges) → (m ++ (r ∷ [])) ++ n ≡ m ++ (r ∷ n)
append_cons [] r n = refl
append_cons (s ∷ m) r n = ap (◌∷◌ s) (append_cons m r n)

weight_ranges-line :
    (es : List Executor) (start : ℕ) (m : Ranges)
    → All HasWeight es
    → Under start m
    → weight_ranges es start m ≡ m ++ line es start
unfolding weight_ranges line
weight_ranges-line [] start [] p u = refl
weight_ranges-line [] start (r ∷ m) p u = ap (◌∷◌ r) (weight_ranges-line [] start m p u.1)
weight_ranges-line (e ∷ es) start m p u = rw (place_last start (start + e.scweight, e) m u) (
    weight_ranges-line es (start + e.scweight) _ p.1
      (Under-append start e.scweight (start + e.scweight, e) m p.0 u)
    ∙ append_cons m (start, (start + e.scweight, e)) (line es (start + e.scweight)))

abbrev exec_of : Option (ℕ × (ℕ × Executor)) → Option Executor
exec_of = Option.map (λ r. r.1.1)

in_range_first :
    (start w n : ℕ) → start ≤ w → (leb start w && ltb w (start + n)) ≡ ltb (w - start) n
in_range_first start w n h = ground arith

ltb-false : (w n : ℕ) → ltb w n ≡ false → n ≤ w
ltb-false w n h = ground arith

first_or_later :
    (b c : Bool) (r : ℕ × (ℕ × Executor)) (later : Option (ℕ × (ℕ × Executor)))
    (later' : Option Executor)
    → b ≡ c
    → (c ≡ false → exec_of later ≡ later')
    → exec_of (if b then some r else later) ≡ (if c then some r.1.1 else later')
first_or_later true true r later later' h f = refl
first_or_later false false r later later' h f = f refl
first_or_later true false r later later' h f = cc
first_or_later false true r later later' h f = cc

find?-line :
    (es : List Executor) (start w : ℕ)
    → start ≤ w
    → exec_of (find? (in_range w) (line es start)) ≡ pick_by_weight es (w - start)
unfolding line pick_by_weight
find?-line [] start w h = refl
find?-line (e ∷ es) start w h =
    first_or_later _ _ _ _ _ (in_range_first start w e.scweight h) (λ beyond.
      let le : e.scweight ≤ w - start = ltb-false (w - start) e.scweight beyond in
      find?-line es (start + e.scweight) w (omega (arith, le, h))
      ∙ ap (pick_by_weight es) (omega (arith, le, h)))

pick_some :
    (es : List Executor) (w : ℕ)
    → w < total_weight es
    → (e : Executor) × (pick_by_weight es w ≡ some e)
unfolding pick_by_weight total_weight
pick_some [] w h = elim h [ ]
pick_some (e ∷ es) w h =
    if_cases (λ o. (x : Executor) × (o ≡ some x)) (ltb w e.scweight) (λ _. (e, refl))
      (λ beyond.
        let le : e.scweight ≤ w = ltb-false w e.scweight beyond in
        pick_some es (w - e.scweight) (omega (arith, le, h)))

not_zero : (n : ℕ) → 0 < n → (n == 0) ≡ false
not_zero n h = ground arith

-- The sum of the weights is a positive int.
in_int : (n : ℕ) → 0 < n → n ≤ int_max → ((n == 0) || ltb int_max n) ≡ false
in_int n h k = ground arith

chosen :
    (o : Option (ℕ × (ℕ × Executor))) (x : Executor) (down : String) (seed : ℕ) (s : Scheduler)
    → exec_of o ≡ some x
    → elim o as (λ _. Outcome × Scheduler) [
      | none ↦ (returned "", s)
      | some (start, (end, e)) ↦ swap_in (addr_of e) down seed s
    ]
      ≡ swap_in (addr_of x) down seed s
chosen none x down seed s h = cc
chosen (some (start, (end, e))) x down seed s h =
    let same : e ≡ x = cc in ap (λ e. swap_in (addr_of e) down seed s) same

choose_weighted-line :
    (env : Env) (es : List Executor) (down : String) (s : Scheduler)
    → 0 < total_weight es
    → total_weight es ≤ int_max
    → (x : Executor) × (pick_by_weight es (env.rand (seed_now env s) % total_weight es) ≡ some x
        × choose_weighted env (line es 0) (total_weight es) down s
          ≡ swap_in (addr_of x) down (seed_now env s) (after_read s))
unfolding choose_weighted
choose_weighted-line env es down s h k =
    let w = env.rand (seed_now env s) % total_weight es in
    let picked = pick_some es w (mod-lt _ h) in
    (
      picked.0,
      (
        picked.1,
        rw (in_int (total_weight es) h k) (
            chosen (find? (in_range w) (line es 0)) picked.0 down (seed_now env s) (after_read s)
              (find?-line es 0 w (omega arith) ∙ ap (pick_by_weight es) (omega arith) ∙ picked.1)),
      ),
    )

total_pos : (es : List Executor) → All HasWeight es → 0 < length es → 0 < total_weight es
unfolding total_weight
total_pos [] p h = h
total_pos (e ∷ es) p h = let first : 0 < e.scweight = p.0 in omega (arith, first)

size-line : (es : List Executor) (start : ℕ) → size (line es start) ≡ length es
unfolding line
size-line [] start = refl
size-line (e ∷ es) start = ap suc (size-line es (start + e.scweight))

-- When an executor is ready, every ready one has a positive weight, and the sum of their weights is an
-- int, policy_weight brings up the
-- one in whose share of the line the random number falls, and takes `downAddr` down.
pub policy_weight-pick_by_weight :
    (env : Env) (down : String) (s : Scheduler)
    → 0 < length (ready_execs s)
    → All HasWeight (ready_execs s)
    → total_weight (ready_execs s) ≤ int_max
    → (x : Executor) × (pick_by_weight
            (ready_execs s)
            (env.rand (seed_now env s) % total_weight (ready_execs s))
          ≡ some x
        × policy_weight env down s ≡ swap_in (addr_of x) down (seed_now env s) (after_read s))
unfolding policy_weight
policy_weight-pick_by_weight env down s n p k =
    let es = ready_execs s in
    let picked = choose_weighted-line env es down s (total_pos es p n) k in
    let side_by_side : weight_ranges es 0 [] ≡ line es 0 = weight_ranges-line es 0 [] p tt in
    let some_left : (size (line es 0) == 0) ≡ false =
      rw (size-line es 0) (not_zero (length es) n) in
    (picked.0, (picked.1.0, rw side_by_side (rw some_left picked.1.1)))

shadowed :
    (first second : Executor)
    → first.scweight ≡ 0
    → weight_ranges (first ∷ (second ∷ [])) 0 [] ≡ (0, (0, first)) ∷ []
unfolding weight_ranges emplace find place ℕ_discrete
shadowed first second z = rw z refl

find?-in_range : (w : ℕ) (e : Executor) → find? (in_range w) ((0, (0, e)) ∷ []) ≡ none
find?-in_range w e = ground arith

choose_weighted_shadowed :
    (env : Env) (e : Executor) (total : ℕ) (down : String) (s : Scheduler)
    → 0 < total
    → total ≤ int_max
    → choose_weighted env ((0, (0, e)) ∷ []) total down s ≡ (returned "", after_read s)
unfolding choose_weighted
choose_weighted_shadowed env e total down s h k =
    rw (in_int total h k) (rw (find?-in_range (env.rand (seed_now env s) % total) e) refl)

-- With a ready executor of weight 0 before one of positive weight, which is an int, and no other, policy_weight
-- returns the empty address, whatever the random number is, and changes nothing but the time read:
-- nobody is brought up, and `downAddr` is not taken down.
pub policy_weight_zero :
    (env : Env) (down : String) (s : Scheduler) (first second : Executor)
    → ready_execs s ≡ first ∷ (second ∷ [])
    → first.scweight ≡ 0
    → 0 < second.scweight
    → second.scweight ≤ int_max
    → policy_weight env down s ≡ (returned "", after_read s)
unfolding policy_weight total_weight
policy_weight_zero env down s first second h z p k = rw h (
    rw (shadowed first second z)
      (choose_weighted_shadowed env first _ down s (omega (arith, p)) (omega (arith, k))))
