-- ===== src/Proxy/Judge/Total.antt =====
-- src/proxy_task.cpp: when timeOrWeightJudge has an answer.
use openstack_mimic_componen.Base.{
  ℕ, suc, ◌%◌, ◌≤◌, ◌<◌, ◌≡◌, refl, sym, subst, ap, true, String, [], ◌∷◌, Option, if_cases, ◌==◌,
  length, get_elem?, get_elem?_lt, length-filter-le, find?, is_some, includes, arith,
}
use native.Mathlib.Nat.{mod-lt}
use openstack_mimic_componen.Map.{Map, text_key, has, find, size, at, values, emplace}
use openstack_mimic_componen.Proxy.State.{JudgeData, Task}
use openstack_mimic_componen.Proxy.Judge.{
  least, with_value, from_exec, pick_among, by_uptime, pick_fewest, by_weight, by_time,
  time_or_weight_judge,
}

-- The executors of the two lists are the same and have all answered.
pub record HasAnswers (t : Task) : Type 0 where
  pub some_uptime : 0 < size t.uptimelist
  pub some_failcount : 0 < size t.failcount_list
  pub enough : size t.uptimelist ≤ size t.judge_data_list
  pub timed : (addr : String) → has addr t.failcount_list ≡ true → has addr t.uptimelist ≡ true
  pub answered :
      (addr : String)
      → has addr t.uptimelist ≡ true
      → is_some (find? (from_exec addr) (values t.judge_data_list)) ≡ true

-- What is in the part with one value is in the whole.
has-with_value :
    (n : ℕ) (l : Map String ℕ) (addr : String)
    → has addr (with_value n l) ≡ true
    → has addr l ≡ true
unfolding find
has-with_value n [] addr h = h
has-with_value n ((k, m) ∷ l) addr h = ground (arith, has-with_value n l addr)

first-has : (addr : String) (n : ℕ) (l : Map String ℕ) → has addr ((addr, n) ∷ l) ≡ true
unfolding find
first-has addr n l = ground arith

length-values : {V : Type 0} (m : Map String V) → length (values m) ≡ size m
length-values [] = refl
length-values (e ∷ m) = ap suc (length-values m)

nth_answer :
    (t : Task) (i : ℕ)
    → i < size t.judge_data_list
    → is_some (get_elem? (values t.judge_data_list) i) ≡ true
nth_answer t i h =
    let (d, e) =
      get_elem?_lt (values t.judge_data_list) i
        (omega (arith, h, length-values t.judge_data_list)) in
    ap is_some e

emplace_present :
    {V : Type 0} (k : String) (v : V) (m : Map String V) → has k m ≡ true → emplace k v m ≡ m
unfolding emplace
emplace_present k v m h = rw h refl

pick_among-some :
    (random : ℕ) (l : Map String ℕ) (t : Task)
    → HasAnswers t
    → ((addr : String) → has addr l ≡ true → has addr t.uptimelist ≡ true)
    → length l ≤ size t.uptimelist
    → is_some (pick_among random l t.judge_data_list) ≡ true
unfolding pick_among
pick_among-some random [] t a in_list short =
    nth_answer t 0 (omega (arith, a.some_uptime, a.enough))
pick_among-some random ((addr, n) ∷ []) t a in_list short =
    a.answered addr (in_list addr (first-has addr n []))
pick_among-some random (x ∷ y ∷ l) t a in_list short =
    let lt : random % length (x ∷ y ∷ l) < length (x ∷ y ∷ l) = mod-lt random (omega arith) in
    nth_answer t (random % length (x ∷ y ∷ l)) (omega (arith, short, lt, a.enough))

by_uptime-some :
    (random smallest : ℕ) (t : Task)
    → HasAnswers t
    → is_some (by_uptime random smallest t.uptimelist t.judge_data_list) ≡ true
by_uptime-some random smallest t a =
    pick_among-some random (with_value smallest t.uptimelist) t a
      (has-with_value smallest t.uptimelist) (length-filter-le (λ e. e.1 == smallest) t.uptimelist)

pick_fewest-some :
    (random : ℕ) (l : Map String ℕ) (t : Task)
    → HasAnswers t
    → ((addr : String) → has addr l ≡ true → has addr t.failcount_list ≡ true)
    → is_some (pick_fewest random l t.uptimelist t.judge_data_list) ≡ true
unfolding pick_fewest
pick_fewest-some random [] t a in_list = nth_answer t 0 (omega (arith, a.some_uptime, a.enough))
pick_fewest-some random ((addr, n) ∷ []) t a in_list =
    a.answered addr (a.timed addr (in_list addr (first-has addr n [])))
pick_fewest-some random ((addr, n) ∷ b ∷ l) t a in_list =
    let timed = a.timed addr (in_list addr (first-has addr n (b ∷ l))) in
    subst (λ u. is_some (by_uptime random (least (at 0 addr u) u) u t.judge_data_list) ≡ true)
      (sym (emplace_present addr 0 t.uptimelist timed))
      (by_uptime-some random (least (at 0 addr t.uptimelist) t.uptimelist) t a)

nonempty : (l : Map String ℕ) → 0 < size l → (e : String × ℕ) × (r : Map String ℕ) × (l ≡ e ∷ r)
nonempty [] h = elim h [ ]
nonempty (e ∷ r) h = (e, r, refl)

-- timeOrWeightJudge has an answer, whatever the rule and the random number are, when the executors in
-- its lists have all answered, the lists are not empty, there are no more uptimes than answers, and
-- every executor with a count of failures has an uptime.
pub time_or_weight_judge_total :
    (random : ℕ) (t : Task) → HasAnswers t → is_some (time_or_weight_judge random t) ≡ true
unfolding time_or_weight_judge
time_or_weight_judge_total random t a =
    if_cases (λ (o : Option JudgeData). is_some o ≡ true) (includes t.judge_rule "weight")
      (λ _.
        let ((addr, n), l, e) = nonempty t.failcount_list a.some_failcount in
        subst (λ m. is_some (by_weight random m t.uptimelist t.judge_data_list) ≡ true) (sym e)
          (pick_fewest-some random (with_value (least n ((addr, n) ∷ l)) ((addr, n) ∷ l)) t a
            (λ k h.
              subst (λ m. has k m ≡ true) (sym e)
                (has-with_value (least n ((addr, n) ∷ l)) ((addr, n) ∷ l) k h))))
      (λ _.
        let ((addr, n), l, e) = nonempty t.uptimelist a.some_uptime in
        subst (λ m. is_some (by_time random m t.judge_data_list) ≡ true) (sym e)
          (subst
            (λ m. is_some (by_uptime random (least n ((addr, n) ∷ l)) m t.judge_data_list) ≡ true) e
            (by_uptime-some random (least n ((addr, n) ∷ l)) t a)))
