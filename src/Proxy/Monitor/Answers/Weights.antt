-- ===== src/Proxy/Monitor/Answers/Weights.antt =====
-- src/mimic_proxy.cpp: deal_monitor_config_scweight answers once.
use openstack_mimic_componen.Base.{
  suc, ◌≡◌, refl, sym, subst, ap, ◌∙◌, true, not, String, List, [], ◌∷◌, Option, none, some,
  if_cases, length, All, arith, is_some,
}
use openstack_mimic_componen.Base.Int.{ℤ, pos, eq_ℤ}
use openstack_mimic_componen.Map.{text_key, find, has}
use openstack_mimic_componen.Map.Laws.{find-update}
use openstack_mimic_componen.Proxy.Monitor.{
  Target, nowhere, update_scweight, invalid_manual, success, Desk, Libraries, ExecWeight, fits,
  weight_target, table_of, weight_query, weight_sql, set_weight, Turn, go_on, stop, undefined,
  weight_row, weight_at, weight_turn, exec_turn, scweight_each, tell, respond,
}
use openstack_mimic_componen.Proxy.Monitor.Answers.Once.{AnsweredOnce}

-- An executor of the request is read, has its row, and its statements fit.
abbrev pub Weighable : Libraries → Desk → ExecWeight → Type 0
Weighable l d e =
    (addr : String) × (weight : ℤ) × (e ≡ (some addr, some weight))
    × (has addr d.weights ≡ true)
    × ((ip port : String)
        → l.split addr ≡ some (ip, port)
        → (fits l 5096 (weight_query (table_of (weight_target port)) ip port) ≡ true)
          × (fits l 5096 (weight_sql (table_of (weight_target port)) ip port weight) ≡ true))

abbrev pub ExecsAreRead : Libraries → String → Desk → Type 0
ExecsAreRead l text d =
    (execs : List ExecWeight) × (l.execs text ≡ some execs) × All (Weighable l d) execs

-- The desk after a turn has the answers and the rows that it had.
abbrev Kept : Desk → Desk → Type 0
Kept d u =
    (u.answers ≡ d.answers) × ((k : String) → has k d.weights ≡ true → has k u.weights ≡ true)

-- A turn goes on with such a desk or ends the loop.
abbrev Fine : Desk → Turn → Type 0
Fine d (go_on u) = Kept d u
Fine d stop = Unit
Fine d undefined = ⊥

set_weight-Fine :
    (l : Libraries) (all : List ExecWeight) (addr sql : String) (weight old : ℤ) (t : Target)
    (d : Desk)
    → fits l 5096 sql ≡ true
    → Fine d (set_weight l all addr sql weight old t d)
unfolding set_weight
set_weight-Fine l all addr sql weight old t d fit =
    if_cases (Fine d) (eq_ℤ old weight) (λ _. (refl, λ k h. h))
      (λ _. rw fit (
        if_cases (λ (u : Desk). Kept d (tell t (update_scweight all) u)) (l.updates sql)
          (λ _.
            (refl, λ k h. ground (arith, find-update (pos 0) addr k (λ _. weight) d.weights, h)))
          (λ _. (refl, λ k h. h))))

weight_row-Fine :
    (d : Desk) (o : Option ℤ) (k : ℤ → Turn)
    → is_some o ≡ true
    → ((n : ℤ) → Fine d (k n))
    → Fine d (weight_row o k)
unfolding weight_row
weight_row-Fine d none k h f = cc
weight_row-Fine d (some n) k h f = f n

weight_at-Fine :
    (l : Libraries) (all : List ExecWeight) (addr ip port : String) (weight : ℤ) (t : Target)
    (d : Desk)
    → has addr d.weights ≡ true
    → fits l 5096 (weight_query (table_of t) ip port) ≡ true
    → fits l 5096 (weight_sql (table_of t) ip port weight) ≡ true
    → Fine d (weight_at l all addr ip port weight t d)
unfolding weight_at
weight_at-Fine l all addr ip port weight nowhere d h query sql = tt
weight_at-Fine l all addr ip port weight t d h query sql = rw query (
    if_cases (Fine d) (not l.reads) (λ _. tt)
      (λ _. weight_row-Fine d (find addr d.weights) _ h (λ old.
        set_weight-Fine l all addr (weight_sql (table_of t) ip port weight) weight old t d sql)))

weight_turn-Fine :
    (l : Libraries) (all : List ExecWeight) (addr : String) (o : Option (String × String))
    (weight : ℤ) (d : Desk)
    → has addr d.weights ≡ true
    → ((ip port : String)
        → o ≡ some (ip, port)
        → (fits l 5096 (weight_query (table_of (weight_target port)) ip port) ≡ true)
          × (fits l 5096 (weight_sql (table_of (weight_target port)) ip port weight) ≡ true))
    → Fine d (weight_turn l all addr o (some weight) d)
unfolding weight_turn
weight_turn-Fine l all addr none weight d h f = tt
weight_turn-Fine l all addr (some (ip, port)) weight d h f =
    weight_at-Fine l all addr ip port weight (weight_target port) d h (f ip port refl).0
      (f ip port refl).1

exec_turn-Fine :
    (l : Libraries) (all : List ExecWeight) (e : ExecWeight) (d : Desk)
    → Weighable l d e
    → Fine d (exec_turn l all e d)
unfolding exec_turn
exec_turn-Fine l all e d (addr, weight, p, h, f) =
    subst (λ x. Fine d (exec_turn l all x d)) (sym p)
      (weight_turn-Fine l all addr (l.split addr) weight d h f)

still_read :
    (l : Libraries) (execs : List ExecWeight) (d u : Desk)
    → Kept d u
    → All (Weighable l d) execs
    → All (Weighable l u) execs
still_read l [] d u k h = tt
still_read l (e ∷ execs) d u k ((addr, weight, p, row, f), h) =
    ((addr, weight, p, k.1 addr row, f), still_read l execs d u k h)

answered_after : (d u : Desk) (o : Option Desk) → Kept d u → AnsweredOnce u o → AnsweredOnce d o
answered_after d u o k (d', e, n) = (d', e, n ∙ ap (λ a. suc (length a)) k.0)

-- The rest of the loop, by what became of a turn.
after_turn :
    (d : Desk) (t : Turn) (rest : Desk → Option Desk)
    → Fine d t
    → ((u : Desk) → Kept d u → AnsweredOnce u (rest u))
    → AnsweredOnce d
        (elim t [ go_on u ↦ rest u | stop ↦ some (respond invalid_manual d) | undefined ↦ none ])
after_turn d (go_on u) rest fine next = answered_after d u (rest u) fine (next u fine)
after_turn d stop rest fine next = (respond invalid_manual d, refl, refl)
after_turn d undefined rest fine next = absurd fine

pub scweight_each-AnsweredOnce :
    (l : Libraries) (all execs : List ExecWeight) (d : Desk)
    → All (Weighable l d) execs
    → AnsweredOnce d (scweight_each l all execs d)
unfolding scweight_each
scweight_each-AnsweredOnce l all [] d h = (respond success d, refl, refl)
scweight_each-AnsweredOnce l all (e ∷ execs) d h =
    after_turn d (exec_turn l all e d) (scweight_each l all execs) (exec_turn-Fine l all e d h.0)
      (λ u k. scweight_each-AnsweredOnce l all execs u (still_read l execs d u k h.1))
