-- ===== src/Proxy/Judge/Places.antt =====
-- src/proxy_task.cpp: judgeData puts every answer into one group.
use openstack_mimic_componen.Base.{
  List, ◌++◌, All, ◌⊎◌, if◌then◌else◌, ℕ, ◌+◌, ◌≡◌, ◌≢◌, refl, sym, subst, ap, ◌∙◌, Bool, true,
  false, ◌&&◌, String, [], ◌∷◌, none, if_cases, ◌==◌, length, length-append, is_some, arith,
  Option-cases, inl, inr,
}
use openstack_mimic_componen.Map.{text_key, number_key, find, size, at, emplace, place, values}
use openstack_mimic_componen.Proxy.State.{JudgeData, null_data, Group, Groups, Records, Task}
use openstack_mimic_componen.Proxy.Compare.{Comparer, cmp_judge_data, error_reason}
use openstack_mimic_componen.Proxy.Judge.{
  compare_groups, place_answer, by_time_or_weight, by_rules, majority, time_or_weight_judge,
  judge_data,
}

-- The keys of all groups, counted.
unfoldable pub grouped : Groups → ℕ
grouped [] = 0
grouped ((p, (d, keys)) ∷ groups) = length keys + grouped groups

grouped-place : (p : ℕ) (g : Group) (m : Groups) → grouped (place p g m) ≡ length g.1 + grouped m
unfolding grouped place
grouped-place p g [] = refl
grouped-place p g ((q, h) ∷ m) = ground (arith, grouped-place p g m)

grouped-emplace :
    (p : ℕ) (g : Group) (m : Groups)
    → find p m ≡ none
    → grouped (emplace p g m) ≡ length g.1 + grouped m
unfolding emplace
grouped-emplace p g m h = rw h (grouped-place p g m)

-- What the walk through the groups does: one of them grows by one key, or all stay as they are.
record Walked (groups : Groups) (r : Bool × (Groups × Records)) : Type 0 where
  grown : r.0 ≡ true → grouped r.1.0 ≡ grouped groups + 1
  kept : r.0 ≡ false → r.1.0 ≡ groups

compare_groups-Walked :
    (c : Comparer) (current : JudgeData) (key : String) (groups : Groups) (records : Records)
    → Walked groups (compare_groups c current key groups records)
unfolding compare_groups grouped
compare_groups-Walked c current key [] records = record { grown = λ e. cc; kept = λ e. refl }
compare_groups-Walked c current key ((p, (d, keys)) ∷ groups) records =
    let (same, seen) = cmp_judge_data c d current records in
    let w = compare_groups-Walked c current key groups seen in
    if_cases (Walked ((p, (d, keys)) ∷ groups)) same
      (λ _. record { grown = λ _. omega (arith, length-append keys (key ∷ [])); kept = λ e. cc })
      (λ _. record {
        grown = λ e. omega (arith, w.grown e);
        kept = λ e. ap (◌∷◌ (p, (d, keys))) (w.kept e);
      })

find-after_walk :
    (c : Comparer) (current : JudgeData) (key : String) (p : ℕ) (groups : Groups)
    (records : Records)
    → (compare_groups c current key groups records).0 ≡ false
    → find p groups ≡ none
    → find p (compare_groups c current key groups records).1.0 ≡ none
find-after_walk c current key p groups records e h =
    subst (λ m. find p m ≡ none) (sym ((compare_groups-Walked c current key groups records).kept e))
      h

place_answer-grouped :
    (c : Comparer) (key : String) (t : Task)
    → find (at null_data key t.judge_data_list).ptr t.judge_group ≡ none
    → grouped (place_answer c key t).judge_group ≡ grouped t.judge_group + 1
unfolding place_answer
place_answer-grouped c key t h =
    let current = at null_data key t.judge_data_list in
    let w = compare_groups-Walked c current key t.judge_group t.cmp_ret_record in
    if_cases (λ (u : Task). grouped u.judge_group ≡ grouped t.judge_group + 1)
      (compare_groups c current key t.judge_group t.cmp_ret_record).0 w.grown
      (λ e.
        let placed =
          grouped-emplace current.ptr (current, key ∷ []) _
            (find-after_walk c current key current.ptr t.judge_group t.cmp_ret_record e h) in
        omega (arith, placed, ap grouped (w.kept e)))

-- The two answers agree, or differ, whatever differences are on record.
abbrev pub IsSame : Comparer → JudgeData → JudgeData → Type 0
IsSame c d e = (r : Records) → (cmp_judge_data c d e r).0 ≡ true

abbrev pub Differs : Comparer → JudgeData → JudgeData → Type 0
Differs c d e = (r : Records) → (cmp_judge_data c d e r).0 ≡ false

cmp_judge_data_any :
    (c : Comparer) (d e : JudgeData) (q r : Records)
    → (cmp_judge_data c d e q).0 ≡ (cmp_judge_data c d e r).0
unfolding cmp_judge_data
cmp_judge_data_any c d e q r = elim (Option-cases (error_reason c d e)) [
  | inl n ↦ rw (n, cmp_judge_data) refl
  | inr (reason, n) ↦ rw (n, cmp_judge_data) refl
]

-- The key joins the first group whose answer agrees.
abbrev pub Joins : Comparer → JudgeData → String → Groups → Groups → Type 0
Joins c current key groups grown =
    (before : Groups) × (p : ℕ) × (d : JudgeData) × (keys : List String) × (after : Groups)
    × (groups ≡ before ++ ((p, (d, keys)) ∷ after))
    × (grown ≡ before ++ ((p, (d, keys ++ (key ∷ []))) ∷ after))
    × All (λ g. Differs c g.1.0 current) before
    × IsSame c d current

-- The answer differs from that of every group, and has a new one.
abbrev pub Opens : Comparer → JudgeData → String → Groups → Groups → Type 0
Opens c current key groups grown =
    All (λ g. Differs c g.1.0 current) groups
    × (grown ≡ emplace current.ptr (current, key ∷ []) groups)

abbrev Walks : Comparer → JudgeData → String → Groups → Bool × (Groups × Records) → Type 0
Walks c current key groups (true, (grown, r)) = Joins c current key groups grown
Walks c current key groups (false, (same, r)) =
    All (λ g. Differs c g.1.0 current) groups × (same ≡ groups)

Walks-cons :
    (c : Comparer) (current d : JudgeData) (key : String) (p : ℕ) (keys : List String)
    (groups : Groups) (r : Bool × (Groups × Records))
    → Differs c d current
    → Walks c current key groups r
    → Walks c current key ((p, (d, keys)) ∷ groups) (r.0, ((p, (d, keys)) ∷ r.1.0, r.1.1))
Walks-cons c current d key p keys groups (true, (grown, r)) n
      (before, q, e, ks, after, a, b, f, s) =
    (
      (p, (d, keys)) ∷ before,
      q,
      e,
      ks,
      after,
      ap (◌∷◌ (p, (d, keys))) a,
      ap (◌∷◌ (p, (d, keys))) b,
      (n, f),
      s,
    )
Walks-cons c current d key p keys groups (false, (same, r)) n (f, e) =
    ((n, f), ap (◌∷◌ (p, (d, keys))) e)

compare_groups-Walks :
    (c : Comparer) (current : JudgeData) (key : String) (groups : Groups) (records : Records)
    → Walks c current key groups (compare_groups c current key groups records)
unfolding compare_groups
compare_groups-Walks c current key [] records = (tt, refl)
compare_groups-Walks c current key ((p, (d, keys)) ∷ groups) records =
    let (same, seen) = cmp_judge_data c d current records in
    if_cases (Walks c current key ((p, (d, keys)) ∷ groups)) same
      (λ e.
        ([], p, d, keys, groups, refl, refl, tt, λ r. cmp_judge_data_any c d current r records ∙ e))
      (λ e.
        Walks-cons c current d key p keys groups _
          (λ r. cmp_judge_data_any c d current r records ∙ e)
          (compare_groups-Walks c current key groups seen))

abbrev pub Placed : Comparer → JudgeData → String → Groups → Groups → Type 0
Placed c current key groups grown =
    Joins c current key groups grown ⊎ Opens c current key groups grown

Walks-Placed :
    (c : Comparer) (key : String) (t : Task) (r : Bool × (Groups × Records))
    → Walks c (at null_data key t.judge_data_list) key t.judge_group r
    → Placed c (at null_data key t.judge_data_list) key t.judge_group (
        if r.0
        then r.1.0
        else emplace
            (at null_data key t.judge_data_list).ptr
            (at null_data key t.judge_data_list, key ∷ [])
            r.1.0)
Walks-Placed c key t (true, (grown, r)) w = inl w
Walks-Placed c key t (false, (same, r)) (f, e) = inr (
  f,
  ap
      (emplace (at null_data key t.judge_data_list).ptr
        (at null_data key t.judge_data_list, key ∷ []))
      e,
)

place_answer-Placed :
    (c : Comparer) (key : String) (t : Task)
    → Placed c
        (at null_data key t.judge_data_list)
        key
        t.judge_group
        (place_answer c key t).judge_group
unfolding place_answer
place_answer-Placed c key t =
    let current = at null_data key t.judge_data_list in
    let r = compare_groups c current key t.judge_group t.cmp_ret_record in
    let P = Placed c current key t.judge_group in
    let placed =
      Walks-Placed c key t r (compare_groups-Walks c current key t.judge_group t.cmp_ret_record) in
    let grown = emplace current.ptr (current, key ∷ []) r.1.0 in
    if_cases (λ (u : Task). P u.judge_group) r.0
      (λ e. subst (λ b. P (if b then r.1.0 else grown)) e placed)
      (λ e. subst (λ b. P (if b then r.1.0 else grown)) e placed)

by_rules-grouped : (random : ℕ) (t : Task) → (by_rules random t).1.judge_group ≡ t.judge_group
unfolding by_rules by_time_or_weight
by_rules-grouped random t =
    if_cases (λ (r : ℕ × Task). r.1.judge_group ≡ t.judge_group) (is_some t.judge_result)
      (λ _. refl)
      λ _.
        elim (Option-cases (
          majority (length t.addr_list) (size t.judge_data_list) (values t.judge_group)
            (values t.judge_group))) [
              | inr (d, e) ↦ rw e refl
              | inl e ↦ rw e (
                  if_cases (λ (r : ℕ × Task). r.1.judge_group ≡ t.judge_group)
                    (size t.judge_data_list == length t.addr_list)
                    (λ _. elim (Option-cases (time_or_weight_judge random t)) [
                      | inl f ↦ rw f refl
                      | inr (d, f) ↦ rw f refl
                    ])
                    (λ _. refl))
            ]

-- judgeData, for several executors, puts a new answer into exactly one group: its key goes to the end
-- of the first group whose answer agrees with it, and every other group stays as it is; when the
-- answers of all groups differ from it, it opens a group of its own. Before the first answer there is
-- no group, and the address of a new answer is that of no group; all groups together get one key more.
pub judge_data-grouped :
    (c : Comparer) (random : ℕ) (key : String) (t : Task)
    → length t.addr_list ≢ 1
    → (size t.judge_data_list ≡ 1 → t.judge_group ≡ [])
    → find (at null_data key t.judge_data_list).ptr t.judge_group ≡ none
    → Placed c
        (at null_data key t.judge_data_list)
        key
        t.judge_group
        (judge_data c random key t).1.judge_group
      × (grouped (judge_data c random key t).1.judge_group ≡ grouped t.judge_group + 1)
unfolding judge_data
judge_data-grouped c random key t n first h =
    let current = at null_data key t.judge_data_list in
    let P : ℕ × Task → Type 0 = λ r.
      Placed c current key t.judge_group r.1.judge_group
      × (grouped r.1.judge_group ≡ grouped t.judge_group + 1) in
    if_cases P ((size t.judge_data_list == 1) && (length t.addr_list == 1))
      (λ e. absurd (n (ground (arith, e))))
      λ _.
        if_cases P (size t.judge_data_list == 1)
          (λ e.
            let empty = first (ground (arith, e)) in
            (
              inr (subst (λ m. All (λ g. Differs c g.1.0 current) m) (sym empty) tt, refl),
              omega (arith, grouped-emplace current.ptr (current, key ∷ []) t.judge_group h),
            ))
          λ _.
            let same = by_rules-grouped random (place_answer c key t) in
            (
              subst (Placed c current key t.judge_group) (sym same) (place_answer-Placed c key t),
              ap grouped same ∙ place_answer-grouped c key t h,
            )
