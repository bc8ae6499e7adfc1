-- ===== src/Proxy/Judge/Rules.antt =====
-- src/proxy_task.cpp: which answer the majority rule gives.
use openstack_mimic_componen.Base.{
  ◌<◌, Bool, false, none, ◌++◌, All, find?, subst, ℕ, zero, suc, ◌+◌, ◌*◌, ap, Option, ◌≤◌, ◌≡◌,
  ◌≢◌, ◌⊎◌, inl, inr, refl, sym, ◌∙◌, false≢true, Option-cases, true, List, [], ◌∷◌, some, if_cases,
  leb, ◌==◌, length, get_elem?, is_some, not, arith,
}
use openstack_mimic_componen.Proxy.State.{JudgeData, Group}
use openstack_mimic_componen.Proxy.Judge.{half, not_504, is_ok, instead, or_else, majority}

-- `d` is the answer of the first group that is `P`.
abbrev pub FirstOf : (Group → Type 0) → List Group → JudgeData → Type 0
FirstOf P groups d =
    (before : List Group) × (g : Group) × (after : List Group) × (groups ≡ before ++ (g ∷ after))
    × All (λ h. ¬ P h) before
    × P g
    × (d ≡ g.0)

abbrev pub IsSuccess : Group → Type 0
IsSuccess g = (200 ≤ g.0.resp_status) × (g.0.resp_status < 300)

abbrev pub IsOther : Group → Type 0
IsOther g = g.0.resp_status ≢ 504

-- What is given in place of the 504 `own`.
abbrev pub StandsIn : List Group → JudgeData → JudgeData → Type 0
StandsIn all own d =
    FirstOf IsSuccess all d
    ⊎ (All (λ h. ¬ IsSuccess h) all
        × (FirstOf IsOther all d ⊎ (All (λ h. ¬ IsOther h) all × (d ≡ own))))

-- The answer `d` is that of the group number `i`, which is large enough; or that group's is a 504, all
-- answers are in, and `d` is what is given instead.
abbrev pub MajorityOf : (exec_num answers : ℕ) → List Group → JudgeData → Group → Type 0
MajorityOf exec_num answers all d g =
    (exec_num ≤ 2 * length g.1)
    × (((g.0.resp_status ≢ 504) × (d ≡ g.0))
        ⊎ ((g.0.resp_status ≡ 504) × (answers ≡ exec_num) × StandsIn all g.0 d))

some_same {ℓ} : {A : Type ℓ} {a b : A} → some a ≡ some b → b ≡ a
some_same e = cc

FirstOf-cons :
    (P : Group → Type 0) (h : Group) (groups : List Group) (d : JudgeData)
    → ¬ P h
    → FirstOf P groups d
    → FirstOf P (h ∷ groups) d
FirstOf-cons P h groups d n (before, g, after, e, none_before, p, q) =
    (h ∷ before, g, after, ap (◌∷◌ h) e, (n, none_before), p, q)

module _ (test : Group → Bool) (P : Group → Type 0) (sound : (g : Group) → test g ≡ true → P g)
    (complete : (g : Group) → test g ≡ false → ¬ P g) where
  find?-FirstOf :
      (groups : List Group) (g : Group) → find? test groups ≡ some g → FirstOf P groups g.0
  find?-FirstOf [] g e = cc
  find?-FirstOf (h ∷ groups) g e =
      if_cases (λ o. o ≡ some g → FirstOf P (h ∷ groups) g.0) (test h)
        (λ t e'. ([], h, groups, refl, tt, sound h t, ap (λ (x : Group). x.0) (some_same e')))
        (λ f e'. FirstOf-cons P h groups g.0 (complete h f) (find?-FirstOf groups g e')) e

  find?-none : (groups : List Group) → find? test groups ≡ none → All (λ h. ¬ P h) groups
  find?-none [] e = tt
  find?-none (h ∷ groups) e =
      if_cases (λ o. o ≡ none → All (λ h. ¬ P h) (h ∷ groups)) (test h)
        (λ t e'. absurd (false≢true (sym (ap is_some e'))))
        (λ f e'. (complete h f, find?-none groups e')) e

is_ok_sound : (g : Group) → is_ok g ≡ true → IsSuccess g
is_ok_sound g e = ground (arith, e)

is_ok_complete : (g : Group) → is_ok g ≡ false → ¬ IsSuccess g
is_ok_complete g e (a, b) = ground (arith, e, a, b)

not_504_sound : (g : Group) → not_504 g ≡ true → IsOther g
not_504_sound g e = ground (arith, e)

not_504_complete : (g : Group) → not_504 g ≡ false → ¬ IsOther g
not_504_complete g e n = n (ground (arith, e))

or_else-instead :
    (all : List Group) (own : JudgeData) → StandsIn all own (or_else own (instead all))
unfolding instead
or_else-instead all own = elim (Option-cases (find? is_ok all)) [
  | inr (g, e) ↦
      rw (e, instead) (inl (find?-FirstOf is_ok IsSuccess is_ok_sound is_ok_complete all g e))
  | inl e ↦
      let failed = find?-none is_ok IsSuccess is_ok_sound is_ok_complete all e in
      elim (Option-cases (find? not_504 all)) [
        | inr (g, f) ↦
            rw (e, instead, f)
              (inr (
                failed,
                inl (find?-FirstOf not_504 IsOther not_504_sound not_504_complete all g f),
              ))
        | inl f ↦
            rw (e, instead, f)
              (inr (
                failed,
                inr (find?-none not_504 IsOther not_504_sound not_504_complete all f, refl),
              ))
      ]
]

half_le : (n k : ℕ) → leb (half n) k ≡ true → n ≤ 2 * k
half_le n k h = ground arith

abbrev pub Found : (exec_num answers : ℕ) → (all groups : List Group) → JudgeData → Type 0
Found exec_num answers all groups d =
    (i : ℕ) × (g : Group) × (get_elem? groups i ≡ some g) × MajorityOf exec_num answers all d g

further :
    (exec_num answers : ℕ) (all groups : List Group) (d : JudgeData) (g : Group)
    → Found exec_num answers all groups d
    → Found exec_num answers all (g ∷ groups) d
further exec_num answers all groups d g (i, k, e, m) = (suc i, k, e, m)

-- An answer that the majority rule gives belongs to a group with at least half of the executors. It is
-- the first answer of that group, unless that is a 504: then every executor has answered, and it is
-- the first answer with a status of 2xx, or else the first but 504, or else the 504 itself.
pub majority_group :
    (exec_num answers : ℕ) (all groups : List Group) (d : JudgeData)
    → majority exec_num answers all groups ≡ some d
    → Found exec_num answers all groups d
unfolding majority
majority_group exec_num answers all [] d h = cc
majority_group exec_num answers all (g ∷ groups) d h =
    let later : majority exec_num answers all groups ≡ some d
        → Found exec_num answers all (g ∷ groups) d =
      λ e.
        further exec_num answers all groups d g (majority_group exec_num answers all groups d e) in
    if_cases (λ o. o ≡ some d → Found exec_num answers all (g ∷ groups) d)
      (leb (half exec_num) (length g.1))
      (λ large.
        if_cases (λ o. o ≡ some d → Found exec_num answers all (g ∷ groups) d) (not_504 g)
          (λ other e.
            (zero, g, refl, (half_le _ _ large, inl (ground (arith, other), some_same e))))
          (λ timeout.
            if_cases (λ o. o ≡ some d → Found exec_num answers all (g ∷ groups) d)
              (answers == exec_num)
              (λ all_in e. (
                zero,
                g,
                refl,
                (
                  half_le _ _ large,
                  inr (
                    ground (arith, timeout),
                    ground (arith, all_in),
                    subst (StandsIn all g.0) (sym (some_same e)) (or_else-instead all g.0),
                  ),
                ),
              ))
              (λ _. later)))
      (λ _. later) h

half-leb : (n k : ℕ) → n ≤ 2 * k → leb (half n) k ≡ true
half-leb n k h = ground arith

usable_status : (n : ℕ) → n ≢ 504 → not (n == 504) ≡ true
usable_status n h = ground arith

-- While there is a group with at least half of the executors whose first answer is not a 504, the
-- majority rule gives an answer.
pub majority-some :
    (exec_num answers : ℕ) (all groups : List Group) (i : ℕ) (g : Group)
    → get_elem? groups i ≡ some g
    → exec_num ≤ 2 * length g.1
    → g.0.resp_status ≢ 504
    → is_some (majority exec_num answers all groups) ≡ true
unfolding majority
majority-some exec_num answers all [] i g e large other = cc
majority-some exec_num answers all (h ∷ groups) zero g e large other =
    let same : h ≡ g = cc in
    let enough : leb (half exec_num) (length h.1) ≡ true =
      rw same (half-leb exec_num (length g.1) large) in
    let usable : not_504 h ≡ true = rw same (usable_status g.0.resp_status other) in
    rw enough (rw usable refl)
majority-some exec_num answers all (h ∷ groups) (suc i) g e large other =
    let later = majority-some exec_num answers all groups i g e large other in
    if_cases (λ (o : Option JudgeData). is_some o ≡ true) (leb (half exec_num) (length h.1))
      (λ _.
        if_cases (λ (o : Option JudgeData). is_some o ≡ true) (not_504 h) (λ _. refl)
          λ _.
            if_cases (λ (o : Option JudgeData). is_some o ≡ true) (answers == exec_num) (λ _. refl)
              λ _. later)
      λ _. later

-- All keys of a list of groups, counted.
unfoldable pub all_keys : List Group → ℕ
all_keys [] = 0
all_keys (g ∷ groups) = length g.1 + all_keys groups

one_of :
    (groups : List Group) (i : ℕ) (g : Group)
    → get_elem? groups i ≡ some g
    → length g.1 ≤ all_keys groups
unfolding all_keys
one_of [] i g e = cc
one_of (h ∷ groups) zero g e =
    let same : h ≡ g = cc in omega (arith, ap (λ (x : Group). length x.1) same)
one_of (h ∷ groups) (suc i) g e = omega (arith, one_of groups i g e)

two_halves : (m a b : ℕ) → half (2 * m + 1) ≤ a → half (2 * m + 1) ≤ b → a + b ≤ 2 * m + 1 → ⊥
two_halves m a b h k t = omega arith

-- With an odd number of executors only one group has at least half of them.
half_unique :
    (m : ℕ) (groups : List Group) (i j : ℕ) (g h : Group)
    → all_keys groups ≤ 2 * m + 1
    → get_elem? groups i ≡ some g
    → get_elem? groups j ≡ some h
    → half (2 * m + 1) ≤ length g.1
    → half (2 * m + 1) ≤ length h.1
    → i ≡ j
unfolding all_keys
half_unique m [] i j g h t p q a b = cc
half_unique m (k ∷ groups) zero zero g h t p q a b = refl
half_unique m (k ∷ groups) zero (suc j) g h t p q a b =
    let same : k ≡ g = cc in
    let first : length k.1 ≡ length g.1 = ap (λ (x : Group). length x.1) same in
    absurd
      (two_halves m (length g.1) (length h.1) a b (omega (arith, first, one_of groups j h q, t)))
half_unique m (k ∷ groups) (suc i) zero g h t p q a b =
    let same : k ≡ h = cc in
    let first : length k.1 ≡ length h.1 = ap (λ (x : Group). length x.1) same in
    absurd
      (two_halves m (length g.1) (length h.1) a b (omega (arith, first, one_of groups i g p, t)))
half_unique m (k ∷ groups) (suc i) (suc j) g h t p q a b =
    ap suc (half_unique m groups i j g h (omega (arith, t)) p q a b)

-- With an odd number of executors, no more keys than executors, and a group with at least half of them
-- whose first answer is not a 504, the majority rule gives the first answer of that group, in whatever
-- order the groups stand and however many answers are in.
pub majority_decisive :
    (m answers : ℕ) (all groups : List Group) (j : ℕ) (h : Group)
    → all_keys groups ≤ 2 * m + 1
    → get_elem? groups j ≡ some h
    → 2 * m + 1 ≤ 2 * length h.1
    → h.0.resp_status ≢ 504
    → majority (2 * m + 1) answers all groups ≡ some h.0
majority_decisive m answers all groups j h t q large usable =
    elim (Option-cases (majority (2 * m + 1) answers all groups)) [
      | inl e ↦ absurd (
          false≢true
            (sym (ap is_some e) ∙ majority-some (2 * m + 1) answers all groups j h q large usable))
      | inr (d, e) ↦
          let (i, g, p, (enough, which)) = majority_group (2 * m + 1) answers all groups d e in
          let at_j : i ≡ j =
            half_unique m groups i j g h t p q (omega (arith, enough)) (omega (arith, large)) in
          let same : g ≡ h = some_same (sym q ∙ ap (get_elem? groups) (sym at_j) ∙ p) in
          elim which [
            | inl (other, first) ↦ e ∙ ap some (first ∙ ap (λ (x : Group). x.0) same)
            | inr (timeout, _, _) ↦
                absurd (usable (sym (ap (λ (x : Group). x.0.resp_status) same) ∙ timeout))
          ]
    ]
