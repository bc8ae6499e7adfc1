-- ===== src/Proxy/Analyse/Counts.antt =====
-- src/proxy_task.cpp: how often sendToSchedule reports an executor.
use openstack_mimic_componen.Base.{
  ℕ, zero, suc, ◌+◌, ◌*◌, ◌≤◌, ◌<◌, ◌≡◌, refl, sym, subst, Bool, Option, none, some, if◌then◌else◌,
  if_cases, ltb, arith,
}
use openstack_mimic_componen.Proxy.Analyse.{count_error}

-- The counter of an executor after its errors number 1 to `n`, and how often it has been reported.
unfoldable pub after_errors : (limit n : ℕ) → Option ℕ × ℕ
after_errors limit zero = (none, 0)
after_errors limit (suc n) =
    let (before, reports) = after_errors limit n in
    let (count, reported) = count_error limit before in
    (some count, if reported then suc reports else reports)

-- The counter `c` and the reports `r` after `n` errors: the quotient and the remainder.
abbrev pub Divides : (limit n : ℕ) → Option ℕ × ℕ → Type 0
Divides limit n (c, r) =
    (count : ℕ) × (c ≡ some count) × (count ≤ limit) × (n ≡ r * (limit + 1) + count)

next_quotient :
    (limit n count r : ℕ)
    → count ≡ limit
    → n ≡ r * (limit + 1) + count
    → suc n ≡ suc r * (limit + 1) + 0
next_quotient limit n count r h e = ground (arith, h, e)

count_error-Divides :
    (limit n count r : ℕ)
    → 0 < limit
    → count ≤ limit
    → n ≡ r * (limit + 1) + count
    → Divides limit (suc n) (
        let (next, reported) = count_error limit (some count) in
        (some next, if reported then suc r else r))
unfolding count_error
count_error-Divides limit n count r p h e =
    if_cases (λ (q : ℕ × Bool). Divides limit (suc n) (some q.0, if q.1 then suc r else r))
      (ltb count limit) (λ more. (count + 1, refl, ground (arith, more), omega (arith, e)))
      (λ full. (0, refl, omega arith, next_quotient limit n count r (ground (arith, full, h)) e))

-- With a limit above 0, every executor is reported at each (limit + 1)-th of its errors: after n errors,
-- n at least 1, the number of reports is the quotient of n by limit + 1 and the counter the remainder.
pub after_errors-Divides :
    (limit n : ℕ) → 0 < limit → Divides limit (suc n) (after_errors limit (suc n))
unfolding after_errors
after_errors-Divides limit zero p = unfold count_error in (1, refl, omega arith, omega arith)
after_errors-Divides limit (suc n) p =
    let (count, e, le, q) = after_errors-Divides limit n p in
    let r = (after_errors limit (suc n)).1 in
    subst
      (λ o.
        let (next, reported) = count_error limit o in
        Divides limit (suc (suc n)) (some next, if reported then suc r else r))
      (sym e) (count_error-Divides limit (suc n) count r p le q)
