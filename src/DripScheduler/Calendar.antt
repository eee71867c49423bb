-- ===== src/DripScheduler/Calendar.antt =====
-- Months later, in the calendar (addMonths).
use mathlib.Core.Path.{subst}
use nova_support.Base.{
  ℕ, zero, suc, ◌+◌, ◌-◌, ◌%◌, ◌≤◌, ◌≡◌, refl, ap, ◌∙◌, inl, inr, true, false, arith, leb, ◌==◌,
  if◌then◌else◌, Bool-cases,
}
use nova_support.DripScheduler.{LocalDate, days_in_month, set_month, set_date_zero, add_months}

days_in_month_bounds : (m : ℕ) → (28 ≤ days_in_month m) × (days_in_month m ≤ 31)
unfolding days_in_month
days_in_month_bounds m = ground arith

next_month : (m : ℕ) → (((m + 1) % 12) == (m % 12)) ≡ false
next_month m = ground arith

same_month : (m : ℕ) → (m == m) ≡ true
same_month m = ground arith

set_month_fits :
    (target : ℕ) (d : LocalDate)
    → leb d.day (days_in_month target) ≡ true
    → set_month target d ≡ record d { months = target }
unfolding set_month
set_month_fits target d h = rw (h, set_month) refl

set_month_over :
    (target : ℕ) (d : LocalDate)
    → leb d.day (days_in_month target) ≡ false
    → set_month target d ≡ record d { months = target + 1; day = d.day - days_in_month target }
unfolding set_month
set_month_over target d h = rw (h, set_month) refl

-- Months later, a date of any day has the month that many on, the same time, and the same day, or
-- the month's last where the month is too short for it.
pub add_months_lem :
    (d : LocalDate) (n : ℕ)
    → let r = add_months d n in
      (r.months ≡ d.months + n)
      × (r.day ≡ (
          if leb d.day (days_in_month (d.months + n)) then d.day else days_in_month (d.months + n)))
      × (r.time ≡ d.time)
unfolding add_months set_month set_date_zero
add_months_lem d n =
    let target = d.months + n in
    elim (Bool-cases (leb d.day (days_in_month target))) [
      | inl fits ↦
          rw (set_month_fits target d fits, same_month (target % 12), fits, add_months)
            (refl, refl, refl)
      | inr over ↦
          rw (set_month_over target d over, next_month target, over, add_months)
            (omega arith, ap days_in_month (omega arith), refl)
    ]

abbrev pub iterate_months : ℕ → LocalDate → LocalDate
iterate_months zero d = d
iterate_months (suc k) d = iterate_months k (add_months d 1)

add_months-day_le :
    (d : LocalDate) (n : ℕ)
    → ((add_months d n).day ≤ d.day) × ((add_months d n).day ≤ days_in_month (d.months + n))
add_months-day_le d n = let (m, e, t) = add_months_lem d n in ground (arith, e)

iterate_months-le :
    (k : ℕ) (d : LocalDate)
    → ((iterate_months k d).months ≡ d.months + k) × ((iterate_months k d).day ≤ d.day)
iterate_months-le zero d = (omega arith, omega arith)
iterate_months-le (suc k) d =
    let (m, le) = iterate_months-le k (add_months d 1) in
    (omega (arith, m, (add_months_lem d 1).0), omega (arith, le, (add_months-day_le d 1).0))

iterate_months-last :
    (k : ℕ) (d : LocalDate) → (iterate_months (suc k) d).day ≤ days_in_month (d.months + suc k)
iterate_months-last zero d = (add_months-day_le d 1).1
iterate_months-last (suc k) d =
    subst (λ m. (iterate_months (suc k) (add_months d 1)).day ≤ days_in_month m)
      (omega (arith, (add_months_lem d 1).0)) (iterate_months-last k (add_months d 1))

iterate_months-add :
    (j k : ℕ) (d : LocalDate) → iterate_months k (iterate_months j d) ≡ iterate_months (j + k) d
iterate_months-add zero k d = let e : k ≡ 0 + k = omega arith in ap (λ n. iterate_months n d) e
iterate_months-add (suc j) k d =
    let e : suc (j + k) ≡ suc j + k = omega arith in
    iterate_months-add j k (add_months d 1) ∙ ap (λ n. iterate_months n d) e

-- A month at a time, as the scheduler goes on, a date comes to every month, but keeps its day only
-- as far as the shortest month on its way: after `suc j + k` months the day is no later than the
-- last day of the month that was reached after `suc j`, and than the day it started from.
pub iterate_months_drifts :
    (j k : ℕ) (d : LocalDate)
    → let r = iterate_months (suc j + k) d in
      (r.months ≡ d.months + (suc j + k))
      × (r.day ≤ d.day)
      × (r.day ≤ days_in_month (d.months + suc j))
iterate_months_drifts j k d =
    let (m, le) = iterate_months-le (suc j + k) d in
    (
      m,
      le,
      subst (λ r. r.day ≤ days_in_month (d.months + suc j)) (iterate_months-add (suc j) k d)
          (omega
            (arith, (iterate_months-le k (iterate_months (suc j) d)).1, iterate_months-last j d)),
    )
