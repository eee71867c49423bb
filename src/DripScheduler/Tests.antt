-- ===== src/DripScheduler/Tests.antt =====
-- The claims at concrete inputs.
use nova_support.Base.{ℕ, ◌+◌, ◌<◌, ◌≤◌, ◌≡◌, refl, ◌⊎◌, true, some, arith}
use nova_support.DripScheduler.{
  LocalDate, days_in_month, set_month, set_date_zero, add_months, weekly, active, Support,
  is_due_support, process_support, executed, already_claimed,
}
use nova_support.DripScheduler.Advance.{process_support_once}

-- 31 January 2025, at noon.
abbrev january : LocalDate
january = record { months = 24300; day = 31; time = 43200000 }

-- To 28 February, and from there to 28 March; two months at once keep the 31st.
drift : ((add_months (add_months january 1) 1).day ≡ 28) × ((add_months january 2).day ≡ 31)
unfolding add_months set_month set_date_zero days_in_month
drift = (refl, refl)

abbrev thirty_days : ℕ → ℕ
thirty_days t = t + 2592000000

abbrev due : Support
due = record {
  status = active;
  frequency = weekly;
  run_at = 5;
  has_supporter = true;
  executions = 3;
}

due-now : is_due_support 9 due ≡ true
unfolding is_due_support
due-now = refl

process_support_once_example :
    (first : Support) × (process_support thirty_days 9 10 due due ≡ some (first, executed))
    × (first.executions ≡ 4)
    × (9 < first.run_at)
    × ((first.run_at ≤ 11)
        ⊎ (process_support thirty_days 11 10 due first ≡ some (first, already_claimed)))
process_support_once_example =
    process_support_once thirty_days (λ u. omega arith) 9 11 9 9 due refl due-now (omega arith)
      (omega arith)
