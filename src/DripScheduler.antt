-- ===== src/DripScheduler.antt =====
-- backend/src/services/drip-scheduler.ts: when a recurring support runs next, and the claim of one
-- that is due. A date is kept by its month, day and time of day, as setMonth and setDate read it in
-- local time; elsewhere times are milliseconds, and `add_month` takes `addMonths(date, 1)` to them.
mod Calendar
mod Advance
mod Tests
use nova_support.Base.{
  ℕ, zero, suc, ◌+◌, ◌-◌, ◌*◌, ◌/◌, ◌%◌, Bool, true, false, ◌&&◌, ◌||◌, not, Option, none, some,
  List, [], ◌∷◌, leb, ◌==◌, if◌then◌else◌,
}

-- `months` is 12 times the year plus the month from 0.
pub record LocalDate : Type 0 where
  pub months : ℕ
  pub day : ℕ
  pub time : ℕ

abbrev is_leap : ℕ → Bool
is_leap year = year % 4 == 0 && not (year % 100 == 0) || year % 400 == 0

pub days_in_month : ℕ → ℕ
days_in_month months =
    let month = months % 12 in
    if month == 1
    then (if is_leap (months / 12) then 29 else 28)
    else if month == 3 || month == 5 || month == 8 || month == 10
    then 30
    else 31

-- `setMonth`: a day that the month does not have runs over into the next.
pub set_month : ℕ → LocalDate → LocalDate
set_month target d =
    if leb d.day (days_in_month target)
    then record d { months = target }
    else record d { months = target + 1; day = d.day - days_in_month target }

-- `setDate(0)`: the last day of the month before.
pub set_date_zero : LocalDate → LocalDate
set_date_zero d = record d { months = d.months - 1; day = days_in_month (d.months - 1) }

pub add_months : LocalDate → ℕ → LocalDate
unfolding set_month set_date_zero
add_months date months =
    let target = date.months + months in
    let result = set_month target date in
    if result.months % 12 == target % 12 then result else set_date_zero result

pub data Frequency : Type 0 where
  weekly monthly : Frequency

abbrev pub week : ℕ
week = 7 * 24 * 60 * 60 * 1000

abbrev pub advance : (ℕ → ℕ) → Frequency → ℕ → ℕ
advance add_month weekly t = t + week
advance add_month monthly t = add_month t

-- `while (nextRunAt <= now)`, on fuel.
pub advance_past : (ℕ → ℕ) → Frequency → ℕ → ℕ → ℕ → Option ℕ
advance_past add_month frequency now zero t = none
advance_past add_month frequency now (suc fuel) t =
    let later = advance_past add_month frequency now fuel (advance add_month frequency t) in
    if leb t now then later else some t

pub next_run_at : (ℕ → ℕ) → Frequency → ℕ → ℕ → ℕ → Option ℕ
unfolding advance_past
next_run_at add_month frequency now fuel t =
    advance_past add_month frequency now fuel (advance add_month frequency t)

pub data Status : Type 0 where
  active paused cancelled : Status

abbrev pub is_active : Status → Bool
is_active active = true
is_active _ = false

-- The row of a support with the number of its executions.
pub record Support : Type 0 where
  pub status : Status
  pub frequency : Frequency
  pub run_at : ℕ
  pub has_supporter : Bool
  pub executions : ℕ

pub is_due_support : ℕ → Support → Bool
is_due_support now s = is_active s.status && leb s.run_at now

pub data Processed : Type 0 where
  dropped executed already_claimed : Processed

-- The transaction: the new execution stands only if the update finds its row.
claim_support : ℕ → ℕ → Support → Support × Processed
unfolding is_due_support
claim_support now next s =
    if is_due_support now s
    then (record s { run_at = next; executions = s.executions + 1 }, executed)
    else (s, already_claimed)

claim_with : ℕ → Support → Option ℕ → Option (Support × Processed)
unfolding claim_support
claim_with now s none = none
claim_with now s (some next) = some (claim_support now next s)

-- One support of a page: `read` is the row as the page has it, `s` as it is now. `none` is a loop
-- that is out of fuel.
pub process_support : (ℕ → ℕ) → ℕ → ℕ → Support → Support → Option (Support × Processed)
unfolding claim_with next_run_at
process_support add_month now fuel read s =
    if read.has_supporter
    then claim_with now s (next_run_at add_month read.frequency now fuel read.run_at)
    else some (record s { status = cancelled }, dropped)
