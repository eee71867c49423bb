-- ===== src/DripScheduler/Advance.antt =====
-- The next run of a support, and its claim (processDueRecurringSupports).
use nova_support.Base.{
  ℕ, zero, suc, ◌+◌, ◌≤◌, ◌<◌, ◌≡◌, refl, ◌∙◌, true, false, some, arith, leb, if◌then◌else◌,
  Bool-cases, inl, inr, ◌⊎◌,
}
use nova_support.DripScheduler.{
  Frequency, weekly, monthly, advance, advance_past, next_run_at, Support, is_due_support,
  process_support, executed, already_claimed,
}

abbrev pub iterate : ℕ → (ℕ → ℕ) → ℕ → ℕ
iterate zero f t = t
iterate (suc k) f t = iterate k f (f t)

advance-lt :
    (add_month : ℕ → ℕ)
    → ((u : ℕ) → u < add_month u)
    → (frequency : Frequency) (t : ℕ) → t < advance add_month frequency t
advance-lt add_month up weekly t = omega arith
advance-lt add_month up monthly t = up t

module _ (add_month : ℕ → ℕ) (up : (u : ℕ) → u < add_month u) (frequency : Frequency)
    (now : ℕ) where
  abbrev Reached : ℕ → ℕ → Type 0
  Reached fuel t =
      (r k : ℕ) × (advance_past add_month frequency now fuel t ≡ some r)
      × (r ≡ iterate k (advance add_month frequency) t)
      × (now < r)
      × ((j : ℕ) → j < k → iterate j (advance add_month frequency) t ≤ now)

  stops : (fuel t : ℕ) → leb t now ≡ false → Reached (suc fuel) t
  unfolding advance_past
  stops fuel t over = (
    t,
    0,
    rw (over, advance_past) refl,
    refl,
    ground (arith, over),
    λ j l. absurd (omega (arith, l)),
  )

  earlier :
      (t k : ℕ)
      → leb t now ≡ true
      → ((j : ℕ)
          → j < k
          → iterate j (advance add_month frequency) (advance add_month frequency t) ≤ now)
      → (j : ℕ) → j < suc k
      → iterate j (advance add_month frequency) t ≤ now
  earlier t k past before zero l = ground (arith, past)
  earlier t k past before (suc j) l = before j (omega (arith, l))

  advance_past_lem : (fuel t : ℕ) → now < t + fuel → Reached (suc fuel) t
  unfolding advance_past
  advance_past_lem zero t lt = elim (Bool-cases (leb t now)) [
    | inr over ↦ stops zero t over
    | inl past ↦ absurd (ground (arith, past, lt))
  ]
  advance_past_lem (suc fuel) t lt = elim (Bool-cases (leb t now)) [
    | inr over ↦ stops (suc fuel) t over
    | inl past ↦
        let (r, k, f, i, after, before) =
          advance_past_lem fuel (advance add_month frequency t)
            (ground (arith, advance-lt add_month up frequency t, lt)) in
        (r, suc k, rw (past, advance_past) f, i, after, earlier t k past before)
  ]

  -- The loop ends: with one more unit of fuel than the milliseconds from the next date to `now`, it
  -- finds the first date, one or more intervals after the stored one, that lies after `now`.
  next_run_at_first :
      (fuel t : ℕ)
      → now < t + fuel
      → (r k : ℕ) × (next_run_at add_month frequency now (suc fuel) t ≡ some r)
        × (r ≡ iterate (suc k) (advance add_month frequency) t)
        × (now < r)
        × ((j : ℕ) → j < k → iterate (suc j) (advance add_month frequency) t ≤ now)
  unfolding next_run_at
  next_run_at_first fuel t lt =
      advance_past_lem fuel (advance add_month frequency t)
        (ground (arith, advance-lt add_month up frequency t, lt))

module _ (add_month : ℕ → ℕ) (up : (u : ℕ) → u < add_month u) where
  claims :
      (now fuel r : ℕ) (read s : Support)
      → read.has_supporter ≡ true
      → next_run_at add_month read.frequency now fuel read.run_at ≡ some r
      → process_support add_month now fuel read s
        ≡ some (
            if is_due_support now s
            then (record s { run_at = r; executions = s.executions + 1 }, executed)
            else (s, already_claimed))
  unfolding process_support
  claims now fuel r read s has e = rw (has, e, process_support) refl

  refuses :
      (now fuel r : ℕ) (read s : Support)
      → read.has_supporter ≡ true
      → next_run_at add_month read.frequency now fuel read.run_at ≡ some r
      → is_due_support now s ≡ false
      → process_support add_month now fuel read s ≡ some (s, already_claimed)
  refuses now fuel r read s has e late = claims now fuel r read s has e ∙ rw late refl

  not_due :
      (later r n : ℕ) (read : Support)
      → leb r later ≡ false
      → is_due_support later (record read { run_at = r; executions = n }) ≡ false
  unfolding is_due_support
  not_due later r n read h = ground (arith, h)

  -- Two schedulers have read the same due support. The one that comes first adds one execution and
  -- moves the date past its `now`; the other, whose fuel too is enough, then changes nothing, unless
  -- its own clock has come to the new date.
  pub process_support_once :
      (now later fuel fuel' : ℕ) (read : Support)
      → read.has_supporter ≡ true
      → is_due_support now read ≡ true
      → now < read.run_at + fuel
      → later < read.run_at + fuel'
      → (first : Support) × (process_support add_month now (suc fuel) read read
          ≡ some (first, executed))
        × (first.executions ≡ read.executions + 1)
        × (now < first.run_at)
        × ((first.run_at ≤ later)
            ⊎ (process_support add_month later (suc fuel') read first
                ≡ some (first, already_claimed)))
  unfolding is_due_support
  process_support_once now later fuel fuel' read has due enough enough' =
      let (r, k, e, i, after, before) =
        next_run_at_first add_month up read.frequency now fuel read.run_at enough in
      let (r', k', e', i', after', before') =
        next_run_at_first add_month up read.frequency later fuel' read.run_at enough' in
      let first : Support = record read { run_at = r; executions = read.executions + 1 } in
      (
        first,
        claims now (suc fuel) r read read has e ∙ rw due refl,
        refl,
        after,
        elim (Bool-cases (leb r later)) [
          | inl come ↦ inl (ground (arith, come))
          | inr not_yet ↦ inr (
              refuses later (suc fuel') r' read first has e'
                (not_due later r (read.executions + 1) read not_yet))
        ],
      )
