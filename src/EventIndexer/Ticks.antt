-- ===== src/EventIndexer/Ticks.antt =====
-- The ticks of the indexer, one after the other (tick, scheduleNextTick).
use nova_support.Base.{
  ltb, if◌then◌else◌, ℕ, ◌+◌, ◌<◌, ◌≤◌, ◌≡◌, true, Option, none, some, List, [], ◌∷◌, String, arith,
  any, length, ◌==◌,
}

-- The delay until the next tick, and the pages consumed in the burst, after a tick: `none` is a
-- poll that threw.
pub record Pace : Type 0 where
  pub pages_consumed_in_burst : ℕ
  pub delay : ℕ

pub tick : ℕ → ℕ → ℕ → Option (Option String) → Pace
tick poll_interval_ms max_pages_per_tick pages none = record {
  pages_consumed_in_burst = pages;
  delay = poll_interval_ms;
}
tick poll_interval_ms max_pages_per_tick pages (some none) = record {
  pages_consumed_in_burst = 0;
  delay = poll_interval_ms;
}
tick poll_interval_ms max_pages_per_tick pages (some (some cursor)) =
    if ltb (pages + 1) max_pages_per_tick
    then record { pages_consumed_in_burst = pages + 1; delay = 0 }
    else record { pages_consumed_in_burst = 0; delay = poll_interval_ms }

-- The delays that the ticks of these polls ask for.
abbrev pub delays : ℕ → ℕ → ℕ → List (Option (Option String)) → List ℕ
delays poll_interval_ms max_pages_per_tick pages [] = []
delays poll_interval_ms max_pages_per_tick pages (polled ∷ rest) =
    let pace = tick poll_interval_ms max_pages_per_tick pages polled in
    pace.delay ∷ delays poll_interval_ms max_pages_per_tick pace.pages_consumed_in_burst rest

-- From any number of pages consumed, `maxPagesPerTick` polls in a row, whatever they return or
-- throw, have among their ticks one that waits `pollIntervalMs` before the next.
tick_yields :
    (poll_interval_ms max_pages_per_tick pages : ℕ) (polls : List (Option (Option String)))
    → 0 < length polls
    → max_pages_per_tick ≤ pages + length polls
    → any (λ d. d == poll_interval_ms) (delays poll_interval_ms max_pages_per_tick pages polls)
      ≡ true
unfolding tick
tick_yields poll most pages [] pos le = absurd (omega arith)
tick_yields poll most pages (none ∷ rest) pos le = ground arith
tick_yields poll most pages (some none ∷ rest) pos le = ground arith
tick_yields poll most pages (some (some cursor) ∷ []) pos le = ground arith
tick_yields poll most pages (some (some cursor) ∷ (p ∷ rest)) pos le =
    ground (arith, tick_yields poll most (pages + 1) (p ∷ rest) (omega arith))
