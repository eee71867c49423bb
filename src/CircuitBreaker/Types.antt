-- ===== src/CircuitBreaker/Types.antt =====
-- What a breaker and a call of `execute` of backend/src/services/circuit-breaker.ts are.
use nova_support.Base.{ℕ, Bool, true, false, Option}

pub data State : Type 0 where
  closed open_state half_open : State

pub record Snapshot : Type 0 where
  pub state : State
  pub failure_count : ℕ
  pub next_attempt : ℕ

-- `storage` is null, lacks the optional `claimHalfOpen`, or has it.
pub data Storage : Type 0 where
  no_storage plain_storage claiming_storage : Storage

-- `half_open_canary` is whether the promise `halfOpenCanary` is set; `initialized` is whether the
-- promise of `ensureInitialized` has been resolved.
pub record Breaker : Type 0 where
  pub state : State
  pub failure_threshold : ℕ
  pub reset_timeout : ℕ
  pub failure_count : ℕ
  pub next_attempt : ℕ
  pub storage : Storage
  pub initialized : Bool
  pub half_open_canary : Bool

pub data Loaded : Type 0 where
  loaded : Option Snapshot → Loaded
  load_failed : Loaded

pub data Claimed : Type 0 where
  claimed : Bool → Claimed
  claim_failed : Claimed

-- The answers to one resumption: the clock, the storage, and how the promise of `fn` settled.
pub record Reply : Type 0 where
  pub now : ℕ
  pub load : Loaded
  pub claim : Claimed
  pub fulfilled : Bool
  pub save_ok : Bool

pub data Verdict : Type 0 where
  returned fn_error breaker_open storage_error : Verdict

-- Where a call of `execute` stands. The flag says whether it is the canary; in `settling` the
-- second one says whether `fn` was fulfilled, the third whether a save is awaited.
pub data Phase : Type 0 where
  entering admitted refreshing claiming refused : Phase
  running : Bool → Phase
  settling : Bool → Bool → Bool → Phase
  ended : Verdict → Phase

pub record Turn : Type 0 where
  pub breaker : Breaker
  pub phase : Phase
  pub saved : Option Snapshot

abbrev pub is_open : State → Bool
is_open open_state = true
is_open _ = false

abbrev pub is_half_open : State → Bool
is_half_open half_open = true
is_half_open _ = false

abbrev pub is_closed : State → Bool
is_closed closed = true
is_closed _ = false

abbrev pub has_storage : Storage → Bool
has_storage no_storage = false
has_storage _ = true

abbrev pub can_claim : Storage → Bool
can_claim claiming_storage = true
can_claim _ = false
