-- ===== src/SupportTransactions.antt =====
-- POST /v1/support-transactions of backend/src/app.ts: a payment that Horizon confirms becomes a row
-- of SupportTransaction, its pending execution succeeds, and the milestones of its asset grow. What
-- follows the answer (emails, webhooks, badges) is not part of this file.
mod Guards
pub mod Recorded
mod Funding
mod Payments
mod Indexed
mod Tests
unfoldable pub use Guards.*
use nova_support.Base.{
  ℕ, zero, suc, ◌+◌, Bool, true, false, ◌&&◌, ◌||◌, not, Option, none, some, List, [], ◌∷◌, ◌++◌,
  String, str_eq, leb, ltb, ◌==◌, if◌then◌else◌, any, map,
}
use nova_support.Store.{
  Db, Profile, Milestone, MilestoneStatus, SupportTransaction, RecurringSupport, Execution,
  ExecutionStatus, Outcome, same_issuer, find_unique, update_where, parse_amount, utf16_length,
  utf8_length, between, optionally, hex_digits,
}
use nova_support.VerifyTransaction.{ExpectedTxDetails, Verified, returned, thrown}

pub transaction_of : Body → ℕ → SupportTransaction
transaction_of b n = record {
  tx_hash = b.tx_hash;
  amount = n;
  asset_code = b.asset_code;
  asset_issuer = b.asset_issuer;
  recipient_address = b.recipient_address;
  supporter_address = b.supporter_address;
  message = b.message;
  profile_id = b.profile_id;
  recurring_support_execution_id = b.recurring_support_execution_id;
  status = "SUCCESS";
}

succeed : Option String → List Execution → List Execution
succeed none es = es
succeed (some id) es =
    update_where (λ (e : Execution). e.id) id (λ e. record e { status = ExecutionStatus.success })
      es

abbrev pub is_active : MilestoneStatus → Bool
is_active MilestoneStatus.active = true
is_active MilestoneStatus.reached = false

-- The milestones that `findMany` selects for a payment.
unfoldable pub is_funded_by : SupportTransaction → Milestone → Bool
is_funded_by t m =
    str_eq m.profile_id t.profile_id
    && str_eq m.asset_code t.asset_code
    && same_issuer m.asset_issuer t.asset_issuer
    && is_active m.status

-- `reachedAt ?? new Date()`
abbrev pub or_now : Option ℕ → ℕ → Option ℕ
or_now none now = some now
or_now (some t) now = some t

unfoldable pub increment : ℕ → ℕ → Milestone → Milestone
increment now amount m =
    let raised = m.current_amount + amount in
    if leb m.target_amount raised
    then record m {
      current_amount = raised;
      status = MilestoneStatus.reached;
      reached_at = or_now m.reached_at now;
    }
    else record m { current_amount = raised }

unfoldable pub credit : ℕ → SupportTransaction → Milestone → Milestone
unfolding increment is_funded_by
credit now t m = if is_funded_by t m then increment now t.amount m else m

-- The database transaction; the milestones grow only when `verification === true`.
unfoldable pub record_support : ℕ → SupportTransaction → Db → Db
unfolding credit succeed
record_support now t db = record db {
  transactions = t ∷ db.transactions;
  executions = succeed t.recurring_support_execution_id db.executions;
  milestones = map (credit now t) db.milestones;
}

-- The unique constraints of SupportTransaction, and the hash that a violation reports.
abbrev pub has_hash : String → SupportTransaction → Bool
has_hash h t = str_eq t.tx_hash h

abbrev pub is_execution : String → Option String → Bool
is_execution id none = false
is_execution id (some i) = str_eq i id

abbrev pub has_execution : Option String → SupportTransaction → Bool
has_execution none t = false
has_execution (some id) t = is_execution id t.recurring_support_execution_id

abbrev pub first_hash : (SupportTransaction → Bool) → List SupportTransaction → Option String
first_hash p [] = none
first_hash p (t ∷ ts) = if p t then some t.tx_hash else first_hash p ts

pub find_conflict : SupportTransaction → List SupportTransaction → Option (Option String)
find_conflict t ts =
    if any (has_hash t.tx_hash) ts
    then some (some t.tx_hash)
    else if any (has_execution t.recurring_support_execution_id) ts
    then some (first_hash (has_execution t.recurring_support_execution_id) ts)
    else none

-- `$transaction`, when no unique constraint is violated.
pub run_transaction : ℕ → SupportTransaction → Db → Outcome → Reply × Db
unfolding record_support
run_transaction now t db Outcome.commits = (created t, record_support now t db)
run_transaction now t db Outcome.conflicts = (error 500 "", db)
run_transaction now t db Outcome.fails = (error 500 "", db)

pub create_support : ℕ → Outcome → SupportTransaction → Db → Reply × Db
unfolding find_conflict run_transaction
create_support now outcome t db = elim (find_conflict t db.transactions) [
  | some hash ↦ (duplicate_tx hash, db)
  | none ↦ run_transaction now t db outcome
]

pub post_support : (String → Bool) → Bool → Verification → ℕ → Outcome → Body → Db → Reply × Db
unfolding support_payload_schema guard create_support transaction_of
post_support is_key skip v now outcome b db = elim (support_payload_schema is_key b) [
  | none ↦ (error 400 "", db)
  | some amount ↦ elim (guard skip v amount b db) [
    | some (refuse status code) ↦ (error status code, db)
    | none ↦ create_support now outcome (transaction_of b amount) db
  ]
]
