-- ===== src/Store.antt =====
-- The tables of backend/prisma/schema.prisma that the routes of backend/src/app.ts share, and the
-- answers and checks that the routes have in common. Amounts are Decimal(18, 7), so a natural number
-- of ten-millionths; times are milliseconds.
mod Amount
mod Fields
pub mod Rows
pub mod Owner
unfoldable pub use Fields.*
unfoldable pub use Amount.*
use nova_support.Base.{
  ℕ, zero, suc, ◌+◌, Bool, true, false, ◌&&◌, ◌||◌, Option, none, some, List, [], ◌∷◌, String,
  str_eq, any, if◌then◌else◌,
}

pub record AcceptedAsset : Type 0 where
  pub code : String
  pub issuer : Option String

pub record Profile : Type 0 where
  pub id : String
  pub username : String
  pub owner_id : String
  pub wallet_address : String
  pub accepted_assets : List AcceptedAsset

pub data MilestoneStatus : Type 0 where
  active reached : MilestoneStatus

pub record Milestone : Type 0 where
  pub id : String
  pub profile_id : String
  pub title : String
  pub description : Option String
  pub target_amount : ℕ
  pub current_amount : ℕ
  pub asset_code : String
  pub asset_issuer : Option String
  pub status : MilestoneStatus
  pub reached_at : Option ℕ

pub record Webhook : Type 0 where
  pub id : String
  pub profile_id : String
  pub url : String
  pub signing_key : String
  pub active : Bool

pub record SupportTransaction : Type 0 where
  pub tx_hash : String
  pub amount : ℕ
  pub asset_code : String
  pub asset_issuer : Option String
  pub recipient_address : String
  pub supporter_address : Option String
  pub message : Option String
  pub profile_id : String
  pub recurring_support_execution_id : Option String
  pub status : String

pub data SubscriptionStatus : Type 0 where
  active paused cancelled : SubscriptionStatus

pub data Frequency : Type 0 where
  weekly monthly : Frequency

pub record RecurringSupport : Type 0 where
  pub id : String
  pub supporter_id : Option String
  pub profile_id : String
  pub amount : ℕ
  pub asset_code : String
  pub asset_issuer : Option String
  pub frequency : Frequency
  pub next_run_at : ℕ
  pub status : SubscriptionStatus
  pub cancelled_at : Option ℕ

pub data ExecutionStatus : Type 0 where
  pending success failed : ExecutionStatus

pub record Execution : Type 0 where
  pub id : String
  pub recurring_support_id : String
  pub status : ExecutionStatus

pub record Db : Type 0 where
  pub profiles : List Profile
  pub transactions : List SupportTransaction
  pub milestones : List Milestone
  pub webhooks : List Webhook
  pub subscriptions : List RecurringSupport
  pub executions : List Execution

-- A nullable column equals a value, `null` only `null`.
abbrev pub same_issuer : Option String → Option String → Bool
same_issuer none none = true
same_issuer (some s) (some t) = str_eq s t
same_issuer _ _ = false

abbrev pub accepts : String → Option String → AcceptedAsset → Bool
accepts code issuer a = str_eq a.code code && same_issuer a.issuer issuer

unfoldable pub is_accepted_asset_pair : List AcceptedAsset → String → Option String → Bool
is_accepted_asset_pair assets code issuer = any (accepts code issuer) assets

-- `acceptedCodes.length > 0 && !isAcceptedAssetPair(…)` lets the asset pass.
unfoldable pub is_asset_allowed : List AcceptedAsset → String → Option String → Bool
unfolding is_accepted_asset_pair
is_asset_allowed [] code issuer = true
is_asset_allowed (a ∷ assets) code issuer = is_accepted_asset_pair (a ∷ assets) code issuer

-- `findUnique` on a unique column.
module _ {ℓ} {A : Type ℓ} where
  unfoldable pub find_unique : (A → String) → String → List A → Option A
  find_unique key k [] = none
  find_unique key k (x ∷ xs) = if str_eq (key x) k then some x else find_unique key k xs

  -- `update` and `delete` of the row with a unique column.
  unfoldable pub update_where : (A → String) → String → (A → A) → List A → List A
  update_where key k f [] = []
  update_where key k f (x ∷ xs) = if str_eq (key x) k then f x ∷ xs else x ∷ update_where key k f xs

  unfoldable pub delete_where : (A → String) → String → List A → List A
  delete_where key k [] = []
  delete_where key k (x ∷ xs) = if str_eq (key x) k then xs else x ∷ delete_where key k xs

-- A route's answer: `sendError` with its status and code, or the success's status.
pub data Reply : Type 0 where
  error : ℕ → String → Reply
  ok : ℕ → Reply

-- How a database call of a route ends when no constraint decides it: it succeeds, a serializable
-- transaction conflicts (P2034), or it fails.
pub data Outcome : Type 0 where
  commits conflicts fails : Outcome
