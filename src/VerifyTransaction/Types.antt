-- ===== src/VerifyTransaction/Types.antt =====
-- The data of backend/src/services/verify-transaction.ts: the expected details, what Horizon answers
-- to an attempt, and the entries of the cache.
use nova_support.Base.{ℕ, Bool, Option, List, String}

-- JavaScript's numbers, as far as amounts use them.
pub record JsNumber : Type 1 where
  pub Number : Type 0
  pub parse_float : String → Number
  pub to_fixed : ℕ → Number → String

pub record ExpectedTxDetails : Type 0 where
  pub amount : String
  pub recipient_address : String
  pub asset_code : String
  pub asset_issuer : Option String

pub record Asset : Type 0 where
  pub asset_type : String
  pub asset_code : Option String
  pub asset_issuer : Option String

pub data Operation : Type 0 where
  payment : String → String → Asset → Operation
  create_account : String → String → Operation
  path_payment_strict_send path_payment_strict_receive : String → Option String → Asset → Operation
  other_operation : Operation

pub record Page : Type 0 where
  pub records : List Operation
  pub next : Bool

pub data HorizonError : Type 0 where
  not_found : HorizonError
  infrastructure : String → HorizonError

pub data Fetched : Type 0 where
  page : Page → Fetched
  fetch_failed : HorizonError → Fetched

pub data Scanned : Type 0 where
  validated : Bool → Scanned
  scan_failed : HorizonError → Scanned

-- What Horizon answers to one attempt: whether the transaction was successful, its pages of
-- operations, and the clock after it.
pub data Transaction : Type 0 where
  successful : Bool → Transaction
  call_failed : HorizonError → Transaction

pub record Attempt : Type 0 where
  pub transaction : Transaction
  pub pages : ℕ → Fetched
  pub now : ℕ

pub record Entry : Type 0 where
  pub result : Bool
  pub timestamp : ℕ

-- The end of one attempt: a verdict that is cached, or an infrastructure failure.
pub data Ended : Type 0 where
  settled : Bool → Ended
  broke : HorizonError → Ended

pub data Verified : Type 0 where
  returned : Bool → Verified
  thrown : Option HorizonError → Verified
