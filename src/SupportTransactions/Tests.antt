-- ===== src/SupportTransactions/Tests.antt =====
-- A profile with a milestone, and payments to it.
use nova_support.Base.{
  ℕ, zero, suc, ◌≤◌, ◌≡◌, ◌≢◌, refl, Bool, true, false, Option, none, some, List, [], ◌∷◌, String,
  arith, map, count,
}
use nova_support.Base.JsMap.{get}
use nova_support.Store.{
  Db, Profile, Milestone, MilestoneStatus, Outcome, SupportTransaction, find_unique,
}
use nova_support.SupportTransactions.{
  Body, created, confirmed, verify_transaction, post_support, expected_details, transaction_of,
}
use nova_support.SupportTransactions.Funding.{Request, run, payments, pay_all, fund_of, run-fund_of}
use nova_support.SupportTransactions.Payments.{Service, PaidToProfile, post_support-PaidToProfile}
use nova_support.SupportTransactions.Recorded.{Answered, post_support-Answered}
use nova_support.SupportTransactions.Indexed.{post_support_after_ingest}
use nova_support.VerifyTransaction
use nova_support.VerifyTransaction.{
  JsNumber, Asset, payment, Fetched, page, successful, Attempt, Cache, Verified, returned,
  get_cached, make_cache_key,
}
use nova_support.EventIndexer.{SupportEvent, Transaction, ingest}

abbrev bob : Profile
bob = record {
  id = "p1";
  username = "bob";
  owner_id = "u1";
  wallet_address = "GBOB";
  accepted_assets = [];
}

abbrev goal : Milestone
goal = record {
  id = "m1";
  profile_id = "p1";
  title = "Goal";
  description = none;
  target_amount = 70000000;
  current_amount = 0;
  asset_code = "XLM";
  asset_issuer = none;
  status = MilestoneStatus.active;
  reached_at = none;
}

abbrev db0 : Db
db0 = record {
  profiles = bob ∷ [];
  transactions = [];
  milestones = goal ∷ [];
  webhooks = [];
  subscriptions = [];
  executions = [];
}

abbrev hash_a : String
hash_a = "aaaaaaaaaaaaaaaaaaaaaaaaaaaaaaaaaaaaaaaaaaaaaaaaaaaaaaaaaaaaaaaa"

abbrev hash_b : String
hash_b = "bbbbbbbbbbbbbbbbbbbbbbbbbbbbbbbbbbbbbbbbbbbbbbbbbbbbbbbbbbbbbbbb"

abbrev pays : String → String → Body
pays hash amount = record {
  tx_hash = hash;
  amount = amount;
  asset_code = "XLM";
  asset_issuer = none;
  message = some "thanks";
  memo = none;
  supporter_address = none;
  recipient_address = "GBOB";
  profile_id = "p1";
  recurring_support_execution_id = none;
}

abbrev any_key : String → Bool
any_key s = true

abbrev asks : ℕ → Body → Request
asks now b = record { verification = confirmed; now = now; outcome = Outcome.commits; body = b }

abbrev history : List Request
history =
    asks 100 (pays hash_a "2.5")
    ∷ asks 200 (pays hash_a "2.5")
    ∷ asks 300 (pays hash_b "5.0000000")
    ∷ []

-- The second request repeats the first's transaction; the third reaches the target.
history_funds :
    map fund_of (run any_key false history db0).milestones
    ≡ record { raised = 75000000; target = 70000000; closed = true } ∷ []
unfolding run post_support find_unique
history_funds = refl

run-fund_of_example :
    map fund_of (run any_key false history db0).milestones
    ≡ map (λ m. pay_all m (payments any_key false history db0) (fund_of m)) db0.milestones
run-fund_of_example = run-fund_of any_key false history db0

post_support-Answered_example :
    let (reply, db') =
      post_support any_key false confirmed 100 Outcome.commits (pays hash_a "2.5") db0 in
    Answered any_key false confirmed 100 (pays hash_a "2.5") db0 reply db'
post_support-Answered_example =
    post_support-Answered any_key false confirmed 100 (pays hash_a "2.5") db0 Outcome.commits

-- Horizon shows the payment in the first attempt.
abbrev plain : JsNumber
plain = record { Number = String; parse_float = λ s. s; to_fixed = λ _ s. s }

abbrev native : Asset
native = record { asset_type = "native"; asset_code = none; asset_issuer = none }

abbrev shown : ℕ → Attempt
shown i = record {
  transaction = successful true;
  pages = λ k. page (record { records = payment "GBOB" "2.5" native ∷ []; next = false });
  now = 1000;
}

abbrev verdict_cache : Cache
verdict_cache =
    (
      make_cache_key hash_a (some (expected_details (pays hash_a "2.5"))),
      record { result = true; timestamp = 1000 },
    )
    ∷ []

empty_cache :
    get_cached 900 (make_cache_key hash_a (some (expected_details (pays hash_a "2.5")))) [] ≡ none
unfolding get_cached get
empty_cache = refl

served : Service plain 5 900 shown [] (pays hash_a "2.5") (returned true) verdict_cache
unfolding VerifyTransaction.verify_transaction get VerifyTransaction.is_match expected_details
    nova_support.Base.JsMap.set
served = refl

recorded :
    (post_support any_key false
      (verify_transaction true (returned true))
      100
      Outcome.commits
      (pays hash_a "2.5")
      db0).0
    ≡ created (transaction_of (pays hash_a "2.5") 25000000)
unfolding post_support verify_transaction find_unique
recorded = refl

post_support-PaidToProfile_example : PaidToProfile plain shown (pays hash_a "2.5") db0
post_support-PaidToProfile_example =
    post_support-PaidToProfile any_key plain 5 900 100 true shown [] verdict_cache (returned true)
      Outcome.commits (pays hash_a "2.5") db0 (transaction_of (pays hash_a "2.5") 25000000)
      empty_cache served recorded

-- The indexer sees the payment first.
abbrev seen : SupportEvent
seen = record {
  tx_hash = hash_a;
  ledger = 7;
  paging_token = "7-1";
  amount = "2.5";
  asset_code = "XLM";
  asset_issuer = none;
  recipient_address = "GBOB";
  supporter_address = none;
  message = none;
  emitted_at = 50;
}

abbrev indexed : SupportTransaction
indexed = record {
  tx_hash = hash_a;
  amount = 25000000;
  asset_code = "XLM";
  asset_issuer = none;
  recipient_address = "GBOB";
  supporter_address = none;
  message = none;
  profile_id = "p1";
  recurring_support_execution_id = none;
  status = "SUCCESS";
}

same_hashes :
    map (λ (t : SupportTransaction). t.tx_hash) (indexed ∷ [])
    ≡ map
        (λ (t : Transaction). t.tx_hash)
        (ingest "testnet" (("GBOB", "p1") ∷ []) (λ i. 90) 0 (seen ∷ []) []).0
unfolding ingest
same_hashes = refl

post_support_after_ingest_example :
    let db1 : Db = record db0 { transactions = indexed ∷ [] } in
    let (reply, db') =
      post_support any_key false confirmed 100 Outcome.commits (pays hash_a "2.5") db1 in
    (db' ≡ db1) × ((t : SupportTransaction) → reply ≢ created t)
post_support_after_ingest_example =
    post_support_after_ingest "testnet" (("GBOB", "p1") ∷ []) (λ i. 90) any_key false confirmed 100
      Outcome.commits (pays hash_a "2.5") (record db0 { transactions = indexed ∷ [] }) (seen ∷ [])
      [] refl same_hashes
