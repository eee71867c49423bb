-- ===== src/SupportTransactions/Indexed.antt =====
-- POST /v1/support-transactions together with the event indexer
-- (backend/src/services/event-indexer.ts), which writes the same table: what the route does for a
-- payment that the indexer has already ingested.
use nova_support.Base.{
  ℕ, ◌≡◌, ◌≢◌, refl, sym, ◌∙◌, ap, Bool, true, false, ◌&&◌, List, [], ◌∷◌, String, arith, str_eq,
  any, map, count, ◌==◌, if◌then◌else◌,
}
use nova_support.Store.{Db, Outcome, SupportTransaction}
use nova_support.SupportTransactions.{
  Body, Reply, error, duplicate_tx, created, Verification, post_support, transaction_of,
  find_conflict, has_hash,
}
use nova_support.SupportTransactions.Recorded.{Answered, post_support-Answered}
use nova_support.EventIndexer.{SupportEvent, Transaction, ingest}
use nova_support.EventIndexer.Rows.{is_event, is_row, ingest-copies}

any-map {ℓ} :
    {A B : Type ℓ} (p : B → Bool) (f : A → B) (xs : List A)
    → any (λ x. p (f x)) xs ≡ any p (map f xs)
any-map p f [] = refl
any-map p f (x ∷ xs) = rw (any-map p f xs) refl

has_hash_by_key :
    (h : String) (ts : List SupportTransaction) (rows : List Transaction)
    → map (λ (t : SupportTransaction). t.tx_hash) ts ≡ map (λ (t : Transaction). t.tx_hash) rows
    → any (has_hash h) ts ≡ any (is_row h) rows
has_hash_by_key h ts rows e =
    any-map (λ k. str_eq k h) (λ (t : SupportTransaction). t.tx_hash) ts
    ∙ ap (any (λ k. str_eq k h)) e
    ∙ sym (any-map (λ k. str_eq k h) (λ (t : Transaction). t.tx_hash) rows)

any-count {ℓ} :
    {A : Type ℓ} (p : A → Bool) (xs : List A) → (count p xs == 0) ≡ false → any p xs ≡ true
any-count p [] h = cc
any-count p (x ∷ xs) h = ground (arith, any-count p xs)

ingested_any :
    (n m : ℕ) (b : Bool) → b ≡ true → m ≡ (if b && n == 0 then 1 else n) → (m == 0) ≡ false
ingested_any n m b e h = ground arith

module _ (network : String) (wallets : List (String × String)) (clock : ℕ → ℕ) where
  ingest-any :
      (h : String) (es : List SupportEvent) (rows : List Transaction)
      → any (is_event h) es ≡ true
      → any (is_row h) (ingest network wallets clock 0 es rows).0 ≡ true
  ingest-any h es rows e =
      let rows' = (ingest network wallets clock 0 es rows).0 in
      any-count (is_row h) rows' (
        ingested_any (count (is_row h) rows) (count (is_row h) rows') (any (is_event h) es) e
          (ingest-copies network wallets clock 0 h es rows))

  -- When the table holds the transaction hashes that the indexer's loop over a page left, and the
  -- page had an event of the body's transaction, the route records no row and changes no table,
  -- whatever Horizon and the database answer: neither the milestones of the payment grow nor does its
  -- pending execution succeed.
  pub post_support_after_ingest :
      (is_key : String → Bool) (skip : Bool) (v : Verification) (now : ℕ) (outcome : Outcome)
      (b : Body) (db : Db) (es : List SupportEvent) (rows : List Transaction)
      → any (is_event b.tx_hash) es ≡ true
      → map (λ (t : SupportTransaction). t.tx_hash) db.transactions
        ≡ map (λ (t : Transaction). t.tx_hash) (ingest network wallets clock 0 es rows).0
      → let (reply, db') = post_support is_key skip v now outcome b db in
        (db' ≡ db) × ((t : SupportTransaction) → reply ≢ created t)
  unfolding transaction_of find_conflict
  post_support_after_ingest is_key skip v now outcome b db es rows seen same_keys =
      let (reply, db') = post_support is_key skip v now outcome b db in
      let there : any (has_hash b.tx_hash) db.transactions ≡ true =
        has_hash_by_key b.tx_hash db.transactions (ingest network wallets clock 0 es rows).0
          same_keys
        ∙ ingest-any b.tx_hash es rows seen in
      refused there reply db' (post_support-Answered is_key skip v now b db outcome)
    where
      refused :
          any (has_hash b.tx_hash) db.transactions ≡ true
          → (reply : Reply) (db' : Db) → Answered is_key skip v now b db reply db'
          → (db' ≡ db) × ((t : SupportTransaction) → reply ≢ created t)
      refused there (error status code) db' same = (same, λ t h. cc)
      refused there (duplicate_tx hash) db' (n, valid, conflict, same) = (same, λ t h. cc)
      refused there (created t) db' (n, valid, row, checked, free, changes) =
          cc (rw (row, find_conflict, transaction_of, there) at free)
