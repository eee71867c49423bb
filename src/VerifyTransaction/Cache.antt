-- ===== src/VerifyTransaction/Cache.antt =====
-- The verification cache (backend/src/services/verify-transaction.ts).
use mathlib.Core.Path.{subst}
use mathlib.Core.Option.{some-injective}
use nova_support.Base.{
  ℕ, zero, suc, ◌+◌, ◌≤◌, ◌<◌, ◌≡◌, refl, ◌≢◌, ◌⊎◌, Bool, true, Option, none, some, [], ◌∷◌, String,
  arith, length, str_eq, eq_iff, Bool-cases, inl, inr, ap, ◌∙◌, sym, is_some, ltb,
}
use nova_support.Base.JsMap.{get, set, first_key, get-set, length-set, length-delete, get-delete_ne}
use nova_support.VerifyTransaction.{
  JsNumber, ExpectedTxDetails, Attempt, HorizonError, Entry, Cache, verification_cache_max_size,
  set_cache_entry, get_cached, ttl, Verified, returned, verify_attempts, verify_transaction,
  make_cache_key, run_attempt, settled, broke, Ended,
}

module _ (key : String) (entry : Entry) where
  overflow :
      (cache : Cache)
      → length cache ≤ verification_cache_max_size
      → verification_cache_max_size < length (set key entry cache)
      → (j : String) × (first_key (set key entry cache) ≡ some j)
        × (j ≢ key)
        × (is_some (get j (set key entry cache)) ≡ true)
  unfolding set get first_key
  overflow [] le lt = absurd (omega arith)
  overflow ((j, v) ∷ m) le lt = elim (Bool-cases (str_eq j key)) [
    | inl same ↦ absurd (omega (arith, rw (same, set) at lt))
    | inr other ↦
        rw (other, set) (j, refl, ground (arith, eq_iff j key), ground (arith, eq_iff j j))
  ]

  set_cache_entry-length :
      (cache : Cache)
      → length cache ≤ verification_cache_max_size
      → length (set_cache_entry key entry cache) ≤ verification_cache_max_size
  unfolding set_cache_entry
  set_cache_entry-length cache le =
      elim (Bool-cases (ltb verification_cache_max_size (length (set key entry cache)))) [
        | inr fits ↦ rw fits (ground arith)
        | inl over ↦
            let (j, e, ne, there) = overflow cache le (ground arith) in
            rw (over, e)
              (ground (
                arith,
                length-delete j (set key entry cache) there,
                length-set key entry cache,
                le,
              ))
      ]

  get-set_cache_entry :
      (cache : Cache)
      → length cache ≤ verification_cache_max_size
      → get key (set_cache_entry key entry cache) ≡ some entry
  unfolding set_cache_entry
  get-set_cache_entry cache le =
      elim (Bool-cases (ltb verification_cache_max_size (length (set key entry cache)))) [
        | inr fits ↦ rw fits (ground (arith, get-set key key entry cache, eq_iff key key))
        | inl over ↦
            let (j, e, ne, there) = overflow cache le (ground arith) in
            rw (over, e)
              (ground (
                arith,
                get-delete_ne j key (set key entry cache) ne,
                get-set key key entry cache,
                eq_iff key key,
              ))
      ]

pub Ended-cases :
    (o : Option Ended)
    → (o ≡ none)
      ⊎ ((b : Bool) × (o ≡ some (settled b)))
      ⊎ ((e : HorizonError) × (o ≡ some (broke e)))
Ended-cases none = inl refl
Ended-cases (some (settled b)) = inr (inl (b, refl))
Ended-cases (some (broke e)) = inr (inr (e, refl))

-- A result of the loop over the attempts: a bounded cache, which holds the verdict if there is one.
pub record Kept (key : String) (r : Verified × Cache) : Type 0 where
  pub bounded : length r.1 ≤ verification_cache_max_size
  pub cached :
      (b : Bool)
      → r.0 ≡ returned b
      → (now : ℕ) × (get key r.1 ≡ some (record { result = b; timestamp = now }))

settled-Kept :
    (key : String) (b : Bool) (now : ℕ) (cache : Cache)
    → length cache ≤ verification_cache_max_size
    → Kept key (returned b, set_cache_entry key (record { result = b; timestamp = now }) cache)
settled-Kept key b now cache le = record {
  bounded = set_cache_entry-length key (record { result = b; timestamp = now }) cache le;
  cached = λ c e. (
    now,
    ground (arith, get-set_cache_entry key (record { result = b; timestamp = now }) cache le, e),
  );
}

module _ (js : JsNumber) (fuel : ℕ) (key : String) (expected : Option ExpectedTxDetails)
    (answers : ℕ → Attempt) where
  verify_attempts-Kept :
      (i left : ℕ) (last : Option HorizonError) (cache : Cache) (r : Verified × Cache)
      → length cache ≤ verification_cache_max_size
      → verify_attempts js fuel key expected answers i left last cache ≡ some r
      → Kept key r
  unfolding verify_attempts
  verify_attempts-Kept i zero last cache r le h = record {
    bounded = ground (arith, h, le);
    cached = λ b e. cc (h, e);
  }
  verify_attempts-Kept i (suc left) last cache r le h =
      elim (Ended-cases (run_attempt js fuel expected (answers i))) [
        | inl out ↦ cc (rw (out, verify_attempts) at h)
        | inr (inl (b, e)) ↦
            subst (Kept key)
              (some-injective
                (
                  returned b,
                  set_cache_entry key (record { result = b; timestamp = (answers i).now }) cache,
                )
                r (rw (e, verify_attempts) at h))
              (settled-Kept key b (answers i).now cache le)
        | inr (inr (m, e)) ↦
            verify_attempts-Kept (suc i) left (some m) cache r le (rw (e, verify_attempts) at h)
      ]

get_cached_fresh :
    (later : ℕ) (key : String) (cache : Cache) (b : Bool) (t : ℕ)
    → get key cache ≡ some (record { result = b; timestamp = t })
    → later < t + ttl b
    → get_cached later key cache ≡ some b
unfolding get_cached
get_cached_fresh later key cache b t g lt = rw (g, get_cached) (ground arith)

verify_transaction-cached :
    (js : JsNumber) (fuel later retries : ℕ) (tx_hash : String)
    (expected : Option ExpectedTxDetails) (answers : ℕ → Attempt) (cache : Cache) (b : Bool) (t : ℕ)
    → get (make_cache_key tx_hash expected) cache ≡ some (record { result = b; timestamp = t })
    → later < t + ttl b
    → verify_transaction js fuel later tx_hash retries expected answers cache
      ≡ some (returned b, cache)
unfolding verify_transaction
verify_transaction-cached js fuel later retries tx_hash expected answers cache b t g lt =
    rw (get_cached_fresh later (make_cache_key tx_hash expected) cache b t g lt, verify_transaction)
      refl

-- The cache never holds more than 5000 entries, and a verdict is in it: the same question, asked
-- again with that cache before the entry's time to live (an hour for true, half a minute for false)
-- has passed since the verdict, gets the same answer from the cache, whatever Horizon would say.
verify_transaction_again :
    (js : JsNumber) (fuel now retries : ℕ) (tx_hash : String) (expected : Option ExpectedTxDetails)
    (answers : ℕ → Attempt) (cache : Cache) (r : Verified × Cache)
    → length cache ≤ verification_cache_max_size
    → get_cached now (make_cache_key tx_hash expected) cache ≡ none
    → verify_transaction js fuel now tx_hash retries expected answers cache ≡ some r
    → (length r.1 ≤ verification_cache_max_size)
      × ((b : Bool)
          → r.0 ≡ returned b
          → (at : ℕ) × ((later : ℕ) (others : ℕ → Attempt)
              → later < at + ttl b
              → verify_transaction js fuel later tx_hash retries expected others r.1 ≡ some r))
unfolding verify_transaction
verify_transaction_again js fuel now retries tx_hash expected answers cache r le fresh h =
    let key = make_cache_key tx_hash expected in
    let k =
      verify_attempts-Kept js fuel key expected answers 0 retries none cache r le
        (rw (fresh, verify_transaction) at h) in
    (
      k.bounded,
      λ b e.
          let (t, g) = k.cached b e in
          (
            t,
            λ later others lt.
                verify_transaction-cached js fuel later retries tx_hash expected others r.1 b t g lt
                ∙ ap (λ v. some (v, r.1)) (sym e),
          ),
    )
