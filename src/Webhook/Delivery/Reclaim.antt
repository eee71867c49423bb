-- ===== src/Webhook/Delivery/Reclaim.antt =====
-- `reclaimStuckWebhookDeliveries` (backend/src/services/webhook-processor.ts) over the whole table.
use mathlib.Core.List.{Memᴰ}
use nova_support.Base.{
  ℕ, zero, suc, ◌≤◌, ◌≡◌, refl, ap, ◌∙◌, inl, inr, Bool, true, false, Option, none, some, List, [],
  ◌∷◌, String, arith, length, take, filter, map, ltb, leb, eq_iff, Bool-cases, sym, All,
}
use nova_support.Webhook.Delivery.{
  Delivery, is_processing, is_stuck, max_delivery_attempts, update_many, ids, mem_id, give_up_where,
  return_where, return_each, reclaim_stuck, give_up_stuck, return_stuck,
}

abbrev or_self : Delivery → Option Delivery → Delivery
or_self d none = d
or_self d (some d') = d'

update_many-map :
    (f : Delivery → Option Delivery) (ds : List Delivery)
    → (update_many f ds).0 ≡ map (λ d. or_self d (f d)) ds
unfolding update_many
update_many-map f [] = refl
update_many-map f (d ∷ ds) = ground (arith, update_many-map f ds)

module _ (now timeout : ℕ) where
  -- What the loop over `retryable` does to one row.
  returned : List String → Delivery → Delivery
  returned [] d = d
  returned (i ∷ is) d = returned is (or_self d (return_where now timeout i d))

  map-map :
      (f g : Delivery → Delivery) (ds : List Delivery) → map f (map g ds) ≡ map (λ d. f (g d)) ds
  map-map f g [] = refl
  map-map f g (d ∷ ds) = ap (◌∷◌ (f (g d))) (map-map f g ds)

  map-id : (ds : List Delivery) → map (λ d. d) ds ≡ ds
  map-id [] = refl
  map-id (d ∷ ds) = ap (◌∷◌ d) (map-id ds)

  return_each-map :
      (is : List String) (ds : List Delivery)
      → (return_each now timeout is ds).0 ≡ map (returned is) ds
  unfolding return_each returned
  return_each-map [] ds = sym (map-id ds)
  return_each-map (i ∷ is) ds =
      return_each-map is (update_many (return_where now timeout i) ds).0
      ∙ ap (map (returned is)) (update_many-map (return_where now timeout i) ds)
      ∙ map-map (returned is) (λ d. or_self d (return_where now timeout i d)) ds

  returned_free :
      (is : List String) (d : Delivery) → is_stuck now timeout d ≡ false → returned is d ≡ d
  unfolding returned return_where
  returned_free [] d h = refl
  returned_free (i ∷ is) d h = ground (arith, returned_free is d h)

  -- A row that is stuck after the loop was so before, and is none of the loop's.
  returned_stuck :
      (is : List String) (d : Delivery)
      → is_stuck now timeout (returned is d) ≡ true
      → (is_stuck now timeout d ≡ true) × (mem_id d.id is ≡ false)
  unfolding returned return_where is_stuck return_stuck
  returned_stuck [] d h = (h, refl)
  returned_stuck (i ∷ is) d h = ground (
    arith,
    eq_iff d.id i,
    eq_iff i d.id,
    returned_stuck is d,
    returned_free is (return_stuck now d),
  )

  -- A row that survives the first write as stuck is none of its ids.
  given_up_stuck :
      (is : List String) (d : Delivery)
      → is_stuck now timeout (or_self d (give_up_where now is d)) ≡ true
      → (or_self d (give_up_where now is d) ≡ d)
        × (is_stuck now timeout d ≡ true)
        × (mem_id d.id is ≡ false)
  unfolding give_up_where is_stuck give_up_stuck
  given_up_stuck is d h = ground arith

  listed :
      (keep : Delivery → Bool) (d : Delivery) (rows : List Delivery)
      → Memᴰ d rows
      → is_stuck now timeout d ≡ true
      → keep d ≡ true
      → mem_id d.id (ids (filter keep (filter (is_stuck now timeout) rows))) ≡ true
  listed keep d [] m s k = elim m [ ]
  listed keep d (x ∷ rows) (Memᴰ.head e) s k = rw (← e, s, k) (ground (arith, eq_iff d.id d.id))
  listed keep d (x ∷ rows) (Memᴰ.tail m) s k = ground (arith, listed keep d rows m s k)

  -- The two writes of the sweep on one row, for the ids that it gives up and those it returns.
  swept : List String → List String → Delivery → Delivery
  swept worn retryable d = returned retryable (or_self d (give_up_where now worn d))

  give_up_idle :
      (is : List String) (d : Delivery)
      → is_processing d.status ≡ false
      → or_self d (give_up_where now is d) ≡ d
  unfolding give_up_where
  give_up_idle is d h = ground arith

  not_stuck : (d : Delivery) → is_processing d.status ≡ false → is_stuck now timeout d ≡ false
  unfolding is_stuck
  not_stuck d h = ground arith

  swept_idle :
      (worn retryable : List String) (d : Delivery)
      → is_processing d.status ≡ false
      → swept worn retryable d ≡ d
  unfolding swept
  swept_idle worn retryable d h =
      rw (give_up_idle worn d h) (returned_free retryable d (not_stuck d h))

  swept_stuck :
      (worn retryable : List String) (d : Delivery)
      → is_stuck now timeout (swept worn retryable d) ≡ true
      → (is_stuck now timeout d ≡ true)
        × (mem_id d.id worn ≡ false)
        × (mem_id d.id retryable ≡ false)
  unfolding swept
  swept_stuck worn retryable d h =
      let r = returned_stuck retryable (or_self d (give_up_where now worn d)) h in
      let g = given_up_stuck worn d r.0 in (g.1, g.2, rw (g.0) at (r.1))

  take_all {ℓ} : {A : Type ℓ} (n : ℕ) (xs : List A) → length xs ≤ n → take n xs ≡ xs
  take_all zero [] h = refl
  take_all zero (x ∷ xs) h = absurd (omega arith)
  take_all (suc n) [] h = refl
  take_all (suc n) (x ∷ xs) h = ap (◌∷◌ x) (take_all n xs (omega arith))

  All-map {κ} :
      (P : Delivery → Type κ) (f : Delivery → Delivery) (xs : List Delivery)
      → ((x : Delivery) → Memᴰ x xs → P (f x))
      → All P (map f xs)
  All-map P f [] h = tt
  All-map P f (x ∷ xs) h = (h x (Memᴰ.head refl), All-map P f xs (λ y m. h y (Memᴰ.tail m)))

  abbrev stuck_rows : List Delivery → List Delivery
  stuck_rows rows = filter (is_stuck now timeout) rows

  abbrev worn_ids : List Delivery → List String
  worn_ids rows = ids (filter (λ d. leb max_delivery_attempts d.attempt_count) (stuck_rows rows))

  abbrev retryable_ids : List Delivery → List String
  retryable_ids rows =
      ids (filter (λ d. ltb d.attempt_count max_delivery_attempts) (stuck_rows rows))

  reclaim_stuck-map :
      (rows : List Delivery)
      → length (stuck_rows rows) ≤ 100
      → (reclaim_stuck now timeout rows).0 ≡ map (swept (worn_ids rows) (retryable_ids rows)) rows
  unfolding reclaim_stuck swept
  reclaim_stuck-map rows h = rw (take_all 100 (stuck_rows rows) h) (
      return_each-map (retryable_ids rows) (update_many (give_up_where now (worn_ids rows)) rows).0
      ∙ ap (map (returned (retryable_ids rows))) (update_many-map _ rows)
      ∙ map-map _ _ rows)

  swept_free :
      (rows : List Delivery) (d : Delivery)
      → Memᴰ d rows
      → is_stuck now timeout (swept (worn_ids rows) (retryable_ids rows) d) ≡ false
  swept_free rows d m =
      elim (Bool-cases (is_stuck now timeout (swept (worn_ids rows) (retryable_ids rows) d))) [
        | inr free ↦ free
        | inl stuck ↦
            let s = swept_stuck (worn_ids rows) (retryable_ids rows) d stuck in
            ground (
              arith,
              s.1,
              s.2,
              listed (λ d. leb max_delivery_attempts d.attempt_count) d rows m (s.0),
              listed (λ d. ltb d.attempt_count max_delivery_attempts) d rows m (s.0),
            )
      ]

  -- If at most 100 deliveries are stuck, the sweep is one function over the rows that leaves every
  -- row alone which is not being processed, and after it no row is stuck.
  reclaim_stuck_frees :
      (rows : List Delivery)
      → length (filter (is_stuck now timeout) rows) ≤ 100
      → (f : Delivery → Delivery) × ((reclaim_stuck now timeout rows).0 ≡ map f rows)
        × ((d : Delivery) → is_processing d.status ≡ false → f d ≡ d)
        × All (λ d. is_stuck now timeout d ≡ false) (reclaim_stuck now timeout rows).0
  reclaim_stuck_frees rows h =
      let f = swept (worn_ids rows) (retryable_ids rows) in
      let e = reclaim_stuck-map rows h in
      (
        f,
        e,
        swept_idle (worn_ids rows) (retryable_ids rows),
        rw e (All-map (λ d. is_stuck now timeout d ≡ false) f rows (swept_free rows)),
      )
