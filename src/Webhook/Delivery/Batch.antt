-- ===== src/Webhook/Delivery/Batch.antt =====
-- The chunks of `processPendingWebhookDeliveries` (backend/src/services/webhook-processor.ts).
use mathlib.Core.List.{flatten}
use nova_support.Base.{
  ℕ, zero, suc, ◌≤◌, ◌<◌, ◌≡◌, refl, List, [], ◌∷◌, ◌++◌, arith, length, take, drop, All,
  length-take, length-drop, take-append-drop, ap, ◌∙◌,
}
use nova_support.Webhook.Delivery.{slice_chunks}

module _ {ℓ} {A : Type ℓ} where
  slice_chunks-flatten :
      (fuel concurrency : ℕ) (xs : List A)
      → 0 < concurrency
      → length xs ≤ fuel
      → flatten (slice_chunks fuel concurrency xs) ≡ xs
  unfolding slice_chunks flatten
  slice_chunks-flatten zero c [] h le = refl
  slice_chunks-flatten zero c (x ∷ xs) h le = absurd (omega arith)
  slice_chunks-flatten (suc fuel) c [] h le = refl
  slice_chunks-flatten (suc fuel) c (x ∷ xs) h le =
      ap (◌++◌ (take c (x ∷ xs)))
        (slice_chunks-flatten fuel c (drop c (x ∷ xs)) h (omega (arith, length-drop c (x ∷ xs))))
      ∙ take-append-drop c (x ∷ xs)

  slice_chunks_bounded :
      (fuel concurrency : ℕ) (xs : List A)
      → All (λ chunk. length chunk ≤ concurrency) (slice_chunks fuel concurrency xs)
  unfolding slice_chunks
  slice_chunks_bounded zero c xs = tt
  slice_chunks_bounded (suc fuel) c [] = tt
  slice_chunks_bounded (suc fuel) c (x ∷ xs) =
      (omega (arith, length-take c (x ∷ xs)), slice_chunks_bounded fuel c (drop c (x ∷ xs)))

  -- With a concurrency of at least one, as many rounds as there are deliveries are enough: the
  -- chunks are the deliveries in their order, each once, and none is longer than the concurrency.
  slice_chunks_total :
      (concurrency : ℕ) (xs : List A)
      → 0 < concurrency
      → (flatten (slice_chunks (length xs) concurrency xs) ≡ xs)
        × All (λ chunk. length chunk ≤ concurrency) (slice_chunks (length xs) concurrency xs)
  slice_chunks_total c xs h =
      (slice_chunks-flatten (length xs) c xs h (omega arith), slice_chunks_bounded (length xs) c xs)
