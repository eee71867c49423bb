-- ===== src/Webhook/Payload/Reorder.antt =====
-- Payloads that are the same up to the order of properties, at any depth.
use nova_support.Base.{ℕ, ◌≡◌, refl, ap, ◌∙◌, ◌≢◌, true, List, [], ◌∷◌, arith}
use nova_support.Sanitizer.Units.{Text, same}
use nova_support.Webhook.Payload.{
  Json, array, object, Items, nil, cons, Fields, end, field, insert, sort, get, parts, keys,
  canonical_json_stringify, canonical_items, canonical_fields,
}
use nova_support.Webhook.Payload.Order.{insert_comm}

mutual
  pub data SameJson : Json → Json → Type 0 where
    same_value : {j : Json} → SameJson j j
    arrays : {xs ys : Items} → SameItems xs ys → SameJson (array xs) (array ys)
    objects : {fs gs : Fields} → SameFields fs gs → SameJson (object fs) (object gs)

  pub data SameItems : Items → Items → Type 0 where
    no_items : SameItems nil nil
    same_item :
        {x y : Json} {xs ys : Items}
        → SameJson x y
        → SameItems xs ys
        → SameItems (cons x xs) (cons y ys)

  pub data SameFields : Fields → Fields → Type 0 where
    no_fields : SameFields end end
    same_field :
        {k : Text} {v w : Json} {fs gs : Fields}
        → SameJson v w
        → SameFields fs gs
        → SameFields (field k v fs) (field k w gs)
    swap :
        {k l : Text} {v w : Json} {fs : Fields}
        → k ≢ l
        → SameFields (field k v (field l w fs)) (field l w (field k v fs))
    trans : {fs gs hs : Fields} → SameFields fs gs → SameFields gs hs → SameFields fs hs

pub same→eq : (s t : Text) → same s t ≡ true → s ≡ t
same→eq [] [] h = refl
same→eq [] (d ∷ t) h = cc
same→eq (c ∷ s) [] h = cc
same→eq (c ∷ s) (d ∷ t) h = ground (arith, same→eq s t)

get-swap :
    (k l m : Text) (v w : Text) (r : List (Text × Text))
    → k ≢ l
    → get m ((k, v) ∷ (l, w) ∷ r) ≡ get m ((l, w) ∷ (k, v) ∷ r)
unfolding get
get-swap k l m v w r ne = ground (arith, same→eq k m, same→eq l m, ne)

parts-eq :
    (m n : List (Text × Text)) (ks : List Text)
    → ((k : Text) → get k m ≡ get k n)
    → parts m ks ≡ parts n ks
unfolding parts
parts-eq m n [] h = refl
parts-eq m n (k ∷ ks) h = rw (h k, parts-eq m n ks h) refl

module _ (number_text : ℕ → Text) where
  mutual
    unfolding canonical_json_stringify get sort

    canonical_eq :
        {j k : Json}
        → SameJson j k
        → canonical_json_stringify number_text j ≡ canonical_json_stringify number_text k
    canonical_eq same_value = refl
    canonical_eq (arrays xs) = rw (items_eq xs) refl
    canonical_eq (objects {fs} {gs} f) =
        let (sorted, looked_up) = fields_eq f in
        rw
          (
            sorted,
            parts-eq (canonical_fields number_text fs) (canonical_fields number_text gs)
                (sort (keys gs)) looked_up,
          )
          refl

    items_eq :
        {xs ys : Items}
        → SameItems xs ys
        → canonical_items number_text xs ≡ canonical_items number_text ys
    items_eq no_items = refl
    items_eq (same_item x xs) = rw (canonical_eq x, items_eq xs) refl

    fields_eq :
        {fs gs : Fields}
        → SameFields fs gs
        → (sort (keys fs) ≡ sort (keys gs))
          × ((k : Text)
              → get k (canonical_fields number_text fs) ≡ get k (canonical_fields number_text gs))
    fields_eq no_fields = (refl, λ k. refl)
    fields_eq (same_field {k} v f) =
        let (sorted, looked_up) = fields_eq f in
        (ap (insert k) sorted, λ l. rw (canonical_eq v, looked_up l) refl)
    fields_eq (swap {k} {l} {v} {w} {fs} ne) = (
      insert_comm k l (sort (keys fs)),
      λ m.
          get-swap k l m (canonical_json_stringify number_text v)
            (canonical_json_stringify number_text w) (canonical_fields number_text fs) ne,
    )
    fields_eq (trans f g) =
        let (sorted, looked_up) = fields_eq f in
        let (sorted_too, looked_up_too) = fields_eq g in
        (sorted ∙ sorted_too, λ k. looked_up k ∙ looked_up_too k)

  -- Two payloads that differ in the order of properties only, at any depth, have one canonical text.
  pub canonical_json_stringify-SameJson :
      {j k : Json}
      → SameJson j k
      → canonical_json_stringify number_text j ≡ canonical_json_stringify number_text k
  canonical_json_stringify-SameJson h = canonical_eq h
