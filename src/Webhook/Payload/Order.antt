-- ===== src/Webhook/Payload/Order.antt =====
-- The order of texts is total, and sorting forgets the order that the keys came in.
use nova_support.Base.{◌≡◌, refl, true, false, List, [], ◌∷◌, arith}
use nova_support.Sanitizer.Units.{Text}
use nova_support.Webhook.Payload.{text_leb, insert}

text_leb_total : (s t : Text) → text_leb s t ≡ false → text_leb t s ≡ true
unfolding text_leb
text_leb_total [] t h = cc
text_leb_total (c ∷ s) [] h = refl
text_leb_total (c ∷ s) (d ∷ t) h = ground (arith, text_leb_total s t)

text_leb_antisym : (s t : Text) → text_leb s t ≡ true → text_leb t s ≡ true → s ≡ t
unfolding text_leb
text_leb_antisym [] [] h k = refl
text_leb_antisym [] (d ∷ t) h k = cc
text_leb_antisym (c ∷ s) [] h k = cc
text_leb_antisym (c ∷ s) (d ∷ t) h k = ground (arith, text_leb_antisym s t)

text_leb_trans : (s t u : Text) → text_leb s t ≡ true → text_leb t u ≡ true → text_leb s u ≡ true
unfolding text_leb
text_leb_trans [] t u h k = refl
text_leb_trans (c ∷ s) [] u h k = cc
text_leb_trans (c ∷ s) (d ∷ t) [] h k = cc
text_leb_trans (c ∷ s) (d ∷ t) (e ∷ u) h k = ground (arith, text_leb_trans s t u)

pub insert_comm : (k l : Text) (ls : List Text) → insert k (insert l ls) ≡ insert l (insert k ls)
unfolding insert
insert_comm k l [] = ground (arith, text_leb_total k l, text_leb_antisym k l)
insert_comm k l (m ∷ ls) = ground (
  arith,
  text_leb_total k l,
  text_leb_antisym k l,
  text_leb_trans k l m,
  text_leb_trans l k m,
  insert_comm k l ls,
)
