-- ===== src/Profiles/Rows.antt =====
-- Profiles have distinct ids, so that the row found by its username is the row found by its id.
use nova_support.Base.{
  All, ◌++◌, ◌||◌, arith, ◌≡◌, refl, ap, inl, inr, Bool, true, false, ◌&&◌, not, some, List, [],
  ◌∷◌, String, arith, eq_iff, str_eq, any, Bool-cases,
}
use mathlib.Core.Option.{some-injective}
use mathlib.Core.Path.{subst}
use nova_support.Store.{find_unique, update_where}
use nova_support.Profiles.{Account, id_of, username_of}

abbrev pub has_id : String → Account → Bool
has_id id a = str_eq a.id id

abbrev pub ids_distinct : List Account → Bool
ids_distinct [] = true
ids_distinct (a ∷ rest) = not (any (has_id a.id) rest) && ids_distinct rest

find_unique-any :
    (u : String) (a : Account) (xs : List Account)
    → find_unique username_of u xs ≡ some a
    → any (has_id a.id) xs ≡ true
unfolding find_unique
find_unique-any u a [] h = cc
find_unique-any u a (x ∷ xs) h = elim (Bool-cases (str_eq x.username u)) [
  | inl e ↦
      subst (λ z. any (has_id z.id) (x ∷ xs) ≡ true) (some-injective x a (rw (e, find_unique) at h))
        (rw ((eq_iff x.id x.id).1 refl) refl)
  | inr e ↦ rw (find_unique-any u a xs (rw (e, find_unique) at h)) (ground arith)
]

distinct-head :
    (x a : Account) (xs : List Account)
    → any (has_id x.id) xs ≡ false
    → any (has_id a.id) xs ≡ true
    → str_eq x.id a.id ≡ false
distinct-head x a xs out in_rest = elim (Bool-cases (str_eq x.id a.id)) [
  | inr e ↦ e
  | inl e ↦
      let same : any (has_id x.id) xs ≡ any (has_id a.id) xs =
        ap (λ k. any (has_id k) xs) ((eq_iff x.id a.id).0 e) in
      cc
]

pub find_unique-id :
    (u : String) (a : Account) (xs : List Account)
    → ids_distinct xs ≡ true
    → find_unique username_of u xs ≡ some a
    → find_unique id_of a.id xs ≡ some a
unfolding find_unique
find_unique-id u a [] d h = cc
find_unique-id u a (x ∷ xs) d h = elim (Bool-cases (str_eq x.username u)) [
  | inl e ↦
      let same = some-injective x a (rw (e, find_unique) at h) in
      subst (λ z. find_unique id_of z.id (x ∷ xs) ≡ some z) same
        (rw (find_unique, (eq_iff x.id x.id).1 refl) refl)
  | inr e ↦
      let later = rw (e, find_unique) at h in
      let there = find_unique-any u a xs later in
      let other = distinct-head x a xs (ground (arith, d)) there in
      rw (find_unique, other) (find_unique-id u a xs (ground (arith, d)) later)
]

-- An update that keeps the id.
module _ (f : Account → Account) (same : (a : Account) → (f a).id ≡ a.id) where
  any-update_where :
      (k id : String) (xs : List Account)
      → any (has_id k) (update_where id_of id f xs) ≡ any (has_id k) xs
  unfolding update_where
  any-update_where k id [] = refl
  any-update_where k id (x ∷ xs) = ground (arith, same x, any-update_where k id xs)

  pub ids_distinct-update_where :
      (id : String) (xs : List Account)
      → ids_distinct xs ≡ true
      → ids_distinct (update_where id_of id f xs) ≡ true
  unfolding update_where
  ids_distinct-update_where id [] h = refl
  ids_distinct-update_where id (x ∷ xs) h =
      ground (arith, h, same x, any-update_where x.id id xs, ids_distinct-update_where id xs)

pub All-update_where {κ} :
    (P : Account → Type κ) (f : Account → Account) (id : String) (xs : List Account)
    → ((a : Account) → P a → P (f a))
    → All P xs
    → All P (update_where id_of id f xs)
unfolding update_where
All-update_where P f id [] keep all = tt
All-update_where P f id (x ∷ xs) keep all = elim (Bool-cases (str_eq x.id id)) [
  | inl e ↦ rw (e, update_where) (keep x all.0, all.1)
  | inr e ↦ rw (e, update_where) (all.0, All-update_where P f id xs keep all.1)
]

any-append_id :
    (k : String) (n : Account) (xs : List Account)
    → any (has_id k) (xs ++ (n ∷ [])) ≡ (any (has_id k) xs || str_eq n.id k)
any-append_id k n [] = ground arith
any-append_id k n (x ∷ xs) = ground (arith, any-append_id k n xs)

pub ids_distinct-append :
    (n : Account) (xs : List Account)
    → ids_distinct xs ≡ true
    → any (has_id n.id) xs ≡ false
    → ids_distinct (xs ++ (n ∷ [])) ≡ true
ids_distinct-append n [] h fresh = refl
ids_distinct-append n (x ∷ xs) h fresh = ground (
  arith,
  h,
  fresh,
  eq_iff x.id n.id,
  eq_iff n.id x.id,
  any-append_id x.id n xs,
  ids_distinct-append n xs,
)
