-- ===== src/Store/Rows.antt =====
-- Rows that are found, updated and deleted by a unique column.
use nova_support.Base.{
  ◌++◌, ◌≤◌, ◌+◌, ◌≡◌, refl, sym, ◌∙◌, ap, inl, inr, Bool, false, some, List, [], ◌∷◌, String,
  arith, eq_iff, str_eq, filter, count, All, if◌then◌else◌, Bool-cases,
}
use nova_support.Store.{find_unique, update_where, delete_where}
use mathlib.Core.Option.{some-injective}
use mathlib.Core.Path.{subst}

module _ {ℓ} {A : Type ℓ} (key : A → String) (k : String) where
  pub find_unique-key : (x : A) (xs : List A) → find_unique key k xs ≡ some x → key x ≡ k
  unfolding find_unique
  find_unique-key x [] h = cc
  find_unique-key x (y ∷ xs) h = elim (Bool-cases (str_eq (key y) k)) [
    | inl e ↦
        let same : y ≡ x = some-injective y x (rw (e, find_unique) at h) in
        ap key (sym same) ∙ (eq_iff (key y) k).0 e
    | inr e ↦ find_unique-key x xs (rw (e, find_unique) at h)
  ]

  pub find_unique-All {κ} :
      (P : A → Type κ) (x : A) (xs : List A) → All P xs → find_unique key k xs ≡ some x → P x
  unfolding find_unique
  find_unique-All P x [] all h = cc
  find_unique-All P x (y ∷ xs) all h = elim (Bool-cases (str_eq (key y) k)) [
    | inl e ↦ subst P (some-injective y x (rw (e, find_unique) at h)) all.0
    | inr e ↦ find_unique-All P x xs all.1 (rw (e, find_unique) at h)
  ]

  -- A predicate on the rows that the change of the found row keeps.
  pub update_where-All {κ} :
      (P : A → Type κ) (f : A → A) (x : A) (xs : List A)
      → find_unique key k xs ≡ some x
      → P (f x)
      → All P xs
      → All P (update_where key k f xs)
  unfolding find_unique update_where
  update_where-All P f x [] h new all = cc
  update_where-All P f x (y ∷ xs) h new all = elim (Bool-cases (str_eq (key y) k)) [
    | inl e ↦
        rw (e, update_where)
          (subst (λ z. P (f z)) (sym (some-injective y x (rw (e, find_unique) at h))) new, all.1)
    | inr e ↦
        rw (e, update_where) (all.0, update_where-All P f x xs (rw (e, find_unique) at h) new all.1)
  ]

  -- Two changes that agree on the found row.
  pub update_where-at :
      (f g : A → A) (x : A) (xs : List A)
      → find_unique key k xs ≡ some x
      → f x ≡ g x
      → update_where key k f xs ≡ update_where key k g xs
  unfolding find_unique update_where
  update_where-at f g x [] h same = cc
  update_where-at f g x (y ∷ xs) h same = elim (Bool-cases (str_eq (key y) k)) [
    | inl e ↦
        let found : y ≡ x = some-injective y x (rw (e, find_unique) at h) in
        rw (e, update_where) (ap (λ z. z ∷ xs) (ap f found ∙ same ∙ ap g (sym found)))
    | inr e ↦
        rw (e, update_where)
          (ap (λ zs. y ∷ zs) (update_where-at f g x xs (rw (e, find_unique) at h) same))
  ]

  pub find_unique-update_where :
      (f : A → A) (x : A) (xs : List A)
      → find_unique key k xs ≡ some x
      → key (f x) ≡ k
      → find_unique key k (update_where key k f xs) ≡ some (f x)
  unfolding find_unique update_where
  find_unique-update_where f x [] h same = cc
  find_unique-update_where f x (y ∷ xs) h same = elim (Bool-cases (str_eq (key y) k)) [
    | inl e ↦
        let found = some-injective y x (rw (e, find_unique) at h) in
        subst (λ z. find_unique key k (update_where key k f (z ∷ xs)) ≡ some (f x)) (sym found)
          (rw
            (
              update_where,
              (eq_iff (key x) k).1 (subst (λ z. key z ≡ k) found ((eq_iff (key y) k).0 e)),
              find_unique,
              (eq_iff (key (f x)) k).1 same,
            )
            refl)
    | inr e ↦
        rw (e, update_where, e, find_unique)
          (find_unique-update_where f x xs (rw (e, find_unique) at h) same)
  ]

  pub delete_where-All {κ} :
      (P : A → Type κ) (xs : List A) → All P xs → All P (delete_where key k xs)
  unfolding delete_where
  delete_where-All P [] all = tt
  delete_where-All P (y ∷ xs) all = elim (Bool-cases (str_eq (key y) k)) [
    | inl e ↦ rw (e, delete_where) all.1
    | inr e ↦ rw (e, delete_where) (all.0, delete_where-All P xs all.1)
  ]

  -- The rows of another owner, when the found row is none of them before and after.
  pub filter-update_where :
      (p : A → Bool) (f : A → A) (x : A) (xs : List A)
      → find_unique key k xs ≡ some x
      → p x ≡ false
      → p (f x) ≡ false
      → filter p (update_where key k f xs) ≡ filter p xs
  unfolding find_unique update_where
  filter-update_where p f x [] h old new = cc
  filter-update_where p f x (y ∷ xs) h old new = elim (Bool-cases (str_eq (key y) k)) [
    | inl e ↦
        let same : x ≡ y = sym (some-injective y x (rw (e, find_unique) at h)) in
        rw
          (
            e,
            update_where,
            subst (λ z. p z ≡ false) same old,
            subst (λ z. p (f z) ≡ false) same new,
          )
          refl
    | inr e ↦
        rw (e, update_where, filter-update_where p f x xs (rw (e, find_unique) at h) old new) refl
  ]

  pub filter-delete_where :
      (p : A → Bool) (x : A) (xs : List A)
      → find_unique key k xs ≡ some x
      → p x ≡ false
      → filter p (delete_where key k xs) ≡ filter p xs
  unfolding find_unique delete_where
  filter-delete_where p x [] h old = cc
  filter-delete_where p x (y ∷ xs) h old = elim (Bool-cases (str_eq (key y) k)) [
    | inl e ↦
        let same : x ≡ y = sym (some-injective y x (rw (e, find_unique) at h)) in
        rw (e, delete_where, subst (λ z. p z ≡ false) same old) refl
    | inr e ↦ rw (e, delete_where, filter-delete_where p x xs (rw (e, find_unique) at h) old) refl
  ]

  -- One row leaves the predicate's count and its change enters it.
  pub count-update_where :
      (p : A → Bool) (f : A → A) (x : A) (xs : List A)
      → find_unique key k xs ≡ some x
      → (if p x then 1 else 0) + count p (update_where key k f xs)
        ≡ (if p (f x) then 1 else 0) + count p xs
  unfolding find_unique update_where
  count-update_where p f x [] h = cc
  count-update_where p f x (y ∷ xs) h = elim (Bool-cases (str_eq (key y) k)) [
    | inl e ↦
        let same : x ≡ y = sym (some-injective y x (rw (e, find_unique) at h)) in
        rw (e, update_where, same) (ground arith)
    | inr e ↦
        rw (e, update_where)
          (ground (arith, count-update_where p f x xs (rw (e, find_unique) at h)))
  ]

  pub count-delete_where-le :
      (p : A → Bool) (xs : List A) → count p (delete_where key k xs) ≤ count p xs
  unfolding delete_where
  count-delete_where-le p [] = omega arith
  count-delete_where-le p (y ∷ xs) = ground (arith, count-delete_where-le p xs)

pub filter-append_out {ℓ} :
    {A : Type ℓ} (p : A → Bool) (x : A) (xs : List A)
    → p x ≡ false
    → filter p (xs ++ (x ∷ [])) ≡ filter p xs
filter-append_out p x [] h = rw h refl
filter-append_out p x (y ∷ xs) h = rw (filter-append_out p x xs h) refl
