-- ===== src/Sanitizer/PublicUrls.antt =====
-- What validatePublicUrl answered for the URL fields of a sanitized body.
use nova_support.Base.{
  ◌≡◌, refl, ◌⊎◌, inl, inr, Bool, true, false, Option, none, [], String, Bool-cases, Option-cases,
  if◌then◌else◌,
}
use nova_support.Sanitizer.Units.{Text}
use nova_support.Sanitizer.{
  Json, null, bool, number, text, array, object, Items, nil, cons, Fields, end, field, proto,
  Violation, Libs, is_url_field, or_cleared, check_text, check_urls, check_items, check_fields,
  sanitize_body, sanitize_object,
}

module _ (validate_public_url : Text → Option Violation) where
  -- A text that a URL field may hold.
  abbrev pub IsPublic : Text → Type 0
  IsPublic t = (t ≡ []) ⊎ (validate_public_url t ≡ none)

  abbrev pub PublicField : String → Json → Type 0
  PublicField k (text t) = if is_url_field k then IsPublic t else Unit
  PublicField k null = Unit
  PublicField k (bool b) = Unit
  PublicField k (number n) = Unit
  PublicField k (array xs) = Unit
  PublicField k (object fs) = Unit

  -- Every text of a URL field that an object has itself, at any depth outside prototypes.
  unfoldable mutual
    pub PublicUrls : Json → Type 0
    PublicUrls null = Unit
    PublicUrls (bool b) = Unit
    PublicUrls (number n) = Unit
    PublicUrls (text t) = Unit
    PublicUrls (array xs) = PublicItems xs
    PublicUrls (object fs) = PublicFields fs

    pub PublicItems : Items → Type 0
    PublicItems nil = Unit
    PublicItems (cons x xs) = PublicUrls x × PublicItems xs

    pub PublicFields : Fields → Type 0
    PublicFields end = Unit
    PublicFields (field k v fs) = PublicField k v × PublicUrls v × PublicFields fs
    PublicFields (proto v fs) = PublicFields fs

  or_cleared-IsPublic : (t : Text) → IsPublic (or_cleared (validate_public_url t) t)
  or_cleared-IsPublic t = elim (Option-cases (validate_public_url t)) [
    | inl e ↦ rw e (inr e)
    | inr (v, e) ↦ rw e (inl refl)
  ]

  check_text-PublicField :
      (k : String) (v : Json)
      → PublicField k (check_text validate_public_url k v (check_urls validate_public_url v))
  unfolding check_text check_urls
  check_text-PublicField k (text t) = elim (Bool-cases (is_url_field k)) [
    | inl e ↦ rw (e, e) (or_cleared-IsPublic t)
    | inr e ↦ rw (e, e) tt
  ]
  check_text-PublicField k null = tt
  check_text-PublicField k (bool b) = tt
  check_text-PublicField k (number n) = tt
  check_text-PublicField k (array xs) = tt
  check_text-PublicField k (object fs) = tt

  text_or_nested : (b : Bool) (t u : Text) → PublicUrls (if b then text t else text u)
  unfolding PublicUrls
  text_or_nested true t u = tt
  text_or_nested false t u = tt

  check_text-PublicUrls :
      (k : String) (v : Json)
      → PublicUrls (check_urls validate_public_url v)
      → PublicUrls (check_text validate_public_url k v (check_urls validate_public_url v))
  unfolding check_text
  check_text-PublicUrls k (text t) h =
      text_or_nested (is_url_field k) (or_cleared (validate_public_url t) t) t
  check_text-PublicUrls k null h = h
  check_text-PublicUrls k (bool b) h = h
  check_text-PublicUrls k (number n) h = h
  check_text-PublicUrls k (array xs) h = h
  check_text-PublicUrls k (object fs) h = h

  mutual
    unfolding check_urls PublicUrls

    check_urls-PublicUrls : (j : Json) → PublicUrls (check_urls validate_public_url j)
    check_urls-PublicUrls null = tt
    check_urls-PublicUrls (bool b) = tt
    check_urls-PublicUrls (number n) = tt
    check_urls-PublicUrls (text t) = tt
    check_urls-PublicUrls (array xs) = check_items-PublicItems xs
    check_urls-PublicUrls (object fs) = check_fields-PublicFields fs

    check_items-PublicItems : (xs : Items) → PublicItems (check_items validate_public_url xs)
    check_items-PublicItems nil = tt
    check_items-PublicItems (cons x xs) = (check_urls-PublicUrls x, check_items-PublicItems xs)

    check_fields-PublicFields : (fs : Fields) → PublicFields (check_fields validate_public_url fs)
    check_fields-PublicFields end = tt
    check_fields-PublicFields (field k v fs) = (
      check_text-PublicField k v,
      check_text-PublicUrls k v (check_urls-PublicUrls v),
      check_fields-PublicFields fs,
    )
    check_fields-PublicFields (proto v fs) = check_fields-PublicFields fs

  -- In a body that the middleware passes on, every text that an object holds in a URL field of its own,
  -- at any depth, is empty or was admitted by validatePublicUrl. Nothing is said of the fields that an
  -- object inherits from a prototype, which a "__proto__" in the body gives it.
  pub sanitize_body-PublicUrls :
      (libs : Libs) (body : Json) → PublicUrls (sanitize_body validate_public_url libs body)
  unfolding sanitize_body PublicUrls
  sanitize_body-PublicUrls libs (object fs) =
      check_urls-PublicUrls (sanitize_object libs 0 none (object fs)).result
  sanitize_body-PublicUrls libs (array xs) =
      check_urls-PublicUrls (sanitize_object libs 0 none (array xs)).result
  sanitize_body-PublicUrls libs null = tt
  sanitize_body-PublicUrls libs (bool b) = tt
  sanitize_body-PublicUrls libs (number n) = tt
  sanitize_body-PublicUrls libs (text t) = tt
