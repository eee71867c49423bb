-- ===== src/Sanitizer/Clean.antt =====
-- Which units the texts of a sanitized value do not have.
use nova_support.Base.{
  ℕ, suc, ◌≡◌, refl, inl, inr, Bool, true, false, not, Option, some, [], ◌∷◌, String, str_eq, arith,
  ◌==◌, ltb, any, filter, Bool-cases, if◌then◌else◌,
}
use nova_support.Sanitizer.Units.{Text, same, every, trim}
use nova_support.Sanitizer.{
  Json, null, bool, number, text, array, object, Items, nil, cons, Fields, end, field, Libs,
  Sanitized, text_or, item_key, sanitize_string, string_steps, field_steps, security_steps,
  remove_units, nfc_step, is_control, allows_newlines, sanitize_object, sanitize_items,
  sanitize_fields, proto, set_proto, assign, null_bytes, control_characters, Violation,
}

-- No NUL and no control character but tab, line feed and carriage return.
abbrev pub IsClean : Text → Type 0
IsClean t = every (λ c. not (is_control true c)) t ≡ true

every_kept :
    (p : ℕ → Bool) (q : ℕ → Bool)
    → ((c : ℕ) → p c ≡ false → q c ≡ true)
    → (t : Text) → any p t ≡ false
    → every q t ≡ true
every_kept p q h [] e = refl
every_kept p q h (c ∷ cs) e = elim (Bool-cases (p c)) [
  | inl f ↦ cc (rw f at e)
  | inr f ↦ rw (h c f) (every_kept p q h cs (rw f at e))
]

every-filter :
    (p : ℕ → Bool) (q : ℕ → Bool)
    → ((c : ℕ) → p c ≡ false → q c ≡ true)
    → (t : Text) → every q (filter (λ c. not (p c)) t) ≡ true
every-filter p q h [] = refl
every-filter p q h (c ∷ cs) = elim (Bool-cases (p c)) [
  | inl f ↦ rw f (every-filter p q h cs)
  | inr f ↦ rw f (rw (h c f) (every-filter p q h cs))
]

-- A unit outside the class that a field removes is clean.
outside_control :
    (newlines : Bool) (c : ℕ) → is_control newlines c ≡ false → not (is_control true c) ≡ true
outside_control true c h = rw h refl
outside_control false c h = ground arith

remove_units-IsClean :
    (newlines : Bool) (v : Violation) (t : Text)
    → IsClean (remove_units (is_control newlines) v t).0
unfolding remove_units
remove_units-IsClean newlines v t = elim (Bool-cases (any (is_control newlines) t)) [
  | inl e ↦ rw e (
      every-filter (is_control newlines) (λ c. not (is_control true c)) (outside_control newlines)
        t)
  | inr e ↦ rw e (
      every_kept (is_control newlines) (λ c. not (is_control true c)) (outside_control newlines) t
        e)
]

-- The normal form brings no control character in.
abbrev pub NfcKeepsClean : Libs → Type 0
NfcKeepsClean libs = (t : Text) → IsClean t → IsClean (libs.nfc t)

module _ (libs : Libs) (keeps : NfcKeepsClean libs) where
  nfc_step-IsClean : (t : Text) → IsClean t → IsClean (nfc_step libs t).0
  unfolding nfc_step
  nfc_step-IsClean t h = elim (Bool-cases (same (libs.nfc t) t)) [
    | inl e ↦ rw e h
    | inr e ↦ rw e (keeps t h)
  ]

  security_steps-IsClean : (key : String) (t : Text) → IsClean (security_steps libs key t).0
  unfolding security_steps
  security_steps-IsClean key [] = refl
  security_steps-IsClean key (c ∷ cs) =
      let kept = (remove_units (λ d. d == 0) null_bytes (c ∷ cs)).0 in
      nfc_step-IsClean (remove_units (is_control (allows_newlines key)) control_characters kept).0
        (remove_units-IsClean (allows_newlines key) control_characters kept)

  sanitize_string-IsClean : (key : String) (t : Text) → IsClean (sanitize_string libs key t).result
  unfolding sanitize_string string_steps
  sanitize_string-IsClean key t = security_steps-IsClean key (field_steps libs key (trim t)).0

-- A nested value holds clean texts, to the depth that the walk goes.
abbrev pub CleanValue : Json → Type 0
CleanValue (text t) = IsClean t
CleanValue null = Unit
CleanValue (bool b) = Unit
CleanValue (number n) = Unit
CleanValue (array xs) = Unit
CleanValue (object fs) = Unit

unfoldable mutual
  pub CleanBody : ℕ → Json → Type 0
  CleanBody depth null = Unit
  CleanBody depth (bool b) = Unit
  CleanBody depth (number n) = Unit
  CleanBody depth (text t) = Unit
  CleanBody depth (array xs) =
      let inner = CleanItems depth xs in if ltb 10 depth then Unit else inner
  CleanBody depth (object fs) =
      let inner = CleanFields depth fs in if ltb 10 depth then Unit else inner

  pub CleanItems : ℕ → Items → Type 0
  CleanItems depth nil = Unit
  CleanItems depth (cons x xs) = CleanValue x × CleanBody (suc depth) x × CleanItems depth xs

  pub CleanFields : ℕ → Fields → Type 0
  CleanFields depth end = Unit
  CleanFields depth (field k v fs) = CleanValue v × CleanBody (suc depth) v × CleanFields depth fs
  CleanFields depth (proto v fs) = CleanValue v × CleanBody (suc depth) v × CleanFields depth fs

set_proto-CleanFields :
    (depth : ℕ) (v : Json) (fs : Fields)
    → CleanValue v
    → CleanBody (suc depth) v
    → CleanFields depth fs
    → CleanFields depth (set_proto v fs)
unfolding set_proto CleanBody
set_proto-CleanFields depth null fs c b h = (c, b, h)
set_proto-CleanFields depth (array xs) fs c b h = (c, b, h)
set_proto-CleanFields depth (object gs) fs c b h = (c, b, h)
set_proto-CleanFields depth (bool x) fs c b h = h
set_proto-CleanFields depth (number n) fs c b h = h
set_proto-CleanFields depth (text t) fs c b h = h

assign-CleanFields :
    (k : String) (depth : ℕ) (v : Json) (fs : Fields)
    → CleanValue v
    → CleanBody (suc depth) v
    → CleanFields depth fs
    → CleanFields depth (assign k v fs)
unfolding assign CleanBody
assign-CleanFields k depth v fs c b h = elim (Bool-cases (str_eq k "__proto__")) [
  | inl e ↦ rw e (set_proto-CleanFields depth v fs c b h)
  | inr e ↦ rw e (c, b, h)
]

module _ (libs : Libs) (keeps : NfcKeepsClean libs) where
  text_or-CleanValue :
      (key : String) (depth : ℕ) (parent : Option String) (v : Json)
      → CleanValue (text_or libs key v (sanitize_object libs depth parent v)).result
  unfolding text_or sanitize_object
  text_or-CleanValue key depth parent (text t) = sanitize_string-IsClean libs keeps key t
  text_or-CleanValue key depth parent null = tt
  text_or-CleanValue key depth parent (bool b) = tt
  text_or-CleanValue key depth parent (number n) = tt
  text_or-CleanValue key depth parent (array xs) = elim (Bool-cases (ltb 10 depth)) [
    | inl e ↦ rw e tt
    | inr e ↦ rw e tt
  ]
  text_or-CleanValue key depth parent (object fs) = elim (Bool-cases (ltb 10 depth)) [
    | inl e ↦ rw e tt
    | inr e ↦ rw e tt
  ]

  text_or-CleanBody :
      (key : String) (depth : ℕ) (v : Json) (nested : Sanitized Json)
      → CleanBody depth nested.result
      → CleanBody depth (text_or libs key v nested).result
  unfolding text_or CleanBody
  text_or-CleanBody key depth (text t) nested h = tt
  text_or-CleanBody key depth null nested h = h
  text_or-CleanBody key depth (bool b) nested h = h
  text_or-CleanBody key depth (number n) nested h = h
  text_or-CleanBody key depth (array xs) nested h = h
  text_or-CleanBody key depth (object fs) nested h = h

  mutual
    unfolding sanitize_object CleanBody

    object-CleanBody :
        (depth : ℕ) (parent : Option String) (j : Json)
        → CleanBody depth (sanitize_object libs depth parent j).result
    object-CleanBody depth parent null = tt
    object-CleanBody depth parent (bool b) = tt
    object-CleanBody depth parent (number n) = tt
    object-CleanBody depth parent (text t) = tt
    object-CleanBody depth parent (array xs) = elim (Bool-cases (ltb 10 depth)) [
      | inl e ↦ rw (e, e) tt
      | inr e ↦ rw (e, e) (sanitize_items-CleanItems depth parent xs)
    ]
    object-CleanBody depth parent (object fs) = elim (Bool-cases (ltb 10 depth)) [
      | inl e ↦ rw (e, e) tt
      | inr e ↦ rw (e, e) (sanitize_fields-CleanFields depth fs)
    ]

    sanitize_items-CleanItems :
        (depth : ℕ) (parent : Option String) (xs : Items)
        → CleanItems depth (sanitize_items libs depth parent xs).result
    sanitize_items-CleanItems depth parent nil = tt
    sanitize_items-CleanItems depth parent (cons x xs) = (
      text_or-CleanValue (item_key parent) (suc depth) parent x,
      text_or-CleanBody (item_key parent) (suc depth) x (sanitize_object libs (suc depth) parent x)
          (object-CleanBody (suc depth) parent x),
      sanitize_items-CleanItems depth parent xs,
    )

    sanitize_fields-CleanFields :
        (depth : ℕ) (fs : Fields) → CleanFields depth (sanitize_fields libs depth fs).result
    sanitize_fields-CleanFields depth end = tt
    sanitize_fields-CleanFields depth (field k v fs) =
        assign-CleanFields k depth _ _ (text_or-CleanValue k (suc depth) (some k) v)
          (text_or-CleanBody k (suc depth) v (sanitize_object libs (suc depth) (some k) v)
            (object-CleanBody (suc depth) (some k) v))
          (sanitize_fields-CleanFields depth fs)
    sanitize_fields-CleanFields depth (proto v fs) = sanitize_fields-CleanFields depth fs

  -- Every text in an array or an object at a depth of at most 10 comes out without NUL and without
  -- control characters but tab, line feed and carriage return, given that the Unicode normal form
  -- brings none in.
  pub sanitize_object-CleanBody :
      (depth : ℕ) (parent : Option String) (j : Json)
      → CleanBody depth (sanitize_object libs depth parent j).result
  sanitize_object-CleanBody depth parent j = object-CleanBody depth parent j
