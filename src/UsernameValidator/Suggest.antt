-- ===== src/UsernameValidator/Suggest.antt =====
-- The alternative names (generateSuggestions).
use mathlib.Core.List.{append-nil}
use nova_support.Base.{
  ℕ, zero, suc, ◌+◌, ◌-◌, ◌≤◌, ◌≡◌, refl, ap, ◌∙◌, Bool, true, false, ◌&&◌, ◌||◌, not, List, [],
  ◌∷◌, ◌++◌, arith, length, take, All, leb, ltb, ◌==◌, Option-cases, Bool-cases, inl, inr,
  length-append, length-take, any, is_some,
}
use nova_support.UsernameValidator.Format.{ends_with_hyphen, is_valid_username_iff}
use nova_support.UsernameValidator.{
  is_alnum, hyphen, base_of, push_if, timestamped, reverse, generate_suggestions, is_valid_username,
  units, units_eq, includes,
}

-- The suggestions behind a name: what `All` says of them, and the last one.
abbrev Short : List ℕ → Type 0
Short u = length u ≤ 32

push_if-All :
    (b : Bool) (u : List ℕ) (us : List (List ℕ))
    → (b ≡ true → Short u)
    → All Short us
    → All Short (push_if b u ++ us)
push_if-All true u us h k = (h refl, k)
push_if-All false u us h k = k

All-take {ℓ κ} : {A : Type ℓ} (P : A → Type κ) (n : ℕ) (xs : List A) → All P xs → All P (take n xs)
All-take P zero xs h = tt
All-take P (suc n) [] h = tt
All-take P (suc n) (x ∷ xs) h = (h.0, All-take P n xs h.1)

numeric-Short :
    (numeric_suffix base : List ℕ)
    → length numeric_suffix ≤ 31
    → Short (take (31 - length numeric_suffix) base ++ (hyphen ∷ numeric_suffix))
numeric-Short numeric_suffix base le = omega (
  arith,
  le,
  length-append (take (31 - length numeric_suffix) base) (hyphen ∷ numeric_suffix),
  length-take (31 - length numeric_suffix) base,
)

timestamped-Short : (base timestamp : List ℕ) → Short (timestamped base timestamp)
timestamped-Short base timestamp = omega (arith, length-take 32 (base ++ (hyphen ∷ timestamp)))

creator-Short :
    (base : List ℕ)
    → (not (includes (units "creator") base) && ltb (length base) 25) ≡ true
    → Short (units "creator-" ++ base)
creator-Short base h = ground (arith, h)

dev-Short : (base : List ℕ) → ltb (length base) 28 ≡ true → Short (base ++ units "-dev")
dev-Short base h = ground (arith, h, length-append base (units "-dev"))

-- No suggestion is longer than a name may be, when the random suffix has at most 31 digits, as the
-- digits of a number below 10000 are.
generate_suggestions-Short :
    (numeric_suffix timestamp u : List ℕ)
    → length numeric_suffix ≤ 31
    → All (λ v. length v ≤ 32) (generate_suggestions numeric_suffix timestamp u)
unfolding generate_suggestions
generate_suggestions-Short numeric_suffix timestamp u le =
    let base = base_of u in
    let creator = not (includes (units "creator") base) && ltb (length base) 25 in
    let back = not (units_eq (reverse base) base) && leb (length (reverse base)) 32 in
    All-take Short 5
      ((take (31 - length numeric_suffix) base ++ (hyphen ∷ numeric_suffix))
        ∷ (push_if creator (units "creator-" ++ base)
            ++ (push_if (ltb (length base) 28) (base ++ units "-dev")
                ++ (push_if back (reverse base) ++ (timestamped base timestamp ∷ [])))))
      (
        numeric-Short numeric_suffix base le,
        push_if-All creator (units "creator-" ++ base)
            (push_if (ltb (length base) 28) (base ++ units "-dev")
              ++ (push_if back (reverse base) ++ (timestamped base timestamp ∷ [])))
            (creator-Short base)
            (push_if-All (ltb (length base) 28) (base ++ units "-dev")
              (push_if back (reverse base) ++ (timestamped base timestamp ∷ [])) (dev-Short base)
              (push_if-All back (reverse base) (timestamped base timestamp ∷ [])
                (λ h. ground (arith, h)) (timestamped-Short base timestamp, tt))),
      )

any-last :
    (p : List ℕ → Bool) (a b c : Bool) (x u v w t : List ℕ)
    → p t ≡ true
    → any p (take 5 (x ∷ (push_if a u ++ (push_if b v ++ (push_if c w ++ (t ∷ [])))))) ≡ true
any-last p a b c x u v w t h = ground (arith, h)

-- Letters and digits only, as in a name without hyphens.
abbrev pub all_alnum : List ℕ → Bool
all_alnum [] = true
all_alnum (c ∷ cs) = is_alnum c && all_alnum cs

base_of_alnum : (u : List ℕ) → all_alnum u ≡ true → base_of u ≡ u
base_of_alnum [] h = refl
base_of_alnum (c ∷ cs) h = ground (arith, base_of_alnum cs, h)

units_eq_refl : (u : List ℕ) → units_eq u u ≡ true
units_eq_refl [] = refl
units_eq_refl (c ∷ cs) = ground (arith, units_eq_refl cs)

ends_with_hyphen-append : (u : List ℕ) → ends_with_hyphen (u ++ (hyphen ∷ [])) ≡ true
ends_with_hyphen-append [] = refl
ends_with_hyphen-append (c ∷ []) = refl
ends_with_hyphen-append (c ∷ d ∷ cs) = ends_with_hyphen-append (d ∷ cs)

take-append : (u v : List ℕ) (n k : ℕ) → n ≡ length u + k → take n (u ++ v) ≡ u ++ take k v
take-append [] v n k e = ap (λ m. take m v) (omega (arith, e))
take-append (c ∷ cs) v zero k e = absurd (omega (arith, e))
take-append (c ∷ cs) v (suc n) k e = ap (◌∷◌ c) (take-append cs v n k (omega (arith, e)))

abbrev unusable : List ℕ → List ℕ → Bool
unusable u v = units_eq v u || is_some (is_valid_username v)

unusable-hyphen : (u : List ℕ) → unusable u (u ++ (hyphen ∷ [])) ≡ true
unusable-hyphen u = elim (Option-cases (is_valid_username (u ++ (hyphen ∷ [])))) [
  | inr (e, bad) ↦ ground (arith, bad)
  | inl ok ↦
      let (w0, w1, w2, w3, w4, last) = (is_valid_username_iff (u ++ (hyphen ∷ []))).0 ok in
      ground (arith, last, ends_with_hyphen-append u)
]

timestamped-unusable :
    (u timestamp : List ℕ)
    → 31 ≤ length u
    → length u ≤ 32
    → unusable u (timestamped u timestamp) ≡ true
timestamped-unusable u timestamp le ge = elim (Bool-cases (length u == 32)) [
  | inl full ↦
      ap (unusable u)
        (take-append u (hyphen ∷ timestamp) 32 0 (ground (arith, full)) ∙ append-nil u)
      ∙ ground (arith, units_eq_refl u)
  | inr short ↦
      ap (unusable u) (take-append u (hyphen ∷ timestamp) 32 1 (ground (arith, short, le, ge)))
      ∙ unusable-hyphen u
]

-- For a name of 31 or 32 letters and digits, so a name without hyphens, one of the suggestions is
-- the name itself, or the validator rejects its format.
generate_suggestions-unusable :
    (numeric_suffix timestamp u : List ℕ)
    → all_alnum u ≡ true
    → 31 ≤ length u
    → length u ≤ 32
    → any
        (λ v. units_eq v u || is_some (is_valid_username v))
        (generate_suggestions numeric_suffix timestamp u)
      ≡ true
unfolding generate_suggestions
generate_suggestions-unusable numeric_suffix timestamp u h le ge =
    any-last (unusable u)
      (not (includes (units "creator") (base_of u)) && ltb (length (base_of u)) 25)
      (ltb (length (base_of u)) 28)
      (not (units_eq (reverse (base_of u)) (base_of u)) && leb (length (reverse (base_of u))) 32)
      (take (31 - length numeric_suffix) (base_of u) ++ (hyphen ∷ numeric_suffix))
      (units "creator-" ++ base_of u) (base_of u ++ units "-dev") (reverse (base_of u))
      (timestamped (base_of u) timestamp)
      (ap (λ v. unusable u (timestamped v timestamp)) (base_of_alnum u h)
        ∙ timestamped-unusable u timestamp le ge)
