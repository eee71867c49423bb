-- ===== src/UsernameValidator/Format.antt =====
-- Which names the validator admits (isValidUsername, validateUsername).
use nova_support.Base.{
  ℕ, ◌≤◌, ◌≡◌, refl, ap, sym, ◌∙◌, Option-cases, ◌↔◌, Bool, true, false, ◌&&◌, ◌||◌, not, none,
  List, [], ◌∷◌, String, arith, length, ◌==◌, inl, inr, map, any,
}
use nova_support.UsernameValidator.Words.{reserved_words}
use nova_support.UsernameValidator.{
  is_alnum, hyphen, starts_with_hyphen, units_eq, matches_rest, matches_format, is_valid_username,
  valid, is_reserved_username, contains_profanity, has_confusing_patterns, validate_username,
  to_lower, units,
}

-- Letters, digits and hyphens only.
abbrev pub only_name_units : List ℕ → Bool
only_name_units [] = true
only_name_units (c ∷ cs) = (is_alnum c || c == hyphen) && only_name_units cs

abbrev pub no_double_hyphen : List ℕ → Bool
no_double_hyphen [] = true
no_double_hyphen (c ∷ cs) = not (c == hyphen && starts_with_hyphen cs) && no_double_hyphen cs

abbrev pub ends_with_hyphen : List ℕ → Bool
ends_with_hyphen [] = false
ends_with_hyphen (c ∷ []) = c == hyphen
ends_with_hyphen (c ∷ d ∷ cs) = ends_with_hyphen (d ∷ cs)

matches_rest_lem :
    (c : ℕ) (cs : List ℕ)
    → matches_rest (c ∷ cs)
      ≡ (only_name_units (c ∷ cs) && no_double_hyphen (c ∷ cs) && not (ends_with_hyphen (c ∷ cs)))
unfolding matches_rest
matches_rest_lem c [] = ground arith
matches_rest_lem c (d ∷ cs) = ground (arith, matches_rest_lem d cs)

pub matches_format_lem :
    (c : ℕ) (cs : List ℕ)
    → matches_format (c ∷ cs) ≡ (
        only_name_units (c ∷ cs)
        && no_double_hyphen (c ∷ cs)
        && not (ends_with_hyphen (c ∷ cs))
        && not (starts_with_hyphen (c ∷ cs)))
unfolding matches_format
matches_format_lem c [] = ground arith
matches_format_lem c (d ∷ cs) = ground (arith, matches_rest_lem d cs)

-- What a name must be, without the regular expression.
abbrev pub WellFormed : List ℕ → Type 0
WellFormed u =
    (3 ≤ length u)
    × (length u ≤ 32)
    × (only_name_units u ≡ true)
    × (no_double_hyphen u ≡ true)
    × (starts_with_hyphen u ≡ false)
    × (ends_with_hyphen u ≡ false)

pub is_valid_username_iff : (u : List ℕ) → (is_valid_username u ≡ none) ↔ WellFormed u
unfolding is_valid_username
is_valid_username_iff [] = ground arith
is_valid_username_iff (c ∷ cs) = ground (arith, matches_format_lem c cs)

map-to_lower : (u : List ℕ) → only_name_units u ≡ true → map to_lower u ≡ u
map-to_lower [] h = refl
map-to_lower (c ∷ cs) h = ground (arith, map-to_lower cs, h)

abbrev pub in_words : List String → List ℕ → Bool
in_words ws u = any (λ w. units_eq (units w) u) ws

is_reserved_username_lem :
    (u : List ℕ) → only_name_units u ≡ true → is_reserved_username u ≡ in_words reserved_words u
unfolding is_reserved_username
is_reserved_username_lem u h = ap (in_words reserved_words) (map-to_lower u h)

validate_username_steps :
    (numeric_suffix timestamp u : List ℕ)
    → (validate_username numeric_suffix timestamp u ≡ valid) ↔ (
        (is_valid_username u ≡ none)
        × (is_reserved_username u ≡ false)
        × (contains_profanity u ≡ false)
        × (has_confusing_patterns u ≡ false))
unfolding validate_username
validate_username_steps numeric_suffix timestamp u = elim (Option-cases (is_valid_username u)) [
  | inr (e, bad) ↦ rw bad (ground arith)
  | inl ok ↦ rw ok (ground arith)
]

-- A name is valid exactly when it has 3 to 32 units, all of them lower-case letters, digits and
-- hyphens, with no hyphen first or last and no two in a row; it is itself none of the reserved
-- words; no run of word characters in it is a word of the filter; and no three units in a row are
-- among l, 0, 1 and o. What the suffixes of the suggestions are has no part in that.
pub validate_username_iff :
    (numeric_suffix timestamp u : List ℕ)
    → (validate_username numeric_suffix timestamp u ≡ valid) ↔ (
        WellFormed u
        × (in_words reserved_words u ≡ false)
        × (contains_profanity u ≡ false)
        × (has_confusing_patterns u ≡ false))
validate_username_iff numeric_suffix timestamp u =
    let (to, from) = validate_username_steps numeric_suffix timestamp u in
    let (shape, shaped) = is_valid_username_iff u in
    (
      λ h.
          let (v, r, p, c) = to h in
          let w = shape v in (w, sym (is_reserved_username_lem u w.2) ∙ r, p, c),
      λ h. let (w, r, p, c) = h in from (shaped w, is_reserved_username_lem u w.2 ∙ r, p, c),
    )
