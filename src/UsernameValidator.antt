-- ===== src/UsernameValidator.antt =====
-- backend/src/utils/username-validator.ts, over the UTF-16 units of the names. The random suffix and
-- the timestamp in base 36 are arguments.
mod Words
mod Format
mod Suggest
pub mod Tests
use Prim.Native.Char.{code}
use nova_support.Base.{
  ℕ, zero, suc, ◌+◌, ◌-◌, Bool, true, false, ◌&&◌, ◌||◌, not, Option, none, some, List, [], ◌∷◌,
  ◌++◌, String, map, filter, any, take, drop, length, leb, ltb, ◌==◌, if◌then◌else◌,
}
use nova_support.UsernameValidator.Words.{reserved_words, profanity_filter}

abbrev pub units : String → List ℕ
units Prim.Native.String.[] = []
units (Prim.Native.String.◌∷◌ c s) = code c ∷ units s

abbrev pub units_eq : List ℕ → List ℕ → Bool
units_eq [] [] = true
units_eq [] (y ∷ ys) = false
units_eq (x ∷ xs) [] = false
units_eq (x ∷ xs) (y ∷ ys) = x == y && units_eq xs ys

abbrev pub hyphen : ℕ
hyphen = 45

abbrev pub between : ℕ → ℕ → ℕ → Bool
between low high c = leb low c && leb c high

-- `[a-z0-9]`
abbrev pub is_alnum : ℕ → Bool
is_alnum c = between 97 122 c || between 48 57 c

-- `\w`
abbrev pub is_word : ℕ → Bool
is_word c = is_alnum c || between 65 90 c || c == 95

-- On the letters A to Z: the only ones that lower-case to `[a-z]` in a name that is well formed.
abbrev pub to_lower : ℕ → ℕ
to_lower c = if between 65 90 c then c + 32 else c

pub data UsernameError : Type 0 where
  too_short : UsernameError
  too_long : UsernameError
  bad_format : UsernameError
  reserved : UsernameError
  inappropriate : UsernameError
  confusing : UsernameError
  taken : UsernameError

pub data Validation : Type 0 where
  valid : Validation
  invalid : UsernameError → Option (List (List ℕ)) → Validation

abbrev pub starts_with_hyphen : List ℕ → Bool
starts_with_hyphen [] = false
starts_with_hyphen (c ∷ cs) = c == hyphen

-- `([a-z0-9]|-(?!-))*[a-z0-9]$`: end here, or go round once more.
pub matches_rest : List ℕ → Bool
matches_rest [] = false
matches_rest (c ∷ cs) =
    is_alnum c && units_eq cs []
    || (is_alnum c || c == hyphen && not (starts_with_hyphen cs)) && matches_rest cs

-- The whole of `validFormat`, with its second alternative `^[a-z0-9]$`.
pub matches_format : List ℕ → Bool
unfolding matches_rest
matches_format [] = false
matches_format (c ∷ cs) = is_alnum c && matches_rest cs || is_alnum c && units_eq cs []

pub is_valid_username : List ℕ → Option UsernameError
unfolding matches_format
is_valid_username u =
    if ltb (length u) 3
    then some too_short
    else if ltb 32 (length u)
    then some too_long
    else if matches_format u
    then none
    else some bad_format

pub is_reserved_username : List ℕ → Bool
is_reserved_username u = any (λ w. units_eq (units w) (map to_lower u)) reserved_words

-- The maximal runs of word characters, which are what `\b` cuts out.
words_from : List ℕ → List ℕ → List (List ℕ)
words_from run [] = run ∷ []
words_from run (c ∷ cs) =
    if is_word c then words_from (run ++ (c ∷ [])) cs else run ∷ words_from [] cs

pub contains_profanity : List ℕ → Bool
unfolding words_from
contains_profanity u =
    any (λ run. any (λ w. units_eq (units w) (map to_lower run)) profanity_filter) (words_from [] u)

-- `[l01o]`
abbrev pub is_confusing : ℕ → Bool
is_confusing c = c == 108 || c == 48 || c == 49 || c == 111

-- `[l01o]{3,}`
pub has_confusing_patterns : List ℕ → Bool
has_confusing_patterns (a ∷ b ∷ c ∷ cs) =
    is_confusing a && is_confusing b && is_confusing c || has_confusing_patterns (b ∷ c ∷ cs)
has_confusing_patterns u = false

abbrev starts_with : List ℕ → List ℕ → Bool
starts_with [] u = true
starts_with (p ∷ ps) [] = false
starts_with (p ∷ ps) (c ∷ cs) = p == c && starts_with ps cs

-- `u.includes(w)`
includes : List ℕ → List ℕ → Bool
includes w [] = starts_with w []
includes w (c ∷ cs) = starts_with w (c ∷ cs) || includes w cs

abbrev pub reverse : List ℕ → List ℕ
reverse [] = []
reverse (c ∷ cs) = reverse cs ++ (c ∷ [])

abbrev pub base_of : List ℕ → List ℕ
base_of u = filter is_alnum (map to_lower u)

abbrev pub push_if : Bool → List ℕ → List (List ℕ)
push_if b u = if b then u ∷ [] else []

-- The last suggestion, `` `${base}-${timestamp}`.substring(0, 32) ``.
abbrev pub timestamped : List ℕ → List ℕ → List ℕ
timestamped base timestamp = take 32 (base ++ (hyphen ∷ timestamp))

suggestions_of : List ℕ → List ℕ → List ℕ → List (List ℕ)
unfolding includes
suggestions_of numeric_suffix timestamp base = take 5 (
    (take (31 - length numeric_suffix) base ++ (hyphen ∷ numeric_suffix))
    ∷ (push_if (not (includes (units "creator") base) && ltb (length base) 25)
          (units "creator-" ++ base)
        ++ (push_if (ltb (length base) 28) (base ++ units "-dev")
            ++ (push_if (not (units_eq (reverse base) base) && leb (length (reverse base)) 32)
                  (reverse base)
                ++ (timestamped base timestamp ∷ [])))))

pub generate_suggestions : List ℕ → List ℕ → List ℕ → List (List ℕ)
unfolding suggestions_of
generate_suggestions numeric_suffix timestamp u =
    suggestions_of numeric_suffix timestamp (base_of u)

pub validate_username : List ℕ → List ℕ → List ℕ → Validation
validate_username numeric_suffix timestamp u = elim (is_valid_username u) [
  | some error ↦ invalid error none
  | none ↦
      if is_reserved_username u
      then invalid reserved (some (generate_suggestions numeric_suffix timestamp u))
      else if contains_profanity u
      then invalid inappropriate (some (generate_suggestions numeric_suffix timestamp u))
      else if has_confusing_patterns u
      then invalid confusing none
      else valid
]

pub validate_username_with_taken_check : List ℕ → List ℕ → Bool → List ℕ → Validation
unfolding validate_username
validate_username_with_taken_check numeric_suffix timestamp is_taken u =
    elim (validate_username numeric_suffix timestamp u) [
      | invalid error suggestions ↦ invalid error suggestions
      | valid ↦
          if is_taken
          then invalid taken (some (generate_suggestions numeric_suffix timestamp u))
          else valid
    ]
