-- ===== src/Store/Amount.antt =====
-- The amounts of the request bodies in backend/src/app.ts: the texts of the pattern
-- `^\d+(\.\d{1,7})?$`, which the schemas of support transactions, milestones and subscriptions
-- share, as numbers of ten-millionths.
use Prim.Native.Char.{code}
use Prim.Native.String.{[], ◌∷◌}
use nova_support.Base.{
  arith, ◌<◌, ◌≡◌, inl, inr, Bool-cases, Option-cases, ℕ, zero, suc, ◌+◌, ◌-◌, ◌*◌, ◌^◌, Bool, ◌&&◌,
  Option, none, some, String, leb, ltb, ◌==◌, if◌then◌else◌,
}

abbrev is_digit : ℕ → Bool
is_digit c = leb 48 c && leb c 57

abbrev digit : ℕ → ℕ
digit c = c - 48

abbrev dot : ℕ
dot = 46

-- The digits after the point, of which `left` may still come, to `n` ten-millionths so far.
fraction_digits : ℕ → ℕ → String → Option ℕ
fraction_digits left n [] = some (n * 10 ^ left)
fraction_digits zero n (c ∷ cs) = none
fraction_digits (suc left) n (c ∷ cs) =
    let rest = fraction_digits left (n * 10 + digit (code c)) cs in
    if is_digit (code c) then rest else none

fraction : ℕ → String → Option ℕ
unfolding fraction_digits
fraction n [] = none
fraction n (c ∷ cs) =
    if is_digit (code c) then fraction_digits 6 (n * 10 + digit (code c)) cs else none

integer_digits : ℕ → String → Option ℕ
unfolding fraction
integer_digits n [] = some (n * 10 ^ 7)
integer_digits n (c ∷ cs) =
    let rest = integer_digits (n * 10 + digit (code c)) cs in
    if is_digit (code c) then rest else if code c == dot then fraction n cs else none

-- The pattern and `parseFloat(v) > 0`; the value is what `new Decimal(v)` has.
unfoldable pub parse_amount : String → Option ℕ
unfolding integer_digits
parse_amount [] = none
parse_amount (c ∷ cs) =
    if is_digit (code c)
    then elim (integer_digits (digit (code c)) cs) [
      | none ↦ none
      | some n ↦ if ltb 0 n then some n else none
    ]
    else none

pub parse_amount-positive : (s : String) (n : ℕ) → parse_amount s ≡ some n → 0 < n
unfolding parse_amount
parse_amount-positive [] n h = cc
parse_amount-positive (c ∷ cs) n h = elim (Bool-cases (is_digit (code c))) [
  | inr e ↦ cc (rw (e, parse_amount) at h)
  | inl e ↦ elim (Option-cases (integer_digits (digit (code c)) cs)) [
    | inl f ↦ cc (rw (e, f, parse_amount) at h)
    | inr (k, f) ↦ positive k (rw (e, f, parse_amount) at h)
  ]
]
  where
    positive : (k : ℕ) → (if ltb 0 k then some k else none) ≡ some n → 0 < n
    positive k q = ground arith
