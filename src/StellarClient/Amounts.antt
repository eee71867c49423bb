-- ===== src/StellarClient/Amounts.antt =====
-- calculateDestinationMinimum of frontend/src/lib/stellar.ts, on UTF-16 units and the BigInts as
-- natural numbers. A tolerance is whether it is finite and in [0, 1), with the text of its toString.
mod Minimum
mod Tests
use nova_support.Base.{
  ℕ, ◌+◌, ◌-◌, ◌*◌, ◌/◌, ◌%◌, ◌^◌, Bool, true, false, ◌&&◌, not, Option, none, some, [], ◌∷◌, ◌++◌,
  String, leb, ◌==◌, if◌then◌else◌, length,
}
use nova_support.Sanitizer.Units.{Text}
use nova_support.StellarClient.Decimal.{all_digits, read_digits, to_string, pad_start}

pub record Tolerance : Type 0 where
  pub in_range : Bool
  pub text : Text

pub data DestinationMinimum : Type 0 where
  minimum : Text → DestinationMinimum
  thrown : String → DestinationMinimum

-- The two first parts of `split(".")`, the second "" if there is none.
pub first_part : Text → Text
first_part [] = []
first_part (c ∷ s) = let rest = first_part s in if c == 46 then [] else c ∷ rest

pub after_dot : Text → Text
after_dot [] = []
after_dot (c ∷ s) = let rest = after_dot s in if c == 46 then s else rest

pub second_part : Text → Text
unfolding first_part after_dot
second_part t = first_part (after_dot t)

pub is_decimal : Text → Bool
unfolding second_part
is_decimal t =
    not (length (first_part t) == 0) && all_digits (first_part t) && all_digits (second_part t)

-- `10n ** BigInt(fraction.length)`
pub scale : Text → ℕ
scale t = 10 ^ length (second_part t)

pub numerator : Text → ℕ
numerator t = read_digits 0 (first_part t) * scale t + read_digits 0 (second_part t)

-- The quotient, rounded to the nearest, a half up.
pub minimum_units : ℕ → ℕ → ℕ
minimum_units n d = n / d + (if leb d (n % d * 2) then 1 else 0)

pub print_units : ℕ → Text
print_units m = to_string (m / 10 ^ 7) ++ (46 ∷ pad_start 7 (to_string (m % 10 ^ 7)))

-- The fraction that is left of an amount by a tolerance, in ten-millionths.
pub left_numerator : Text → Text → ℕ
left_numerator amount tolerance =
    numerator amount * (scale tolerance - numerator tolerance) * 10 ^ 7

pub left_denominator : Text → Text → ℕ
left_denominator amount tolerance = scale amount * scale tolerance

-- A tolerance that prints with an exponent is no text of a BigInt.
pub calculate_destination_minimum : Text → Tolerance → DestinationMinimum
unfolding is_decimal minimum_units print_units left_numerator left_denominator
calculate_destination_minimum amount tolerance =
    if not tolerance.in_range
    then thrown "Slippage tolerance must be between 0 and 1."
    else if not (is_decimal amount)
    then thrown "Stellar amount must be a decimal number."
    else if not (is_decimal tolerance.text)
    then thrown "SyntaxError"
    else minimum (
        print_units (
          minimum_units (left_numerator amount tolerance.text)
            (left_denominator amount tolerance.text)))
