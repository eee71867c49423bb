-- ===== src/StellarClient/Amounts/Tests.antt =====
-- The claims at concrete inputs.
use nova_support.Base.{◌≡◌, ◌≤◌, ◌<◌, ◌+◌, ◌*◌, ◌^◌, arith, refl, true}
use nova_support.Sanitizer.Units.{Text, units}
use nova_support.StellarClient.Amounts.{
  Tolerance, minimum, calculate_destination_minimum, numerator, scale, is_decimal, first_part,
  second_part, after_dot,
}
use nova_support.StellarClient.Amounts.Minimum.{
  units_of, places, calculate_destination_minimum-Nearest, calculate_destination_minimum-AtMost,
}

-- Two percent of 12.5.
abbrev tolerance : Tolerance
tolerance = record { in_range = true; text = units "0.02" }

calculate_destination_minimum-Nearest_example :
    (t : Text) × (calculate_destination_minimum (units "12.5") tolerance ≡ minimum t)
    × (places t ≡ 7)
    × (2 * (units_of t * 1000 + 125 * 2 * 10 ^ 7) ≤ 2 * (125 * 100 * 10 ^ 7) + 1000)
    × (2 * (125 * 100 * 10 ^ 7) < 2 * (units_of t * 1000 + 125 * 2 * 10 ^ 7) + 1000)
unfolding is_decimal first_part second_part after_dot
calculate_destination_minimum-Nearest_example =
    calculate_destination_minimum-Nearest (units "12.5") tolerance refl refl refl (omega arith)

calculate_destination_minimum-AtMost_example :
    (t : Text) × (calculate_destination_minimum (units "12.5") tolerance ≡ minimum t)
    × (units_of t ≤ 125000000)
unfolding is_decimal first_part second_part after_dot numerator scale
calculate_destination_minimum-AtMost_example =
    calculate_destination_minimum-AtMost (units "12.5") tolerance 125000000 refl refl refl refl
