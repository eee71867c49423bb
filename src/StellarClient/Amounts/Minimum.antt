-- ===== src/StellarClient/Amounts/Minimum.antt =====
-- The minimum is the tolerated amount to the nearest unit, and never more than the amount.
use native.Mathlib.Nat.{mul_assoc, mul_right_comm, one-le-pow}
use nova_support.Base.{
  ℕ, suc, ap, ◌+◌, ◌-◌, ◌*◌, ◌/◌, ◌%◌, ◌^◌, ◌≤◌, ◌<◌, ◌≡◌, refl, sym, ◌∙◌, true, [], ◌∷◌, ◌++◌,
  arith, length,
}
use nova_support.Sanitizer.Units.{Text}
use nova_support.StellarClient.Decimal.{
  all_digits, read_digits, to_string, pad_start, to_string-read, to_string-all_digits,
  pad_start-to_string,
}
use nova_support.StellarClient.Amounts.{
  Tolerance, minimum, first_part, after_dot, second_part, is_decimal, scale, numerator,
  minimum_units, print_units, left_numerator, left_denominator, calculate_destination_minimum,
}

first_part-digits : (s : Text) → all_digits s ≡ true → first_part s ≡ s
unfolding first_part
first_part-digits [] h = refl
first_part-digits (c ∷ s) h = ground (arith, h, first_part-digits s)

first_part-dot : (s t : Text) → all_digits s ≡ true → first_part (s ++ (46 ∷ t)) ≡ s
unfolding first_part
first_part-dot [] t h = refl
first_part-dot (c ∷ s) t h = ground (arith, h, first_part-dot s t)

after_dot-dot : (s t : Text) → all_digits s ≡ true → after_dot (s ++ (46 ∷ t)) ≡ t
unfolding after_dot
after_dot-dot [] t h = refl
after_dot-dot (c ∷ s) t h = ground (arith, h, after_dot-dot s t)

minimum_units-nearest :
    (n d : ℕ)
    → 0 < d
    → (2 * (minimum_units n d * d) ≤ 2 * n + d) × (2 * n < 2 * (minimum_units n d * d) + d)
unfolding minimum_units
minimum_units-nearest n d h = (grind arith, grind arith)

minimum_units-cap : (n d u : ℕ) → 0 < d → n ≤ u * d → minimum_units n d ≤ u
minimum_units-cap n d u h le = grind (arith, minimum_units-nearest n d h)

times_le : (u y z : ℕ) → y ≤ z → u * y ≤ u * z
times_le u y z h = grind arith

scaled : (a u s l x p : ℕ) → a * p ≡ u * s → x ≤ l → a * x * p ≤ u * (s * l)
scaled a u s l x p h le =
    rw (mul_right_comm a x p, h, mul_assoc u s x) (grind (arith, times_le u (s * x) (s * l)))

-- An amount of whole units, of which a part is left, rounds to no more.
minimum_units-le :
    (a s u l k : ℕ)
    → 0 < s
    → 0 < l
    → a * 10 ^ 7 ≡ u * s
    → minimum_units (a * (l - k) * 10 ^ 7) (s * l) ≤ u
minimum_units-le a s u l k hs hl h =
    minimum_units-cap (a * (l - k) * 10 ^ 7) (s * l) u (grind arith)
      (scaled a u s l (l - k) (10 ^ 7) h (omega arith))

-- The units that a printed amount stands for.
abbrev pub units_of : Text → ℕ
units_of t = read_digits 0 (first_part t) * 10 ^ 7 + read_digits 0 (second_part t)

print_units-read :
    (m : ℕ) → (length (second_part (print_units m)) ≡ 7) × (units_of (print_units m) ≡ m)
unfolding print_units second_part
print_units-read m =
    let whole = to_string (m / 10 ^ 7) in
    let digits = to_string-all_digits (m / 10 ^ 7) in
    let (seven, good, read) = pad_start-to_string 6 (m % 10 ^ 7) (omega arith) in
    let f = pad_start 7 (to_string (m % 10 ^ 7)) in
    rw (first_part-dot whole f digits, after_dot-dot whole f digits, first_part-digits f good)
      (seven, omega (arith, read, to_string-read (m / 10 ^ 7)))

left_denominator-pos : (amount tolerance : Text) → 0 < left_denominator amount tolerance
unfolding left_denominator scale
left_denominator-pos amount tolerance = grind (
  arith,
  one-le-pow (length (second_part amount)) 10 (omega arith),
  one-le-pow (length (second_part tolerance)) 10 (omega arith),
)

-- What a decimal text stands for: its digits without the dot, over ten to the places.
abbrev pub digits : Text → ℕ
digits t = read_digits 0 (first_part t ++ second_part t)

abbrev pub places : Text → ℕ
places t = length (second_part t)

place : (n c p r q : ℕ) → q ≡ p * 10 → (n * 10 + c) * p + r ≡ n * q + (c * p + r)
place n c p r q e = rw e (grind arith)

read_digits_from : (n : ℕ) (t : Text) → read_digits n t ≡ n * 10 ^ length t + read_digits 0 t
read_digits_from n [] = grind arith
read_digits_from n (c ∷ t) =
    read_digits_from (n * 10 + (c - 48)) t
    ∙ place n (c - 48) (10 ^ length t) (read_digits 0 t) (10 ^ suc (length t)) (grind arith)
    ∙ ap (λ z. n * 10 ^ suc (length t) + z)
        (sym (read_digits_from (c - 48) t) ∙ ap (λ k. read_digits k t) (omega arith))

read_digits_append : (n : ℕ) (s t : Text) → read_digits n (s ++ t) ≡ read_digits (read_digits n s) t
read_digits_append n [] t = refl
read_digits_append n (c ∷ s) t = read_digits_append (n * 10 + (c - 48)) s t

numerator-digits : (t : Text) → numerator t ≡ digits t
unfolding numerator scale
numerator-digits t = sym (
    read_digits_append 0 (first_part t) (second_part t)
    ∙ read_digits_from (read_digits 0 (first_part t)) (second_part t))

untolerated : (a k n p : ℕ) → n ≤ k → a * (k - n) * p + a * n * p ≡ a * k * p
untolerated a k n p h = part a (k - n) n p ∙ ap (λ z. a * z * p) (omega (arith, h))
  where
    part : (a m n p : ℕ) → a * m * p + a * n * p ≡ a * (m + n) * p
    part a m n p = grind arith

near_below : (u d x y z : ℕ) → x + y ≡ z → 2 * (u * d) ≤ 2 * x + d → 2 * (u * d + y) ≤ 2 * z + d
near_below u d x y z e h = omega arith

near_above : (u d x y z : ℕ) → x + y ≡ z → 2 * x < 2 * (u * d) + d → 2 * z < 2 * (u * d + y) + d
near_above u d x y z e h = omega arith

-- Of a decimal amount and a tolerance of at most 1 that prints as a decimal, the result is a decimal
-- with seven places, and together with the tolerated part of the amount, the amount times the
-- tolerance, it is the amount: at most half a unit above it and less than half a unit below.
pub calculate_destination_minimum-Nearest :
    (amount : Text) (tolerance : Tolerance)
    → tolerance.in_range ≡ true
    → is_decimal amount ≡ true
    → is_decimal tolerance.text ≡ true
    → digits tolerance.text ≤ 10 ^ places tolerance.text
    → let d = 10 ^ places amount * 10 ^ places tolerance.text in
      let whole = digits amount * 10 ^ places tolerance.text * 10 ^ 7 in
      let tolerated = digits amount * digits tolerance.text * 10 ^ 7 in
      (t : Text) × (calculate_destination_minimum amount tolerance ≡ minimum t)
      × (places t ≡ 7)
      × (2 * (units_of t * d + tolerated) ≤ 2 * whole + d)
      × (2 * whole < 2 * (units_of t * d + tolerated) + d)
unfolding calculate_destination_minimum left_numerator left_denominator scale
calculate_destination_minimum-Nearest amount tolerance range good tolerated below =
    let n = left_numerator amount tolerance.text in
    let d = left_denominator amount tolerance.text in
    let m = minimum_units n d in
    let (seven, read) = print_units-read m in
    let near = minimum_units-nearest n d (left_denominator-pos amount tolerance.text) in
    let whole : n + digits amount * digits tolerance.text * 10 ^ 7
        ≡ digits amount * 10 ^ places tolerance.text * 10 ^ 7 =
      rw (numerator-digits amount, numerator-digits tolerance.text)
        (untolerated (digits amount) (10 ^ places tolerance.text) (digits tolerance.text) (10 ^ 7)
          below) in
    (
      print_units m,
      rw (range, good, tolerated) refl,
      seven,
      rw read (near_below m d n _ _ whole near.0),
      rw read (near_above m d n _ _ whole near.1),
    )

-- Of an amount of `u` whole units, whatever the tolerance, the minimum is a decimal of at most `u`
-- units: it never asks for more than the estimate.
pub calculate_destination_minimum-AtMost :
    (amount : Text) (tolerance : Tolerance) (u : ℕ)
    → tolerance.in_range ≡ true
    → is_decimal amount ≡ true
    → is_decimal tolerance.text ≡ true
    → numerator amount * 10 ^ 7 ≡ u * scale amount
    → (t : Text) × (calculate_destination_minimum amount tolerance ≡ minimum t) × (units_of t ≤ u)
unfolding calculate_destination_minimum left_numerator left_denominator scale
calculate_destination_minimum-AtMost amount tolerance u range good tolerated whole =
    let s = one-le-pow (length (second_part amount)) 10 (omega arith) in
    let l = one-le-pow (length (second_part tolerance.text)) 10 (omega arith) in
    let m =
      minimum_units (left_numerator amount tolerance.text)
        (left_denominator amount tolerance.text) in
    (
      print_units m,
      rw (range, good, tolerated) refl,
      rw ((print_units-read m).1) (
          minimum_units-le (numerator amount) (scale amount) u (scale tolerance.text)
            (numerator tolerance.text) s l whole),
    )
