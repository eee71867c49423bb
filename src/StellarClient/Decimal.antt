-- ===== src/StellarClient/Decimal.antt =====
-- Decimal digits as frontend/src/lib/stellar.ts reads and prints them: BigInt of a text of digits,
-- toString and padStart, on UTF-16 units.
use mathlib.Core.Logic.{dite}
use mathlib.Core.WellFounded.{Acc}
use native.Mathlib.Decide.{dec_lt}
use nova_support.Base.{
  ℕ, zero, suc, ◌+◌, ◌-◌, ◌*◌, ◌/◌, ◌%◌, ◌^◌, ◌<◌, ◌≤◌, ◌≡◌, refl, ap, ◌∙◌, Bool, true, ◌&&◌, [],
  ◌∷◌, ◌++◌, arith, length,
}
use nova_support.Sanitizer.Units.{Text, between}

-- `\d`
abbrev pub is_digit : ℕ → Bool
is_digit c = between 48 57 c

abbrev pub all_digits : Text → Bool
all_digits [] = true
all_digits (c ∷ s) = is_digit c && all_digits s

-- What the digits `s` add to the number read before them.
abbrev pub read_digits : ℕ → Text → ℕ
read_digits n [] = n
read_digits n (c ∷ s) = read_digits (n * 10 + (c - 48)) s

pub Acc-below : (k n : ℕ) → n < k → Acc ◌<◌ n
Acc-below zero n h = elim h [ ]
Acc-below (suc k) n h = Acc.intro n (λ m hm. Acc-below k m (omega arith))

tenth-lt : (n : ℕ) → 9 < n → n / 10 < n
tenth-lt n h = omega arith

emit : (n : ℕ) → Acc ◌<◌ n → Text → Text
emit n (Acc.intro _ smaller) out =
    dite (dec_lt 9 n) (λ h. emit (n / 10) (smaller (n / 10) (tenth-lt n h)) ((48 + n % 10) ∷ out))
      (λ h. (48 + n) ∷ out)

accessible : (n : ℕ) → Acc ◌<◌ n
unfolding Acc-below
accessible n = Acc-below (suc n) n (omega arith)

-- BigInt.prototype.toString
pub to_string : ℕ → Text
unfolding emit accessible
to_string n = emit n (accessible n) []

zeros : ℕ → Text
zeros zero = []
zeros (suc n) = 48 ∷ zeros n

-- `padStart(width, "0")`
pub pad_start : ℕ → Text → Text
unfolding zeros
pad_start width s = zeros (width - length s) ++ s

pub dite-cases {ℓ κ ι} :
    {B : Type ℓ} {A : Type κ} (P : A → Type ι) (d : Dec B) (f : B → A) (g : ¬ B → A)
    → ((h : B) → P (f h))
    → ((h : ¬ B) → P (g h))
    → P (dite d f g)
dite-cases P (yes h) f g left right = left h
dite-cases P (no h) f g left right = right h

emit-read : (n : ℕ) (a : Acc ◌<◌ n) (out : Text) → read_digits 0 (emit n a out) ≡ read_digits n out
unfolding emit
emit-read n (Acc.intro _ smaller) out =
    dite-cases (λ t. read_digits 0 t ≡ read_digits n out) (dec_lt 9 n) _ _
      (λ h.
        emit-read (n / 10) (smaller (n / 10) (tenth-lt n h)) ((48 + n % 10) ∷ out)
        ∙ ap (λ m. read_digits m out) (omega arith))
      (λ h. ap (λ m. read_digits m out) (omega arith))

emit-all_digits :
    (n : ℕ) (a : Acc ◌<◌ n) (out : Text) → all_digits out ≡ true → all_digits (emit n a out) ≡ true
unfolding emit
emit-all_digits n (Acc.intro _ smaller) out h =
    dite-cases (λ t. all_digits t ≡ true) (dec_lt 9 n) _ _
      (λ big.
        emit-all_digits (n / 10) (smaller (n / 10) (tenth-lt n big)) ((48 + n % 10) ∷ out)
          (ground (arith, h)))
      (λ small. ground (arith, h, small))

-- A number below `10 ^ suc k` has at most `suc k` digits.
emit-length :
    (k n : ℕ) (a : Acc ◌<◌ n) (out : Text)
    → n < 10 ^ suc k
    → length (emit n a out) ≤ suc k + length out
unfolding emit
emit-length zero n (Acc.intro _ smaller) out h =
    dite-cases (λ t. length t ≤ 1 + length out) (dec_lt 9 n)
      (λ big. emit (n / 10) (smaller (n / 10) (tenth-lt n big)) ((48 + n % 10) ∷ out))
      (λ small. (48 + n) ∷ out) (λ big. omega arith) (λ small. omega arith)
emit-length (suc k) n (Acc.intro _ smaller) out h =
    dite-cases (λ t. length t ≤ suc (suc k) + length out) (dec_lt 9 n)
      (λ big. emit (n / 10) (smaller (n / 10) (tenth-lt n big)) ((48 + n % 10) ∷ out))
      (λ small. (48 + n) ∷ out)
      (λ big.
        let rest =
          emit-length k (n / 10) (smaller (n / 10) (tenth-lt n big)) ((48 + n % 10) ∷ out)
            (grind (arith, h)) in
        omega (arith, rest))
      (λ small. omega arith)

pub to_string-read : (n : ℕ) → read_digits 0 (to_string n) ≡ n
unfolding to_string
to_string-read n = emit-read n (accessible n) []

pub to_string-all_digits : (n : ℕ) → all_digits (to_string n) ≡ true
unfolding to_string
to_string-all_digits n = emit-all_digits n (accessible n) [] refl

length-to_string : (k n : ℕ) → n < 10 ^ suc k → length (to_string n) ≤ suc k
unfolding to_string
length-to_string k n h = omega (arith, emit-length k n (accessible n) [] h)

read_digits-zeros : (n : ℕ) (s : Text) → read_digits 0 (zeros n ++ s) ≡ read_digits 0 s
unfolding zeros
read_digits-zeros zero s = refl
read_digits-zeros (suc n) s = read_digits-zeros n s

all_digits-zeros : (n : ℕ) (s : Text) → all_digits (zeros n ++ s) ≡ all_digits s
unfolding zeros
all_digits-zeros zero s = refl
all_digits-zeros (suc n) s = all_digits-zeros n s

length-zeros : (n : ℕ) (s : Text) → length (zeros n ++ s) ≡ n + length s
unfolding zeros
length-zeros zero s = omega arith
length-zeros (suc n) s = omega (arith, length-zeros n s)

-- A number below `10 ^ suc k`, padded to `suc k` digits, has that many digits and reads as itself.
pub pad_start-to_string :
    (k n : ℕ)
    → n < 10 ^ suc k
    → (length (pad_start (suc k) (to_string n)) ≡ suc k)
      × (all_digits (pad_start (suc k) (to_string n)) ≡ true)
      × (read_digits 0 (pad_start (suc k) (to_string n)) ≡ n)
unfolding pad_start
pad_start-to_string k n h =
    let t = to_string n in
    (
      omega (arith, length-zeros (suc k - length t) t, length-to_string k n h),
      all_digits-zeros (suc k - length t) t ∙ to_string-all_digits n,
      read_digits-zeros (suc k - length t) t ∙ to_string-read n,
    )
