-- ===== src/Store/Fields.antt =====
-- The checks of backend/src/app.ts on the fields of request bodies: lengths as zod counts them,
-- hexadecimal texts and fields that may be absent.
use Prim.Native.Char.{Char, code}
use Prim.Native.String.{[], ◌∷◌}
use nova_support.Base.{
  ℕ, zero, suc, ◌+◌, Bool, true, false, ◌&&◌, ◌||◌, Option, none, some, String, leb, ltb, ◌==◌,
  if◌then◌else◌,
}

-- `length` in UTF-16 units, and `Buffer.byteLength` in UTF-8.
unfoldable pub utf16_length : String → ℕ
utf16_length [] = 0
utf16_length (c ∷ s) = (if ltb (code c) 65536 then 1 else 2) + utf16_length s

abbrev utf8_width : ℕ → ℕ
utf8_width c = if ltb c 128 then 1 else if ltb c 2048 then 2 else if ltb c 65536 then 3 else 4

unfoldable pub utf8_length : String → ℕ
utf8_length [] = 0
utf8_length (c ∷ s) = utf8_width (code c) + utf8_length s

abbrev pub between : ℕ → ℕ → ℕ → Bool
between low high n = leb low n && leb n high

abbrev pub optionally : (String → Bool) → Option String → Bool
optionally ok none = true
optionally ok (some s) = ok s

abbrev is_hex : ℕ → Bool
is_hex c = between 48 57 c || between 97 102 c || between 65 70 c

-- `^[0-9a-f]{n}$` without regard to case.
unfoldable pub hex_digits : ℕ → String → Bool
hex_digits n [] = n == 0
hex_digits zero (c ∷ s) = false
hex_digits (suc n) (c ∷ s) = is_hex (code c) && hex_digits n s

-- White space as `trim` takes it, up to U+FEFF.
abbrev pub is_white : ℕ → Bool
is_white c =
    between 9 13 c
    || c == 32
    || c == 160
    || c == 5760
    || between 8192 8202 c
    || between 8232 8233 c
    || c == 8239
    || c == 8287
    || c == 12288
    || c == 65279

unfoldable pub trim_start : String → String
trim_start [] = []
trim_start (c ∷ s) = let rest = trim_start s in if is_white (code c) then rest else c ∷ s

abbrev or_empty : Char → String → String
or_empty c [] = if is_white (code c) then [] else c ∷ []
or_empty c (d ∷ s) = c ∷ d ∷ s

unfoldable pub trim_end : String → String
trim_end [] = []
trim_end (c ∷ s) = or_empty c (trim_end s)

-- String.prototype.trim
unfoldable pub trim : String → String
unfolding trim_start trim_end
trim s = trim_end (trim_start s)
