-- ===== src/Sanitizer/Units.antt =====
-- The operations on texts that backend/src/middleware/sanitize.ts uses, over UTF-16 units.
use Prim.Native.Char.{code}
use nova_support.Base.{
  ℕ, Bool, true, false, ◌&&◌, ◌||◌, Option, none, some, List, [], ◌∷◌, String, leb, ◌==◌,
  if◌then◌else◌,
}

abbrev pub Text : Type 0
Text = List ℕ

-- The units of an ASCII text.
abbrev pub units : String → Text
units Prim.Native.String.[] = []
units (Prim.Native.String.◌∷◌ c s) = code c ∷ units s

-- `===`
abbrev pub same : Text → Text → Bool
same [] [] = true
same [] (y ∷ ys) = false
same (x ∷ xs) [] = false
same (x ∷ xs) (y ∷ ys) = x == y && same xs ys

abbrev pub between : ℕ → ℕ → ℕ → Bool
between low high c = leb low c && leb c high

-- `\s`, which is what `trim` removes.
abbrev pub is_white : ℕ → Bool
is_white c =
    between 9 13 c
    || c == 32
    || c == 160
    || c == 5760
    || between 8192 8202 c
    || between 8232 8233 c
    || c == 8239
    || c == 8287
    || c == 12288
    || c == 65279

-- `[a-zA-Z0-9]`
abbrev pub is_alnum : ℕ → Bool
is_alnum c = between 48 57 c || between 65 90 c || between 97 122 c

-- Without the units at the start, and at the end, that satisfy a test.
unfoldable pub drop_start : (ℕ → Bool) → Text → Text
drop_start p [] = []
drop_start p (c ∷ cs) = let rest = drop_start p cs in if p c then rest else c ∷ cs

abbrev pub join_unless : (ℕ → Bool) → ℕ → Text → Text
join_unless p c [] = if p c then [] else c ∷ []
join_unless p c (d ∷ ds) = c ∷ d ∷ ds

unfoldable pub drop_end : (ℕ → Bool) → Text → Text
drop_end p [] = []
drop_end p (c ∷ cs) = join_unless p c (drop_end p cs)

unfoldable pub strip_ends : (ℕ → Bool) → Text → Text
unfolding drop_start drop_end
strip_ends p t = drop_end p (drop_start p t)

unfoldable pub trim : Text → Text
unfolding strip_ends
trim t = strip_ends is_white t

-- What follows a prefix.
unfoldable pub after : Text → Text → Option Text
after [] t = some t
after (p ∷ ps) [] = none
after (p ∷ ps) (c ∷ cs) = let rest = after ps cs in if p == c then rest else none

abbrev pub starts_with : Text → Text → Bool
starts_with p t = elim (after p t) [ none ↦ false | some rest ↦ true ]

abbrev also : ℕ → Option Text → Option Text
also c none = none
also c (some t) = some (c ∷ t)

-- What precedes the first occurrence of a separator.
unfoldable pub before : Text → Text → Option Text
unfolding after
before p [] = if starts_with p [] then some [] else none
before p (c ∷ cs) =
    let rest = before p cs in if starts_with p (c ∷ cs) then some [] else also c rest

abbrev pub includes : Text → Text → Bool
includes p t = elim (before p t) [ none ↦ false | some s ↦ true ]

unfoldable pub ends_with : Text → Text → Bool
ends_with p [] = same p []
ends_with p (c ∷ cs) = same p (c ∷ cs) || ends_with p cs

abbrev pub every : (ℕ → Bool) → Text → Bool
every p [] = true
every p (c ∷ cs) = p c && every p cs
