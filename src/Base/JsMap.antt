-- ===== src/Base/JsMap.antt =====
-- A JavaScript `Map` with string keys: entries in insertion order. `set` on a key that is present
-- keeps the key's place.
use Prim.Native.Nat.{suc}
use Prim.Native.String.{String}
use mathlib.Core.Path.{◌≡◌, refl}
use mathlib.Core.Bool.{true}
use mathlib.Core.Logic.{◌≢◌}
use mathlib.Core.Option.{Option, none, some}
use mathlib.Core.List.{List, [], ◌∷◌}
use native.Mathlib.Omega.{arith}
use text.Mathlib.TextEquality.{eq_iff}
use nova_support.Base.Tests.{str_eq, if◌then◌else◌, is_some}
use nova_support.Base.Lists.{length}

module _ {ℓ} {V : Type ℓ} where
  unfoldable pub get : String → List (String × V) → Option V
  get k [] = none
  get k ((j, v) ∷ m) = if str_eq j k then some v else get k m

  unfoldable pub set : String → V → List (String × V) → List (String × V)
  set k v [] = (k, v) ∷ []
  set k v ((j, w) ∷ m) = if str_eq j k then (j, v) ∷ m else (j, w) ∷ set k v m

  unfoldable pub delete : String → List (String × V) → List (String × V)
  delete k [] = []
  delete k ((j, v) ∷ m) = if str_eq j k then m else (j, v) ∷ delete k m

  -- `map.keys().next().value`
  unfoldable pub first_key : List (String × V) → Option String
  first_key [] = none
  first_key ((j, v) ∷ m) = some j

  pub get-set :
      (k j : String) (v : V) (m : List (String × V))
      → get j (set k v m) ≡ (if str_eq k j then some v else get j m)
  unfolding get set
  get-set k j v [] = refl
  get-set k j v ((i, w) ∷ m) = ground (arith, eq_iff k j, eq_iff i k, eq_iff i j, get-set k j v m)

  pub length-set :
      (k : String) (v : V) (m : List (String × V))
      → length (set k v m) ≡ (if is_some (get k m) then length m else suc (length m))
  unfolding get set
  length-set k v [] = refl
  length-set k v ((i, w) ∷ m) = ground (arith, length-set k v m)

  pub length-delete :
      (k : String) (m : List (String × V))
      → is_some (get k m) ≡ true
      → suc (length (delete k m)) ≡ length m
  unfolding get delete
  length-delete k [] h = cc
  length-delete k ((i, w) ∷ m) h = ground (arith, length-delete k m)

  -- With a key present at the head, deleting the first key leaves every other key alone.
  pub get-delete_ne : (k j : String) (m : List (String × V)) → k ≢ j → get j (delete k m) ≡ get j m
  unfolding get delete
  get-delete_ne k j [] h = refl
  get-delete_ne k j ((i, w) ∷ m) h = ground (arith, eq_iff i k, eq_iff i j, get-delete_ne k j m)
