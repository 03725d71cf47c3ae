-- ===== src/Prelude/Maps.antt =====
-- A JavaScript `Map` and `Set` with texts for keys, in the order of insertion: to set a key that is
-- there keeps its place, and to delete one that is not there changes nothing.
use Prim.Native.String.{String}
use mathlib.Core.Path.{◌≡◌, refl}
use mathlib.Core.Bool.{Bool, true, false}
use mathlib.Core.Option.{Option, none, some}
use mathlib.Core.List.{List, [], ◌∷◌}
use native.Mathlib.Omega.{arith}
use text.Mathlib.Text.{◌==◌ as str_eq}
use text.Mathlib.TextEquality.{eq_iff}
use dusk_keepers.Prelude.Tests.{if◌then◌else◌}

module _ {ℓ} {V : Type ℓ} where
  unfoldable pub get : String → List (String × V) → Option V
  get k [] = none
  get k ((j, v) ∷ m) = if str_eq j k then some v else get k m

  unfoldable pub has : String → List (String × V) → Bool
  has k [] = false
  has k ((j, v) ∷ m) = if str_eq j k then true else has k m

  unfoldable pub put : String → V → List (String × V) → List (String × V)
  put k v [] = (k, v) ∷ []
  put k v ((j, w) ∷ m) = if str_eq j k then (j, v) ∷ m else (j, w) ∷ put k v m

  unfoldable pub delete : String → List (String × V) → List (String × V)
  delete k [] = []
  delete k ((j, w) ∷ m) = if str_eq j k then m else (j, w) ∷ delete k m

  pub get-put :
      (key other : String) (v : V) (m : List (String × V))
      → get other (put key v m) ≡ (if str_eq key other then some v else get other m)
  unfolding get put
  get-put key other v [] = refl
  get-put key other v ((j, w) ∷ m) =
      ground (arith, get-put key other v m, eq_iff j key, eq_iff j other, eq_iff key other)

  pub has-put :
      (key other : String) (v : V) (m : List (String × V))
      → has other (put key v m) ≡ (if str_eq key other then true else has other m)
  unfolding has put
  has-put key other v [] = refl
  has-put key other v ((j, w) ∷ m) =
      ground (arith, has-put key other v m, eq_iff j key, eq_iff j other, eq_iff key other)

  pub get-of-not-has : (k : String) (m : List (String × V)) → has k m ≡ false → get k m ≡ none
  unfolding get has
  get-of-not-has k [] h = refl
  get-of-not-has k ((j, v) ∷ m) h = ground (arith, get-of-not-has k m)

  pub not-has-delete :
      (k j : String) (m : List (String × V)) → has j m ≡ false → has j (delete k m) ≡ false
  unfolding has delete
  not-has-delete k j [] h = refl
  not-has-delete k j ((i, w) ∷ m) h = ground (arith, not-has-delete k j m)

-- The elements of a `Set`.
unfoldable pub contains : String → List String → Bool
contains k [] = false
contains k (x ∷ xs) = if str_eq x k then true else contains k xs

unfoldable pub add : String → List String → List String
add k [] = k ∷ []
add k (x ∷ xs) = if str_eq x k then x ∷ xs else x ∷ add k xs

unfoldable pub discard : String → List String → List String
discard k [] = []
discard k (x ∷ xs) = if str_eq x k then xs else x ∷ discard k xs

pub contains-add :
    (k j : String) (xs : List String)
    → contains j (add k xs) ≡ (if str_eq k j then true else contains j xs)
unfolding contains add
contains-add k j [] = refl
contains-add k j (x ∷ xs) = ground (arith, eq_iff k j, eq_iff x k, eq_iff x j, contains-add k j xs)

-- Taking an element out brings no other in, and leaves the others.
pub contains-discard_other :
    (k j : String) (xs : List String)
    → str_eq k j ≡ false
    → contains j (discard k xs) ≡ contains j xs
unfolding contains discard
contains-discard_other k j [] h = refl
contains-discard_other k j (x ∷ xs) h =
    ground (arith, eq_iff k j, eq_iff x k, eq_iff x j, contains-discard_other k j xs h)

pub not-contains-discard :
    (k j : String) (xs : List String) → contains j xs ≡ false → contains j (discard k xs) ≡ false
unfolding contains discard
not-contains-discard k j [] h = refl
not-contains-discard k j (x ∷ xs) h = ground (arith, not-contains-discard k j xs)
