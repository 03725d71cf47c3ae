-- ===== src/Adapter/Resolution/Supply.antt =====
-- Inputs that fit their recipe, and the seeds that they make.
use dusk_keepers.Prelude.{
  suc, ◌≤◌, ◌<◌, ◌^◌, ◌≡◌, inl, inr, refl, ap, true, some, List, [], ◌∷◌, String, length, ok,
  traverse, Bool-cases, arith,
}
use dusk_keepers.Prelude.Int.{pos, negsuc}
use dusk_keepers.Prelude.Maps
use dusk_keepers.Adapter.Bytes.{Bytes, to_le, length-to_le}
use dusk_keepers.Adapter.Hex.{codes, hex_bytes}
use dusk_keepers.Adapter.Pubkeys.{decode_pubkey}
use dusk_keepers.Adapter.Pubkeys.Value.{decode_pubkey-value}
use dusk_keepers.Adapter.Resolution.Derivation.Search.{AreShort}
use dusk_keepers.Adapter.Resolution.Recipes.{
  PdaSeedEncoding, pubkey, bytes32, u64_le, PdaSeedRecipe, const, input, PdaSeedValue, pubkey_input,
  bytes32_input, u64_le_input, input_names, require_inputs, require_expected, value_bytes,
  seed_bytes,
}

-- A value of the encoding.
unfoldable pub IsValue : PdaSeedEncoding → PdaSeedValue → Type 0
IsValue pubkey (pubkey_input value) = (bytes : Bytes) × (decode_pubkey value ≡ some bytes)
IsValue bytes32 (bytes32_input value) = length value ≡ 32
IsValue u64_le (u64_le_input (pos n)) = n < 2 ^ 64
IsValue _ _ = ⊥

-- Each input of the recipe has a value of its encoding.
unfoldable pub Supplies : List (String × PdaSeedValue) → List PdaSeedRecipe → Type 0
Supplies inputs [] = Unit {0}
Supplies inputs (const value_hex ∷ rest) = Supplies inputs rest
Supplies inputs (input name encoding ∷ rest) =
    ((value : PdaSeedValue) × (Maps.get name inputs ≡ some value) × IsValue encoding value)
    × Supplies inputs rest

-- Each input is one of the recipe.
unfoldable pub AreExpected : List (String × PdaSeedValue) → List String → Type 0
AreExpected [] names = Unit {0}
AreExpected ((name, value) ∷ rest) names =
    (Maps.contains name names ≡ true) × AreExpected rest names

-- The constants of a recipe are short.
unfoldable pub AreConstants : List PdaSeedRecipe → Type 0
AreConstants [] = Unit {0}
AreConstants (const value_hex ∷ rest) =
    ((bytes : Bytes) × (hex_bytes (codes value_hex) ≡ some bytes) × (length bytes ≤ 32))
    × AreConstants rest
AreConstants (input name encoding ∷ rest) = AreConstants rest

value_bytes-short :
    (encoding : PdaSeedEncoding) (value : PdaSeedValue)
    → IsValue encoding value
    → (bytes : Bytes) × (value_bytes (some value) encoding ≡ ok bytes) × (length bytes ≤ 32)
unfolding value_bytes IsValue
value_bytes-short pubkey (pubkey_input value) (bytes, decoded) =
    let (full, each_fits, number) = decode_pubkey-value value bytes decoded in
    (bytes, rw decoded refl, omega (arith, full))
value_bytes-short bytes32 (bytes32_input value) full =
    (value, ground (arith, full), omega (arith, full))
value_bytes-short u64_le (u64_le_input (pos n)) small =
    (to_le 8 n, ground (arith, small), omega (arith, length-to_le 8 n))
value_bytes-short pubkey (bytes32_input value) h = absurd h
value_bytes-short pubkey (u64_le_input value) h = absurd h
value_bytes-short bytes32 (pubkey_input value) h = absurd h
value_bytes-short bytes32 (u64_le_input value) h = absurd h
value_bytes-short u64_le (pubkey_input value) h = absurd h
value_bytes-short u64_le (bytes32_input value) h = absurd h
value_bytes-short u64_le (u64_le_input (negsuc n)) h = absurd h

pub seeds_short :
    (inputs : List (String × PdaSeedValue)) (recipes : List PdaSeedRecipe)
    → AreConstants recipes
    → Supplies inputs recipes
    → (seeds : List Bytes) × (traverse (seed_bytes inputs) recipes ≡ ok seeds)
      × AreShort seeds
      × (length seeds ≡ length recipes)
unfolding traverse seed_bytes AreConstants Supplies AreShort
seeds_short inputs [] c s = ([], refl, tt, refl)
seeds_short inputs (const value_hex ∷ rest) ((bytes, read, short), c) s =
    let (seeds, made, all, count) = seeds_short inputs rest c s in
    (bytes ∷ seeds, rw (read, made) refl, (short, all), ap suc count)
seeds_short inputs (input name encoding ∷ rest) c ((value, found, is_value), s) =
    let (seeds, made, all, count) = seeds_short inputs rest c s in
    let (bytes, read, short) = value_bytes-short encoding value is_value in
    (bytes ∷ seeds, rw (found, read, made) refl, (short, all), ap suc count)

pub require_inputs-ok :
    (inputs : List (String × PdaSeedValue)) (recipes : List PdaSeedRecipe)
    → Supplies inputs recipes
    → require_inputs inputs (input_names recipes) ≡ ok tt
unfolding require_inputs input_names Supplies
require_inputs-ok inputs [] s = refl
require_inputs-ok inputs (const value_hex ∷ rest) s = require_inputs-ok inputs rest s
require_inputs-ok inputs (input name encoding ∷ rest) ((value, found, is_value), s) =
    elim (Bool-cases (Maps.has name inputs)) [
      | inl e ↦ rw (e, require_inputs-ok inputs rest s) refl
      | inr e ↦
          let missing = Maps.get-of-not-has name inputs e in absurd (ground (arith, missing, found))
    ]

pub require_expected-ok :
    (inputs : List (String × PdaSeedValue)) (names : List String)
    → AreExpected inputs names
    → require_expected inputs names ≡ ok tt
unfolding require_expected AreExpected
require_expected-ok [] names e = refl
require_expected-ok ((name, value) ∷ rest) names (here, e) =
    rw (here, require_expected-ok rest names e) refl
