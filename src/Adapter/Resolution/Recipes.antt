-- ===== src/Adapter/Resolution/Recipes.antt =====
-- The recipes of program-derived addresses in resolution.ts, and the seeds that they make of typed
-- inputs. A map of inputs is a list of its entries.
use dusk_keepers.Prelude.{
  Bool, false, ◌&&◌, ◌||◌, Option, none, some, List, [], ◌∷◌, String, str_eq, length, ltb, ◌==◌,
  if◌then◌else◌, ok, err, ◌>>=◌, ◌>>◌, guard, refuse, present, traverse,
}
use dusk_keepers.Prelude.Int.{ℤ, pos, negsuc}
use dusk_keepers.Prelude.Maps
use dusk_keepers.Adapter.Bytes.{Bytes, to_le}
use dusk_keepers.Adapter.Hex.{codes, hex_bytes}
use dusk_keepers.Adapter.Pubkeys.{decode_pubkey}
use dusk_keepers.Adapter.Codec.Parsing.Readers.{decimal}
use dusk_keepers.Adapter.Resolution.Derivation.{
  unknown_recipe, missing_input, unexpected_input, invalid_seed_value, Resolved, ResolvedPda,
  find_program_address,
}

pub record PdaUsage : Type 0 where
  pub instruction_key : String
  pub account_name : String
  pub idl_seed_paths : List String

pub data PdaSeedEncoding : Type 0 where
  pubkey bytes32 u64_le : PdaSeedEncoding

pub data PdaSeedRecipe : Type 0 where
  const : (value_hex : String) → PdaSeedRecipe
  input : (name : String) (encoding : PdaSeedEncoding) → PdaSeedRecipe

pub record PdaRecipe : Type 0 where
  pub key : String
  pub program : String
  pub program_id : String
  pub usages : List PdaUsage
  pub seeds : List PdaSeedRecipe

pub data PdaSeedValue : Type 0 where
  pubkey_input : (value : String) → PdaSeedValue
  bytes32_input : (value : Bytes) → PdaSeedValue
  u64_le_input : (value : ℤ) → PdaSeedValue

unfoldable pub find_recipe : List PdaRecipe → String → Option PdaRecipe
find_recipe [] key = none
find_recipe (recipe ∷ rest) key =
    if str_eq recipe.key key then some recipe else find_recipe rest key

unfoldable pub has_usage : List PdaUsage → String → String → Bool
has_usage [] instruction_key account_name = false
has_usage (u ∷ rest) instruction_key account_name =
    str_eq u.instruction_key instruction_key && str_eq u.account_name account_name
    || has_usage rest instruction_key account_name

unfoldable pub pda_recipe_key : List PdaRecipe → String → String → Option String
pda_recipe_key [] instruction_key account_name = none
pda_recipe_key (recipe ∷ rest) instruction_key account_name =
    if has_usage recipe.usages instruction_key account_name
    then some recipe.key
    else pda_recipe_key rest instruction_key account_name

-- `expectedNames`, in the order of the seeds
unfoldable pub input_names : List PdaSeedRecipe → List String
input_names [] = []
input_names (const value_hex ∷ rest) = input_names rest
input_names (input name encoding ∷ rest) = name ∷ input_names rest

module _ {V : Type 0} where
  unfoldable pub require_inputs : List (String × V) → List String → Resolved (Unit {0})
  require_inputs inputs [] = ok tt
  require_inputs inputs (name ∷ names) = do
    guard (Maps.has name inputs) missing_input
    require_inputs inputs names

  unfoldable pub require_expected : List (String × V) → List String → Resolved (Unit {0})
  require_expected [] names = ok tt
  require_expected ((name, value) ∷ rest) names = do
    guard (Maps.contains name names) unexpected_input
    require_expected rest names

abbrev bytes_or_empty : Option Bytes → Bytes
bytes_or_empty none = []
bytes_or_empty (some bytes) = bytes

abbrev pub u64_bytes : ℤ → Resolved Bytes
u64_bytes (pos value) = do
  refuse (ltb 0xffff_ffff_ffff_ffff value) invalid_seed_value
  ok (to_le 8 value)
u64_bytes (negsuc n) = err invalid_seed_value

-- The bytes of a value in the encoding of its seed.
unfoldable pub value_bytes : Option PdaSeedValue → PdaSeedEncoding → Resolved Bytes
value_bytes (some (pubkey_input value)) pubkey = present (decode_pubkey value) invalid_seed_value
value_bytes (some (bytes32_input value)) bytes32 = do
  guard (length value == 32) invalid_seed_value
  ok value
value_bytes (some (u64_le_input value)) u64_le = u64_bytes value
value_bytes _ _ = err invalid_seed_value

-- A constant is a text that the constructor of the resolver has accepted.
unfoldable pub seed_bytes : List (String × PdaSeedValue) → PdaSeedRecipe → Resolved Bytes
seed_bytes inputs (const value_hex) = ok (bytes_or_empty (hex_bytes (codes value_hex)))
seed_bytes inputs (input name encoding) = value_bytes (Maps.get name inputs) encoding

-- The typed value of a text, by the encoding of its seed.
unfoldable pub typed_value : PdaSeedEncoding → String → Resolved PdaSeedValue
typed_value pubkey value = do
  bytes ← present (decode_pubkey value) invalid_seed_value
  ok (pubkey_input value)
typed_value bytes32 value = do
  bytes ← present (hex_bytes (codes value)) invalid_seed_value
  guard (length bytes == 32) invalid_seed_value
  ok (bytes32_input bytes)
typed_value u64_le value = do
  parsed ← present (decimal (codes value)) invalid_seed_value
  refuse (ltb 0xffff_ffff_ffff_ffff parsed) invalid_seed_value
  ok (u64_le_input (pos parsed))

-- The loop over the seeds, on the map so far; each name has a text by the checks before.
unfoldable pub typed_inputs :
    List (String × String)
    → List (String × PdaSeedValue)
    → List PdaSeedRecipe
    → Resolved (List (String × PdaSeedValue))
typed_inputs inputs typed [] = ok typed
typed_inputs inputs typed (const value_hex ∷ rest) = typed_inputs inputs typed rest
typed_inputs inputs typed (input name encoding ∷ rest) = do
  value ← present (Maps.get name inputs) missing_input
  typed_one ← typed_value encoding value
  typed_inputs inputs (Maps.put name typed_one typed) rest

-- The methods of the resolver, on the recipes of its manifest.
module _ (sha256 : Bytes → Bytes) where
  unfoldable pub derive_pda :
      List PdaRecipe → String → List (String × PdaSeedValue) → Resolved ResolvedPda
  derive_pda recipes recipe_key inputs = do
    recipe ← present (find_recipe recipes recipe_key) unknown_recipe
    require_inputs inputs (input_names recipe.seeds)
    require_expected inputs (input_names recipe.seeds)
    seeds ← traverse (seed_bytes inputs) recipe.seeds
    find_program_address sha256 seeds recipe.program_id

  -- The inputs are an object with no names but its own.
  unfoldable pub derive_pda_strings :
      List PdaRecipe → String → List (String × String) → Resolved ResolvedPda
  derive_pda_strings recipes recipe_key inputs = do
    recipe ← present (find_recipe recipes recipe_key) unknown_recipe
    require_inputs inputs (input_names recipe.seeds)
    require_expected inputs (input_names recipe.seeds)
    typed ← typed_inputs inputs [] recipe.seeds
    derive_pda recipes recipe_key typed
