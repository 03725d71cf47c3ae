-- ===== src/Adapter/Resolution.antt =====
-- resolution.ts of dusk-adapter: the manifest of accounts, and the resolver that is made of it.
pub mod Curve
pub mod Base58
pub mod Derivation
pub mod Recipes
pub mod Supply
pub mod Sound
pub mod Total
mod Tests
use Prim.Native.Char.{nul}
use Prim.Native.String.{◌++◌ as append}
use dusk_keepers.Prelude.{
  ℕ, Bool, true, false, not, ◌&&◌, ◌||◌, Option, none, some, List, [], ◌∷◌, String, str_eq, length,
  leb, ◌==◌, if◌then◌else◌, Result, ok, err, ◌>>=◌, ◌>>◌, guard, refuse,
}
use dusk_keepers.Adapter.Bytes.{Bytes}
use dusk_keepers.Adapter.Hex.{codes, hex_bytes}
use dusk_keepers.Adapter.Pubkeys.{decode_pubkey}
use dusk_keepers.Adapter.Lock.{ProtocolLock, PinnedProgram}
use dusk_keepers.Adapter.Contract.{
  AccountSpecification, InstructionSpecification, InstructionContract,
}
use dusk_keepers.Adapter.Codec.Encoding.{find_specification}
use dusk_keepers.Adapter.Envelope.{find_pinned, is_text, has_text}
use dusk_keepers.Adapter.Resolution.Derivation.{manifest_mismatch, Resolved}
use dusk_keepers.Adapter.Resolution.Recipes.{PdaUsage, const, input, PdaSeedRecipe, PdaRecipe}

pub record ResolutionProgram : Type 0 where
  pub name : String
  pub program_id : String
  pub idl_sha256 : String

pub data StaticAccountSource : Type 0 where
  idl_fixed_address instruction_program action_cpi_program : StaticAccountSource

pub record StaticAccountSpecification : Type 0 where
  pub instruction_key : String
  pub account_name : String
  pub address : String
  pub source : StaticAccountSource

pub record AccountResolutionManifest : Type 0 where
  pub schema_version : ℕ
  pub protocol_revision : String
  pub programs : List ResolutionProgram
  pub static_accounts : List StaticAccountSpecification
  pub pda_recipes : List PdaRecipe

abbrev is_some {ℓ} : {A : Type ℓ} → Option A → Bool
is_some none = false
is_some (some a) = true

unfoldable pub is_pubkey : String → Bool
is_pubkey value = is_some (decode_pubkey value)

abbrev pub pins_resolution : Option PinnedProgram → ResolutionProgram → Bool
pins_resolution none program = false
pins_resolution (some pinned) program =
    is_text pinned.program_id program.program_id && is_text pinned.idl.sha256 program.idl_sha256

-- The loop over the programs, with the names that it has seen.
unfoldable pub check_programs :
    ProtocolLock → List String → List ResolutionProgram → Resolved (Unit {0})
check_programs lock names [] = ok tt
check_programs lock names (program ∷ rest) = do
  refuse (has_text names program.name) manifest_mismatch
  guard (pins_resolution (find_pinned lock.programs program.name) program) manifest_mismatch
  check_programs lock (program.name ∷ names) rest

unfoldable pub has_account : List AccountSpecification → String → Bool
has_account [] name = false
has_account (a ∷ rest) name = str_eq a.name name || has_account rest name

abbrev pub specifies : Option InstructionSpecification → String → Bool
specifies none name = false
specifies (some specification) name = has_account specification.accounts name

abbrev static_key : StaticAccountSpecification → String
static_key account =
    append account.instruction_key (append (String.◌∷◌ nul "") account.account_name)

-- The loop over the static accounts, with the keys that it has seen.
unfoldable pub check_static_accounts :
    InstructionContract → List String → List StaticAccountSpecification → Resolved (Unit {0})
check_static_accounts contract keys [] = ok tt
check_static_accounts contract keys (account ∷ rest) = do
  refuse (has_text keys (static_key account)) manifest_mismatch
  guard
      (specifies (find_specification contract.instructions account.instruction_key)
        account.account_name)
      manifest_mismatch
  guard (is_pubkey account.address) manifest_mismatch
  check_static_accounts contract (static_key account ∷ keys) rest

abbrev is_constant : Option Bytes → Bool
is_constant none = false
is_constant (some []) = false
is_constant (some (b ∷ bytes)) = true

-- `/^(?:[0-9a-f]{2})+$/`, and no longer than sixty-four characters
unfoldable pub is_constant_seed : String → Bool
is_constant_seed value_hex =
    is_constant (hex_bytes (codes value_hex)) && leb (length (codes value_hex)) 64

-- The loop over the seeds, with the input names that it has seen.
unfoldable pub check_seeds : List String → List PdaSeedRecipe → Resolved (Unit {0})
check_seeds names [] = ok tt
check_seeds names (const value_hex ∷ rest) = do
  guard (is_constant_seed value_hex) manifest_mismatch
  check_seeds names rest
check_seeds names (input name encoding ∷ rest) = do
  refuse (has_text names name) manifest_mismatch
  check_seeds (name ∷ names) rest

unfoldable pub check_usages : InstructionContract → List PdaUsage → Resolved (Unit {0})
check_usages contract [] = ok tt
check_usages contract (usage ∷ rest) = do
  guard (is_some (find_specification contract.instructions usage.instruction_key)) manifest_mismatch
  check_usages contract rest

unfoldable pub find_program : List ResolutionProgram → String → Option ResolutionProgram
find_program [] name = none
find_program (p ∷ rest) name = if str_eq p.name name then some p else find_program rest name

abbrev pub has_program_id : Option ResolutionProgram → String → Bool
has_program_id none program_id = false
has_program_id (some program) program_id = str_eq program.program_id program_id

unfoldable pub check_recipe :
    InstructionContract → List ResolutionProgram → List String → PdaRecipe → Resolved (Unit {0})
check_recipe contract programs keys recipe = do
  refuse (has_text keys recipe.key || leb 16 (length recipe.seeds)) manifest_mismatch
  guard (has_program_id (find_program programs recipe.program) recipe.program_id) manifest_mismatch
  guard (is_pubkey recipe.program_id) manifest_mismatch
  check_seeds [] recipe.seeds
  check_usages contract recipe.usages

-- The loop over the recipes, with the keys that it has seen.
unfoldable pub check_recipes :
    InstructionContract
    → List ResolutionProgram
    → List String
    → List PdaRecipe
    → Resolved (Unit {0})
check_recipes contract programs keys [] = ok tt
check_recipes contract programs keys (recipe ∷ rest) = do
  check_recipe contract programs keys recipe
  check_recipes contract programs (recipe.key ∷ keys) rest

-- The one field of the class.
pub record DeterministicAccountResolver : Type 0 where
  pub manifest : AccountResolutionManifest

unfoldable pub new :
    ProtocolLock
    → InstructionContract
    → AccountResolutionManifest
    → Resolved DeterministicAccountResolver
new lock contract manifest = do
  guard (manifest.schema_version == 1 && str_eq manifest.protocol_revision lock.revision)
      manifest_mismatch
  check_programs lock [] manifest.programs
  check_static_accounts contract [] manifest.static_accounts
  check_recipes contract manifest.programs [] manifest.pda_recipes
  ok (record { manifest = manifest })

unfoldable pub find_static : List StaticAccountSpecification → String → String → Option String
find_static [] instruction_key account_name = none
find_static (a ∷ rest) instruction_key account_name =
    if str_eq a.instruction_key instruction_key && str_eq a.account_name account_name
    then some a.address
    else find_static rest instruction_key account_name

unfoldable pub resolve_static : DeterministicAccountResolver → String → String → Option String
resolve_static r instruction_key account_name =
    find_static r.manifest.static_accounts instruction_key account_name
