-- ===== src/Adapter/Resolution/Tests.antt =====
-- A resolver with one recipe, the address that it derives, and the theorems about it.
use dusk_keepers.Prelude.{
  ◌%◌, ◌^◌, ◌≡◌, ◌↔◌, ◌⊎◌, refl, true, false, none, some, [], ◌∷◌, String, ok, err, List, replicate,
  arith, traverse,
}
use dusk_keepers.Prelude.Int.{pos, negsuc, ◌+ℤ◌, ◌-ℤ◌, ◌*ℤ◌}
use dusk_keepers.Adapter.Bytes.{Bytes, from_le, to_le}
use dusk_keepers.Prelude.Maps.{get, has, contains}
use dusk_keepers.Adapter.Hex.{hex_value, hex_bytes}
use dusk_keepers.Adapter.Pubkeys.{
  index_of, push_carry, add_digit, read_digits, strip_ones, decode_pubkey,
}
use dusk_keepers.Adapter.Codec.Encoding.{find_specification}
use dusk_keepers.Adapter.Envelope.{find_pinned, has_text}
use dusk_keepers.Adapter.Resolution.Derivation.{
  unable_to_find_pda, ResolvedPda, concat, has_long_seed, digest_at, find_bump,
  find_program_address,
}
use dusk_keepers.Adapter.Resolution.Derivation.Search.{IsDerived, find_program_address_iff}
use dusk_keepers.Adapter.Resolution.Recipes.{
  pubkey, u64_le, const, input, PdaRecipe, PdaSeedValue, pubkey_input, u64_le_input, find_recipe,
  input_names, require_inputs, require_expected, value_bytes, seed_bytes, derive_pda,
}
use dusk_keepers.Adapter.Resolution.{
  instruction_program, AccountResolutionManifest, DeterministicAccountResolver, check_programs,
  check_static_accounts, check_recipes, check_recipe, check_seeds, check_usages, has_account,
  is_pubkey, find_program, is_constant_seed, new,
}
use dusk_keepers.Adapter.Resolution.Supply.{IsValue, Supplies, AreExpected}
use dusk_keepers.Adapter.Resolution.Total.{AllOn, derive_pda_total}
use dusk_keepers.Adapter.Lock.{ProtocolLock, frozen}
use dusk_keepers.Adapter.Contract.{InstructionContract}
use dusk_keepers.Adapter.Resolution.Curve.{
  field_modulus, mod_field, pow_loop, mod_pow, mod_inverse, edwards_d, sqrt_minus_one,
  is_ratio_square, is_ed25519_point,
}
use dusk_keepers.Adapter.Resolution.Curve.Power.{mod_pow_lem}
use dusk_keepers.Adapter.Resolution.Base58.{
  base58_encode, ones_for, digits_text, add_bytes, add_byte, push_digits, character_at,
}
use dusk_keepers.Adapter.Resolution.Base58.Decoding.{IsPubkey, decode_pubkey_iff}
use dusk_keepers.Adapter.Resolution.Base58.RoundTrip.{decode_pubkey-base58_encode}

mod_pow_lem_example : mod_pow (negsuc 2) 5 ≡ (mod_field (negsuc 2) ^ 5) % field_modulus
mod_pow_lem_example = mod_pow_lem (negsuc 2) 5

curve_run : Unit {0}
unfolding is_ed25519_point is_ratio_square sqrt_minus_one edwards_d mod_inverse mod_pow pow_loop
    mod_field field_modulus from_le ◌+ℤ◌ ◌-ℤ◌ ◌*ℤ◌
curve_run = tt

-- The base point of Ed25519 has y = 4 / 5.
base_point_on : is_ed25519_point (88 ∷ replicate 31 102) ≡ true
unfolding curve_run
base_point_on = refl

two_off : is_ed25519_point (2 ∷ replicate 31 0) ≡ false
unfolding curve_run
two_off = refl

abbrev wrapped_sol : String
wrapped_sol = "So11111111111111111111111111111111111111112"

abbrev hash : String
hash = "00112233445566778899aabbccddeeff00112233445566778899aabbccddeeff"

-- A host whose digest of bytes is a number of one byte and zeros.
abbrev host : Bytes → Bytes
host bytes = (from_le bytes % 251) ∷ replicate 31 0

decode_pubkey-base58_encode_example :
    decode_pubkey (base58_encode (0 ∷ 0 ∷ 255 ∷ replicate 29 7))
    ≡ some (0 ∷ 0 ∷ 255 ∷ replicate 29 7)
decode_pubkey-base58_encode_example =
    decode_pubkey-base58_encode (0 ∷ 0 ∷ 255 ∷ replicate 29 7) refl (omega arith)

abbrev lock : ProtocolLock
lock = record {
  schema_version = 1;
  revision = "r1";
  status = frozen;
  generated_at = none;
  source = record {
    repository = "omnipair";
    branch = "main";
    git_commit = "c0ffee";
    worktree_fingerprint_sha256 = none;
  };
  toolchain = [];
  programs =
      record {
        name = "dusk";
        program_id = some wrapped_sol;
        binary = record { path = "dusk.so"; sha256 = some hash };
        idl = record { path = "dusk.json"; sha256 = some hash };
      }
      ∷ [];
  sdk = record { path = "sdk.tgz"; sha256 = none };
  compatibility = [];
}

abbrev contract : InstructionContract
contract = record {
  schema_version = 1;
  protocol_revision = "r1";
  programs = [];
  actions = [];
  instructions =
      record {
        key = "close";
        program = "dusk";
        program_id = wrapped_sol;
        instruction_name = "close";
        discriminator_hex = "0102030405060708";
        accounts =
            record {
              name = "market";
              writable = true;
              signer = false;
              optional = false;
              fixed_address = none;
            }
            ∷ [];
      }
      ∷ [];
}

abbrev market : PdaRecipe
market = record {
  key = "market";
  program = "dusk";
  program_id = wrapped_sol;
  usages = record { instruction_key = "close"; account_name = "market"; idl_seed_paths = [] } ∷ [];
  seeds = const "6d61726b6574" ∷ input "mint" pubkey ∷ input "index" u64_le ∷ [];
}

abbrev manifest : AccountResolutionManifest
manifest = record {
  schema_version = 1;
  protocol_revision = "r1";
  programs = record { name = "dusk"; program_id = wrapped_sol; idl_sha256 = hash } ∷ [];
  static_accounts =
      record {
        instruction_key = "close";
        account_name = "market";
        address = wrapped_sol;
        source = instruction_program;
      }
      ∷ [];
  pda_recipes = market ∷ [];
}

abbrev resolver : DeterministicAccountResolver
resolver = record { manifest = manifest }

new_run : Unit {0}
unfolding new check_programs check_static_accounts check_recipes check_recipe check_seeds
    check_usages has_text find_pinned find_specification has_account is_pubkey find_program
    is_constant_seed hex_bytes hex_value decode_pubkey read_digits add_digit push_carry index_of
    strip_ones
new_run = tt

made : new lock contract manifest ≡ ok resolver
unfolding new_run
made = refl

abbrev inputs : List (String × PdaSeedValue)
inputs = ("mint", pubkey_input wrapped_sol) ∷ ("index", u64_le_input (pos 7)) ∷ []

abbrev mint_bytes : Bytes
mint_bytes =
    6 ∷ 155 ∷ 136 ∷ 87 ∷ 254 ∷ 171 ∷ 129 ∷ 132 ∷ 251 ∷ 104 ∷ 127 ∷ 99 ∷ 70 ∷ 24 ∷ 192 ∷ 53 ∷ 218
    ∷ 196 ∷ 57 ∷ 220 ∷ 26 ∷ 235 ∷ 59 ∷ 85 ∷ 152 ∷ 160 ∷ 240 ∷ 0 ∷ 0 ∷ 0 ∷ 0 ∷ 1 ∷ []

supplied : Supplies inputs market.seeds
unfolding Supplies IsValue get new_run
supplied = (
  (pubkey_input wrapped_sol, refl, (mint_bytes, refl)),
  ((u64_le_input (pos 7), refl, omega arith), tt),
)

expected : AreExpected inputs (input_names market.seeds)
unfolding AreExpected contains input_names
expected = (refl, (refl, tt))

abbrev seeds : List Bytes
seeds = (109 ∷ 97 ∷ 114 ∷ 107 ∷ 101 ∷ 116 ∷ []) ∷ mint_bytes ∷ (7 ∷ replicate 7 0) ∷ []

abbrev market_pda : ResolvedPda
market_pda = record { address = "67fz8e9QvYdG3a93fMEw3ReNfjwafCjuNvSVFpadn9FD"; bump = 253 }

derivation_run : Unit {0}
unfolding curve_run new_run derive_pda find_recipe require_inputs require_expected traverse
    seed_bytes value_bytes find_program_address find_bump digest_at concat has_long_seed contains
    has get input_names to_le base58_encode ones_for digits_text add_bytes add_byte push_digits
    character_at
derivation_run = tt

market_derived : derive_pda host (market ∷ []) "market" inputs ≡ ok market_pda
unfolding derivation_run
market_derived = refl

decode_pubkey_iff_example :
    (decode_pubkey wrapped_sol ≡ some mint_bytes) ↔ IsPubkey wrapped_sol mint_bytes
decode_pubkey_iff_example = decode_pubkey_iff wrapped_sol mint_bytes

find_program_address_iff_example :
    (find_program_address host seeds wrapped_sol ≡ ok market_pda)
    ↔ IsDerived host seeds wrapped_sol market_pda
find_program_address_iff_example = find_program_address_iff host seeds wrapped_sol market_pda

derive_pda_total_example :
    (bytes : List Bytes) × (traverse (seed_bytes inputs) market.seeds ≡ ok bytes)
    × (((r : ResolvedPda) × (derive_pda host (market ∷ []) "market" inputs ≡ ok r)
          × IsDerived host bytes wrapped_sol r)
        ⊎ ((derive_pda host (market ∷ []) "market" inputs ≡ err unable_to_find_pda)
            × (program : Bytes) × (decode_pubkey wrapped_sol ≡ some program)
            × AllOn host bytes program 255))
unfolding find_recipe
derive_pda_total_example =
    derive_pda_total host lock contract manifest resolver "market" market inputs made refl supplied
      expected
