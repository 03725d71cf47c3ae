-- ===== src/Adapter/Codec/Encoding.antt =====
-- `encodeKeeperInstruction` of codec.ts: the checks of the pinned contract, the discriminator and the
-- payload. `sha256` is the host's digest of a text.
pub mod Range
pub mod Pinned
pub mod Success
use dusk_keepers.Prelude.{
  ℕ, suc, ◌+◌, ◌*◌, ◌≡◌, ◌≤◌, refl, ap, sym, subst, ◌∙◌, Bool, true, false, not, ◌&&◌, ◌||◌, Option,
  none, some, List, [], ◌∷◌, ◌++◌, String, str_eq, length, take, drop, leb, ◌==◌, if◌then◌else◌,
  Result, ok, err, ◌>>=◌, ◌>>◌, present, >>=-eq-ok, guard, Option-cases, Bool-cases, arith,
}
use Prim.Native.Char.{Char, code}
use Prim.Native.String.{◌++◌ as append}
use dusk_keepers.Adapter.Bytes.{Bytes, eq_bytes, take-length-append, drop-length-append}
use dusk_keepers.Adapter.Hex.{codes, hex_bytes}
use dusk_keepers.Adapter.Contract.{InstructionContract, InstructionSpecification}
use dusk_keepers.Adapter.Codec.{
  InstructionEncodingErrorCode, invalid_arguments, contract_mismatch, InstructionKey,
  KeeperInstructionArguments, key_of, key_text, writes, write_all, Encoded,
}
use dusk_keepers.Adapter.Codec.RoundTrip.{decode_payload, decode_payload-write_all}

-- `text.split(":")`
abbrev add_character : Bool → Char → List String → List String
add_character true c parts = "" ∷ parts
add_character false c [] = String.◌∷◌ c "" ∷ []
add_character false c (part ∷ parts) = String.◌∷◌ c part ∷ parts

unfoldable pub split_at_colons : String → List String
split_at_colons String.[] = "" ∷ []
split_at_colons (String.◌∷◌ c s) = add_character (code c == b':') c (split_at_colons s)

-- `contract.instructions.find((entry) => entry.key === key)`
unfoldable pub find_specification :
    List InstructionSpecification → String → Option InstructionSpecification
find_specification [] key = none
find_specification (entry ∷ entries) key =
    if str_eq entry.key key then some entry else find_specification entries key

-- The key has two parts, the program and the name that the specification states.
abbrev pub has_identity : List String → InstructionSpecification → Bool
has_identity [] specification = false
has_identity (program ∷ []) specification = false
has_identity (program ∷ name ∷ []) specification =
    str_eq specification.program program && str_eq specification.instruction_name name
has_identity (program ∷ name ∷ part ∷ parts) specification = false

-- `exactHex(value, bytes, code)` with a count of bytes
unfoldable pub exact_hex : String → ℕ → InstructionEncodingErrorCode → Encoded
exact_hex value count thrown = do
  bytes ← present (hex_bytes (codes value)) thrown
  guard (length (codes value) == count * 2) thrown
  ok bytes

module _ (sha256 : String → Bytes) where
  abbrev pub anchor_discriminator : InstructionSpecification → Bytes
  anchor_discriminator specification =
      take 8 (sha256 (append "global:" specification.instruction_name))

  -- The checks on the specification that was found for a key; its discriminator.
  unfoldable pub checked_discriminator : String → InstructionSpecification → Encoded
  checked_discriminator key specification = do
    guard (has_identity (split_at_colons key) specification) contract_mismatch
    discriminator ← exact_hex specification.discriminator_hex 8 contract_mismatch
    guard (eq_bytes discriminator (anchor_discriminator specification)) contract_mismatch
    ok discriminator

  unfoldable pub pinned_discriminator : InstructionContract → String → Encoded
  pinned_discriminator contract key = do
    specification ← present (find_specification contract.instructions key) contract_mismatch
    checked_discriminator key specification

  unfoldable pub encode_keeper_instruction :
      InstructionContract → KeeperInstructionArguments → Encoded
  encode_keeper_instruction contract request = do
    discriminator ← pinned_discriminator contract (key_text (key_of request))
    payload ← write_all (writes request)
    ok (discriminator ++ payload)
