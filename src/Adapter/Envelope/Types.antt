-- ===== src/Adapter/Envelope/Types.antt =====
-- The data of envelope.ts, its error codes, and its readers of a public key and of hexadecimal data.
use dusk_keepers.Prelude.{
  ℕ, ◌+◌, Bool, Option, none, some, List, [], String, length, leb, ◌==◌, Result, ok, err, ◌>>=◌,
  ◌>>◌, guard, present,
}
use dusk_keepers.Adapter.Values.{Number}
use dusk_keepers.Adapter.Bytes.{Bytes}
use dusk_keepers.Adapter.Hex.{codes, hex_bytes}
use dusk_keepers.Adapter.Pubkeys.{strip_ones, read_digits}

pub record JobIntent : Type 0 where
  pub schema_version : ℕ
  pub intent_id : String
  pub protocol_revision : String
  pub action : String
  pub job_kind : String
  pub market : String
  pub target : String
  pub observed_slot : Number
  pub expected_state_hash : String

pub record ResolvedAccountMeta : Type 0 where
  pub name : String
  pub address : String
  pub writable : Bool
  pub signer : Bool

pub record InstructionEnvelope : Type 0 where
  pub specification_key : String
  pub program : String
  pub program_id : String
  pub instruction_name : String
  pub data_hex : String
  pub accounts : List ResolvedAccountMeta
  pub remaining_accounts : List ResolvedAccountMeta

pub record JobEnvelope : Type 0 where
  pub schema_version : ℕ
  pub intent : JobIntent
  pub primary : InstructionEnvelope
  pub cpi_hooks : List InstructionEnvelope
  pub parity_sha256 : String

pub data EnvelopeValidationErrorCode : Type 0 where
  revision_mismatch job_kind_mismatch instruction_mismatch : EnvelopeValidationErrorCode
  program_id_mismatch invalid_pubkey invalid_data_hex : EnvelopeValidationErrorCode
  discriminator_mismatch missing_required_account : EnvelopeValidationErrorCode
  account_order_mismatch account_flags_mismatch : EnvelopeValidationErrorCode
  fixed_address_mismatch required_optional_account_missing : EnvelopeValidationErrorCode
  cpi_hook_mismatch remaining_accounts_mismatch : EnvelopeValidationErrorCode
  delegated_hook_data_mismatch parity_mismatch : EnvelopeValidationErrorCode
  live_protocol_not_ready : EnvelopeValidationErrorCode

abbrev pub Checked {ℓ} : Type ℓ → Type ℓ
Checked A = Result EnvelopeValidationErrorCode A

abbrev pub Check : Type 0
Check = Checked (Unit {0})

abbrev fits_pubkey : ℕ → Option Bytes → Check
fits_pubkey ones none = err invalid_pubkey
fits_pubkey ones (some bytes) = guard (ones + length bytes == 32) invalid_pubkey

unfoldable pub require_pubkey : String → Check
require_pubkey address =
    let (ones, digits) = strip_ones (codes address) in fits_pubkey ones (read_digits digits [])

-- `value.length < 16 || value.length % 2 !== 0 || !/^[0-9a-f]+$/.test(value)`
unfoldable pub decode_hex : String → Checked Bytes
decode_hex value = do
  bytes ← present (hex_bytes (codes value)) invalid_data_hex
  guard (leb 16 (length (codes value))) invalid_data_hex
  ok bytes
