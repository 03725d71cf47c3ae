-- ===== src/Adapter/Envelope.antt =====
-- envelope.ts of dusk-adapter: the validator that compares the envelope of a job with the pinned
-- contract. An error keeps its code. `digest_hex` is the host's SHA-256 of the canonical bytes, in
-- hexadecimal.
pub mod Types
pub mod Accounts
pub mod Delegated
pub mod Parity
pub mod Valid
pub mod Signing
mod Tests
use dusk_keepers.Prelude.{
  ℕ, ◌+◌, Bool, true, false, not, ◌&&◌, ◌||◌, Option, none, some, List, [], ◌∷◌, ◌++◌, String,
  str_eq, length, take, ltb, leb, ◌==◌, if◌then◌else◌, Result, ok, err, ◌>>=◌, ◌>>◌, guard, refuse,
  present,
}
use dusk_keepers.Adapter.Bytes.{Bytes, eq_bytes}
use dusk_keepers.Adapter.Lock.{ProtocolLock, PinnedProgram, assert_live_ready}
use dusk_keepers.Adapter.Contract.{
  InstructionSpecification, ActionContract, ProgramContract, InstructionContract,
}
use dusk_keepers.Adapter.Codec.Encoding.{find_specification}
use dusk_keepers.Adapter.Envelope.Types.{
  revision_mismatch, job_kind_mismatch, instruction_mismatch, program_id_mismatch,
  discriminator_mismatch, fixed_address_mismatch, required_optional_account_missing,
  cpi_hook_mismatch, remaining_accounts_mismatch, delegated_hook_data_mismatch, parity_mismatch,
  live_protocol_not_ready, Checked, Check, ResolvedAccountMeta, InstructionEnvelope, JobEnvelope,
  require_pubkey, decode_hex,
}
use dusk_keepers.Adapter.Envelope.Accounts.{eq_Bool, names_account, validate_accounts}
use dusk_keepers.Adapter.Envelope.Delegated.{DelegatedCpiPayload, decode_delegated_cpi_payload}
use dusk_keepers.Adapter.Envelope.Parity.{envelope_parity_sha256}

pub record ValidatedJobEnvelope : Type 0 where
  pub envelope : JobEnvelope

pub record SignableJobEnvelope : Type 0 where
  pub envelope : JobEnvelope

-- The two fields of the class.
pub record EnvelopeValidator : Type 0 where
  pub lock : ProtocolLock
  pub contract : InstructionContract

unfoldable pub find_pinned : List PinnedProgram → String → Option PinnedProgram
find_pinned [] name = none
find_pinned (p ∷ rest) name = if str_eq p.name name then some p else find_pinned rest name

-- `value === other` for a `value` that may be null
abbrev pub is_text : Option String → String → Bool
is_text none other = false
is_text (some value) other = str_eq value other

abbrev pub pins_program : Option PinnedProgram → ProgramContract → Bool
pins_program none program = false
pins_program (some pinned) program =
    is_text pinned.program_id program.program_id
    && str_eq pinned.idl.path program.idl_path
    && is_text pinned.idl.sha256 program.idl_sha256

unfoldable pub has_text : List String → String → Bool
has_text [] name = false
has_text (n ∷ names) name = str_eq n name || has_text names name

-- The constructor's loop, with the names that it has seen.
unfoldable pub check_programs : ProtocolLock → List String → List ProgramContract → Check
check_programs lock names [] = ok tt
check_programs lock names (program ∷ rest) = do
  refuse (has_text names program.name) instruction_mismatch
  guard (pins_program (find_pinned lock.programs program.name) program) program_id_mismatch
  check_programs lock (program.name ∷ names) rest

unfoldable pub new : ProtocolLock → InstructionContract → Checked EnvelopeValidator
new lock contract = do
  guard (contract.schema_version == 1 && str_eq contract.protocol_revision lock.revision)
      revision_mismatch
  check_programs lock [] contract.programs
  ok (record { lock = lock; contract = contract })

unfoldable pub find_action : List ActionContract → String → Option ActionContract
find_action [] action = none
find_action (a ∷ rest) action = if str_eq a.action action then some a else find_action rest action

unfoldable pub require_pubkeys : List ResolvedAccountMeta → Check
require_pubkeys [] = ok tt
require_pubkeys (a ∷ rest) = do require_pubkey a.address; require_pubkeys rest

-- `#validateExpectedInstruction`, on the specification that it found.
unfoldable pub validate_specified : InstructionSpecification → InstructionEnvelope → Check
validate_specified specification envelope = do
  guard
      (str_eq envelope.program specification.program
        && str_eq envelope.instruction_name specification.instruction_name)
      instruction_mismatch
  guard (str_eq envelope.program_id specification.program_id) program_id_mismatch
  require_pubkey envelope.program_id
  bytes ← decode_hex envelope.data_hex
  discriminator ← decode_hex specification.discriminator_hex
  guard (eq_bytes (take (length discriminator) bytes) discriminator) discriminator_mismatch
  validate_accounts specification.program_id specification.accounts envelope.accounts
  require_pubkeys envelope.remaining_accounts

unfoldable pub validate_expected_instruction :
    InstructionContract → InstructionEnvelope → String → Check
validate_expected_instruction contract envelope expected_key = do
  guard (str_eq envelope.specification_key expected_key) instruction_mismatch
  specification ←
      present (find_specification contract.instructions expected_key) instruction_mismatch
  validate_specified specification envelope

-- The hooks are for the keys, in their order.
unfoldable pub have_keys : List InstructionEnvelope → List String → Bool
have_keys [] [] = true
have_keys [] (key ∷ keys) = false
have_keys (hook ∷ hooks) [] = false
have_keys (hook ∷ hooks) (key ∷ keys) = str_eq hook.specification_key key && have_keys hooks keys

unfoldable pub validate_hooks : InstructionContract → List InstructionEnvelope → List String → Check
validate_hooks contract [] keys = ok tt
validate_hooks contract (hook ∷ hooks) [] = err instruction_mismatch
validate_hooks contract (hook ∷ hooks) (key ∷ keys) = do
  validate_expected_instruction contract hook key
  refuse (ltb 0 (length hook.remaining_accounts)) cpi_hook_mismatch
  validate_hooks contract hooks keys

unfoldable pub require_names : List ResolvedAccountMeta → List String → Check
require_names accounts [] = ok tt
require_names accounts (name ∷ names) = do
  guard (names_account accounts name) required_optional_account_missing
  require_names accounts names

unfoldable pub same_account : ResolvedAccountMeta → ResolvedAccountMeta → Bool
same_account left right =
    str_eq left.name right.name
    && str_eq left.address right.address
    && eq_Bool left.writable right.writable
    && eq_Bool left.signer right.signer

unfoldable pub same_accounts : List ResolvedAccountMeta → List ResolvedAccountMeta → Bool
same_accounts [] [] = true
same_accounts [] (b ∷ right) = false
same_accounts (a ∷ left) [] = false
same_accounts (a ∷ left) (b ∷ right) = same_account a b && same_accounts left right

unfoldable pub find_account : List ResolvedAccountMeta → String → Option ResolvedAccountMeta
find_account [] name = none
find_account (a ∷ rest) name = if str_eq a.name name then some a else find_account rest name

abbrev pub has_address : Option ResolvedAccountMeta → String → Bool
has_address none address = false
has_address (some a) address = str_eq a.address address

-- What `#validateDelegatedComposition` compares, on the data of the two hooks and the decoded payload.
unfoldable pub compare_composition :
    InstructionEnvelope
    → InstructionEnvelope
    → InstructionEnvelope
    → Bytes
    → Bytes
    → DelegatedCpiPayload
    → Check
compare_composition primary first second before after embedded = do
  guard (eq_bytes embedded.before before && eq_bytes embedded.after after)
      delegated_hook_data_mismatch
  guard (embedded.before_accounts_length == length first.accounts) remaining_accounts_mismatch
  guard (same_accounts (first.accounts ++ second.accounts) primary.remaining_accounts)
      remaining_accounts_mismatch
  guard (has_address (find_account primary.accounts "delegated_program") first.program_id)
      fixed_address_mismatch

-- `#validateDelegatedComposition`, on its two hooks.
unfoldable pub validate_two_hooks :
    InstructionEnvelope → InstructionEnvelope → InstructionEnvelope → Check
validate_two_hooks primary first second = do
  bytes ← decode_hex primary.data_hex
  before ← decode_hex first.data_hex
  after ← decode_hex second.data_hex
  embedded ← decode_delegated_cpi_payload bytes
  compare_composition primary first second before after embedded

unfoldable pub validate_delegated_composition :
    InstructionEnvelope → List InstructionEnvelope → Check
validate_delegated_composition primary (first ∷ second ∷ []) =
    validate_two_hooks primary first second
validate_delegated_composition primary _ = err cpi_hook_mismatch

abbrev delegated_if : List String → Check → Check
delegated_if [] composition = ok tt
delegated_if (key ∷ keys) composition = composition

-- `validate` for the action of the envelope's intent.
unfoldable pub validate_action :
    (Bytes → String) → InstructionContract → ActionContract → JobEnvelope → Check
validate_action digest_hex contract action e = do
  guard (str_eq e.intent.job_kind action.job_kind) job_kind_mismatch
  validate_expected_instruction contract e.primary action.primary_instruction_key
  guard (have_keys e.cpi_hooks action.cpi_instruction_keys) cpi_hook_mismatch
  validate_hooks contract e.cpi_hooks action.cpi_instruction_keys
  require_names e.primary.accounts action.required_optional_accounts
  delegated_if action.cpi_instruction_keys (validate_delegated_composition e.primary e.cpi_hooks)
  parity ← envelope_parity_sha256 digest_hex e
  guard (str_eq parity e.parity_sha256) parity_mismatch

unfoldable pub validate :
    (Bytes → String) → EnvelopeValidator → JobEnvelope → Checked ValidatedJobEnvelope
validate digest_hex v e = do
  guard (e.schema_version == 1 && e.intent.schema_version == 1) instruction_mismatch
  guard (str_eq e.intent.protocol_revision v.lock.revision) revision_mismatch
  action ← present (find_action v.contract.actions e.intent.action) instruction_mismatch
  validate_action digest_hex v.contract action e
  ok (record { envelope = e })

-- `try { assertLiveReady(lock) } catch { throw … }`
abbrev or_not_ready : {E : Type 0} → Result E (Unit {0}) → Check
or_not_ready (ok u) = ok tt
or_not_ready (err thrown) = err live_protocol_not_ready

unfoldable pub validate_for_signing :
    (Bytes → String) → EnvelopeValidator → JobEnvelope → Checked SignableJobEnvelope
validate_for_signing digest_hex v e = do
  or_not_ready (assert_live_ready v.lock)
  validated ← validate digest_hex v e
  ok (record { envelope = e })
