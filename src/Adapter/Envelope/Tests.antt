-- ===== src/Adapter/Envelope/Tests.antt =====
-- A delegated close and a lock that pins its program, through the validator of envelope.ts, and the
-- theorems about it at them.
use dusk_keepers.Prelude.{
  replicate, Result, ℕ, ◌≡◌, ◌↔◌, refl, true, false, Bool, Option, none, some, [], ◌∷◌, String, ok,
  err, List, length, ◌%◌, ◌==◌, if◌then◌else◌,
}
use Prim.Native.String.{count}
use dusk_keepers.Prelude.Int.{pos}
use dusk_keepers.Adapter.Values.{integer}
use dusk_keepers.Adapter.Bytes.{Bytes, eq_bytes, from_le, to_le, read_le}
use dusk_keepers.Adapter.Hex.{hex_value, hex_bytes}
use dusk_keepers.Adapter.Pubkeys.{index_of, push_carry, add_digit, read_digits, strip_ones}
use dusk_keepers.Adapter.Lock.{
  ProtocolLock, frozen, is_blank, require_value, all_hex, require_hash, require_values,
  require_hashes, require_programs, assert_live_ready,
}
use dusk_keepers.Adapter.Contract.{
  AccountSpecification, InstructionSpecification, InstructionContract,
}
use dusk_keepers.Adapter.Codec.{
  KeeperInstructionArguments, closes_leverage, key_text, writes, unsigned, perform, write_all,
}
use dusk_keepers.Adapter.Codec.Encoding.{
  split_at_colons, find_specification, exact_hex, checked_discriminator, pinned_discriminator,
  encode_keeper_instruction,
}
use dusk_keepers.Adapter.Envelope.Delegated.RoundTrip.{decode_delegated-encode}
use dusk_keepers.Adapter.Envelope.Types.{
  parity_mismatch, ResolvedAccountMeta, InstructionEnvelope, JobEnvelope, require_pubkey,
  decode_hex,
}
use dusk_keepers.Adapter.Envelope.Accounts.{names_account, check_account, validate_accounts}
use dusk_keepers.Adapter.Lock.Ready.{IsLiveReady, assert_live_ready_iff}
use dusk_keepers.Adapter.Envelope.Accounts.Selection.{
  Selects, IsFresh, HasDistinctNames, validate_accounts_iff,
}
use dusk_keepers.Adapter.Envelope.Valid.Instruction.{AreDistinct, HasDistinctAccounts}
use dusk_keepers.Adapter.Envelope.Valid.Construction.{ArePinned, new_iff}
use dusk_keepers.Adapter.Envelope.Signing.{
  IsValid, HasNoCollision, validate_iff, validate_for_signing_iff, parity_sha256-fixes,
}
use dusk_keepers.Adapter.Envelope.Delegated.{read_vector, decode_delegated_cpi_payload}
use dusk_keepers.Adapter.Envelope.Parity.{
  utf8_of, utf8, ◌<>◌, write_u8, write_u32, write_u64, write_bytes, write_string, write_flag,
  write_account, write_each, write_list, write_hex, write_instruction, write_intent,
  canonical_bytes, envelope_parity_sha256,
}
use dusk_keepers.Adapter.Envelope.{
  EnvelopeValidator, ValidatedJobEnvelope, SignableJobEnvelope, find_pinned, has_text,
  check_programs, new, find_action, require_pubkeys, validate_specified,
  validate_expected_instruction, have_keys, validate_hooks, require_names, same_account,
  same_accounts, find_account, compare_composition, validate_two_hooks,
  validate_delegated_composition, validate_action, validate, validate_for_signing,
}

abbrev system : String
system = "11111111111111111111111111111111"

abbrev wrapped_sol : String
wrapped_sol = "So11111111111111111111111111111111111111112"

abbrev hash : String
hash = "00112233445566778899aabbccddeeff00112233445566778899aabbccddeeff"

abbrev lock : ProtocolLock
lock = record {
  schema_version = 1;
  revision = "r1";
  status = frozen;
  generated_at = some "2026-01-01T00:00:00Z";
  source = record {
    repository = "omnipair";
    branch = "main";
    git_commit = "c0ffee";
    worktree_fingerprint_sha256 = some hash;
  };
  toolchain = ("rust", some "1.79.0") ∷ [];
  programs =
      record {
        name = "dusk";
        program_id = some wrapped_sol;
        binary = record { path = "dusk.so"; sha256 = some hash };
        idl = record { path = "dusk.json"; sha256 = some hash };
      }
      ∷ [];
  sdk = record { path = "sdk.tgz"; sha256 = some hash };
  compatibility = ("manifest", some hash) ∷ [];
}

abbrev account : String → Bool → Option String → AccountSpecification
account name optional fixed = record {
  name = name;
  writable = true;
  signer = false;
  optional = optional;
  fixed_address = fixed;
}

abbrev instruction : String → String → List AccountSpecification → InstructionSpecification
instruction name discriminator accounts = record {
  key = name;
  program = "dusk";
  program_id = wrapped_sol;
  instruction_name = name;
  discriminator_hex = discriminator;
  accounts = accounts;
}

abbrev contract : InstructionContract
contract = record {
  schema_version = 1;
  protocol_revision = "r1";
  programs =
      record { name = "dusk"; program_id = wrapped_sol; idl_path = "dusk.json"; idl_sha256 = hash }
      ∷ [];
  actions =
      record {
        action = "close";
        job_kind = "leverage";
        primary_instruction_key = "close";
        cpi_instruction_keys = "before" ∷ "after" ∷ [];
        required_optional_accounts = "delegated_program" ∷ [];
      }
      ∷ [];
  instructions =
      instruction "close" "0102030405060708" (
        account "market" false none
        ∷ account "referrer" true none
        ∷ account "delegated_program" true none
        ∷ account "program" false none
        ∷ [])
      ∷ instruction "before" "1111111111111111" (account "vault" false none ∷ [])
      ∷ instruction "after" "2222222222222222" (account "vault" false (some system) ∷ [])
      ∷ [];
}

abbrev meta : String → String → ResolvedAccountMeta
meta name address = record { name = name; address = address; writable = true; signer = false }

abbrev hook : String → String → String → InstructionEnvelope
hook name bytes address = record {
  specification_key = name;
  program = "dusk";
  program_id = wrapped_sol;
  instruction_name = name;
  data_hex = bytes;
  accounts = meta "vault" address ∷ [];
  remaining_accounts = [];
}

abbrev close : InstructionEnvelope
close = record {
  specification_key = "close";
  program = "dusk";
  program_id = wrapped_sol;
  instruction_name = "close";
  data_hex =
      "010203040506070800000000000000000000000a00000011111111111111110a0b0800000022222222222222220100";
  accounts =
      meta "market" system ∷ meta "delegated_program" wrapped_sol ∷ meta "program" wrapped_sol ∷ [];
  remaining_accounts = meta "vault" wrapped_sol ∷ meta "vault" system ∷ [];
}

abbrev job : String → JobEnvelope
job parity = record {
  schema_version = 1;
  intent = record {
    schema_version = 1;
    intent_id = "i1";
    protocol_revision = "r1";
    action = "close";
    job_kind = "leverage";
    market = system;
    target = wrapped_sol;
    observed_slot = integer (pos 7);
    expected_state_hash = hash;
  };
  primary = close;
  cpi_hooks =
      hook "before" "11111111111111110a0b" wrapped_sol
      ∷ hook "after" "2222222222222222" system
      ∷ [];
  parity_sha256 = parity;
}

-- A host whose digest says whether the number of bytes is even.
abbrev digest : Bytes → String
digest bytes = if length bytes % 2 == 0 then "even" else "odd"

abbrev validator : EnvelopeValidator
validator = record { lock = lock; contract = contract }

new_run : Unit {0}
unfolding new check_programs has_text find_pinned
new_run = tt

is_made : new lock contract ≡ ok validator
unfolding new_run
is_made = refl

abbrev validated : ValidatedJobEnvelope
validated = record { envelope = job "even" }

abbrev signable : SignableJobEnvelope
signable = record { envelope = job "even" }

validate_run : Unit {0}
unfolding validate validate_action find_action validate_expected_instruction find_specification
    validate_specified require_pubkey require_pubkeys read_digits add_digit push_carry index_of
    strip_ones decode_hex hex_bytes hex_value eq_bytes validate_accounts check_account names_account
    have_keys validate_hooks require_names validate_delegated_composition validate_two_hooks
    compare_composition same_accounts same_account find_account decode_delegated_cpi_payload
    read_vector read_le from_le to_le envelope_parity_sha256 canonical_bytes write_intent
    write_instruction write_list write_each write_account write_flag write_bytes write_string
    write_hex ◌<>◌ write_u64 write_u32 write_u8 utf8 utf8_of
validate_run = tt

is_validated : validate digest validator (job "even") ≡ ok validated
unfolding validate_run
is_validated = refl

other_parity : validate digest validator (job "odd") ≡ err parity_mismatch
unfolding validate_run
other_parity = refl

distinct : HasDistinctAccounts contract
unfolding HasDistinctAccounts AreDistinct HasDistinctNames IsFresh
distinct = (
  ((λ e. cc, (λ e. cc, (λ e. cc, tt))), ((λ e. cc, (λ e. cc, tt)), ((λ e. cc, tt), (tt, tt)))),
  ((tt, tt), ((tt, tt), tt)),
)

is_valid : IsValid digest validator (job "even")
is_valid = ((validate_iff digest validator (job "even") validated distinct).0 is_validated).1

signing_run : Unit {0}
unfolding validate_run validate_for_signing assert_live_ready require_programs require_values
    require_hashes require_hash require_value is_blank all_hex
signing_run = tt

is_signable : validate_for_signing digest validator (job "even") ≡ ok signable
unfolding signing_run
is_signable = refl

validate_for_signing_iff_example :
    (validate_for_signing digest validator (job "even") ≡ ok signable)
    ↔ ((signable ≡ signable) × IsLiveReady lock × IsValid digest validator (job "even"))
validate_for_signing_iff_example =
    validate_for_signing_iff digest validator (job "even") signable distinct

no_collision : HasNoCollision digest (job "even") (job "even")
unfolding HasNoCollision
no_collision a b wa wb same = cc

parity_sha256-fixes_example :
    ((job "even").intent ≡ (job "even").intent)
    × ((job "even").primary ≡ (job "even").primary)
    × ((job "even").cpi_hooks ≡ (job "even").cpi_hooks)
parity_sha256-fixes_example =
    parity_sha256-fixes digest validator (job "even") (job "even") no_collision is_valid is_valid
      refl

new_iff_example : (new lock contract ≡ ok validator) ↔ (
    (validator ≡ validator)
    × (contract.schema_version ≡ 1)
    × (contract.protocol_revision ≡ lock.revision)
    × ArePinned lock [] contract.programs)
new_iff_example = new_iff lock contract validator

assert_live_ready_iff_example : (assert_live_ready lock ≡ ok tt) ↔ IsLiveReady lock
assert_live_ready_iff_example = assert_live_ready_iff lock

abbrev close_accounts : List AccountSpecification
close_accounts =
    account "market" false none ∷ account "referrer" true none ∷ account "program" false none ∷ []

validate_accounts_iff_example :
    (validate_accounts wrapped_sol close_accounts
        (meta "market" system ∷ meta "program" wrapped_sol ∷ [])
      ≡ ok tt)
    ↔ Selects wrapped_sol close_accounts (meta "market" system ∷ meta "program" wrapped_sol ∷ [])
unfolding HasDistinctNames IsFresh
validate_accounts_iff_example =
    validate_accounts_iff wrapped_sol close_accounts
      (meta "market" system ∷ meta "program" wrapped_sol ∷ [])
      ((λ e. cc, (λ e. cc, tt)), ((λ e. cc, tt), (tt, tt)))

abbrev value_or_empty : {E : Type 0} → Result E Bytes → Bytes
value_or_empty (ok bytes) = bytes
value_or_empty (err thrown) = []

abbrev canonical : Bytes
canonical = value_or_empty (canonical_bytes (job "even"))

written : canonical_bytes (job "even") ≡ ok canonical
unfolding validate_run
written = refl

abbrev delegated_contract : InstructionContract
delegated_contract = record {
  schema_version = 1;
  protocol_revision = "r1";
  programs = [];
  actions = [];
  instructions =
      record {
        key = "dusk:delegated_close_leverage";
        program = "dusk";
        program_id = wrapped_sol;
        instruction_name = "delegated_close_leverage";
        discriminator_hex = "1f1f1f1f1f1f1f1f";
        accounts = [];
      }
      ∷ [];
}

-- A host whose digest of a text is its length, thirty-two times.
abbrev name_digest : String → Bytes
name_digest name = replicate 32 (count name)

abbrev delegated_close : KeeperInstructionArguments
delegated_close =
    closes_leverage (integer (pos 1)) (pos 3) (integer (pos 2)) (4 ∷ 5 ∷ []) (6 ∷ [])
      (integer (pos 7))

abbrev delegated_data : Bytes
delegated_data =
    value_or_empty (encode_keeper_instruction name_digest delegated_contract delegated_close)

encoding_run : Unit {0}
unfolding encode_keeper_instruction pinned_discriminator checked_discriminator eq_bytes exact_hex
    find_specification split_at_colons hex_bytes hex_value write_all perform unsigned writes
    key_text to_le
encoding_run = tt

delegated_written :
    encode_keeper_instruction name_digest delegated_contract delegated_close ≡ ok delegated_data
unfolding encoding_run
delegated_written = refl

decode_delegated-encode_example :
    (n : ℕ) × (integer (pos 7) ≡ integer (pos n))
    × (decode_delegated_cpi_payload delegated_data
        ≡ ok (record { before = 4 ∷ 5 ∷ []; after = 6 ∷ []; before_accounts_length = n }))
decode_delegated-encode_example =
    decode_delegated-encode name_digest delegated_contract (integer (pos 1)) (integer (pos 2))
      (integer (pos 7)) (pos 3) (4 ∷ 5 ∷ []) (6 ∷ []) delegated_data delegated_written
