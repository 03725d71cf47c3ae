-- ===== src/Adapter/Envelope/Parity.antt =====
-- The CanonicalWriter of envelope.ts, and the bytes that `envelopeParitySha256` hashes. What the writer
-- pushes one after the other is one buffer.
pub mod Unambiguous
pub mod Injective
use dusk_keepers.Prelude.{
  ℕ, ◌+◌, ◌*◌, ◌/◌, ◌%◌, Bool, true, false, List, [], ◌∷◌, ◌++◌, String, length, ltb, leb,
  if◌then◌else◌, Result, ok, err, ◌>>=◌, ◌>>◌, guard,
}
use dusk_keepers.Prelude.Int.{ℤ, pos, negsuc}
use dusk_keepers.Adapter.Values.{Number, integer, no_integer, max_safe_integer}
use dusk_keepers.Adapter.Bytes.{Bytes, to_le}
use dusk_keepers.Adapter.Hex.{codes}
use dusk_keepers.Adapter.Envelope.Types.{
  parity_mismatch, Checked, JobIntent, ResolvedAccountMeta, InstructionEnvelope, JobEnvelope,
  decode_hex,
}

-- The UTF-8 of a code point, and of a text.
unfoldable pub utf8_of : ℕ → Bytes
utf8_of c =
    if ltb c 0x80
    then c ∷ []
    else if ltb c 0x800
    then (0xc0 + c / 64) ∷ (0x80 + c % 64) ∷ []
    else if ltb c 0x1_0000
    then (0xe0 + c / 4096) ∷ (0x80 + c / 64 % 64) ∷ (0x80 + c % 64) ∷ []
    else (0xf0 + c / 0x4_0000)
      ∷ (0x80 + c / 4096 % 64)
      ∷ (0x80 + c / 64 % 64)
      ∷ (0x80 + c % 64)
      ∷ []

unfoldable pub utf8 : List ℕ → Bytes
utf8 [] = []
utf8 (c ∷ s) = utf8_of c ++ utf8 s

-- Two runs of the writer, one after the other.
infixr 6 ◌<>◌
unfoldable pub ◌<>◌ : Checked Bytes → Checked Bytes → Checked Bytes
first <> second = do front ← first; back ← second; ok (front ++ back)

unfoldable pub write_u8 : ℕ → Checked Bytes
write_u8 value = ok ((value % 256) ∷ [])

unfoldable pub write_u32 : ℕ → Checked Bytes
write_u32 value = do guard (leb value 0xffff_ffff) parity_mismatch; ok (to_le 4 value)

unfoldable pub write_u64 : Number → Checked Bytes
write_u64 (integer (pos n)) = do guard (leb n max_safe_integer) parity_mismatch; ok (to_le 8 n)
write_u64 (integer (negsuc n)) = err parity_mismatch
write_u64 no_integer = err parity_mismatch

unfoldable pub write_bytes : Bytes → Checked Bytes
write_bytes value = write_u32 (length value) <> ok value

unfoldable pub write_string : String → Checked Bytes
write_string value = write_bytes (utf8 (codes value))

unfoldable pub write_flag : Bool → Checked Bytes
write_flag true = write_u8 1
write_flag false = write_u8 0

unfoldable pub write_account : ResolvedAccountMeta → Checked Bytes
write_account a =
    write_string a.name <> write_string a.address <> write_flag a.writable <> write_flag a.signer

unfoldable pub write_each {ℓ} : {A : Type ℓ} → (A → Checked Bytes) → List A → Checked Bytes
write_each write [] = ok []
write_each write (x ∷ xs) = write x <> write_each write xs

-- A length and a loop over a list.
unfoldable pub write_list {ℓ} : {A : Type ℓ} → (A → Checked Bytes) → List A → Checked Bytes
write_list write xs = write_u32 (length xs) <> write_each write xs

unfoldable pub write_hex : String → Checked Bytes
write_hex value = decode_hex value >>= write_bytes

unfoldable pub write_instruction : InstructionEnvelope → Checked Bytes
write_instruction i =
    write_string i.specification_key
    <> write_string i.program
    <> write_string i.program_id
    <> write_string i.instruction_name
    <> write_hex i.data_hex
    <> write_list write_account i.accounts
    <> write_list write_account i.remaining_accounts

unfoldable pub write_intent : JobIntent → Checked Bytes
write_intent i =
    write_u8 i.schema_version
    <> write_string i.intent_id
    <> write_string i.protocol_revision
    <> write_string i.action
    <> write_string i.job_kind
    <> write_string i.market
    <> write_string i.target
    <> write_u64 i.observed_slot
    <> write_string i.expected_state_hash

unfoldable pub canonical_bytes : JobEnvelope → Checked Bytes
canonical_bytes e =
    write_u8 e.schema_version
    <> write_intent e.intent
    <> write_instruction e.primary
    <> write_list write_instruction e.cpi_hooks

unfoldable pub envelope_parity_sha256 : (Bytes → String) → JobEnvelope → Checked String
envelope_parity_sha256 digest_hex e = do bytes ← canonical_bytes e; ok (digest_hex bytes)
