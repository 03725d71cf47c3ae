-- ===== src/Adapter/Envelope/Delegated.antt =====
-- `decodeDelegatedCpiPayload` of envelope.ts.
pub mod RoundTrip
use dusk_keepers.Prelude.{
  ℕ, ◌+◌, ltb, ◌==◌, not, Option, none, some, List, [], ◌∷◌, length, Result, ok, err, ◌>>=◌, ◌>>◌,
  guard, refuse,
}
use dusk_keepers.Adapter.Bytes.{Bytes, slice, read_le}
use dusk_keepers.Adapter.Envelope.Types.{delegated_hook_data_mismatch, Checked}

pub record DelegatedCpiPayload : Type 0 where
  pub before : Bytes
  pub after : Bytes
  pub before_accounts_length : ℕ

-- The vector at a cursor, and the cursor behind it.
unfoldable pub read_vector : Bytes → ℕ → Checked (Bytes × ℕ)
read_vector bytes cursor = do
  refuse (ltb (length bytes) (cursor + 4)) delegated_hook_data_mismatch
  size ← read_le delegated_hook_data_mismatch 4 bytes cursor
  refuse (ltb (length bytes) (cursor + 4 + size)) delegated_hook_data_mismatch
  ok (slice bytes (cursor + 4) size, cursor + 4 + size)

unfoldable pub decode_delegated_cpi_payload : Bytes → Checked DelegatedCpiPayload
decode_delegated_cpi_payload bytes = do
  refuse (ltb (length bytes) 29) delegated_hook_data_mismatch
  before ← read_vector bytes 19
  after ← read_vector bytes before.1
  guard (after.1 + 2 == length bytes) delegated_hook_data_mismatch
  count ← read_le delegated_hook_data_mismatch 2 bytes after.1
  ok (record { before = before.0; after = after.0; before_accounts_length = count })
