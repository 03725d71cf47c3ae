-- ===== src/Adapter/Liquidation.antt =====
-- liquidation.ts of dusk-adapter: its own printer of public keys, `base58`. The quotes and the plans are
-- in the modules below.
pub mod Base58
pub mod Quote
pub mod Plan
use dusk_keepers.Prelude.{
  ℕ, zero, suc, ◌+◌, ◌*◌, ◌/◌, ◌%◌, Bool, true, false, List, [], ◌∷◌, String, ◌==◌, if◌then◌else◌,
}
use dusk_keepers.Adapter.Bytes.{Bytes}
use dusk_keepers.Adapter.Resolution.Base58.{alphabet, character_at}

-- `n = (n << 8n) | BigInt(b)` for each byte
unfoldable pub big_endian : ℕ → Bytes → ℕ
big_endian n [] = n
big_endian n (b ∷ bs) = big_endian (n * 256 + b) bs

-- The `while` loop on `n`, at most as many rounds as `n` is large.
unfoldable pub print_digits : ℕ → ℕ → String → String
print_digits zero n out = out
print_digits (suc fuel) n out = elim (n == 0) [
  | true ↦ out
  | false ↦ print_digits fuel (n / 58) (String.◌∷◌ (character_at alphabet (n % 58)) out)
]

-- A "1" in front for each byte before the first that is not zero.
unfoldable pub print_zeros : Bytes → String → String
print_zeros [] out = out
print_zeros (b ∷ bs) out = if b == 0 then print_zeros bs (String.◌∷◌ "1" out) else out

unfoldable pub base58 : Bytes → String
base58 bytes = let n = big_endian 0 bytes in print_zeros bytes (print_digits n n "")
