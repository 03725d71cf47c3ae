-- ===== src/Adapter/TransferFees/Decoding.antt =====
-- The reader of a mint's fee schedule and of the clock's epoch (decodeMintFees and decodeClockEpoch of
-- transfer-fees.ts). The extension loop sees `rest`, which is `data.subarray(offset)`; each round drops
-- what it read from the front, and one more round than there are bytes is enough.
use dusk_keepers.Prelude.{
  ℕ, zero, suc, ◌+◌, ◌≤◌, ◌<◌, ◌≡◌, ◌≢◌, inl, inr, Bool, true, false, not, ◌||◌, Option, none, some,
  String, str_eq, length, drop, length-drop, get_elem?, ltb, leb, ◌==◌, if◌then◌else◌, Result, ok,
  err, ◌>>=◌, ◌>>◌, refuse, arith, Result-cases,
}
use dusk_keepers.Prelude.Int.{pos, negsuc}
use dusk_keepers.Adapter.Values.{Number, integer, no_integer, max_safe_integer, eq_ℤ}
use dusk_keepers.Adapter.Bytes.{Bytes, read_le, all_zero}
use dusk_keepers.Adapter.TransferFees.{
  Fee, FeeSchedule, token_program, token_2022_program, sysvar_program,
}

pub data DecodeError : Type 0 where
  thrown : String → DecodeError
  out_of_range out_of_fuel : DecodeError

-- `data[index] !== value`, also where the index is outside
abbrev pub differs_at : Bytes → ℕ → ℕ → Bool
differs_at bytes index value = elim (get_elem? bytes index) [
  | none ↦ true
  | some b ↦ not (b == value)
]

-- The closure `read`.
unfoldable pub read_fee : Bytes → ℕ → Result DecodeError Fee
read_fee bytes at = do
  epoch ← read_le out_of_range 8 bytes at
  maximum ← read_le out_of_range 8 bytes (at + 8)
  bps ← read_le out_of_range 2 bytes (at + 16)
  refuse (ltb 10000 bps) (thrown "invalid rate")
  ok (record { epoch = pos epoch; bps = integer (pos bps); maximum = pos maximum })

abbrev is_read : Option FeeSchedule → Bool
is_read none = false
is_read (some s) = true

-- A transfer fee config, whose body starts four bytes into `rest`.
unfoldable pub read_config :
    Bytes → ℕ → Option FeeSchedule → Result DecodeError (Option FeeSchedule)
unfolding read_fee
read_config rest size found = do
  refuse (is_read found || not (size == 108)) (thrown "invalid transfer fee config")
  older ← read_fee rest (4 + 72)
  newer ← read_fee rest (4 + 90)
  ok (some (record { older = older; newer = newer }))

-- One round of the loop: what it found so far, and how many bytes it read.
unfoldable pub read_extension :
    Bytes → Option FeeSchedule → Result DecodeError (Option FeeSchedule × ℕ)
read_extension rest found = do
  refuse (ltb (length rest) 4) (thrown "truncated TLV")
  kind ← read_le out_of_range 2 rest 0
  size ← read_le out_of_range 2 rest 2
  refuse (ltb (length rest) (4 + size)) (thrown "truncated TLV")
  next ← (if kind == 1 then read_config rest size found else ok found)
  ok (next, 4 + size)

unfoldable pub read_extensions :
    ℕ → Bytes → Option FeeSchedule → Result DecodeError (Option FeeSchedule)
read_extensions zero rest found = err out_of_fuel
read_extensions (suc fuel) rest found = elim (all_zero rest) [
  | true ↦ ok found
  | false ↦ read_extension rest found >>= λ r. read_extensions fuel (drop r.1 rest) r.0
]

-- The first test of `decodeMintFees`, on every mint, and the second, on one with extensions.
unfoldable pub invalid_mint : String → Bytes → Bool
invalid_mint owner bytes =
    not (str_eq owner token_program || str_eq owner token_2022_program)
    || ltb (length bytes) 82
    || differs_at bytes 45 1

unfoldable pub invalid_extended_mint : String → Bytes → Bool
invalid_extended_mint owner bytes =
    str_eq owner token_program
    || leb (length bytes) 165
    || length bytes == 355
    || differs_at bytes 165 1

unfoldable pub decode_mint_fees : String → Bytes → Result DecodeError (Option FeeSchedule)
decode_mint_fees owner bytes = do
  refuse (invalid_mint owner bytes) (thrown "invalid mint")
  if length bytes == 82 then ok none else do
    refuse (invalid_extended_mint owner bytes) (thrown "invalid extended mint")
    read_extensions (suc (length bytes)) (drop 166 bytes) none

-- `Number.isSafeInteger(slot)`, with the slot as a `bigint`
abbrev pub unsafe_slot : Number → Bool
unsafe_slot no_integer = true
unsafe_slot (integer (pos n)) = ltb max_safe_integer n
unsafe_slot (integer (negsuc n)) = leb max_safe_integer n

abbrev pub slot_differs : Number → ℕ → Bool
slot_differs no_integer n = true
slot_differs (integer slot) n = not (eq_ℤ (pos n) slot)

unfoldable pub decode_clock_epoch : String → Bytes → Number → Result DecodeError ℕ
decode_clock_epoch owner bytes slot = do
  refuse (unsafe_slot slot || not (str_eq owner sysvar_program) || not (length bytes == 40))
      (thrown "invalid Clock snapshot")
  at ← read_le out_of_range 8 bytes 0
  refuse (slot_differs slot at) (thrown "invalid Clock snapshot")
  read_le out_of_range 8 bytes 16

read_extension-size :
    (rest : Bytes) (found : Option FeeSchedule) (r : Option FeeSchedule × ℕ)
    → read_extension rest found ≡ ok r
    → (4 ≤ r.1) × (r.1 ≤ length rest)
unfolding read_extension
read_extension-size rest found r h = ground arith

read_le-ne-fuel :
    (width : ℕ) (bytes : Bytes) (offset : ℕ)
    → read_le out_of_range width bytes offset ≢ err out_of_fuel
unfolding read_le
read_le-ne-fuel width bytes offset h = ground arith

read_fee-ne-fuel : (bytes : Bytes) (at : ℕ) → read_fee bytes at ≢ err out_of_fuel
unfolding read_fee
read_fee-ne-fuel bytes at h = ground (
  arith,
  read_le-ne-fuel 8 bytes at,
  read_le-ne-fuel 8 bytes (at + 8),
  read_le-ne-fuel 2 bytes (at + 16),
)

read_extension-ne-fuel :
    (rest : Bytes) (found : Option FeeSchedule) → read_extension rest found ≢ err out_of_fuel
unfolding read_extension read_config
read_extension-ne-fuel rest found h = ground (
  arith,
  read_le-ne-fuel 2 rest 0,
  read_le-ne-fuel 2 rest 2,
  read_fee-ne-fuel rest (4 + 72),
  read_fee-ne-fuel rest (4 + 90),
)

read_extensions-ne-fuel :
    (fuel : ℕ) (rest : Bytes) (found : Option FeeSchedule)
    → length rest < fuel
    → read_extensions fuel rest found ≢ err out_of_fuel
unfolding read_extensions
read_extensions-ne-fuel zero rest found enough h = elim enough [ ]
read_extensions-ne-fuel (suc fuel) rest found enough h =
    elim (Result-cases (read_extension rest found)) [
      | inl (r, e) ↦
          let (least, most) = read_extension-size rest found r e in
          ground (
            arith,
            read_extensions-ne-fuel fuel (drop r.1 rest) r.0 (omega (arith, length-drop r.1 rest)),
          )
      | inr (x, e) ↦ ground (arith, read_extension-ne-fuel rest found)
    ]

-- The reader of a mint ends on every account: its extension loop never runs out of rounds.
pub decode_mint_fees-ends :
    (owner : String) (bytes : Bytes) → decode_mint_fees owner bytes ≢ err out_of_fuel
unfolding decode_mint_fees
decode_mint_fees-ends owner bytes h = ground (
  arith,
  read_extensions-ne-fuel (suc (length bytes)) (drop 166 bytes) none
      (omega (arith, length-drop 166 bytes)),
)
