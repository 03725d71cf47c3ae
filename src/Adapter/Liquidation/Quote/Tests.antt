-- ===== src/Adapter/Liquidation/Quote/Tests.antt =====
-- Quotes at concrete numbers, and the theorems about them.
use dusk_keepers.Prelude.{◌≡◌, ◌≤◌, ◌<◌, ◌⊎◌, refl, true, [], ◌∷◌, ok, err, take, arith}
use dusk_keepers.Prelude.Int.{pos}
use dusk_keepers.Adapter.Values.{max_u64}
use dusk_keepers.Adapter.Bytes.{to_le, from_le}
use dusk_keepers.Adapter.Resolution.Derivation.{concat}
use dusk_keepers.Adapter.Resolution.Base58.{base58_encode, character_at}
use dusk_keepers.Adapter.Liquidation.{base58}
use dusk_keepers.Adapter.Liquidation.Base58.{base58-base58_encode}
use dusk_keepers.Adapter.Liquidation.Quote.{
  truncated_return_data, ◌>>=◌, returns, integer, print_decimal, decimal_text, u64, u128, u16, bool,
  read_health, read_quoted_fee, read_rates, read_flash, decode_flash_quote, decode_emergency_quote,
}
use dusk_keepers.Adapter.Liquidation.Quote.Amounts.{
  HealthAmounts, FlashAmounts, EmergencyAmounts, flash_layout, flash_of, emergency_layout,
  emergency_of,
}
use dusk_keepers.Adapter.Liquidation.Quote.RoundTrip.{decode_quote-layout}
use dusk_keepers.Adapter.Liquidation.Quote.Decimal.{decimal_u64-decimal_text}
use dusk_keepers.Adapter.Codec.Parsing.Readers.{decimal_u64, text}
use dusk_keepers.Adapter.Codec.{invalid_arguments}

abbrev health : HealthAmounts
health = record {
  collateral_value = (7000, omega arith);
  debt = (5000, omega arith);
  maintenance_bps = (8500, omega arith);
}

abbrev flash : FlashAmounts
flash = record {
  full = true;
  collateral_debit = (120, omega arith);
  collateral_credit = (118, omega arith);
  payment = (100, omega arith);
  repayment = (99, omega arith);
  owner_surplus = (0, omega arith);
  fee = record { total = (3, omega arith); protocol = (2, omega arith); junior = (1, omega arith) };
  debt_shares_to_burn = (12345678901234567890123, omega arith);
  health_before = health;
  health_after = health;
  rates = record {
    buyer_discount_bps = (500, omega arith);
    emergency_reward_bps = (50, omega arith);
  };
}

abbrev emergency : EmergencyAmounts
emergency = record {
  reference_price_nad = (1000000000, omega arith);
  reference_depth_nad = (12345678901234567890123, omega arith);
  full = true;
  collateral_debit = (120, omega arith);
  collateral_credit = (118, omega arith);
  swap_output = (100, omega arith);
  repayment = (99, omega arith);
  shares_to_burn = (77, omega arith);
  reward_credit = (5, omega arith);
  reward_debit = (6, omega arith);
  fee = record { total = (3, omega arith); protocol = (2, omega arith); junior = (1, omega arith) };
  junior_fee_debit = (1, omega arith);
  revenue_fee_debit = (2, omega arith);
  owner_debit = (0, omega arith);
  owner_credit = (0, omega arith);
  loss = record {
    principal_repaid = (90, omega arith);
    interest_paid = (9, omega arith);
    principal_written_off = (0, omega arith);
    interest_canceled = (0, omega arith);
    surplus = (0, omega arith);
  };
  health_before = health;
  health_after = health;
  rates = record {
    buyer_discount_bps = (500, omega arith);
    emergency_reward_bps = (50, omega arith);
  };
}

decode_run : Unit {0}
unfolding decode_flash_quote read_flash read_health read_quoted_fee read_rates u64 u128 u16 bool
    integer ◌>>=◌ returns decimal_text print_decimal character_at to_le from_le concat
decode_run = tt

truncated : decode_flash_quote (take 40 (flash_layout flash)) ≡ err truncated_return_data
unfolding decode_run
truncated = refl

decode_quote-layout_example :
    (decode_flash_quote (flash_layout flash) ≡ ok (flash_of flash))
    × (decode_emergency_quote (emergency_layout emergency) ≡ ok (emergency_of emergency))
decode_quote-layout_example = decode_quote-layout flash emergency

decimal_u64-decimal_text_example :
    ((12340 ≤ max_u64) × (decimal_u64 (text (decimal_text 12340)) ≡ ok (pos 12340)))
    ⊎ ((max_u64 < 12340) × (decimal_u64 (text (decimal_text 12340)) ≡ err invalid_arguments))
decimal_u64-decimal_text_example = decimal_u64-decimal_text 12340

base58-base58_encode_example : base58 (0 ∷ 1 ∷ 2 ∷ []) ≡ base58_encode (0 ∷ 1 ∷ 2 ∷ [])
base58-base58_encode_example = base58-base58_encode 0 (1 ∷ 2 ∷ [])

print_run : decimal_text 12340 ≡ "12340"
unfolding decode_run
print_run = refl
