-- ===== src/Adapter/Liquidation/Quote.antt =====
-- `decodeLiquidationQuote` of liquidation.ts. A reader takes the buffer and `offset`, and gives the
-- offset behind what it has read.
pub mod Layout
pub mod Decimal
pub mod Amounts
pub mod RoundTrip
mod Tests
use Prim.Native.Char.{Char}
use dusk_keepers.Prelude.{
  ℕ, zero, suc, ◌+◌, ◌/◌, ◌%◌, Bool, true, false, String, length, ltb, ◌==◌, if◌then◌else◌, Result,
  ok, err,
}
use dusk_keepers.Adapter.Bytes.{Bytes, from_le, slice}
use dusk_keepers.Adapter.Resolution.Base58.{character_at}

pub data QuoteError : Type 0 where
  truncated_return_data invalid_bool trailing_return_data : QuoteError

abbrev pub Reader : Type 0 → Type 0
Reader A = Bytes → ℕ → Result QuoteError (A × ℕ)

module _ {A B : Type 0} where
  abbrev pub continue :
      Bytes → (A → Reader B) → Result QuoteError (A × ℕ) → Result QuoteError (B × ℕ)
  continue b next (err thrown) = err thrown
  continue b next (ok (value, offset)) = next value b offset

  infixl 5 ◌>>=◌
  unfoldable pub ◌>>=◌ : Reader A → (A → Reader B) → Reader B
  (first >>= next) b offset = continue b next (first b offset)

unfoldable pub returns : {A : Type 0} → A → Reader A
returns value b offset = ok (value, offset)

-- `integer`: the bytes from the last to the first, as in `littleEndianBigInt`.
unfoldable pub integer : ℕ → Reader ℕ
integer width b offset =
    if ltb (length b) (offset + width)
    then err truncated_return_data
    else ok (from_le (slice b offset width), offset + width)

-- `toString()` of a number, digit by digit, at most as many rounds as the number is large.
unfoldable pub print_decimal : ℕ → ℕ → String → String
print_decimal zero n out = out
print_decimal (suc fuel) n out = elim (n == 0) [
  | true ↦ out
  | false ↦ print_decimal fuel (n / 10) (String.◌∷◌ (character_at "0123456789" (n % 10)) out)
]

unfoldable pub decimal_text : ℕ → String
decimal_text n = if n == 0 then "0" else print_decimal n n ""

unfoldable pub u64 : Reader String
u64 = do n ← integer 8; returns (decimal_text n)

unfoldable pub u128 : Reader String
u128 = do n ← integer 16; returns (decimal_text n)

unfoldable pub u16 : Reader ℕ
u16 = integer 2

abbrev pub as_bool : ℕ → Reader Bool
as_bool zero = returns false
as_bool (suc zero) = returns true
as_bool (suc (suc n)) = λ b offset. err invalid_bool

unfoldable pub bool : Reader Bool
bool = do n ← integer 1; as_bool n

pub record Health : Type 0 where
  pub collateral_value : String
  pub debt : String
  pub maintenance_bps : ℕ

pub record QuotedFee : Type 0 where
  pub total : String
  pub protocol : String
  pub junior : String

pub record Rates : Type 0 where
  pub buyer_discount_bps : ℕ
  pub emergency_reward_bps : ℕ

pub record FlashQuote : Type 0 where
  pub full : Bool
  pub collateral_debit : String
  pub collateral_credit : String
  pub payment : String
  pub repayment : String
  pub owner_surplus : String
  pub fee : QuotedFee
  pub debt_shares_to_burn : String
  pub health_before : Health
  pub health_after : Health
  pub rates : Rates

unfoldable pub read_health : Reader Health
read_health = do
  collateral_value ← u64
  debt ← u64
  maintenance_bps ← u16
  returns (record {
    collateral_value = collateral_value;
    debt = debt;
    maintenance_bps = maintenance_bps;
  })

unfoldable pub read_quoted_fee : Reader QuotedFee
read_quoted_fee = do
  total ← u64
  protocol ← u64
  junior ← u64
  returns (record { total = total; protocol = protocol; junior = junior })

unfoldable pub read_rates : Reader Rates
read_rates = do
  buyer_discount_bps ← u16
  emergency_reward_bps ← u16
  returns (record {
    buyer_discount_bps = buyer_discount_bps;
    emergency_reward_bps = emergency_reward_bps;
  })

unfoldable pub read_flash : Reader FlashQuote
read_flash = do
  full ← bool
  collateral_debit ← u64
  collateral_credit ← u64
  payment ← u64
  repayment ← u64
  owner_surplus ← u64
  fee ← read_quoted_fee
  debt_shares_to_burn ← u128
  health_before ← read_health
  health_after ← read_health
  rates ← read_rates
  returns (record {
    full = full;
    collateral_debit = collateral_debit;
    collateral_credit = collateral_credit;
    payment = payment;
    repayment = repayment;
    owner_surplus = owner_surplus;
    fee = fee;
    debt_shares_to_burn = debt_shares_to_burn;
    health_before = health_before;
    health_after = health_after;
    rates = rates;
  })

pub record Loss : Type 0 where
  pub principal_repaid : String
  pub interest_paid : String
  pub principal_written_off : String
  pub interest_canceled : String
  pub surplus : String

pub record EmergencyQuote : Type 0 where
  pub reference_price_nad : String
  pub reference_depth_nad : String
  pub full : Bool
  pub collateral_debit : String
  pub collateral_credit : String
  pub swap_output : String
  pub repayment : String
  pub shares_to_burn : String
  pub reward_credit : String
  pub reward_debit : String
  pub fee : QuotedFee
  pub junior_fee_debit : String
  pub revenue_fee_debit : String
  pub owner_debit : String
  pub owner_credit : String
  pub loss : Loss
  pub health_before : Health
  pub health_after : Health
  pub rates : Rates

unfoldable pub read_loss : Reader Loss
read_loss = do
  principal_repaid ← u64
  interest_paid ← u64
  principal_written_off ← u64
  interest_canceled ← u64
  surplus ← u64
  returns (record {
    principal_repaid = principal_repaid;
    interest_paid = interest_paid;
    principal_written_off = principal_written_off;
    interest_canceled = interest_canceled;
    surplus = surplus;
  })

unfoldable pub read_emergency : Reader EmergencyQuote
read_emergency = do
  reference_price_nad ← u64
  reference_depth_nad ← u128
  full ← bool
  collateral_debit ← u64
  collateral_credit ← u64
  swap_output ← u64
  repayment ← u64
  shares_to_burn ← u128
  reward_credit ← u64
  reward_debit ← u64
  fee ← read_quoted_fee
  junior_fee_debit ← u64
  revenue_fee_debit ← u64
  owner_debit ← u64
  owner_credit ← u64
  loss ← read_loss
  health_before ← read_health
  health_after ← read_health
  rates ← read_rates
  returns (record {
    reference_price_nad = reference_price_nad;
    reference_depth_nad = reference_depth_nad;
    full = full;
    collateral_debit = collateral_debit;
    collateral_credit = collateral_credit;
    swap_output = swap_output;
    repayment = repayment;
    shares_to_burn = shares_to_burn;
    reward_credit = reward_credit;
    reward_debit = reward_debit;
    fee = fee;
    junior_fee_debit = junior_fee_debit;
    revenue_fee_debit = revenue_fee_debit;
    owner_debit = owner_debit;
    owner_credit = owner_credit;
    loss = loss;
    health_before = health_before;
    health_after = health_after;
    rates = rates;
  })

abbrev at_end : {A : Type 0} → Bytes → Result QuoteError (A × ℕ) → Result QuoteError A
at_end b (err thrown) = err thrown
at_end b (ok (quote, offset)) = if offset == length b then ok quote else err trailing_return_data

-- `decodeLiquidationQuote` for the kind "flash", and for "emergency".
unfoldable pub decode_flash_quote : Bytes → Result QuoteError FlashQuote
decode_flash_quote b = at_end b (read_flash b 0)

unfoldable pub decode_emergency_quote : Bytes → Result QuoteError EmergencyQuote
decode_emergency_quote b = at_end b (read_emergency b 0)
