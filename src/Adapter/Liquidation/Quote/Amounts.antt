-- ===== src/Adapter/Liquidation/Quote/Amounts.antt =====
-- The numbers of a quote, the layout of their bytes, and what the quote shows of them.
use dusk_keepers.Prelude.{Bool, [], ◌∷◌}
use dusk_keepers.Adapter.Bytes.{Bytes, to_le}
use dusk_keepers.Adapter.Resolution.Derivation.{concat}
use dusk_keepers.Adapter.Liquidation.Quote.{
  decimal_text, Health, QuotedFee, Rates, FlashQuote, Loss, EmergencyQuote,
}
use dusk_keepers.Adapter.Liquidation.Quote.Layout.{Word, flag_word}

pub record HealthAmounts : Type 0 where
  pub collateral_value : Word 8
  pub debt : Word 8
  pub maintenance_bps : Word 2

abbrev pub health_layout : HealthAmounts → Bytes
health_layout a =
    concat (to_le 8 a.collateral_value.0 ∷ to_le 8 a.debt.0 ∷ to_le 2 a.maintenance_bps.0 ∷ [])

abbrev pub health_of : HealthAmounts → Health
health_of a = record {
  collateral_value = decimal_text a.collateral_value.0;
  debt = decimal_text a.debt.0;
  maintenance_bps = a.maintenance_bps.0;
}

pub record FeeAmounts : Type 0 where
  pub total : Word 8
  pub protocol : Word 8
  pub junior : Word 8

abbrev pub fee_layout : FeeAmounts → Bytes
fee_layout a = concat (to_le 8 a.total.0 ∷ to_le 8 a.protocol.0 ∷ to_le 8 a.junior.0 ∷ [])

abbrev pub fee_of : FeeAmounts → QuotedFee
fee_of a = record {
  total = decimal_text a.total.0;
  protocol = decimal_text a.protocol.0;
  junior = decimal_text a.junior.0;
}

pub record RatesAmounts : Type 0 where
  pub buyer_discount_bps : Word 2
  pub emergency_reward_bps : Word 2

abbrev pub rates_layout : RatesAmounts → Bytes
rates_layout a = concat (to_le 2 a.buyer_discount_bps.0 ∷ to_le 2 a.emergency_reward_bps.0 ∷ [])

abbrev pub rates_of : RatesAmounts → Rates
rates_of a = record {
  buyer_discount_bps = a.buyer_discount_bps.0;
  emergency_reward_bps = a.emergency_reward_bps.0;
}

pub record LossAmounts : Type 0 where
  pub principal_repaid : Word 8
  pub interest_paid : Word 8
  pub principal_written_off : Word 8
  pub interest_canceled : Word 8
  pub surplus : Word 8

abbrev pub loss_layout : LossAmounts → Bytes
loss_layout a = concat (
    to_le 8 a.principal_repaid.0
    ∷ to_le 8 a.interest_paid.0
    ∷ to_le 8 a.principal_written_off.0
    ∷ to_le 8 a.interest_canceled.0
    ∷ to_le 8 a.surplus.0
    ∷ [])

abbrev pub loss_of : LossAmounts → Loss
loss_of a = record {
  principal_repaid = decimal_text a.principal_repaid.0;
  interest_paid = decimal_text a.interest_paid.0;
  principal_written_off = decimal_text a.principal_written_off.0;
  interest_canceled = decimal_text a.interest_canceled.0;
  surplus = decimal_text a.surplus.0;
}

pub record FlashAmounts : Type 0 where
  pub full : Bool
  pub collateral_debit : Word 8
  pub collateral_credit : Word 8
  pub payment : Word 8
  pub repayment : Word 8
  pub owner_surplus : Word 8
  pub fee : FeeAmounts
  pub debt_shares_to_burn : Word 16
  pub health_before : HealthAmounts
  pub health_after : HealthAmounts
  pub rates : RatesAmounts

abbrev pub flash_layout : FlashAmounts → Bytes
flash_layout a = concat (
    to_le 1 (flag_word a.full).0
    ∷ to_le 8 a.collateral_debit.0
    ∷ to_le 8 a.collateral_credit.0
    ∷ to_le 8 a.payment.0
    ∷ to_le 8 a.repayment.0
    ∷ to_le 8 a.owner_surplus.0
    ∷ fee_layout a.fee
    ∷ to_le 16 a.debt_shares_to_burn.0
    ∷ health_layout a.health_before
    ∷ health_layout a.health_after
    ∷ rates_layout a.rates
    ∷ [])

abbrev pub flash_of : FlashAmounts → FlashQuote
flash_of a = record {
  full = a.full;
  collateral_debit = decimal_text a.collateral_debit.0;
  collateral_credit = decimal_text a.collateral_credit.0;
  payment = decimal_text a.payment.0;
  repayment = decimal_text a.repayment.0;
  owner_surplus = decimal_text a.owner_surplus.0;
  fee = fee_of a.fee;
  debt_shares_to_burn = decimal_text a.debt_shares_to_burn.0;
  health_before = health_of a.health_before;
  health_after = health_of a.health_after;
  rates = rates_of a.rates;
}

pub record EmergencyAmounts : Type 0 where
  pub reference_price_nad : Word 8
  pub reference_depth_nad : Word 16
  pub full : Bool
  pub collateral_debit : Word 8
  pub collateral_credit : Word 8
  pub swap_output : Word 8
  pub repayment : Word 8
  pub shares_to_burn : Word 16
  pub reward_credit : Word 8
  pub reward_debit : Word 8
  pub fee : FeeAmounts
  pub junior_fee_debit : Word 8
  pub revenue_fee_debit : Word 8
  pub owner_debit : Word 8
  pub owner_credit : Word 8
  pub loss : LossAmounts
  pub health_before : HealthAmounts
  pub health_after : HealthAmounts
  pub rates : RatesAmounts

abbrev pub emergency_layout : EmergencyAmounts → Bytes
emergency_layout a = concat (
    to_le 8 a.reference_price_nad.0
    ∷ to_le 16 a.reference_depth_nad.0
    ∷ to_le 1 (flag_word a.full).0
    ∷ to_le 8 a.collateral_debit.0
    ∷ to_le 8 a.collateral_credit.0
    ∷ to_le 8 a.swap_output.0
    ∷ to_le 8 a.repayment.0
    ∷ to_le 16 a.shares_to_burn.0
    ∷ to_le 8 a.reward_credit.0
    ∷ to_le 8 a.reward_debit.0
    ∷ fee_layout a.fee
    ∷ to_le 8 a.junior_fee_debit.0
    ∷ to_le 8 a.revenue_fee_debit.0
    ∷ to_le 8 a.owner_debit.0
    ∷ to_le 8 a.owner_credit.0
    ∷ loss_layout a.loss
    ∷ health_layout a.health_before
    ∷ health_layout a.health_after
    ∷ rates_layout a.rates
    ∷ [])

abbrev pub emergency_of : EmergencyAmounts → EmergencyQuote
emergency_of a = record {
  reference_price_nad = decimal_text a.reference_price_nad.0;
  reference_depth_nad = decimal_text a.reference_depth_nad.0;
  full = a.full;
  collateral_debit = decimal_text a.collateral_debit.0;
  collateral_credit = decimal_text a.collateral_credit.0;
  swap_output = decimal_text a.swap_output.0;
  repayment = decimal_text a.repayment.0;
  shares_to_burn = decimal_text a.shares_to_burn.0;
  reward_credit = decimal_text a.reward_credit.0;
  reward_debit = decimal_text a.reward_debit.0;
  fee = fee_of a.fee;
  junior_fee_debit = decimal_text a.junior_fee_debit.0;
  revenue_fee_debit = decimal_text a.revenue_fee_debit.0;
  owner_debit = decimal_text a.owner_debit.0;
  owner_credit = decimal_text a.owner_credit.0;
  loss = loss_of a.loss;
  health_before = health_of a.health_before;
  health_after = health_of a.health_after;
  rates = rates_of a.rates;
}
