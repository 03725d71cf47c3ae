-- ===== src/Adapter/Liquidation/Quote/RoundTrip.antt =====
-- A quote is read back, in full, from the layout of its numbers.
use dusk_keepers.Prelude.{◌+◌, ◌≡◌, refl, ap, ◌∙◌, subst, true, [], length, ◌==◌, ok, arith}
use mathlib.Core.List.{append-nil}
use dusk_keepers.Adapter.Bytes.{Bytes}
use dusk_keepers.Adapter.Resolution.Derivation.{concat}
use dusk_keepers.Adapter.Liquidation.Quote.{
  Reader, read_health, read_quoted_fee, read_rates, read_loss, read_flash, read_emergency, at_end,
  decode_flash_quote, decode_emergency_quote,
}
use dusk_keepers.Adapter.Liquidation.Quote.Layout.{
  Parses, returns-Parses, then_Parses, u64-Parses, u128-Parses, u16-Parses, bool-Parses,
}
use dusk_keepers.Adapter.Liquidation.Quote.Amounts.{
  HealthAmounts, FeeAmounts, RatesAmounts, LossAmounts, FlashAmounts, EmergencyAmounts,
  health_layout, health_of, fee_layout, fee_of, rates_layout, rates_of, loss_layout, loss_of,
  flash_layout, flash_of, emergency_layout, emergency_of,
}

health-Parses : (a : HealthAmounts) → Parses read_health (health_layout a) (health_of a)
unfolding read_health concat
health-Parses a = then_Parses _ (u64-Parses a.collateral_value) (
    then_Parses _ (u64-Parses a.debt)
      (then_Parses _ (u16-Parses a.maintenance_bps) (returns-Parses (health_of a))))

fee-Parses : (a : FeeAmounts) → Parses read_quoted_fee (fee_layout a) (fee_of a)
unfolding read_quoted_fee concat
fee-Parses a = then_Parses _ (u64-Parses a.total) (
    then_Parses _ (u64-Parses a.protocol)
      (then_Parses _ (u64-Parses a.junior) (returns-Parses (fee_of a))))

rates-Parses : (a : RatesAmounts) → Parses read_rates (rates_layout a) (rates_of a)
unfolding read_rates concat
rates-Parses a =
    then_Parses _ (u16-Parses a.buyer_discount_bps)
      (then_Parses _ (u16-Parses a.emergency_reward_bps) (returns-Parses (rates_of a)))

loss-Parses : (a : LossAmounts) → Parses read_loss (loss_layout a) (loss_of a)
unfolding read_loss concat
loss-Parses a = then_Parses _ (u64-Parses a.principal_repaid) (
    then_Parses _ (u64-Parses a.interest_paid) (
      then_Parses _ (u64-Parses a.principal_written_off) (
        then_Parses _ (u64-Parses a.interest_canceled)
          (then_Parses _ (u64-Parses a.surplus) (returns-Parses (loss_of a))))))

flash-Parses : (a : FlashAmounts) → Parses read_flash (flash_layout a) (flash_of a)
unfolding read_flash concat
flash-Parses a = then_Parses _ (bool-Parses a.full) (
    then_Parses _ (u64-Parses a.collateral_debit) (
      then_Parses _ (u64-Parses a.collateral_credit) (
        then_Parses _ (u64-Parses a.payment) (
          then_Parses _ (u64-Parses a.repayment) (
            then_Parses _ (u64-Parses a.owner_surplus) (
              then_Parses _ (fee-Parses a.fee) (
                then_Parses _ (u128-Parses a.debt_shares_to_burn) (
                  then_Parses _ (health-Parses a.health_before) (
                    then_Parses _ (health-Parses a.health_after)
                      (then_Parses _ (rates-Parses a.rates) (returns-Parses (flash_of a))))))))))))

emergency-Parses :
    (a : EmergencyAmounts) → Parses read_emergency (emergency_layout a) (emergency_of a)
unfolding read_emergency concat
emergency-Parses a = then_Parses _ (u64-Parses a.reference_price_nad) (
    then_Parses _ (u128-Parses a.reference_depth_nad) (
      then_Parses _ (bool-Parses a.full) (
        then_Parses _ (u64-Parses a.collateral_debit) (
          then_Parses _ (u64-Parses a.collateral_credit) (
            then_Parses _ (u64-Parses a.swap_output) (
              then_Parses _ (u64-Parses a.repayment) (
                then_Parses _ (u128-Parses a.shares_to_burn) (
                  then_Parses _ (u64-Parses a.reward_credit) (
                    then_Parses _ (u64-Parses a.reward_debit) (
                      then_Parses _ (fee-Parses a.fee) (
                        then_Parses _ (u64-Parses a.junior_fee_debit) (
                          then_Parses _ (u64-Parses a.revenue_fee_debit) (
                            then_Parses _ (u64-Parses a.owner_debit) (
                              then_Parses _ (u64-Parses a.owner_credit) (
                                then_Parses _ (loss-Parses a.loss) (
                                  then_Parses _ (health-Parses a.health_before) (
                                    then_Parses _ (health-Parses a.health_after) (
                                      then_Parses _ (rates-Parses a.rates)
                                        (returns-Parses (emergency_of a))))))))))))))))))))

at_end-Parses :
    {A : Type 0} {r : Reader A} {chunk : Bytes} {value : A}
    → Parses r chunk value
    → at_end chunk (r chunk 0) ≡ ok value
at_end-Parses {r} {chunk} {value} p =
    let alone =
      subst (λ b. r b 0 ≡ ok (value, 0 + length chunk)) (append-nil chunk) (p.runs [] []) in
    let whole : ((0 + length chunk) == length chunk) ≡ true = ground arith in
    ap (at_end chunk) alone ∙ rw whole refl

-- The data that a program returns for a quote, flash or emergency, are read in full, whatever the
-- numbers: each field holds its number, the amounts as decimal texts, and nothing is left over.
pub decode_quote-layout :
    (a : FlashAmounts) (b : EmergencyAmounts)
    → (decode_flash_quote (flash_layout a) ≡ ok (flash_of a))
      × (decode_emergency_quote (emergency_layout b) ≡ ok (emergency_of b))
unfolding decode_flash_quote decode_emergency_quote
decode_quote-layout a b = (at_end-Parses (flash-Parses a), at_end-Parses (emergency-Parses b))
