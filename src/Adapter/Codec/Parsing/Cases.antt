-- ===== src/Adapter/Codec/Parsing/Cases.antt =====
-- Each case of the `switch` of `parseKeeperInstructionArguments` reads arguments of its instruction, in
-- the ranges of their fields.
use dusk_keepers.Prelude.{◌≡◌, refl, Bool, true, false, [], ◌∷◌, ok, arith}
use dusk_keepers.Prelude.Int.{pos}
use dusk_keepers.Adapter.Values.{integer}
use dusk_keepers.Adapter.Codec.{
  InstructionKey, preview_liquidation_health, preview_flash_liquidation,
  preview_emergency_liquidation, begin_flash_liquidation, emergency_liquidation,
  settle_flash_liquidation, preview_hlp_flash, begin_hlp_flash, settle_hlp_flash,
  close_insolvent_hlp, initialize_operator_revenue, execute_operator_change,
  delegated_close_leverage, before_take_profit, after_close_order, before_stop_loss,
  execute_hlp_order, execute_leverage_entry_order, settle_protocol_auction,
  KeeperInstructionArguments, previews_liquidation_health, previews_flash_liquidation,
  previews_emergency_liquidation, begins_flash_liquidation, liquidates_emergency,
  settles_flash_liquidation, previews_hlp_flash, begins_hlp_flash, settles_hlp_flash,
  closes_insolvent_hlp, initializes_operator_revenue, executes_operator_change, closes_leverage,
  takes_profit_before, closes_order_after, stops_loss_before, executes_hlp_order,
  executes_leverage_entry_order, settles_protocol_auction, writes, flag, lane_ordinal,
  source_ordinal, ProtocolAuctionLane, fee, buyback, ProtocolRevenueSource, swap, interest, u8,
}
use dusk_keepers.Adapter.Codec.Encoding.Range.{InRange, AllInRange}
use dusk_keepers.Adapter.Codec.Parsing.{read_arguments}
use dusk_keepers.Adapter.Codec.Parsing.Readers.{
  Fields, field, require_keys, boolean_value, variable_hex, lane_value, source_value,
}
use dusk_keepers.Adapter.Codec.Parsing.Ranges.{
  VectorsFit, IsRead, then_any, then_number, then_u64, then_pubkey, then_done,
}

flag-InRange : (b : Bool) → InRange (u8 (flag b))
flag-InRange false = (0, refl, omega arith)
flag-InRange true = (1, refl, omega arith)

lane-InRange : (l : ProtocolAuctionLane) → InRange (u8 (lane_ordinal l))
lane-InRange fee = (0, refl, omega arith)
lane-InRange buyback = (1, refl, omega arith)

source-InRange : (s : ProtocolRevenueSource) → InRange (u8 (source_ordinal s))
source-InRange swap = (0, refl, omega arith)
source-InRange interest = (1, refl, omega arith)

-- Whatever the cases of the `switch` read is for their key, and in the ranges of its fields.
pub read_arguments-IsRead :
    (k : InstructionKey) (v : Fields) (a : KeeperInstructionArguments)
    → read_arguments k v ≡ ok a
    → IsRead k a
unfolding read_arguments writes AllInRange IsRead VectorsFit
read_arguments-IsRead preview_liquidation_health v =
    then_any preview_liquidation_health (require_keys v ("debtAsset" ∷ [])) _ λ u.
      then_number preview_liquidation_health (field "debtAsset" v) 0xff _ λ x0 x0_fits.
        then_done preview_liquidation_health (previews_liquidation_health (integer (pos x0)))
          (refl, λ fits. ((x0, refl, omega (arith, x0_fits)), tt))
read_arguments-IsRead preview_flash_liquidation v =
    then_any preview_flash_liquidation (require_keys v ("debtAsset" ∷ "maxRepayment" ∷ "full" ∷ []))
      _
      λ u. then_number preview_flash_liquidation (field "debtAsset" v) 0xff _ λ x0 x0_fits.
        then_u64 preview_flash_liquidation (field "maxRepayment" v) _ λ x1 x1_fits.
          then_any preview_flash_liquidation (boolean_value (field "full" v)) _ λ x2.
            then_done preview_flash_liquidation
              (previews_flash_liquidation (integer (pos x0)) (pos x1) x2)
              (
                refl,
                λ fits. (
                  (x0, refl, omega (arith, x0_fits)),
                  ((x1, refl, x1_fits), (flag-InRange x2, tt)),
                ),
              )
read_arguments-IsRead preview_emergency_liquidation v =
    then_any preview_emergency_liquidation
      (require_keys v ("debtAsset" ∷ "collateralDebit" ∷ "full" ∷ [])) _
      λ u. then_number preview_emergency_liquidation (field "debtAsset" v) 0xff _ λ x0 x0_fits.
        then_u64 preview_emergency_liquidation (field "collateralDebit" v) _ λ x1 x1_fits.
          then_any preview_emergency_liquidation (boolean_value (field "full" v)) _ λ x2.
            then_done preview_emergency_liquidation
              (previews_emergency_liquidation (integer (pos x0)) (pos x1) x2)
              (
                refl,
                λ fits. (
                  (x0, refl, omega (arith, x0_fits)),
                  ((x1, refl, x1_fits), (flag-InRange x2, tt)),
                ),
              )
read_arguments-IsRead begin_flash_liquidation v =
    then_any begin_flash_liquidation
      (require_keys v (
        "position" ∷ "debtAsset" ∷ "maxRepayment" ∷ "maxPayment" ∷ "minCollateralCredit"
        ∷ "minBuyerCredit" ∷ "full" ∷ "settleIndex" ∷ []))
      _
      λ u. then_pubkey begin_flash_liquidation (field "position" v) _ λ x0 x0_fits.
        then_number begin_flash_liquidation (field "debtAsset" v) 0xff _ λ x1 x1_fits.
          then_u64 begin_flash_liquidation (field "maxRepayment" v) _ λ x2 x2_fits.
            then_u64 begin_flash_liquidation (field "maxPayment" v) _ λ x3 x3_fits.
              then_u64 begin_flash_liquidation (field "minCollateralCredit" v) _ λ x4 x4_fits.
                then_u64 begin_flash_liquidation (field "minBuyerCredit" v) _ λ x5 x5_fits.
                  then_any begin_flash_liquidation (boolean_value (field "full" v)) _ λ x6.
                    then_number begin_flash_liquidation (field "settleIndex" v) 0xffff _
                      λ x7 x7_fits.
                        then_done begin_flash_liquidation
                          (begins_flash_liquidation x0 (integer (pos x1)) (pos x2) (pos x3) (pos x4)
                            (pos x5) x6 (integer (pos x7)))
                          (
                            refl,
                            λ fits. (
                              x0_fits,
                              (
                                (x1, refl, omega (arith, x1_fits)),
                                (
                                  (x2, refl, x2_fits),
                                  (
                                    (x3, refl, x3_fits),
                                    (
                                      (x4, refl, x4_fits),
                                      (
                                        (x5, refl, x5_fits),
                                        (flag-InRange x6, ((x7, refl, omega (arith, x7_fits)), tt)),
                                      ),
                                    ),
                                  ),
                                ),
                              ),
                            ),
                          )
read_arguments-IsRead emergency_liquidation v =
    then_any emergency_liquidation
      (require_keys v
        ("debtAsset" ∷ "collateralDebit" ∷ "full" ∷ "minRewardCredit" ∷ "minSwapOutput" ∷ []))
      _
      λ u. then_number emergency_liquidation (field "debtAsset" v) 0xff _ λ x0 x0_fits.
        then_u64 emergency_liquidation (field "collateralDebit" v) _ λ x1 x1_fits.
          then_any emergency_liquidation (boolean_value (field "full" v)) _ λ x2.
            then_u64 emergency_liquidation (field "minRewardCredit" v) _ λ x3 x3_fits.
              then_u64 emergency_liquidation (field "minSwapOutput" v) _ λ x4 x4_fits.
                then_done emergency_liquidation
                  (liquidates_emergency (integer (pos x0)) (pos x1) x2 (pos x3) (pos x4))
                  (
                    refl,
                    λ fits. (
                      (x0, refl, omega (arith, x0_fits)),
                      (
                        (x1, refl, x1_fits),
                        (flag-InRange x2, ((x3, refl, x3_fits), ((x4, refl, x4_fits), tt))),
                      ),
                    ),
                  )
read_arguments-IsRead settle_flash_liquidation v =
    then_any settle_flash_liquidation (require_keys v ([])) _
      λ u. then_done settle_flash_liquidation (settles_flash_liquidation) (refl, λ fits. tt)
read_arguments-IsRead preview_hlp_flash v =
    then_any preview_hlp_flash (require_keys v ("targetAsset" ∷ [])) _ λ u.
      then_number preview_hlp_flash (field "targetAsset" v) 0xff _ λ x0 x0_fits.
        then_done preview_hlp_flash (previews_hlp_flash (integer (pos x0)))
          (refl, λ fits. ((x0, refl, omega (arith, x0_fits)), tt))
read_arguments-IsRead begin_hlp_flash v =
    then_any begin_hlp_flash
      (require_keys v (
        "targetAsset" ∷ "maxPayment" ∷ "allowFull" ∷ "maxSocializedLoss" ∷ "maxCollateralDebit"
        ∷ "minCollateralCredit" ∷ "settleIndex" ∷ []))
      _
      λ u. then_number begin_hlp_flash (field "targetAsset" v) 0xff _ λ x0 x0_fits.
        then_u64 begin_hlp_flash (field "maxPayment" v) _ λ x1 x1_fits.
          then_any begin_hlp_flash (boolean_value (field "allowFull" v)) _ λ x2.
            then_u64 begin_hlp_flash (field "maxSocializedLoss" v) _ λ x3 x3_fits.
              then_u64 begin_hlp_flash (field "maxCollateralDebit" v) _ λ x4 x4_fits.
                then_u64 begin_hlp_flash (field "minCollateralCredit" v) _ λ x5 x5_fits.
                  then_number begin_hlp_flash (field "settleIndex" v) 0xffff _ λ x6 x6_fits.
                    then_done begin_hlp_flash
                      (begins_hlp_flash (integer (pos x0)) (pos x1) x2 (pos x3) (pos x4) (pos x5)
                        (integer (pos x6)))
                      (
                        refl,
                        λ fits. (
                          (x0, refl, omega (arith, x0_fits)),
                          (
                            (x1, refl, x1_fits),
                            (
                              flag-InRange x2,
                              (
                                (x3, refl, x3_fits),
                                (
                                  (x4, refl, x4_fits),
                                  ((x5, refl, x5_fits), ((x6, refl, omega (arith, x6_fits)), tt)),
                                ),
                              ),
                            ),
                          ),
                        ),
                      )
read_arguments-IsRead settle_hlp_flash v =
    then_any settle_hlp_flash (require_keys v ([])) _
      λ u. then_done settle_hlp_flash (settles_hlp_flash) (refl, λ fits. tt)
read_arguments-IsRead close_insolvent_hlp v =
    then_any close_insolvent_hlp
      (require_keys v ("targetAsset" ∷ "maxSocializedLoss" ∷ "minCallerBountyOut" ∷ [])) _
      λ u. then_number close_insolvent_hlp (field "targetAsset" v) 0xff _ λ x0 x0_fits.
        then_u64 close_insolvent_hlp (field "maxSocializedLoss" v) _ λ x1 x1_fits.
          then_u64 close_insolvent_hlp (field "minCallerBountyOut" v) _ λ x2 x2_fits.
            then_done close_insolvent_hlp
              (closes_insolvent_hlp (integer (pos x0)) (pos x1) (pos x2))
              (
                refl,
                λ fits. (
                  (x0, refl, omega (arith, x0_fits)),
                  ((x1, refl, x1_fits), ((x2, refl, x2_fits), tt)),
                ),
              )
read_arguments-IsRead initialize_operator_revenue v =
    then_any initialize_operator_revenue (require_keys v ([])) _
      λ u. then_done initialize_operator_revenue (initializes_operator_revenue) (refl, λ fits. tt)
read_arguments-IsRead execute_operator_change v =
    then_any execute_operator_change (require_keys v ([])) _
      λ u. then_done execute_operator_change (executes_operator_change) (refl, λ fits. tt)
read_arguments-IsRead delegated_close_leverage v =
    then_any delegated_close_leverage
      (require_keys v (
        "debtAsset" ∷ "minAmountOut" ∷ "closeBps" ∷ "beforeIxDataHex" ∷ "afterIxDataHex"
        ∷ "beforeAccountsLen" ∷ []))
      _
      λ u. then_number delegated_close_leverage (field "debtAsset" v) 0xff _ λ x0 x0_fits.
        then_number delegated_close_leverage (field "closeBps" v) 0xffff _ λ x2 x2_fits.
          then_u64 delegated_close_leverage (field "minAmountOut" v) _ λ x1 x1_fits.
            then_any delegated_close_leverage (variable_hex (field "beforeIxDataHex" v)) _ λ x3.
              then_any delegated_close_leverage (variable_hex (field "afterIxDataHex" v)) _ λ x4.
                then_number delegated_close_leverage (field "beforeAccountsLen" v) 0xffff _
                  λ x5 x5_fits.
                    then_done delegated_close_leverage
                      (closes_leverage (integer (pos x0)) (pos x1) (integer (pos x2)) x3 x4
                        (integer (pos x5)))
                      (
                        refl,
                        λ fits. (
                          (x0, refl, omega (arith, x0_fits)),
                          (
                            (x1, refl, x1_fits),
                            (
                              (x2, refl, omega (arith, x2_fits)),
                              (fits.0, (fits.1.0, ((x5, refl, omega (arith, x5_fits)), tt))),
                            ),
                          ),
                        ),
                      )
read_arguments-IsRead before_take_profit v =
    then_any before_take_profit (require_keys v ("orderId" ∷ [])) _ λ u.
      then_u64 before_take_profit (field "orderId" v) _ λ x0 x0_fits.
        then_done before_take_profit (takes_profit_before (pos x0))
          (refl, λ fits. ((x0, refl, x0_fits), tt))
read_arguments-IsRead after_close_order v =
    then_any after_close_order (require_keys v ("orderId" ∷ [])) _ λ u.
      then_u64 after_close_order (field "orderId" v) _ λ x0 x0_fits.
        then_done after_close_order (closes_order_after (pos x0))
          (refl, λ fits. ((x0, refl, x0_fits), tt))
read_arguments-IsRead before_stop_loss v =
    then_any before_stop_loss (require_keys v ("orderId" ∷ [])) _ λ u.
      then_u64 before_stop_loss (field "orderId" v) _ λ x0 x0_fits.
        then_done before_stop_loss (stops_loss_before (pos x0))
          (refl, λ fits. ((x0, refl, x0_fits), tt))
read_arguments-IsRead execute_hlp_order v =
    then_any execute_hlp_order (require_keys v ("orderId" ∷ [])) _ λ u.
      then_u64 execute_hlp_order (field "orderId" v) _ λ x0 x0_fits.
        then_done execute_hlp_order (executes_hlp_order (pos x0))
          (refl, λ fits. ((x0, refl, x0_fits), tt))
read_arguments-IsRead execute_leverage_entry_order v =
    then_any execute_leverage_entry_order (require_keys v ("orderId" ∷ "minOwnerRefundOut" ∷ [])) _
      λ u. then_u64 execute_leverage_entry_order (field "orderId" v) _ λ x0 x0_fits.
        then_u64 execute_leverage_entry_order (field "minOwnerRefundOut" v) _ λ x1 x1_fits.
          then_done execute_leverage_entry_order (executes_leverage_entry_order (pos x0) (pos x1))
            (refl, λ fits. ((x0, refl, x0_fits), ((x1, refl, x1_fits), tt)))
read_arguments-IsRead settle_protocol_auction v =
    then_any settle_protocol_auction
      (require_keys v ("lane" ∷ "source" ∷ "soldAmount" ∷ "maxPaymentAmount" ∷ [])) _
      λ u. then_any settle_protocol_auction (lane_value (field "lane" v)) _ λ x0.
        then_any settle_protocol_auction (source_value (field "source" v)) _ λ x1.
          then_u64 settle_protocol_auction (field "soldAmount" v) _ λ x2 x2_fits.
            then_u64 settle_protocol_auction (field "maxPaymentAmount" v) _ λ x3 x3_fits.
              then_done settle_protocol_auction (settles_protocol_auction x0 x1 (pos x2) (pos x3)) (
                refl,
                λ fits. (
                  lane-InRange x0,
                  (source-InRange x1, ((x2, refl, x2_fits), ((x3, refl, x3_fits), tt))),
                ),
              )
