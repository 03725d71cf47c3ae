-- ===== src/Adapter/Codec/Parsing.antt =====
-- `parseKeeperInstructionArguments` of codec.ts: the arguments of an instruction from a JSON object,
-- and `encodeKeeperInstructionJson`.
pub mod Readers
pub mod Ranges
pub mod Cases
pub mod Acceptance
use dusk_keepers.Prelude.{
  present, ℕ, Bool, true, false, Option, none, some, List, [], ◌∷◌, String, str_eq, if◌then◌else◌,
  Result, ok, err, ◌>>=◌, ◌>>◌,
}
use dusk_keepers.Adapter.Bytes.{Bytes}
use dusk_keepers.Adapter.Contract.{InstructionContract}
use dusk_keepers.Adapter.Codec.{
  unsupported_instruction, invalid_arguments, Encoded, key_text, InstructionKey,
  preview_liquidation_health, preview_flash_liquidation, preview_emergency_liquidation,
  begin_flash_liquidation, emergency_liquidation, settle_flash_liquidation, preview_hlp_flash,
  begin_hlp_flash, settle_hlp_flash, close_insolvent_hlp, initialize_operator_revenue,
  execute_operator_change, delegated_close_leverage, before_take_profit, after_close_order,
  before_stop_loss, execute_hlp_order, execute_leverage_entry_order, settle_protocol_auction,
  KeeperInstructionArguments, previews_liquidation_health, previews_flash_liquidation,
  previews_emergency_liquidation, begins_flash_liquidation, liquidates_emergency,
  settles_flash_liquidation, previews_hlp_flash, begins_hlp_flash, settles_hlp_flash,
  closes_insolvent_hlp, initializes_operator_revenue, executes_operator_change, closes_leverage,
  takes_profit_before, closes_order_after, stops_loss_before, executes_hlp_order,
  executes_leverage_entry_order, settles_protocol_auction,
}
use dusk_keepers.Adapter.Codec.Encoding.{encode_keeper_instruction}
use dusk_keepers.Adapter.Codec.Parsing.Readers.{
  Fields, Read, field, require_keys, decimal_u64, unsigned_number, lane_value, source_value,
  variable_hex, boolean_value, pubkey_value,
}

-- The argument of the parser: an object with its own fields, or no object.
pub data Json : Type 0 where
  object : Fields → Json
  no_object : Json

-- The cases of the `switch`.
unfoldable pub read_arguments : InstructionKey → Fields → Read KeeperInstructionArguments
read_arguments preview_liquidation_health v = do
  require_keys v ("debtAsset" ∷ [])
  debt_asset ← unsigned_number (field "debtAsset" v) 0xff
  ok (previews_liquidation_health debt_asset)
read_arguments preview_flash_liquidation v = do
  require_keys v ("debtAsset" ∷ "maxRepayment" ∷ "full" ∷ [])
  debt_asset ← unsigned_number (field "debtAsset" v) 0xff
  max_repayment ← decimal_u64 (field "maxRepayment" v)
  full ← boolean_value (field "full" v)
  ok (previews_flash_liquidation debt_asset max_repayment full)
read_arguments preview_emergency_liquidation v = do
  require_keys v ("debtAsset" ∷ "collateralDebit" ∷ "full" ∷ [])
  debt_asset ← unsigned_number (field "debtAsset" v) 0xff
  collateral_debit ← decimal_u64 (field "collateralDebit" v)
  full ← boolean_value (field "full" v)
  ok (previews_emergency_liquidation debt_asset collateral_debit full)
read_arguments begin_flash_liquidation v = do
  require_keys v (
      "position" ∷ "debtAsset" ∷ "maxRepayment" ∷ "maxPayment" ∷ "minCollateralCredit"
      ∷ "minBuyerCredit" ∷ "full" ∷ "settleIndex" ∷ [])
  position ← pubkey_value (field "position" v)
  debt_asset ← unsigned_number (field "debtAsset" v) 0xff
  max_repayment ← decimal_u64 (field "maxRepayment" v)
  max_payment ← decimal_u64 (field "maxPayment" v)
  min_collateral_credit ← decimal_u64 (field "minCollateralCredit" v)
  min_buyer_credit ← decimal_u64 (field "minBuyerCredit" v)
  full ← boolean_value (field "full" v)
  settle_index ← unsigned_number (field "settleIndex" v) 0xffff
  ok (
      begins_flash_liquidation position debt_asset max_repayment max_payment min_collateral_credit
        min_buyer_credit full settle_index)
read_arguments emergency_liquidation v = do
  require_keys v
      ("debtAsset" ∷ "collateralDebit" ∷ "full" ∷ "minRewardCredit" ∷ "minSwapOutput" ∷ [])
  debt_asset ← unsigned_number (field "debtAsset" v) 0xff
  collateral_debit ← decimal_u64 (field "collateralDebit" v)
  full ← boolean_value (field "full" v)
  min_reward_credit ← decimal_u64 (field "minRewardCredit" v)
  min_swap_output ← decimal_u64 (field "minSwapOutput" v)
  ok (liquidates_emergency debt_asset collateral_debit full min_reward_credit min_swap_output)
read_arguments settle_flash_liquidation v = do require_keys v []; ok settles_flash_liquidation
read_arguments preview_hlp_flash v = do
  require_keys v ("targetAsset" ∷ [])
  target_asset ← unsigned_number (field "targetAsset" v) 0xff
  ok (previews_hlp_flash target_asset)
read_arguments begin_hlp_flash v = do
  require_keys v (
      "targetAsset" ∷ "maxPayment" ∷ "allowFull" ∷ "maxSocializedLoss" ∷ "maxCollateralDebit"
      ∷ "minCollateralCredit" ∷ "settleIndex" ∷ [])
  target_asset ← unsigned_number (field "targetAsset" v) 0xff
  max_payment ← decimal_u64 (field "maxPayment" v)
  allow_full ← boolean_value (field "allowFull" v)
  max_socialized_loss ← decimal_u64 (field "maxSocializedLoss" v)
  max_collateral_debit ← decimal_u64 (field "maxCollateralDebit" v)
  min_collateral_credit ← decimal_u64 (field "minCollateralCredit" v)
  settle_index ← unsigned_number (field "settleIndex" v) 0xffff
  ok (
      begins_hlp_flash target_asset max_payment allow_full max_socialized_loss max_collateral_debit
        min_collateral_credit settle_index)
read_arguments settle_hlp_flash v = do require_keys v []; ok settles_hlp_flash
read_arguments close_insolvent_hlp v = do
  require_keys v ("targetAsset" ∷ "maxSocializedLoss" ∷ "minCallerBountyOut" ∷ [])
  target_asset ← unsigned_number (field "targetAsset" v) 0xff
  max_socialized_loss ← decimal_u64 (field "maxSocializedLoss" v)
  min_caller_bounty_out ← decimal_u64 (field "minCallerBountyOut" v)
  ok (closes_insolvent_hlp target_asset max_socialized_loss min_caller_bounty_out)
read_arguments initialize_operator_revenue v = do require_keys v []; ok initializes_operator_revenue
read_arguments execute_operator_change v = do require_keys v []; ok executes_operator_change
read_arguments delegated_close_leverage v = do
  require_keys v (
      "debtAsset" ∷ "minAmountOut" ∷ "closeBps" ∷ "beforeIxDataHex" ∷ "afterIxDataHex"
      ∷ "beforeAccountsLen" ∷ [])
  debt_asset ← unsigned_number (field "debtAsset" v) 0xff
  close_bps ← unsigned_number (field "closeBps" v) 0xffff
  min_amount_out ← decimal_u64 (field "minAmountOut" v)
  before_ix_data_hex ← variable_hex (field "beforeIxDataHex" v)
  after_ix_data_hex ← variable_hex (field "afterIxDataHex" v)
  before_accounts_len ← unsigned_number (field "beforeAccountsLen" v) 0xffff
  ok (
      closes_leverage debt_asset min_amount_out close_bps before_ix_data_hex after_ix_data_hex
        before_accounts_len)
read_arguments before_take_profit v = do
  require_keys v ("orderId" ∷ [])
  order_id ← decimal_u64 (field "orderId" v)
  ok (takes_profit_before order_id)
read_arguments after_close_order v = do
  require_keys v ("orderId" ∷ [])
  order_id ← decimal_u64 (field "orderId" v)
  ok (closes_order_after order_id)
read_arguments before_stop_loss v = do
  require_keys v ("orderId" ∷ [])
  order_id ← decimal_u64 (field "orderId" v)
  ok (stops_loss_before order_id)
read_arguments execute_hlp_order v = do
  require_keys v ("orderId" ∷ [])
  order_id ← decimal_u64 (field "orderId" v)
  ok (executes_hlp_order order_id)
read_arguments execute_leverage_entry_order v = do
  require_keys v ("orderId" ∷ "minOwnerRefundOut" ∷ [])
  order_id ← decimal_u64 (field "orderId" v)
  min_owner_refund_out ← decimal_u64 (field "minOwnerRefundOut" v)
  ok (executes_leverage_entry_order order_id min_owner_refund_out)
read_arguments settle_protocol_auction v = do
  require_keys v ("lane" ∷ "source" ∷ "soldAmount" ∷ "maxPaymentAmount" ∷ [])
  lane ← lane_value (field "lane" v)
  source ← source_value (field "source" v)
  sold_amount ← decimal_u64 (field "soldAmount" v)
  max_payment_amount ← decimal_u64 (field "maxPaymentAmount" v)
  ok (settles_protocol_auction lane source sold_amount max_payment_amount)

abbrev pub all_keys : List InstructionKey
all_keys =
    preview_liquidation_health ∷ preview_flash_liquidation ∷ preview_emergency_liquidation
    ∷ begin_flash_liquidation ∷ emergency_liquidation ∷ settle_flash_liquidation ∷ preview_hlp_flash
    ∷ begin_hlp_flash ∷ settle_hlp_flash ∷ close_insolvent_hlp ∷ initialize_operator_revenue
    ∷ execute_operator_change ∷ delegated_close_leverage ∷ before_take_profit ∷ after_close_order
    ∷ before_stop_loss ∷ execute_hlp_order ∷ execute_leverage_entry_order ∷ settle_protocol_auction
    ∷ []

-- The case of the `switch` that a text selects.
unfoldable pub key_named : List InstructionKey → String → Option InstructionKey
key_named [] name = none
key_named (key ∷ keys) name = if str_eq (key_text key) name then some key else key_named keys name

unfoldable pub parse_arguments : String → Json → Read KeeperInstructionArguments
parse_arguments name no_object = err invalid_arguments
parse_arguments name (object value) = do
  key ← present (key_named all_keys name) unsupported_instruction
  read_arguments key value

unfoldable pub encode_keeper_instruction_json :
    (String → Bytes) → InstructionContract → String → Json → Encoded
encode_keeper_instruction_json sha256 contract name value = do
  request ← parse_arguments name value
  encode_keeper_instruction sha256 contract request
