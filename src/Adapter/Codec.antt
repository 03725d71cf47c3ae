-- ===== src/Adapter/Codec.antt =====
-- codec.ts of dusk-adapter: the arguments of the keeper's instructions, their Borsh payload, and the
-- instruction data that a pinned contract allows. A run of calls on the BorshWriter is a list, and the
-- chunks are one buffer. SHA-256 is the host's: a parameter. An error keeps its code alone.
pub mod Payload
pub mod RoundTrip
pub mod Encoding
pub mod Parsing
mod Tests
use dusk_keepers.Prelude.{
  ℕ, ◌+◌, ◌*◌, ◌^◌, ◌-◌, Bool, true, false, not, ◌&&◌, ◌||◌, Option, none, some, List, [], ◌∷◌,
  ◌++◌, String, str_eq, length, take, ltb, leb, ◌==◌, if◌then◌else◌, Result, ok, err, ◌>>=◌, ◌>>◌,
  guard, refuse,
}
use dusk_keepers.Prelude.Int.{ℤ, pos, negsuc, pos_part, neg_part, ltb_ℤ}
use dusk_keepers.Adapter.Values.{Number, integer, no_integer, max_u64, is_negative}
use dusk_keepers.Adapter.Bytes.{Bytes, to_le}
use dusk_keepers.Adapter.Hex.{codes, hex_bytes}
use dusk_keepers.Adapter.Contract.{InstructionContract, InstructionSpecification}

pub data InstructionEncodingErrorCode : Type 0 where
  unsupported_instruction invalid_arguments contract_mismatch : InstructionEncodingErrorCode

pub data ProtocolAuctionLane : Type 0 where
  fee buyback : ProtocolAuctionLane

pub data ProtocolRevenueSource : Type 0 where
  swap interest : ProtocolRevenueSource

-- The specification keys, by the names of their instructions.
pub data InstructionKey : Type 0 where
  preview_liquidation_health preview_flash_liquidation preview_emergency_liquidation :
      InstructionKey
  begin_flash_liquidation emergency_liquidation settle_flash_liquidation : InstructionKey
  preview_hlp_flash begin_hlp_flash settle_hlp_flash close_insolvent_hlp : InstructionKey
  initialize_operator_revenue execute_operator_change delegated_close_leverage : InstructionKey
  before_take_profit after_close_order before_stop_loss execute_hlp_order : InstructionKey
  execute_leverage_entry_order settle_protocol_auction : InstructionKey

-- What each instruction takes: `number` and `bigint` fields, in the order of the source's types.
pub data KeeperInstructionArguments : Type 0 where
  previews_liquidation_health : (debt_asset : Number) → KeeperInstructionArguments
  previews_flash_liquidation :
      (debt_asset : Number) (max_repayment : ℤ) (full : Bool) → KeeperInstructionArguments
  previews_emergency_liquidation :
      (debt_asset : Number) (collateral_debit : ℤ) (full : Bool) → KeeperInstructionArguments
  begins_flash_liquidation :
      (position : Bytes) (debt_asset : Number)
      (max_repayment max_payment min_collateral_credit min_buyer_credit : ℤ) (full : Bool)
      (settle_index : Number)
      → KeeperInstructionArguments
  liquidates_emergency :
      (debt_asset : Number) (collateral_debit : ℤ) (full : Bool)
      (min_reward_credit min_swap_output : ℤ)
      → KeeperInstructionArguments
  settles_flash_liquidation : KeeperInstructionArguments
  previews_hlp_flash : (target_asset : Number) → KeeperInstructionArguments
  begins_hlp_flash :
      (target_asset : Number) (max_payment : ℤ) (allow_full : Bool)
      (max_socialized_loss max_collateral_debit min_collateral_credit : ℤ) (settle_index : Number)
      → KeeperInstructionArguments
  settles_hlp_flash : KeeperInstructionArguments
  closes_insolvent_hlp :
      (target_asset : Number) (max_socialized_loss min_caller_bounty_out : ℤ)
      → KeeperInstructionArguments
  closes_leverage :
      (debt_asset : Number) (min_amount_out : ℤ) (close_bps : Number)
      (before_ix_data after_ix_data : Bytes) (before_accounts_len : Number)
      → KeeperInstructionArguments
  takes_profit_before : (order_id : ℤ) → KeeperInstructionArguments
  closes_order_after : (order_id : ℤ) → KeeperInstructionArguments
  stops_loss_before : (order_id : ℤ) → KeeperInstructionArguments
  executes_leverage_entry_order : (order_id min_owner_refund_out : ℤ) → KeeperInstructionArguments
  executes_hlp_order : (order_id : ℤ) → KeeperInstructionArguments
  settles_protocol_auction :
      (lane : ProtocolAuctionLane) (source : ProtocolRevenueSource)
      (sold_amount max_payment_amount : ℤ)
      → KeeperInstructionArguments
  initializes_operator_revenue : KeeperInstructionArguments
  executes_operator_change : KeeperInstructionArguments

abbrev pub key_of : KeeperInstructionArguments → InstructionKey
key_of (previews_liquidation_health d) = preview_liquidation_health
key_of (previews_flash_liquidation d r f) = preview_flash_liquidation
key_of (previews_emergency_liquidation d c f) = preview_emergency_liquidation
key_of (begins_flash_liquidation p d r m c b f i) = begin_flash_liquidation
key_of (liquidates_emergency d c f r o) = emergency_liquidation
key_of settles_flash_liquidation = settle_flash_liquidation
key_of (previews_hlp_flash t) = preview_hlp_flash
key_of (begins_hlp_flash t p f l d c i) = begin_hlp_flash
key_of settles_hlp_flash = settle_hlp_flash
key_of (closes_insolvent_hlp t l b) = close_insolvent_hlp
key_of (closes_leverage d m c b a n) = delegated_close_leverage
key_of (takes_profit_before o) = before_take_profit
key_of (closes_order_after o) = after_close_order
key_of (stops_loss_before o) = before_stop_loss
key_of (executes_leverage_entry_order o r) = execute_leverage_entry_order
key_of (executes_hlp_order o) = execute_hlp_order
key_of (settles_protocol_auction l s a m) = settle_protocol_auction
key_of initializes_operator_revenue = initialize_operator_revenue
key_of executes_operator_change = execute_operator_change

-- A call on the BorshWriter.
pub data Write : Type 0 where
  raw : Bytes → Write
  u8 : Number → Write
  u16 : Number → Write
  u64 : ℤ → Write
  bytes : Bytes → Write

-- `flag ? 1 : 0`
abbrev pub flag : Bool → Number
flag true = integer (pos 1)
flag false = integer (pos 0)

-- `enumOrdinal(…)`: the places in the lists that the source gives
abbrev pub lane_ordinal : ProtocolAuctionLane → Number
lane_ordinal fee = integer (pos 0)
lane_ordinal buyback = integer (pos 1)

abbrev pub source_ordinal : ProtocolRevenueSource → Number
source_ordinal swap = integer (pos 0)
source_ordinal interest = integer (pos 1)

-- The writer's calls for a request: the `switch` of `encodeKeeperInstruction`.
unfoldable pub writes : KeeperInstructionArguments → List Write
writes (previews_liquidation_health debt) = u8 debt ∷ []
writes (previews_flash_liquidation debt repayment full) =
    u8 debt ∷ u64 repayment ∷ u8 (flag full) ∷ []
writes (previews_emergency_liquidation debt debit full) = u8 debt ∷ u64 debit ∷ u8 (flag full) ∷ []
writes (begins_flash_liquidation position debt repayment payment collateral buyer full index) =
    raw position
    ∷ u8 debt
    ∷ u64 repayment
    ∷ u64 payment
    ∷ u64 collateral
    ∷ u64 buyer
    ∷ u8 (flag full)
    ∷ u16 index
    ∷ []
writes (liquidates_emergency debt debit full reward output) =
    u8 debt ∷ u64 debit ∷ u8 (flag full) ∷ u64 reward ∷ u64 output ∷ []
writes settles_flash_liquidation = []
writes (previews_hlp_flash target) = u8 target ∷ []
writes (begins_hlp_flash target payment full loss debit credit index) =
    u8 target ∷ u64 payment ∷ u8 (flag full) ∷ u64 loss ∷ u64 debit ∷ u64 credit ∷ u16 index ∷ []
writes settles_hlp_flash = []
writes (closes_insolvent_hlp target loss bounty) = u8 target ∷ u64 loss ∷ u64 bounty ∷ []
writes (closes_leverage debt amount close before after accounts) =
    u8 debt ∷ u64 amount ∷ u16 close ∷ bytes before ∷ bytes after ∷ u16 accounts ∷ []
writes (takes_profit_before order) = u64 order ∷ []
writes (closes_order_after order) = u64 order ∷ []
writes (stops_loss_before order) = u64 order ∷ []
writes (executes_leverage_entry_order order refund) = u64 order ∷ u64 refund ∷ []
writes (executes_hlp_order order) = u64 order ∷ []
writes (settles_protocol_auction lane source sold payment) =
    u8 (lane_ordinal lane) ∷ u8 (source_ordinal source) ∷ u64 sold ∷ u64 payment ∷ []
writes initializes_operator_revenue = []
writes executes_operator_change = []

abbrev pub Encoded : Type 0
Encoded = Result InstructionEncodingErrorCode Bytes

-- `#unsigned`: a `number` that is an integer from 0 to `maximum`, in `width` bytes
unfoldable pub unsigned : Number → ℕ → ℕ → Encoded
unsigned (integer (pos n)) maximum width =
    if leb n maximum then ok (to_le width n) else err invalid_arguments
unsigned (integer (negsuc n)) maximum width = err invalid_arguments
unsigned no_integer maximum width = err invalid_arguments

-- The chunks that a call pushes.
unfoldable pub perform : Write → Encoded
unfolding unsigned
perform (raw value) = if length value == 32 then ok value else err invalid_arguments
perform (u8 value) = unsigned value 0xff 1
perform (u16 value) = unsigned value 0xffff 2
perform (u64 value) =
    if is_negative value || ltb_ℤ (pos max_u64) value
    then err invalid_arguments
    else ok (to_le 8 (pos_part value))
perform (bytes value) =
    if ltb 0xffff_ffff (length value)
    then err invalid_arguments
    else ok (to_le 4 (length value) ++ value)

-- The calls in turn, and `finish`.
unfoldable pub write_all : List Write → Encoded
write_all [] = ok []
write_all (w ∷ ws) = do chunk ← perform w; rest ← write_all ws; ok (chunk ++ rest)

-- The texts of the keys.
unfoldable pub key_text : InstructionKey → String
key_text preview_liquidation_health = "dusk:preview_liquidation_health"
key_text preview_flash_liquidation = "dusk:preview_flash_liquidation"
key_text preview_emergency_liquidation = "dusk:preview_emergency_liquidation"
key_text begin_flash_liquidation = "dusk:begin_flash_liquidation"
key_text emergency_liquidation = "dusk:emergency_liquidation"
key_text settle_flash_liquidation = "dusk:settle_flash_liquidation"
key_text preview_hlp_flash = "dusk:preview_hlp_flash"
key_text begin_hlp_flash = "dusk:begin_hlp_flash"
key_text settle_hlp_flash = "dusk:settle_hlp_flash"
key_text close_insolvent_hlp = "dusk:close_insolvent_hlp"
key_text initialize_operator_revenue = "dusk:initialize_operator_revenue"
key_text execute_operator_change = "dusk:execute_operator_change"
key_text delegated_close_leverage = "dusk:delegated_close_leverage"
key_text before_take_profit = "leverage_delegate:before_take_profit"
key_text after_close_order = "leverage_delegate:after_close_order"
key_text before_stop_loss = "leverage_delegate:before_stop_loss"
key_text execute_hlp_order = "leverage_delegate:execute_hlp_order"
key_text execute_leverage_entry_order = "leverage_delegate:execute_leverage_entry_order"
key_text settle_protocol_auction = "dusk:settle_protocol_auction"
