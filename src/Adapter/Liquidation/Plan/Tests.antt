-- ===== src/Adapter/Liquidation/Plan/Tests.antt =====
-- A flash plan at concrete accounts, and the theorem about its settle index.
use Prim.Native.String.{count}
use dusk_keepers.Prelude.{
  ℕ, ◌≡◌, refl, true, false, none, some, List, [], ◌∷◌, String, ok, err, length, take, drop,
  replicate, traverse, get_elem?,
}
use dusk_keepers.Prelude.Maps.{get, put}
use dusk_keepers.Adapter.Bytes.{Bytes, to_le, eq_bytes}
use dusk_keepers.Adapter.Hex.{hex_value, hex_bytes}
use dusk_keepers.Adapter.Pubkeys.{
  index_of, push_carry, add_digit, read_digits, strip_ones, decode_pubkey,
}
use dusk_keepers.Adapter.Contract.{
  AccountSpecification, InstructionSpecification, InstructionContract,
}
use dusk_keepers.Adapter.Codec.{
  begin_flash_liquidation, settle_flash_liquidation, KeeperInstructionArguments,
  settles_flash_liquidation, key_text, writes, unsigned, perform, write_all,
}
use dusk_keepers.Adapter.Codec.RoundTrip.{decode_payload}
use dusk_keepers.Adapter.Codec.Encoding.{
  split_at_colons, find_specification, exact_hex, checked_discriminator, pinned_discriminator,
  encode_keeper_instruction,
}
use dusk_keepers.Adapter.Codec.Encoding.Pinned.{Pins}
use dusk_keepers.Adapter.Codec.Parsing.{
  read_arguments, key_named, parse_arguments, encode_keeper_instruction_json,
}
use dusk_keepers.Adapter.Codec.Parsing.Readers.{
  text_leb, insert_key, sort_keys, same_texts, require_keys, field, unsigned_number, decimal,
  decimal_u64, boolean_value, pubkey_value,
}
use dusk_keepers.Adapter.Liquidation.Quote.{FlashQuote, Health}
use dusk_keepers.Adapter.Liquidation.Plan.{
  NativeInstruction, LiquidationContext, Planned, internal_route, key_bytes, named_account,
  plain_account, liquidation_instruction, build_flash_plan, resource_instruction,
  liquidation_resources,
}
use dusk_keepers.Adapter.Liquidation.Plan.Parsed.{Names}
use dusk_keepers.Adapter.Liquidation.Plan.Settle.{build_flash_plan-settles}

abbrev wrapped_sol : String
wrapped_sol = "So11111111111111111111111111111111111111112"

-- A host whose digest of a text is its length, thirty-two times.
abbrev digest : String → Bytes
digest name = replicate 32 (count name)

abbrev account : String → AccountSpecification
account name = record {
  name = name;
  writable = true;
  signer = false;
  optional = true;
  fixed_address = none;
}

abbrev instruction : String → String → String → InstructionSpecification
instruction key name discriminator = record {
  key = key;
  program = "dusk";
  program_id = wrapped_sol;
  instruction_name = name;
  discriminator_hex = discriminator;
  accounts = account "market" ∷ account "referral_partner" ∷ [];
}

abbrev contract : InstructionContract
contract = record {
  schema_version = 1;
  protocol_revision = "r1";
  programs = [];
  actions = [];
  instructions =
      instruction "dusk:begin_flash_liquidation" "begin_flash_liquidation" "1e1e1e1e1e1e1e1e"
      ∷ instruction "dusk:settle_flash_liquidation" "settle_flash_liquidation" "1f1f1f1f1f1f1f1f"
      ∷ [];
}

abbrev context : LiquidationContext
context = record {
  named = ("market", wrapped_sol) ∷ [];
  hlp = wrapped_sol ∷ [];
  oracle = wrapped_sol ∷ [];
  collateral_reserve = wrapped_sol;
  program = wrapped_sol;
  position = wrapped_sol;
  debt_asset = 1;
}

abbrev health : Health
health = record { collateral_value = "7"; debt = "5"; maintenance_bps = 8500 }

abbrev quote : FlashQuote
quote = record {
  full = true;
  collateral_debit = "120";
  collateral_credit = "118";
  payment = "100";
  repayment = "99";
  owner_surplus = "0";
  fee = record { total = "3"; protocol = "2"; junior = "1" };
  debt_shares_to_burn = "77";
  health_before = health;
  health_after = health;
  rates = record { buyer_discount_bps = 500; emergency_reward_bps = 50 };
}

abbrev value_or_empty : Planned (List NativeInstruction) → List NativeInstruction
value_or_empty (ok plan) = plan
value_or_empty (err thrown) = []

abbrev prefix : List NativeInstruction
prefix = value_or_empty liquidation_resources

abbrev plan : List NativeInstruction
plan = value_or_empty (build_flash_plan digest contract context quote "99" prefix [] true "0")

plan_run : Unit {0}
unfolding build_flash_plan liquidation_instruction named_account plain_account key_bytes get put
    traverse liquidation_resources resource_instruction to_le decode_pubkey read_digits add_digit
    push_carry index_of strip_ones find_specification encode_keeper_instruction_json parse_arguments
    read_arguments key_named key_text require_keys sort_keys insert_key text_leb same_texts eq_bytes
    field unsigned_number decimal_u64 decimal boolean_value pubkey_value encode_keeper_instruction
    pinned_discriminator checked_discriminator exact_hex split_at_colons hex_bytes hex_value
    write_all perform unsigned writes
plan_run = tt

is_planned : build_flash_plan digest contract context quote "99" prefix [] true "0" ≡ ok plan
unfolding plan_run
is_planned = refl

four_instructions : length plan ≡ 4
unfolding plan_run
four_instructions = refl

no_internal_route :
    build_flash_plan digest contract context quote "99" [] plan true "0" ≡ err internal_route
unfolding plan_run
no_internal_route = refl

build_flash_plan-settles_example :
    (begin : NativeInstruction) × (settle : NativeInstruction)
    × (request : KeeperInstructionArguments) × (index : ℕ) × (get_elem? plan (length prefix)
        ≡ some begin)
    × Pins digest contract "dusk:begin_flash_liquidation" (take 8 begin.instruction_data)
    × (decode_payload begin_flash_liquidation (drop 8 begin.instruction_data) ≡ some request)
    × Names index request
    × (get_elem? plan index ≡ some settle)
    × Pins digest contract "dusk:settle_flash_liquidation" (take 8 settle.instruction_data)
    × (decode_payload settle_flash_liquidation (drop 8 settle.instruction_data)
        ≡ some settles_flash_liquidation)
build_flash_plan-settles_example =
    build_flash_plan-settles digest contract context quote "99" prefix [] true "0" plan is_planned
