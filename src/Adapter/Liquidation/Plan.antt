-- ===== src/Adapter/Liquidation/Plan.antt =====
-- The instructions and plans of liquidation.ts, on the accounts that were resolved for a position. A
-- record of named accounts is a list of its entries.
pub mod Parsed
pub mod Settle
mod Tests
use Prim.Native.String.{◌++◌ as append}
use dusk_keepers.Prelude.{
  ℕ, ◌+◌, Bool, true, false, not, ◌&&◌, ◌||◌, Option, none, some, List, [], ◌∷◌, ◌++◌, String,
  str_eq, length, ltb, if◌then◌else◌, Result, ok, err, ◌>>=◌, ◌>>◌, guard, refuse, present,
  traverse,
}
use dusk_keepers.Prelude.Int.{pos}
use dusk_keepers.Prelude.Maps
use dusk_keepers.Adapter.Values.{integer}
use dusk_keepers.Adapter.Bytes.{Bytes, to_le}
use dusk_keepers.Adapter.Pubkeys.{decode_pubkey}
use dusk_keepers.Adapter.Contract.{
  AccountSpecification, InstructionSpecification, InstructionContract,
}
use dusk_keepers.Adapter.Codec.{InstructionEncodingErrorCode}
use dusk_keepers.Adapter.Codec.Encoding.{find_specification}
use dusk_keepers.Adapter.Codec.Parsing.Readers.{Fields, boolean, number, text}
use dusk_keepers.Adapter.Codec.Parsing.{object, encode_keeper_instruction_json}
use dusk_keepers.Adapter.Liquidation.Quote.{FlashQuote, EmergencyQuote}

pub record NativeAccount : Type 0 where
  pub pubkey : Bytes
  pub is_signer : Bool
  pub is_writable : Bool

pub record NativeInstruction : Type 0 where
  pub program_id : Bytes
  pub accounts : List NativeAccount
  pub instruction_data : Bytes

-- What `resolveLiquidationAccounts` returns.
pub record LiquidationContext : Type 0 where
  pub named : List (String × String)
  pub hlp : List String
  pub oracle : List String
  pub collateral_reserve : String
  pub program : String
  pub position : String
  pub debt_asset : ℕ

pub data PlanError : Type 0 where
  instruction_provenance missing_account invalid_key : PlanError
  internal_route settle_index_overflow : PlanError
  not_encoded : InstructionEncodingErrorCode → PlanError

abbrev pub Planned : Type 0 → Type 0
Planned A = Result PlanError A

unfoldable pub key_bytes : String → Planned Bytes
key_bytes key = present (decode_pubkey key) invalid_key

abbrev or_fixed : Option String → Option String → Option String
or_fixed none fixed = fixed
or_fixed (some found) fixed = some found

-- `!!found`
abbrev is_found : Option String → Bool
is_found none = false
is_found (some found) = not (str_eq found "")

abbrev or_program : Option String → String → String
or_program none program = program
or_program (some found) program = found

unfoldable pub named_account :
    List (String × String) → String → AccountSpecification → Planned NativeAccount
named_account named program a = do
  let found = or_fixed (Maps.get a.name named) a.fixed_address
  refuse (not (is_found found) && not a.optional) missing_account
  bytes ← key_bytes (or_program found program)
  ok (record {
    pubkey = bytes;
    is_signer = a.signer && is_found found;
    is_writable = a.writable && is_found found;
  })

unfoldable pub plain_account : Bool → String → Planned NativeAccount
plain_account writable key = do
  bytes ← key_bytes key
  ok (record { pubkey = bytes; is_signer = false; is_writable = writable })

abbrev or_not_encoded : Result InstructionEncodingErrorCode Bytes → Planned Bytes
or_not_encoded (ok bytes) = ok bytes
or_not_encoded (err thrown) = err (not_encoded thrown)

abbrev with_reserve : Bool → LiquidationContext → List (String × String)
with_reserve internal context =
    if internal
    then Maps.put "collateral_reserve_vault" context.collateral_reserve context.named
    else context.named

-- The arguments of the instruction that begins a flash liquidation.
abbrev pub begin_arguments : LiquidationContext → FlashQuote → String → Bool → String → ℕ → Fields
begin_arguments context quote max_repayment internal min_buyer_credit settle_index =
    ("position", text context.position)
    ∷ ("debtAsset", number (integer (pos context.debt_asset)))
    ∷ ("maxRepayment", text max_repayment)
    ∷ ("maxPayment", text quote.payment)
    ∷ ("minCollateralCredit", text quote.collateral_credit)
    ∷ ("minBuyerCredit", text (if internal then min_buyer_credit else "0"))
    ∷ ("full", boolean quote.full)
    ∷ ("settleIndex", number (integer (pos settle_index)))
    ∷ []

module _ (sha256 : String → Bytes) (contract : InstructionContract)
    (context : LiquidationContext) where
  unfoldable pub liquidation_instruction : String → Fields → Bool → Planned NativeInstruction
  liquidation_instruction name args internal = do
    spec ←
        present (find_specification contract.instructions (append "dusk:" name))
          instruction_provenance
    guard (str_eq spec.program_id context.program) instruction_provenance
    accounts ←
        traverse (named_account (with_reserve internal context) context.program) spec.accounts
    hlp ← traverse (plain_account true) (if internal then context.hlp else [])
    oracle ← traverse (plain_account false) context.oracle
    program ← key_bytes context.program
    bytes ←
        or_not_encoded
          (encode_keeper_instruction_json sha256 contract (append "dusk:" name) (object args))
    ok (record {
      program_id = program;
      accounts = accounts ++ hlp ++ oracle;
      instruction_data = bytes;
    })

  -- The options, with their defaults filled in.
  unfoldable pub build_flash_plan :
      FlashQuote
      → String
      → List NativeInstruction
      → List NativeInstruction
      → Bool
      → String
      → Planned (List NativeInstruction)
  build_flash_plan quote max_repayment prefix route internal min_buyer_credit = do
    refuse (internal && ltb 0 (length route)) internal_route
    let settle_index = length prefix + 1 + length route
    refuse (ltb 65535 settle_index) settle_index_overflow
    begin ←
        liquidation_instruction "begin_flash_liquidation"
          (begin_arguments context quote max_repayment internal min_buyer_credit settle_index) false
    settle ← liquidation_instruction "settle_flash_liquidation" [] internal
    ok (prefix ++ ((begin ∷ []) ++ (route ++ (settle ∷ []))))

abbrev budget_program : String
budget_program = "ComputeBudget111111111111111111111111111111"

unfoldable pub resource_instruction : ℕ × ℕ → Planned NativeInstruction
resource_instruction (op, value) = do
  program ← key_bytes budget_program
  ok (record { program_id = program; accounts = []; instruction_data = op ∷ to_le 4 value })

unfoldable pub liquidation_resources : Planned (List NativeInstruction)
liquidation_resources = traverse resource_instruction ((1, 262144) ∷ (2, 1400000) ∷ [])

unfoldable pub build_emergency_plan :
    (String → Bytes)
    → InstructionContract
    → LiquidationContext
    → EmergencyQuote
    → Planned (List NativeInstruction)
build_emergency_plan sha256 contract context quote = do
  resources ← liquidation_resources
  liquidation ←
      liquidation_instruction sha256 contract context "emergency_liquidation"
        (("debtAsset", number (integer (pos context.debt_asset)))
          ∷ ("collateralDebit", text quote.collateral_debit)
          ∷ ("full", boolean quote.full)
          ∷ ("minRewardCredit", text quote.reward_credit)
          ∷ ("minSwapOutput", text quote.swap_output)
          ∷ [])
        true
  ok (resources ++ (liquidation ∷ []))
