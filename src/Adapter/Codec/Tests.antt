-- ===== src/Adapter/Codec/Tests.antt =====
-- Runs of encodeKeeperInstruction and of the readers of hexadecimal texts, and the theorems about
-- them at concrete inputs.
use Prim.Native.String.{count}
use dusk_keepers.Prelude.{
  ◌≡◌, ◌↔◌, refl, true, some, [], ◌∷◌, ◌++◌, String, take, drop, replicate, ok, err,
}
use dusk_keepers.Prelude.Int.{pos, negsuc}
use dusk_keepers.Adapter.Values.{integer}
use dusk_keepers.Adapter.Bytes.{eq_bytes, Bytes, to_le}
use dusk_keepers.Adapter.Hex.{hex_value, hex_bytes}
use dusk_keepers.Adapter.Contract.{InstructionContract, InstructionSpecification}
use dusk_keepers.Adapter.Codec.{
  invalid_arguments, contract_mismatch, KeeperInstructionArguments, previews_flash_liquidation,
  settles_protocol_auction, fee, buyback, swap, interest, key_of, key_text, writes, unsigned,
  perform, write_all,
}
use dusk_keepers.Adapter.Codec.RoundTrip.{decode_payload}
use dusk_keepers.Adapter.Codec.Encoding.{
  split_at_colons, find_specification, exact_hex, checked_discriminator, pinned_discriminator,
  encode_keeper_instruction,
}
use dusk_keepers.Adapter.Codec.Encoding.Range.{AllInRange}
use dusk_keepers.Adapter.Codec.Encoding.Pinned.{Pins}
use dusk_keepers.Adapter.Codec.Encoding.Success.{
  encode_keeper_instruction_iff, encode_keeper_instruction-decode_payload,
}
use dusk_keepers.Adapter.Codec.{unsupported_instruction}
use dusk_keepers.Adapter.Codec.Parsing.{
  Json, object, read_arguments, key_named, parse_arguments, encode_keeper_instruction_json,
}
use dusk_keepers.Adapter.Codec.Parsing.Readers.{
  text, field, text_leb, insert_key, sort_keys, same_texts, require_keys, decimal, decimal_u64,
  lane_value, source_value,
}
use dusk_keepers.Adapter.Codec.Parsing.Ranges.{VectorsFit}
use dusk_keepers.Adapter.Codec.Parsing.Acceptance.{
  parse_arguments-AllInRange, encode_keeper_instruction_json_iff,
}
use dusk_keepers.Adapter.Pubkeys.{
  index_of, push_carry, add_digit, read_digits, strip_ones, decode_pubkey,
}

-- A host whose digest of a text is its length, thirty-two times.
abbrev digest : String → Bytes
digest name = replicate 32 (count name)

abbrev specification : InstructionSpecification
specification = record {
  key = "dusk:settle_protocol_auction";
  program = "dusk";
  program_id = "program";
  instruction_name = "settle_protocol_auction";
  discriminator_hex = "1e1e1e1e1e1e1e1e";
  accounts = [];
}

abbrev contract : InstructionContract
contract = record {
  schema_version = 1;
  protocol_revision = "r1";
  programs = [];
  actions = [];
  instructions = specification ∷ [];
}

abbrev auction : KeeperInstructionArguments
auction = settles_protocol_auction buyback swap (pos 1000) (pos 257)

abbrev auction_payload : Bytes
auction_payload = 1 ∷ 0 ∷ 232 ∷ 3 ∷ replicate 6 0 ++ 1 ∷ 1 ∷ replicate 6 0

encoding_run : Unit {0}
unfolding encode_keeper_instruction pinned_discriminator checked_discriminator eq_bytes exact_hex
    find_specification split_at_colons hex_bytes hex_value write_all perform unsigned writes
    key_text to_le
encoding_run = tt

auction_written : write_all (writes auction) ≡ ok auction_payload
unfolding encoding_run
auction_written = refl

auction_encoded :
    encode_keeper_instruction digest contract auction ≡ ok (replicate 8 30 ++ auction_payload)
unfolding encoding_run
auction_encoded = refl

other_absent :
    encode_keeper_instruction digest contract
      (previews_flash_liquidation (integer (pos 1)) (pos 5) true)
    ≡ err contract_mismatch
unfolding encoding_run
other_absent = refl

negative_refused :
    encode_keeper_instruction digest contract
      (settles_protocol_auction fee interest (negsuc 0) (pos 1))
    ≡ err invalid_arguments
unfolding encoding_run
negative_refused = refl

encode_keeper_instruction_iff_example :
    ((out : Bytes) × (encode_keeper_instruction digest contract auction ≡ ok out)) ↔ (
      ((d : Bytes) × Pins digest contract (key_text (key_of auction)) d)
      × AllInRange (writes auction))
encode_keeper_instruction_iff_example = encode_keeper_instruction_iff digest contract auction

encode_keeper_instruction-decode_payload_example :
    Pins digest contract (key_text (key_of auction)) (take 8 (replicate 8 30 ++ auction_payload))
    × (decode_payload (key_of auction) (drop 8 (replicate 8 30 ++ auction_payload)) ≡ some auction)
encode_keeper_instruction-decode_payload_example =
    encode_keeper_instruction-decode_payload digest contract auction
      (replicate 8 30 ++ auction_payload) auction_encoded

abbrev auction_json : Json
auction_json = object (
    ("lane", text "buyback")
    ∷ ("soldAmount", text "1000")
    ∷ ("source", text "swap")
    ∷ ("maxPaymentAmount", text "257")
    ∷ [])

parsing_run : Unit {0}
unfolding parse_arguments read_arguments key_named key_text require_keys sort_keys insert_key
    text_leb same_texts eq_bytes field lane_value source_value decimal_u64 decimal VectorsFit writes
    index_of push_carry add_digit read_digits strip_ones decode_pubkey
parsing_run = tt

auction_parsed : parse_arguments "dusk:settle_protocol_auction" auction_json ≡ ok auction
unfolding parsing_run
auction_parsed = refl

other_unsupported : parse_arguments "dusk:swap" auction_json ≡ err unsupported_instruction
unfolding parsing_run
other_unsupported = refl

parse_arguments-AllInRange_example :
    (key_text (key_of auction) ≡ "dusk:settle_protocol_auction")
    × (VectorsFit (writes auction) → AllInRange (writes auction))
parse_arguments-AllInRange_example =
    parse_arguments-AllInRange "dusk:settle_protocol_auction" auction_json auction auction_parsed

auction-VectorsFit : VectorsFit (writes auction)
unfolding parsing_run
auction-VectorsFit = tt

encode_keeper_instruction_json_iff_example :
    ((out : Bytes) × (encode_keeper_instruction_json digest contract "dusk:settle_protocol_auction"
          auction_json
        ≡ ok out))
    ↔ ((d : Bytes) × Pins digest contract "dusk:settle_protocol_auction" d)
encode_keeper_instruction_json_iff_example =
    encode_keeper_instruction_json_iff digest contract "dusk:settle_protocol_auction" auction_json
      auction auction_parsed auction-VectorsFit

abbrev system_key : Bytes
system_key = replicate 31 0 ++ 109 ∷ []

almost_zero : decode_pubkey "11111111111111111111111111111112t" ≡ some system_key
unfolding parsing_run
almost_zero = refl
