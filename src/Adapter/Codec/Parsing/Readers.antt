-- ===== src/Adapter/Codec/Parsing/Readers.antt =====
-- The readers of one field in `parseKeeperInstructionArguments` of codec.ts.
use dusk_keepers.Prelude.{
  present, ℕ, ◌+◌, ◌*◌, ◌-◌, Bool, true, false, ◌&&◌, ◌||◌, Option, none, some, List, [], ◌∷◌,
  String, str_eq, length, leb, ltb, ◌==◌, if◌then◌else◌, Result, ok, err, ◌>>=◌, ◌>>◌, guard,
  refuse,
}
use dusk_keepers.Prelude.Int.{ℤ, pos}
use dusk_keepers.Adapter.Values.{Number, integer, max_u64}
use dusk_keepers.Adapter.Bytes.{Bytes, eq_bytes}
use dusk_keepers.Adapter.Hex.{codes, is_digit, hex_bytes}
use dusk_keepers.Adapter.Pubkeys.{decode_pubkey}
use dusk_keepers.Adapter.Codec.{
  InstructionEncodingErrorCode, invalid_arguments, ProtocolAuctionLane, fee, buyback,
  ProtocolRevenueSource, swap, interest,
}

-- A field's value, as far as the readers tell values apart; `undefined`, null, arrays and objects are
-- the last.
pub data FieldValue : Type 0 where
  boolean : Bool → FieldValue
  number : Number → FieldValue
  text : String → FieldValue
  another : FieldValue

abbrev pub Fields : Type 0
Fields = List (String × FieldValue)

abbrev pub Read : Type 0 → Type 0
Read A = Result InstructionEncodingErrorCode A

-- `value[name]`
unfoldable pub field : String → Fields → FieldValue
field name [] = another
field name ((key, value) ∷ rest) = if str_eq key name then value else field name rest

-- Texts in dictionary order, as `sort()` has them.
unfoldable pub text_leb : List ℕ → List ℕ → Bool
text_leb [] right = true
text_leb (c ∷ left) [] = false
text_leb (c ∷ left) (d ∷ right) = ltb c d || (c == d && text_leb left right)

unfoldable pub insert_key : List ℕ → List (List ℕ) → List (List ℕ)
insert_key key [] = key ∷ []
insert_key key (k ∷ ks) =
    let rest = insert_key key ks in if text_leb key k then key ∷ k ∷ ks else k ∷ rest

unfoldable pub sort_keys : List (List ℕ) → List (List ℕ)
sort_keys [] = []
sort_keys (key ∷ keys) = insert_key key (sort_keys keys)

unfoldable pub same_texts : List (List ℕ) → List (List ℕ) → Bool
same_texts [] [] = true
same_texts [] (k ∷ ks) = false
same_texts (k ∷ ks) [] = false
same_texts (k ∷ ks) (j ∷ js) = eq_bytes k j && same_texts ks js

abbrev pub keys_of : Fields → List (List ℕ)
keys_of [] = []
keys_of ((key, value) ∷ rest) = codes key ∷ keys_of rest

abbrev pub texts_of : List String → List (List ℕ)
texts_of [] = []
texts_of (key ∷ keys) = codes key ∷ texts_of keys

unfoldable pub require_keys : Fields → List String → Read (Unit {0})
require_keys value expected =
    guard (same_texts (sort_keys (keys_of value)) (sort_keys (texts_of expected))) invalid_arguments

abbrev pub digits_value : List ℕ → ℕ → Option ℕ
digits_value [] n = some n
digits_value (c ∷ s) n =
    let rest = digits_value s (n * 10 + (c - b'0')) in if is_digit c then rest else none

-- `^(?:0|[1-9][0-9]*)$`, and `BigInt(value)`
unfoldable pub decimal : List ℕ → Option ℕ
decimal [] = none
decimal (c ∷ []) = digits_value (c ∷ []) 0
decimal (c ∷ d ∷ s) = if c == b'0' then none else digits_value (c ∷ d ∷ s) 0

unfoldable pub decimal_u64 : FieldValue → Read ℤ
decimal_u64 (text value) = do
  parsed ← present (decimal (codes value)) invalid_arguments
  refuse (ltb max_u64 parsed) invalid_arguments
  ok (pos parsed)
decimal_u64 _ = err invalid_arguments

unfoldable pub unsigned_number : FieldValue → ℕ → Read Number
unsigned_number (number (integer (pos n))) maximum = do
  guard (leb n maximum) invalid_arguments
  ok (integer (pos n))
unsigned_number _ maximum = err invalid_arguments

unfoldable pub lane_value : FieldValue → Read ProtocolAuctionLane
lane_value (text value) =
    if str_eq value "fee"
    then ok fee
    else if str_eq value "buyback"
    then ok buyback
    else err invalid_arguments
lane_value _ = err invalid_arguments

unfoldable pub source_value : FieldValue → Read ProtocolRevenueSource
source_value (text value) =
    if str_eq value "swap"
    then ok swap
    else if str_eq value "interest"
    then ok interest
    else err invalid_arguments
source_value _ = err invalid_arguments

unfoldable pub variable_hex : FieldValue → Read Bytes
variable_hex (text value) = present (hex_bytes (codes value)) invalid_arguments
variable_hex _ = err invalid_arguments

unfoldable pub boolean_value : FieldValue → Read Bool
boolean_value (boolean value) = ok value
boolean_value _ = err invalid_arguments

unfoldable pub pubkey_value : FieldValue → Read Bytes
pubkey_value (text value) = do
  bytes ← present (decode_pubkey value) invalid_arguments
  guard (length bytes == 32) invalid_arguments
  ok bytes
pubkey_value _ = err invalid_arguments
