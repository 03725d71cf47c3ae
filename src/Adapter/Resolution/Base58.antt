-- ===== src/Adapter/Resolution/Base58.antt =====
-- `base58Encode` of resolution.ts. The digits stand least first, as in the loop.
pub mod Tight
pub mod Digits
pub mod Reading
pub mod RoundTrip
pub mod Decoding
use Prim.Native.Char.{Char, nul}
use dusk_keepers.Prelude.{
  ℕ, zero, suc, ◌+◌, ◌*◌, ◌/◌, ◌%◌, Bool, true, false, List, [], ◌∷◌, ◌++◌, String, ◌==◌,
  if◌then◌else◌,
}
use mathlib.Core.List.{reverse}
use dusk_keepers.Adapter.Bytes.{Bytes}

abbrev pub alphabet : String
alphabet = "123456789ABCDEFGHJKLMNPQRSTUVWXYZabcdefghijkmnopqrstuvwxyz"

-- `text[index]`, with the null character behind the end
unfoldable pub character_at : String → ℕ → Char
character_at String.[] index = nul
character_at (String.◌∷◌ c s) zero = c
character_at (String.◌∷◌ c s) (suc index) = character_at s index

-- The `while` loop on `carry`, at most as many rounds as `carry` is large.
unfoldable pub push_digits : ℕ → ℕ → List ℕ
push_digits zero carry = []
push_digits (suc fuel) carry =
    let rest = push_digits fuel (carry / 58) in if carry == 0 then [] else (carry % 58) ∷ rest

-- One more byte: the loop over `digits`, and the digits that it pushes.
unfoldable pub add_byte : List ℕ → ℕ → List ℕ
add_byte [] carry = push_digits carry carry
add_byte (d ∷ ds) carry = ((d * 256 + carry) % 58) ∷ add_byte ds ((d * 256 + carry) / 58)

-- The loop over the bytes.
unfoldable pub add_bytes : List ℕ → Bytes → List ℕ
add_bytes digits [] = digits
add_bytes digits (b ∷ bs) = add_bytes (add_byte digits b) bs

-- A "1" for each leading zero byte but the last byte.
unfoldable pub ones_for : Bytes → String → String
ones_for [] text = text
ones_for (b ∷ []) text = text
ones_for (b ∷ c ∷ bs) text =
    let rest = ones_for (c ∷ bs) text in if b == 0 then String.◌∷◌ "1" rest else text

unfoldable pub digits_text : List ℕ → String
digits_text [] = ""
digits_text (d ∷ ds) = String.◌∷◌ (character_at alphabet d) (digits_text ds)

unfoldable pub base58_encode : Bytes → String
base58_encode bytes = ones_for bytes (digits_text (reverse (add_bytes (0 ∷ []) bytes)))
