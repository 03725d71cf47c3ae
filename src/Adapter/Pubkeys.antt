-- ===== src/Adapter/Pubkeys.antt =====
-- `decodePubkey` of resolution.ts: the thirty-two bytes of a base58 text. A text is walked by its code
-- points, and an error is none.
pub mod Value
use dusk_keepers.Prelude.{
  ℕ, zero, suc, ◌+◌, ◌*◌, ◌/◌, ◌%◌, ◌≤◌, ◌<◌, ◌≡◌, refl, ap, sym, ◌∙◌, subst, Bool, true, false,
  Option, none, some, List, [], ◌∷◌, ◌++◌, String, length, replicate, ◌==◌, if◌then◌else◌, arith,
}
use mathlib.Core.List.{reverse}
use dusk_keepers.Adapter.Bytes.{Bytes, AreBytes, from_le}
use dusk_keepers.Adapter.Hex.{codes}

abbrev pub base58_alphabet : List ℕ
base58_alphabet = codes "123456789ABCDEFGHJKLMNPQRSTUVWXYZabcdefghijkmnopqrstuvwxyz"

abbrev next_index : Option ℕ → Option ℕ
next_index none = none
next_index (some i) = some (suc i)

-- `text.indexOf(character)`, with none for -1
unfoldable pub index_of : ℕ → List ℕ → Option ℕ
index_of c [] = none
index_of c (d ∷ ds) = let rest = index_of c ds in if c == d then some 0 else next_index rest

-- The `while` loop on `carry`, at most as many rounds as `carry` is large.
unfoldable pub push_carry : ℕ → ℕ → Bytes
push_carry zero carry = []
push_carry (suc fuel) carry =
    let rest = push_carry fuel (carry / 256) in if carry == 0 then [] else (carry % 256) ∷ rest

-- One more digit: the loop over `bytes`, least byte first, and the bytes that it pushes.
unfoldable pub add_digit : Bytes → ℕ → Bytes
add_digit [] carry = push_carry carry carry
add_digit (b ∷ bs) carry = ((b * 58 + carry) % 256) ∷ add_digit bs ((b * 58 + carry) / 256)

-- The loop over the characters.
unfoldable pub read_digits : List ℕ → Bytes → Option Bytes
read_digits [] bytes = some bytes
read_digits (c ∷ s) bytes = elim (index_of c base58_alphabet) [
  | none ↦ none
  | some digit ↦ read_digits s (add_digit bytes digit)
]

-- `leadingZeros`, and the text behind them
unfoldable pub strip_ones : List ℕ → ℕ × List ℕ
strip_ones [] = (0, [])
strip_ones (c ∷ s) =
    let rest = strip_ones s in if c == b'1' then (suc rest.0, rest.1) else (0, c ∷ s)

abbrev pub padded : ℕ → Option Bytes → Option Bytes
padded ones none = none
padded ones (some bytes) =
    let output = replicate ones 0 ++ reverse bytes in
    if length output == 32 then some output else none

unfoldable pub decode_pubkey : String → Option Bytes
decode_pubkey value =
    let (ones, digits) = strip_ones (codes value) in padded ones (read_digits digits [])
