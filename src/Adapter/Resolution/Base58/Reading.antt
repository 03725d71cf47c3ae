-- ===== src/Adapter/Resolution/Base58/Reading.antt =====
-- What `decodePubkey` reads of the digits that `base58Encode` prints.
use Prim.Native.Char.{code}
use dusk_keepers.Prelude.{
  ℕ, zero, suc, ◌+◌, ◌*◌, ◌<◌, ◌≡◌, refl, ap, sym, ◌∙◌, subst, Bool, true, false, ◌&&◌, Option,
  none, some, List, [], ◌∷◌, ◌==◌, Bool-cases, inl, inr, arith,
}
use mathlib.Core.List.{reverse_aux}
use dusk_keepers.Adapter.Bytes.{Bytes, AreBytes, from_le}
use dusk_keepers.Adapter.Hex.{codes}
use dusk_keepers.Adapter.Pubkeys.{base58_alphabet, index_of, add_digit, read_digits, strip_ones}
use dusk_keepers.Adapter.Pubkeys.Value.{add_digit_lem, index_of_one}
use dusk_keepers.Adapter.Resolution.Base58.{alphabet, character_at, digits_text}
use dusk_keepers.Adapter.Resolution.Base58.Tight.{IsTight, add_digit-IsTight}
use dusk_keepers.Adapter.Resolution.Base58.Digits.{AreDigits, value_of_digits, bytes_value}

abbrev reads_as : Option ℕ → ℕ → Bool
reads_as none d = false
reads_as (some index) d = index == d

-- Every digit below a bound is read back from its character.
all_read : ℕ → Bool
all_read zero = true
all_read (suc d) =
    reads_as (index_of (code (character_at alphabet d)) base58_alphabet) d && all_read d

all_read_58 : all_read 58 ≡ true
unfolding all_read index_of character_at
all_read_58 = refl

reads_as_lem : (o : Option ℕ) (d : ℕ) → reads_as o d ≡ true → o ≡ some d
reads_as_lem none d h = cc
reads_as_lem (some index) d h = ap some (ground (arith, h))

all_read_lem :
    (bound d : ℕ)
    → all_read bound ≡ true
    → d < bound
    → index_of (code (character_at alphabet d)) base58_alphabet ≡ some d
unfolding all_read
all_read_lem zero d h below = absurd (omega (arith, below))
all_read_lem (suc bound) d h below = elim (Bool-cases (d == bound)) [
  | inl e ↦
      let same : d ≡ bound = ground arith in
      reads_as_lem (index_of (code (character_at alphabet d)) base58_alphabet) d (
        subst (λ k. reads_as (index_of (code (character_at alphabet k)) base58_alphabet) k ≡ true)
          (sym same) (ground (arith, h)))
  | inr e ↦ all_read_lem bound d (ground (arith, h)) (ground arith)
]

index_of-character :
    (d : ℕ) → d < 58 → index_of (code (character_at alphabet d)) base58_alphabet ≡ some d
index_of-character d below = all_read_lem 58 d all_read_58 below

-- A digit that is not zero is not printed as a one.
not_one : (d : ℕ) → d < 58 → 0 < d → (code (character_at alphabet d) == b'1') ≡ false
not_one d below some_left = elim (Bool-cases (code (character_at alphabet d) == b'1')) [
  | inl e ↦
      let one : code (character_at alphabet d) ≡ b'1' = ground arith in
      let found = index_of-character d below in
      let zero_found = subst (λ c. index_of c base58_alphabet ≡ some 0) (sym one) index_of_one in
      absurd (ground (arith, found, zero_found))
  | inr e ↦ e
]

-- The value of digits, greatest first, behind those of `value`.
unfoldable pub from_top : ℕ → List ℕ → ℕ
from_top value [] = value
from_top value (d ∷ ds) = from_top (value * 58 + d) ds

pub from_top-reverse_aux :
    (ds tail : List ℕ) → from_top 0 (reverse_aux ds tail) ≡ from_top (value_of_digits ds) tail
unfolding from_top value_of_digits
from_top-reverse_aux [] tail = refl
from_top-reverse_aux (d ∷ ds) tail = from_top-reverse_aux ds (d ∷ tail)

pub reverse_aux-AreDigits :
    (ds tail : List ℕ) → AreDigits ds → AreDigits tail → AreDigits (reverse_aux ds tail)
reverse_aux-AreDigits [] tail all rest = rest
reverse_aux-AreDigits (d ∷ ds) tail all rest =
    reverse_aux-AreDigits ds (d ∷ tail) all.1 (all.0, rest)

pub from_le-reverse_aux :
    (bs tail : Bytes) → from_le (reverse_aux bs tail) ≡ bytes_value (from_le tail) bs
unfolding from_le bytes_value
from_le-reverse_aux [] tail = refl
from_le-reverse_aux (b ∷ bs) tail = from_le-reverse_aux bs (b ∷ tail)

pub reverse_aux-IsTight :
    (bs : Bytes) (b : ℕ) (tail : Bytes) → IsTight (b ∷ tail) → IsTight (reverse_aux bs (b ∷ tail))
unfolding IsTight
reverse_aux-IsTight [] b tail t = t
reverse_aux-IsTight (c ∷ bs) b tail t = reverse_aux-IsTight bs c (b ∷ tail) t

-- No one leads the print of tight digits.
pub strip_ones-digits :
    (d : ℕ) (ds tail : List ℕ)
    → IsTight (d ∷ ds)
    → AreDigits (d ∷ ds)
    → strip_ones (codes (digits_text (reverse_aux (d ∷ ds) tail)))
      ≡ (0, codes (digits_text (reverse_aux (d ∷ ds) tail)))
unfolding strip_ones digits_text IsTight
strip_ones-digits d [] tail t all = rw (not_one d all.0 t) refl
strip_ones-digits d (e ∷ ds) tail t all = strip_ones-digits e ds (d ∷ tail) t all.1

-- What bytes are that were read: some, of the value, and tight.
pub record Reads (s : List ℕ) (acc : Bytes) (value : ℕ) : Type 0 where
  pub out : Bytes
  pub reads : read_digits s acc ≡ some out
  pub value_is : from_le out ≡ value
  pub bytes : AreBytes out
  pub tight : IsTight out

pub read_digits-text :
    (ds : List ℕ) (acc : Bytes)
    → AreDigits ds
    → AreBytes acc
    → IsTight acc
    → Reads (codes (digits_text ds)) acc (from_top (from_le acc) ds)
unfolding read_digits digits_text from_top
read_digits-text [] acc all bytes tight = record {
  out = acc;
  reads = refl;
  value_is = refl;
  bytes = bytes;
  tight = tight;
}
read_digits-text (d ∷ ds) acc all bytes tight =
    let (value, next_bytes) = add_digit_lem acc d in
    let rest =
      read_digits-text ds (add_digit acc d) all.1 next_bytes (add_digit-IsTight acc d tight) in
    record {
      out = rest.out;
      reads = rw (read_digits, index_of-character d all.0) rest.reads;
      value_is = rest.value_is ∙ ap (λ n. from_top n ds) value;
      bytes = rest.bytes;
      tight = rest.tight;
    }
