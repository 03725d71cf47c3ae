-- ===== src/Adapter/Bytes.antt =====
-- Buffers as lists of bytes, and unsigned integers in them, least byte first: `writeUInt…LE`,
-- `readUInt…LE`, `littleEndianBigInt`, `subarray`.
use dusk_keepers.Prelude.{
  false, ℕ, zero, suc, ◌+◌, ◌*◌, ◌/◌, ◌%◌, ◌^◌, ◌<◌, ◌≡◌, refl, ap, ◌↔◌, Bool, true, ◌&&◌, List, [],
  ◌∷◌, ◌++◌, arith, replicate, length, length-append, subst, take, drop, ◌==◌, leb, Result, ok,
  guard, ◌>>◌,
}
use mathlib.Core.List.{reverse_aux}
use native.Mathlib.Nat.{pow-suc}

abbrev pub Bytes : Type 0
Bytes = List ℕ

abbrev pub AreBytes : Bytes → Type 0
AreBytes [] = Unit {0}
AreBytes (b ∷ bs) = (b < 256) × AreBytes bs

-- `output.writeUInt…LE(n)` into a fresh buffer of `width` bytes
unfoldable pub to_le : ℕ → ℕ → Bytes
to_le zero n = []
to_le (suc width) n = (n % 256) ∷ to_le width (n / 256)

-- The loop of `littleEndianBigInt`, from the last byte to the first: `value = (value << 8) | byte`.
unfoldable pub from_le : Bytes → ℕ
from_le [] = 0
from_le (b ∷ bs) = from_le bs * 256 + b

-- `data.subarray(from, from + width)`
abbrev pub slice : Bytes → ℕ → ℕ → Bytes
slice bytes from width = take width (drop from bytes)

-- `data.readUInt…LE(offset)`, which throws outside the buffer
unfoldable pub read_le {ℓ} : {E : Type ℓ} → E → ℕ → Bytes → ℕ → Result E ℕ
read_le thrown width bytes offset = do
  guard (leb (offset + width) (length bytes)) thrown
  ok (from_le (slice bytes offset width))

unfoldable pub all_zero : Bytes → Bool
all_zero [] = true
all_zero (b ∷ bs) = b == 0 && all_zero bs

-- `left.equals(right)`
unfoldable pub eq_bytes : Bytes → Bytes → Bool
eq_bytes [] [] = true
eq_bytes [] (b ∷ bs) = false
eq_bytes (a ∷ more) [] = false
eq_bytes (a ∷ more) (b ∷ bs) = a == b && eq_bytes more bs

pub eq_bytes_iff : (a b : Bytes) → (eq_bytes a b ≡ true) ↔ (a ≡ b)
unfolding eq_bytes
eq_bytes_iff [] [] = (λ h. refl, λ h. refl)
eq_bytes_iff [] (b ∷ bs) = (λ h. cc, λ h. cc)
eq_bytes_iff (a ∷ more) [] = (λ h. cc, λ h. cc)
eq_bytes_iff (a ∷ more) (b ∷ bs) = ground (arith, eq_bytes_iff more bs)

pub length-to_le : (width n : ℕ) → length (to_le width n) ≡ width
unfolding to_le
length-to_le zero n = refl
length-to_le (suc width) n = ap suc (length-to_le width (n / 256))

pub to_le-AreBytes : (width n : ℕ) → AreBytes (to_le width n)
unfolding to_le
to_le-AreBytes zero n = tt
to_le-AreBytes (suc width) n = (omega arith, to_le-AreBytes width (n / 256))

pub from_le-to_le : (width n : ℕ) → n < 256 ^ width → from_le (to_le width n) ≡ n
unfolding to_le from_le
from_le-to_le zero n h = omega arith
from_le-to_le (suc width) n h =
    omega (arith, from_le-to_le width (n / 256) (omega (arith, pow-suc 256 width)))

pub take-length-append : (bytes rest : Bytes) → take (length bytes) (bytes ++ rest) ≡ bytes
take-length-append [] rest = refl
take-length-append (b ∷ bs) rest = ap (◌∷◌ b) (take-length-append bs rest)

pub drop-length-append : (bytes rest : Bytes) → drop (length bytes) (bytes ++ rest) ≡ rest
drop-length-append [] rest = refl
drop-length-append (b ∷ bs) rest = drop-length-append bs rest

pub slice-append :
    (before bytes rest : Bytes)
    → slice (before ++ (bytes ++ rest)) (length before) (length bytes) ≡ bytes
slice-append [] bytes rest = take-length-append bytes rest
slice-append (b ∷ before) bytes rest = slice-append before bytes rest

-- An unsigned integer is read back from where it was written, whatever stands around it.
pub read_le-to_le {ℓ} :
    {E : Type ℓ} (thrown : E) (width n at : ℕ) (bytes before rest : Bytes)
    → bytes ≡ before ++ (to_le width n ++ rest)
    → at ≡ length before
    → n < 256 ^ width
    → read_le thrown width bytes at ≡ ok n
unfolding read_le
read_le-to_le thrown width n at bytes before rest e here fits =
    let inside : leb (length before + width) (length (before ++ (to_le width n ++ rest))) ≡ true =
      ground (
        arith,
        length-append before (to_le width n ++ rest),
        length-append (to_le width n) rest,
        length-to_le width n,
      ) in
    let part : slice (before ++ (to_le width n ++ rest)) (length before) width ≡ to_le width n =
      subst (λ w. slice (before ++ (to_le width n ++ rest)) (length before) w ≡ to_le width n)
        (length-to_le width n) (slice-append before (to_le width n) rest) in
    rw (e, here, inside, part) (ap ok (from_le-to_le width n fits))

pub from_le-lt : (bytes : Bytes) → AreBytes bytes → from_le bytes < 256 ^ length bytes
unfolding from_le
from_le-lt [] all = omega arith
from_le-lt (b ∷ bs) all = omega (arith, from_le-lt bs all.1, pow-suc 256 (length bs))

-- Bytes are determined by their length and the integer that they hold.
pub to_le-from_le : (bytes : Bytes) → AreBytes bytes → to_le (length bytes) (from_le bytes) ≡ bytes
unfolding to_le from_le
to_le-from_le [] all = refl
to_le-from_le (b ∷ bs) all =
    let low : (from_le bs * 256 + b) % 256 ≡ b = omega arith in
    let high : (from_le bs * 256 + b) / 256 ≡ from_le bs = omega arith in
    rw (low, high) (ap (◌∷◌ b) (to_le-from_le bs all.1))

pub reverse_aux-AreBytes :
    (bs tail : Bytes) → AreBytes bs → AreBytes tail → AreBytes (reverse_aux bs tail)
reverse_aux-AreBytes [] tail all rest = rest
reverse_aux-AreBytes (b ∷ bs) tail all rest = reverse_aux-AreBytes bs (b ∷ tail) all.1 (all.0, rest)

pub zeros-AreBytes : (n : ℕ) (bs : Bytes) → AreBytes bs → AreBytes (replicate n 0 ++ bs)
zeros-AreBytes zero bs all = all
zeros-AreBytes (suc n) bs all = (omega arith, zeros-AreBytes n bs all)
