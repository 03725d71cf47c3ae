-- ===== src/Adapter/Liquidation/Base58.antt =====
-- The two printers of public keys agree.
use dusk_keepers.Prelude.{
  ℕ, zero, suc, ◌+◌, ◌*◌, ◌/◌, ◌%◌, ◌≤◌, ◌<◌, ◌≡◌, refl, ap, sym, ◌∙◌, subst, true, false, List, [],
  ◌∷◌, String, ◌==◌, Bool-cases, inl, inr, arith,
}
use mathlib.Core.List.{reverse, reverse_aux}
use dusk_keepers.Adapter.Bytes.{Bytes}
use dusk_keepers.Adapter.Resolution.Base58.{
  character_at, push_digits, add_byte, add_bytes, ones_for, digits_text, base58_encode,
}
use dusk_keepers.Adapter.Resolution.Base58.Tight.{IsTight-tail}
use dusk_keepers.Adapter.Resolution.Base58.Digits.{
  value_of_digits, value_of_digits-pos, bytes_value, Hold, encoded-Hold,
}
use dusk_keepers.Adapter.Resolution.Base58.RoundTrip.{plain_text}
use dusk_keepers.Adapter.Liquidation.{big_endian, print_digits, print_zeros, base58}

big_endian-bytes_value : (n : ℕ) (bs : Bytes) → big_endian n bs ≡ bytes_value n bs
unfolding big_endian bytes_value
big_endian-bytes_value n [] = refl
big_endian-bytes_value n (b ∷ bs) = big_endian-bytes_value (n * 256 + b) bs

-- The loop prints the digits that hold the number, the greatest first.
print_digits-Hold :
    (fuel n : ℕ) (ds tail : List ℕ)
    → n ≤ fuel
    → Hold n ds
    → print_digits fuel n (digits_text tail) ≡ digits_text (reverse_aux ds tail)
unfolding print_digits value_of_digits digits_text
print_digits-Hold zero n [] tail enough h = refl
print_digits-Hold zero n (d ∷ ds) tail enough h =
    absurd (omega (arith, enough, h.value, value_of_digits-pos d ds h.tight))
print_digits-Hold (suc fuel) n [] tail enough h =
    let none_left : (n == 0) ≡ true = ground (arith, h.value) in rw (print_digits, none_left) refl
print_digits-Hold (suc fuel) n (d ∷ ds) tail enough h =
    let some_left = value_of_digits-pos d ds h.tight in
    let number : n ≡ value_of_digits ds * 58 + d = sym h.value in
    let small = h.digits.0 in
    let more : (n == 0) ≡ false = ground (arith, some_left, h.value) in
    let digit : n % 58 ≡ d = omega (arith, number, small) in
    let behind : n / 58 ≡ value_of_digits ds = omega (arith, number, small) in
    let less : value_of_digits ds ≤ fuel = omega (arith, number, some_left, enough) in
    let rest : Hold (value_of_digits ds) ds = record {
      value = refl;
      digits = h.digits.1;
      tight = IsTight-tail d ds h.tight;
    } in
    rw (print_digits, more, digit, behind)
      (print_digits-Hold fuel (value_of_digits ds) ds (d ∷ tail) less rest)

print_zeros-one :
    (bs : Bytes) (out : String)
    → print_zeros bs (String.◌∷◌ "1" out) ≡ String.◌∷◌ "1" (print_zeros bs out)
unfolding print_zeros
print_zeros-one [] out = refl
print_zeros-one (b ∷ bs) out = elim (Bool-cases (b == 0)) [
  | inl e ↦ rw e (print_zeros-one bs (String.◌∷◌ "1" out))
  | inr e ↦ rw e refl
]

-- Bytes whose first is not zero.
agree_plain : (b : ℕ) (bs : Bytes) → (b == 0) ≡ false → base58 (b ∷ bs) ≡ base58_encode (b ∷ bs)
unfolding base58 base58_encode print_zeros big_endian digits_text
agree_plain b bs e =
    let some_left : 0 < b = ground arith in
    let ds = add_bytes (0 ∷ []) (b ∷ bs) in
    let n = big_endian (0 + b) bs in
    let one_byte : 0 + b ≡ b = omega arith in
    let same = ap (λ k. big_endian k bs) one_byte ∙ big_endian-bytes_value b bs in
    let holds : Hold n ds = subst (λ k. Hold k ds) (sym same) (encoded-Hold b bs some_left) in
    rw e (
      print_digits-Hold n n ds [] (omega arith) holds
      ∙ sym (plain_text b bs (digits_text (reverse ds)) e))

one_agrees : base58 (0 ∷ []) ≡ base58_encode (0 ∷ [])
unfolding base58 big_endian print_digits print_zeros base58_encode add_bytes add_byte push_digits
    ones_for digits_text character_at
one_agrees = refl

first_zero :
    (c : ℕ) (bs : Bytes)
    → base58 (0 ∷ c ∷ bs)
      ≡ print_zeros
          (c ∷ bs)
          (String.◌∷◌ "1" (print_digits (big_endian 0 (c ∷ bs)) (big_endian 0 (c ∷ bs)) ""))
unfolding base58 big_endian print_zeros
first_zero c bs = refl

-- A zero in front is a one more in front, on both sides.
zero_agrees :
    (c : ℕ) (bs : Bytes)
    → base58 (c ∷ bs) ≡ base58_encode (c ∷ bs)
    → base58 (0 ∷ c ∷ bs) ≡ base58_encode (0 ∷ c ∷ bs)
unfolding base58 base58_encode ones_for add_bytes add_byte push_digits
zero_agrees c bs same =
    let n = big_endian 0 (c ∷ bs) in
    let zero_printed : base58 (0 ∷ c ∷ bs)
        ≡ print_zeros (c ∷ bs) (String.◌∷◌ "1" (print_digits n n "")) =
      first_zero c bs in
    zero_printed ∙ print_zeros-one (c ∷ bs) (print_digits n n "") ∙ ap (String.◌∷◌ "1") same

-- The printer of the plans and that of the resolver give the same text for all bytes, if there are any.
pub base58-base58_encode : (b : ℕ) (bs : Bytes) → base58 (b ∷ bs) ≡ base58_encode (b ∷ bs)
base58-base58_encode b [] = elim (Bool-cases (b == 0)) [
  | inl e ↦
      let is_zero : b ≡ 0 = ground arith in
      subst (λ k. base58 (k ∷ []) ≡ base58_encode (k ∷ [])) (sym is_zero) one_agrees
  | inr e ↦ agree_plain b [] e
]
base58-base58_encode b (c ∷ bs) =
    let rest = base58-base58_encode c bs in
    elim (Bool-cases (b == 0)) [
      | inl e ↦
          let is_zero : b ≡ 0 = ground arith in
          subst (λ k. base58 (k ∷ c ∷ bs) ≡ base58_encode (k ∷ c ∷ bs)) (sym is_zero)
            (zero_agrees c bs rest)
      | inr e ↦ agree_plain b (c ∷ bs) e
    ]
