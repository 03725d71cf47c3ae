-- ===== src/Adapter/Pubkeys/Value.antt =====
-- The bytes that `decodePubkey` gives hold the number that the text stands for in base 58.
use dusk_keepers.Prelude.{
  ℕ, zero, suc, ◌+◌, ◌*◌, ◌/◌, ◌≤◌, ◌≡◌, refl, ap, sym, ◌∙◌, subst, Option, none, some, List, [],
  ◌∷◌, ◌++◌, String, length, replicate, ◌==◌, arith, Bool-cases, Option-cases, inl, inr,
}
use mathlib.Core.List.{reverse, reverse_aux, reverse-append, reverse-reverse}
use dusk_keepers.Adapter.Bytes.{Bytes, AreBytes, from_le, reverse_aux-AreBytes, zeros-AreBytes}
use dusk_keepers.Adapter.Hex.{codes}
use dusk_keepers.Adapter.Pubkeys.{
  base58_alphabet, index_of, push_carry, add_digit, read_digits, strip_ones, padded, decode_pubkey,
}

abbrev after_digit : Option ℕ → (ℕ → Option ℕ) → Option ℕ
after_digit none next = none
after_digit (some digit) next = next digit

-- The number that a text stands for in base 58, behind the digits of `value`.
unfoldable pub base58_value : ℕ → List ℕ → Option ℕ
base58_value value [] = some value
base58_value value (c ∷ s) =
    after_digit (index_of c base58_alphabet) λ digit. base58_value (value * 58 + digit) s

pub push_carry_lem :
    (fuel carry : ℕ)
    → carry ≤ fuel
    → (from_le (push_carry fuel carry) ≡ carry) × AreBytes (push_carry fuel carry)
unfolding push_carry from_le
push_carry_lem zero carry h = (omega arith, tt)
push_carry_lem (suc fuel) carry h = elim (Bool-cases (carry == 0)) [
  | inl e ↦ rw e (ground arith, tt)
  | inr e ↦
      let smaller : carry / 256 ≤ fuel = ground arith in
      let (value, all) = push_carry_lem fuel (carry / 256) smaller in
      rw e (omega (arith, value), (omega arith, all))
]

pub add_digit_lem :
    (bs : Bytes) (carry : ℕ)
    → (from_le (add_digit bs carry) ≡ from_le bs * 58 + carry) × AreBytes (add_digit bs carry)
unfolding add_digit from_le
add_digit_lem [] carry =
    let (value, all) = push_carry_lem carry carry (omega arith) in (omega (arith, value), all)
add_digit_lem (b ∷ bs) carry =
    let (value, all) = add_digit_lem bs ((b * 58 + carry) / 256) in
    (omega (arith, value), (omega arith, all))

read_digits_lem :
    (s : List ℕ) (bs out : Bytes)
    → AreBytes bs
    → read_digits s bs ≡ some out
    → (base58_value (from_le bs) s ≡ some (from_le out)) × AreBytes out
unfolding read_digits base58_value
read_digits_lem [] bs out all h =
    let e : bs ≡ out = cc in (ap (λ l. some (from_le l)) e, subst AreBytes e all)
read_digits_lem (c ∷ s) bs out all h = elim (Option-cases (index_of c base58_alphabet)) [
  | inl e ↦ absurd (ground (arith, e))
  | inr (d, e) ↦
      let (value, all') = add_digit_lem bs d in
      let behind : read_digits s (add_digit bs d) ≡ some out = ground (arith, e) in
      let (ih, outs) = read_digits_lem s (add_digit bs d) out all' behind in
      (rw e (subst (λ n. base58_value n s ≡ some (from_le out)) value ih), outs)
]

pub index_of_one : index_of b'1' base58_alphabet ≡ some 0
unfolding index_of
index_of_one = refl

pub strip_ones_lem : (s : List ℕ) → base58_value 0 s ≡ base58_value 0 (strip_ones s).1
unfolding strip_ones base58_value
strip_ones_lem [] = refl
strip_ones_lem (c ∷ s) = elim (Bool-cases (c == b'1')) [
  | inl e ↦ let one : c ≡ b'1' = ground arith in rw (one, index_of_one) (strip_ones_lem s)
  | inr e ↦ rw e refl
]

pub from_le-append_zeros : (bs zs : Bytes) → from_le zs ≡ 0 → from_le (bs ++ zs) ≡ from_le bs
unfolding from_le
from_le-append_zeros [] zs h = h
from_le-append_zeros (b ∷ bs) zs h = omega (arith, from_le-append_zeros bs zs h)

pub reversed_zeros :
    (n : ℕ) (acc : Bytes) → from_le acc ≡ 0 → from_le (reverse_aux (replicate n 0) acc) ≡ 0
unfolding from_le
reversed_zeros zero acc h = h
reversed_zeros (suc n) acc h = reversed_zeros n (0 ∷ acc) (omega (arith, h))

pub padded-eq-some :
    (n : ℕ) (found : Option Bytes) (out : Bytes)
    → padded n found ≡ some out
    → (bytes : Bytes) × (found ≡ some bytes)
      × (replicate n 0 ++ reverse bytes ≡ out)
      × (length out ≡ 32)
padded-eq-some n none out h = cc
padded-eq-some n (some bytes) out h =
    elim (Bool-cases (length (replicate n 0 ++ reverse bytes) == 32)) [
      | inl e ↦
          let same : replicate n 0 ++ reverse bytes ≡ out = ground (arith, e) in
          (bytes, refl, same, ap length (sym same) ∙ ground (arith, e))
      | inr e ↦ absurd (ground (arith, e))
    ]

-- An accepted text gives thirty-two numbers below 256, which hold, greatest byte first, the number
-- that the text stands for in base 58.
pub decode_pubkey-value :
    (value : String) (out : Bytes)
    → decode_pubkey value ≡ some out
    → (length out ≡ 32)
      × AreBytes out
      × (base58_value 0 (codes value) ≡ some (from_le (reverse out)))
unfolding decode_pubkey from_le
decode_pubkey-value value out h =
    let parts = strip_ones (codes value) in
    let (bytes, read, same, sized) = padded-eq-some parts.0 (read_digits parts.1 []) out h in
    let (number, all) = read_digits_lem parts.1 [] bytes tt read in
    let back : from_le (reverse out) ≡ from_le bytes =
      ap (λ l. from_le (reverse l)) (sym same)
      ∙ (ap from_le (reverse-append (replicate parts.0 0) (reverse bytes))
          ∙ (ap (λ l. from_le (l ++ reverse (replicate parts.0 0))) (reverse-reverse bytes)
              ∙ from_le-append_zeros bytes (reverse (replicate parts.0 0))
                  (reversed_zeros parts.0 [] refl))) in
    let each_fits = zeros-AreBytes parts.0 (reverse bytes) (reverse_aux-AreBytes bytes [] all tt) in
    (
      sized,
      subst AreBytes same each_fits,
      strip_ones_lem (codes value) ∙ (number ∙ ap some (sym back)),
    )
