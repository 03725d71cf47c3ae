-- ===== src/Adapter/Resolution/Base58/Digits.antt =====
-- The digits that `base58Encode` collects hold the number of the bytes, with none that is zero at the
-- top.
use dusk_keepers.Prelude.{
  ℕ, zero, suc, ◌+◌, ◌*◌, ◌/◌, ◌%◌, ◌≤◌, ◌<◌, ◌≡◌, refl, ap, sym, subst, List, [], ◌∷◌, ◌==◌,
  Bool-cases, inl, inr, arith,
}
use dusk_keepers.Adapter.Bytes.{Bytes}
use dusk_keepers.Adapter.Resolution.Base58.{push_digits, add_byte, add_bytes}
use dusk_keepers.Adapter.Resolution.Base58.Tight.{IsTight, IsTight-cons, IsTight-tail}

abbrev pub AreDigits : List ℕ → Type 0
AreDigits [] = Unit {0}
AreDigits (d ∷ ds) = (d < 58) × AreDigits ds

-- The value of digits, least first.
unfoldable pub value_of_digits : List ℕ → ℕ
value_of_digits [] = 0
value_of_digits (d ∷ ds) = value_of_digits ds * 58 + d

-- The value of bytes, greatest first, behind those of `value`.
unfoldable pub bytes_value : ℕ → Bytes → ℕ
bytes_value value [] = value
bytes_value value (b ∷ bs) = bytes_value (value * 256 + b) bs

-- What digits are that hold a number.
pub record Hold (n : ℕ) (ds : List ℕ) : Type 0 where
  pub value : value_of_digits ds ≡ n
  pub digits : AreDigits ds
  pub tight : IsTight ds

pub value_of_digits-pos : (d : ℕ) (ds : List ℕ) → IsTight (d ∷ ds) → 0 < value_of_digits (d ∷ ds)
unfolding value_of_digits IsTight
value_of_digits-pos d [] t = omega (arith, t)
value_of_digits-pos d (e ∷ ds) t = let rest = value_of_digits-pos e ds t in omega (arith, rest)

push_digits-Hold : (fuel carry : ℕ) → carry ≤ fuel → Hold carry (push_digits fuel carry)
unfolding push_digits value_of_digits IsTight
push_digits-Hold zero carry h = record { value = omega arith; digits = tt; tight = tt }
push_digits-Hold (suc fuel) carry h = elim (Bool-cases (carry == 0)) [
  | inl e ↦
      let none_left : carry ≡ 0 = ground arith in
      rw e (record { value = sym none_left; digits = tt; tight = tt })
  | inr e ↦
      let smaller : carry / 58 ≤ fuel = ground arith in
      let rest = push_digits-Hold fuel (carry / 58) smaller in
      rw e (record {
        value = omega (arith, rest.value);
        digits = (omega arith, rest.digits);
        tight =
            IsTight-cons (carry % 58) (push_digits fuel (carry / 58)) rest.tight
              λ none_left. ground (arith, e, rest.value, ap value_of_digits none_left);
      })
]

add_byte-Hold : (ds : List ℕ) (carry n : ℕ) → Hold n ds → Hold (n * 256 + carry) (add_byte ds carry)
unfolding add_byte value_of_digits
add_byte-Hold [] carry n h =
    subst (λ m. Hold m (push_digits carry carry)) (omega (arith, h.value))
      (push_digits-Hold carry carry (omega arith))
add_byte-Hold (d ∷ ds) carry n h =
    let next = (d * 256 + carry) / 58 in
    let inner : Hold (value_of_digits ds) ds = record {
      value = refl;
      digits = h.digits.1;
      tight = IsTight-tail d ds h.tight;
    } in
    let rest = add_byte-Hold ds next (value_of_digits ds) inner in
    let some_left = value_of_digits-pos d ds h.tight in
    record {
      value = omega (arith, rest.value, h.value);
      digits = (omega arith, rest.digits);
      tight =
          IsTight-cons ((d * 256 + carry) % 58) (add_byte ds next) rest.tight
            λ none_left. omega (arith, some_left, rest.value, ap value_of_digits none_left);
    }

add_bytes-Hold :
    (ds : List ℕ) (bs : Bytes) (n : ℕ) → Hold n ds → Hold (bytes_value n bs) (add_bytes ds bs)
unfolding add_bytes bytes_value
add_bytes-Hold ds [] n h = h
add_bytes-Hold ds (b ∷ bs) n h =
    add_bytes-Hold (add_byte ds b) bs (n * 256 + b) (add_byte-Hold ds b n h)

-- From the first byte on that is not zero.
pub encoded-Hold :
    (b : ℕ) (bs : Bytes) → 0 < b → Hold (bytes_value b bs) (add_bytes (0 ∷ []) (b ∷ bs))
unfolding add_bytes add_byte value_of_digits
encoded-Hold b bs some_left =
    let rest = push_digits-Hold (b / 58) (b / 58) (omega arith) in
    let same : 0 + b ≡ b = omega arith in
    subst (λ c. Hold (bytes_value b bs) (add_bytes ((c % 58) ∷ push_digits (c / 58) (c / 58)) bs))
      (sym same)
      (add_bytes-Hold ((b % 58) ∷ push_digits (b / 58) (b / 58)) bs b (record {
        value = omega (arith, rest.value);
        digits = (omega arith, rest.digits);
        tight =
            IsTight-cons (b % 58) (push_digits (b / 58) (b / 58)) rest.tight
              λ none_left. omega (arith, some_left, rest.value, ap value_of_digits none_left);
      }))
