-- ===== src/Adapter/Resolution/Base58/Tight.antt =====
-- Digits with no zero at the top, on both sides of the conversion: each is the only one of its value.
use dusk_keepers.Prelude.{
  ℕ, zero, suc, ◌+◌, ◌*◌, ◌/◌, ◌%◌, ◌≤◌, ◌<◌, ◌≡◌, refl, ap, List, [], ◌∷◌, ◌==◌, Bool-cases, inl,
  inr, arith,
}
use dusk_keepers.Adapter.Bytes.{Bytes, AreBytes, from_le}
use dusk_keepers.Adapter.Pubkeys.{push_carry, add_digit}
use dusk_keepers.Adapter.Pubkeys.Value.{push_carry_lem, add_digit_lem}

-- The last digit, which counts most, is not zero.
unfoldable pub IsTight : List ℕ → Type 0
IsTight [] = Unit {0}
IsTight (d ∷ []) = 0 < d
IsTight (d ∷ e ∷ ds) = IsTight (e ∷ ds)

pub IsTight-cons : (d : ℕ) (ds : List ℕ) → IsTight ds → (ds ≡ [] → 0 < d) → IsTight (d ∷ ds)
unfolding IsTight
IsTight-cons d [] t top = top refl
IsTight-cons d (e ∷ ds) t top = t

pub IsTight-tail : (d : ℕ) (ds : List ℕ) → IsTight (d ∷ ds) → IsTight ds
unfolding IsTight
IsTight-tail d [] t = tt
IsTight-tail d (e ∷ ds) t = t

pub IsTight-pos : (d : ℕ) (ds : Bytes) → IsTight (d ∷ ds) → 0 < from_le (d ∷ ds)
unfolding IsTight from_le
IsTight-pos d [] t = omega (arith, t)
IsTight-pos d (e ∷ ds) t = let rest = IsTight-pos e ds t in omega (arith, rest)

-- Tight bytes are fixed by their value.
pub tight_unique :
    (xs ys : Bytes)
    → IsTight xs
    → IsTight ys
    → AreBytes xs
    → AreBytes ys
    → from_le xs ≡ from_le ys
    → xs ≡ ys
unfolding from_le
tight_unique [] [] tx ty ax ay e = refl
tight_unique [] (y ∷ ys) tx ty ax ay e = absurd (omega (arith, IsTight-pos y ys ty, e))
tight_unique (x ∷ xs) [] tx ty ax ay e = absurd (omega (arith, IsTight-pos x xs tx, e))
tight_unique (x ∷ xs) (y ∷ ys) tx ty ax ay e =
    let both : from_le xs * 256 + x ≡ from_le ys * 256 + y = e in
    let head : x ≡ y = omega (arith, both, ax.0, ay.0) in
    let rest : from_le xs ≡ from_le ys = omega (arith, both, ax.0, ay.0) in
    let tails = tight_unique xs ys (IsTight-tail x xs tx) (IsTight-tail y ys ty) ax.1 ay.1 rest in
    λ i. head i ∷ tails i

push_carry-IsTight : (fuel carry : ℕ) → carry ≤ fuel → IsTight (push_carry fuel carry)
unfolding push_carry IsTight from_le
push_carry-IsTight zero carry h = tt
push_carry-IsTight (suc fuel) carry h = elim (Bool-cases (carry == 0)) [
  | inl e ↦ rw e tt
  | inr e ↦
      let smaller : carry / 256 ≤ fuel = ground arith in
      let value = (push_carry_lem fuel (carry / 256) smaller).0 in
      rw e (
        IsTight-cons (carry % 256) (push_carry fuel (carry / 256))
          (push_carry-IsTight fuel (carry / 256) smaller)
          λ none_left. ground (arith, e, value, ap from_le none_left))
]

pub add_digit-IsTight : (bs : Bytes) (carry : ℕ) → IsTight bs → IsTight (add_digit bs carry)
unfolding add_digit from_le
add_digit-IsTight [] carry t = push_carry-IsTight carry carry (omega arith)
add_digit-IsTight (b ∷ bs) carry t =
    let next = (b * 58 + carry) / 256 in
    let value = (add_digit_lem bs next).0 in
    let some_left = IsTight-pos b bs t in
    IsTight-cons ((b * 58 + carry) % 256) (add_digit bs next)
      (add_digit-IsTight bs next (IsTight-tail b bs t))
      λ none_left. omega (arith, some_left, value, ap from_le none_left)
