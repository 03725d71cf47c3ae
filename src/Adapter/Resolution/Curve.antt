-- ===== src/Adapter/Resolution/Curve.antt =====
-- The curve test of resolution.ts: arithmetic in the field of Ed25519, on integers as the host has
-- them, and `isEd25519Point`.
pub mod Power
use dusk_keepers.Prelude.{
  ℕ, zero, suc, ◌+◌, ◌-◌, ◌*◌, ◌/◌, ◌%◌, ◌^◌, Bool, true, false, not, ◌==◌, if◌then◌else◌,
}
use dusk_keepers.Prelude.Int.{ℤ, pos, negsuc, ◌+ℤ◌, ◌-ℤ◌, ◌*ℤ◌}
use dusk_keepers.Adapter.Bytes.{Bytes, from_le}

unfoldable pub field_modulus : ℕ
field_modulus = 2 ^ 255 - 19

-- The remainder of a negative integer is not positive, and is raised by the modulus below zero.
unfoldable pub mod_field : ℤ → ℕ
mod_field (pos n) = n % field_modulus
mod_field (negsuc n) =
    let reduced = suc n % field_modulus in if reduced == 0 then 0 else field_modulus - reduced

-- The loop of `modPow`: the exponent is halved in each round, so it is never more than the fuel.
unfoldable pub pow_loop : ℕ → ℕ → ℕ → ℕ → ℕ
pow_loop zero result factor remaining = result
pow_loop (suc fuel) result factor remaining = elim (remaining == 0) [
  | true ↦ result
  | false ↦
      pow_loop fuel (if remaining % 2 == 1 then mod_field (pos (result * factor)) else result)
        (mod_field (pos (factor * factor))) (remaining / 2)
]

unfoldable pub mod_pow : ℤ → ℕ → ℕ
mod_pow base exponent = pow_loop exponent 1 (mod_field base) exponent

unfoldable pub mod_inverse : ℤ → ℕ
mod_inverse value = mod_pow value (field_modulus - 2)

unfoldable pub edwards_d : ℕ
edwards_d = mod_field (negsuc 121664 *ℤ pos (mod_inverse (pos 121666)))

unfoldable pub sqrt_minus_one : ℕ
sqrt_minus_one = mod_pow (pos 2) ((field_modulus - 1) / 4)

-- `mod(root * root)` and its comparison with the ratio
abbrev squares_to : ℕ → ℕ → Bool
squares_to root ratio = mod_field (pos (root * root)) == ratio

abbrev try_roots : ℕ → ℕ → Bool
try_roots ratio root =
    squares_to (if squares_to root ratio then root else mod_field (pos (root * sqrt_minus_one)))
      ratio

unfoldable pub is_ratio_square : ℕ → Bool
is_ratio_square ratio = try_roots ratio (mod_pow (pos ratio) ((field_modulus + 3) / 8))

-- `value & ((1n << 255n) - 1n)` is the remainder by the power of two.
unfoldable pub is_ed25519_point : Bytes → Bool
is_ed25519_point bytes =
    let y = mod_field (pos (from_le bytes % 2 ^ 255)) in
    let y_squared = mod_field (pos (y * y)) in
    let numerator = mod_field (pos y_squared -ℤ pos 1) in
    let denominator = mod_field (pos edwards_d *ℤ pos y_squared +ℤ pos 1) in
    elim (denominator == 0) [
      | true ↦ numerator == 0
      | false ↦ is_ratio_square (mod_field (pos (numerator * mod_inverse (pos denominator))))
    ]
