-- ===== src/Adapter/Resolution/Curve/Power.antt =====
-- `modPow` is exponentiation in the field.
use dusk_keepers.Prelude.{
  ℕ, zero, suc, ◌+◌, ◌*◌, ◌/◌, ◌%◌, ◌^◌, ◌≤◌, ◌≡◌, refl, ap, sym, ◌∙◌, ◌==◌, Bool-cases, inl, inr,
  arith,
}
use native.Mathlib.Nat.{pow-suc, pow-zero, mod-mod, mod-add-div, add-mul-mod_self_left}
use dusk_keepers.Prelude.Int.{ℤ}
use dusk_keepers.Adapter.Resolution.Curve.{field_modulus, mod_field, pow_loop, mod_pow}

module _ (m : ℕ) where
  mod-mul : (a b : ℕ) → (a % m * b) % m ≡ (a * b) % m
  mod-mul a b =
      let split : a * b ≡ a % m * b + m * (a / m * b) =
        ap (λ n. n * b) (sym (mod-add-div a m)) ∙ omega arith in
      sym (ap (λ n. n % m) split ∙ add-mul-mod_self_left (a % m * b) m (a / m * b))

  mul-mod : (a b : ℕ) → (a * (b % m)) % m ≡ (a * b) % m
  mul-mod a b = ap (λ n. n % m) (omega arith) ∙ mod-mul b a ∙ ap (λ n. n % m) (omega arith)

  mod-pow : (a k : ℕ) → ((a % m) ^ k) % m ≡ (a ^ k) % m
  mod-pow a zero = ap (λ n. n % m) (pow-zero (a % m) ∙ sym (pow-zero a))
  mod-pow a (suc k) =
      ap (λ n. n % m) (pow-suc (a % m) k)
      ∙ mul-mod ((a % m) ^ k) a
      ∙ sym (mod-mul ((a % m) ^ k) a)
      ∙ ap (λ n. (n * a) % m) (mod-pow a k)
      ∙ mod-mul (a ^ k) a
      ∙ ap (λ n. n % m) (sym (pow-suc a k))

square-pow : (f k : ℕ) → (f * f) ^ k ≡ f ^ (k + k)
square-pow f zero = pow-zero (f * f) ∙ sym (pow-zero f)
square-pow f (suc k) =
    let twice : suc k + suc k ≡ suc (suc (k + k)) = omega arith in
    pow-suc (f * f) k
    ∙ ap (λ n. n * (f * f)) (square-pow f k)
    ∙ omega arith
    ∙ ap (λ n. n * f) (sym (pow-suc f (k + k)))
    ∙ sym (pow-suc f (suc (k + k)))
    ∙ ap (λ n. f ^ n) (sym twice)

module _ (m : ℕ) where
  even_step : (result f k : ℕ) → (result * (f * f % m) ^ k) % m ≡ (result * f ^ (k + k)) % m
  even_step result f k =
      sym (mul-mod m result ((f * f % m) ^ k))
      ∙ ap (λ n. (result * n) % m) (mod-pow m (f * f) k ∙ ap (λ n. n % m) (square-pow f k))
      ∙ mul-mod m result (f ^ (k + k))

  odd_step :
      (result f k : ℕ) → (result * f % m * (f * f % m) ^ k) % m ≡ (result * f ^ suc (k + k)) % m
  odd_step result f k =
      mod-mul m (result * f) ((f * f % m) ^ k)
      ∙ even_step (result * f) f k
      ∙ ap (λ n. n % m) (omega arith ∙ ap (λ n. result * n) (sym (pow-suc f (k + k))))

-- The loop multiplies the result by the power that remains.
pow_loop_lem :
    (fuel result factor remaining : ℕ)
    → remaining ≤ fuel
    → result % field_modulus ≡ result
    → pow_loop fuel result factor remaining ≡ (result * factor ^ remaining) % field_modulus
unfolding pow_loop mod_field
pow_loop_lem zero result factor remaining enough small =
    let none_left : remaining ≡ 0 = omega arith in
    rw (none_left, pow-zero factor) (sym small ∙ ap (λ n. n % field_modulus) (omega arith))
pow_loop_lem (suc fuel) result factor remaining enough small =
    let half = remaining / 2 in
    let square = factor * factor % field_modulus in
    elim (Bool-cases (remaining == 0)) [
      | inl e ↦
          let none_left : remaining ≡ 0 = ground arith in
          rw (pow_loop, e, none_left, pow-zero factor)
            (sym small ∙ ap (λ n. n % field_modulus) (omega arith))
      | inr e ↦
          let smaller : half ≤ fuel = ground arith in
          elim (Bool-cases (remaining % 2 == 1)) [
            | inl odd ↦
                let whole : remaining ≡ suc (half + half) = ground arith in
                let ih =
                  pow_loop_lem fuel (result * factor % field_modulus) square half smaller
                    (mod-mod (result * factor) field_modulus) in
                rw (pow_loop, e, odd)
                  (ih
                    ∙ odd_step field_modulus result factor half
                    ∙ ap (λ n. (result * factor ^ n) % field_modulus) (sym whole))
            | inr even ↦
                let whole : remaining ≡ half + half = ground arith in
                let ih = pow_loop_lem fuel result square half smaller small in
                rw (pow_loop, e, even)
                  (ih
                    ∙ even_step field_modulus result factor half
                    ∙ ap (λ n. (result * factor ^ n) % field_modulus) (sym whole))
          ]
    ]

one-small : 1 % field_modulus ≡ 1
unfolding field_modulus
one-small = refl

-- The loop of squares computes the power of the base in the field, for every exponent.
pub mod_pow_lem :
    (base : ℤ) (exponent : ℕ) → mod_pow base exponent ≡ (mod_field base ^ exponent) % field_modulus
unfolding mod_pow
mod_pow_lem base exponent =
    pow_loop_lem exponent 1 (mod_field base) exponent (omega arith) one-small
    ∙ ap (λ n. n % field_modulus) (omega arith)
