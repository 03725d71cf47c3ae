-- ===== src/Adapter/Liquidation/Quote/Decimal.antt =====
-- The decimal text of an amount is read back by the codec.
use Prim.Native.Char.{code}
use dusk_keepers.Prelude.{
  ℕ, zero, suc, ◌+◌, ◌-◌, ◌*◌, ◌/◌, ◌%◌, ◌≤◌, ◌<◌, ◌≡◌, refl, ap, sym, ◌∙◌, subst, true, false,
  some, List, [], ◌∷◌, String, ◌==◌, Bool-cases, ◌⊎◌, inl, inr, arith, ltb, ltb→lt, ok, err,
}
use dusk_keepers.Adapter.Hex.{codes, is_digit}
use dusk_keepers.Prelude.Int.{pos}
use dusk_keepers.Adapter.Values.{max_u64}
use dusk_keepers.Adapter.Codec.{invalid_arguments}
use dusk_keepers.Adapter.Codec.Parsing.Readers.{digits_value, decimal, text, decimal_u64}
use dusk_keepers.Adapter.Resolution.Base58.{character_at}
use dusk_keepers.Adapter.Liquidation.Quote.{print_decimal, decimal_text}

-- The character of a digit.
digit_code : (d : ℕ) → d < 10 → code (character_at "0123456789" d) ≡ b'0' + d
unfolding character_at
digit_code zero h = refl
digit_code (suc zero) h = refl
digit_code (suc (suc zero)) h = refl
digit_code (suc (suc (suc zero))) h = refl
digit_code (suc (suc (suc (suc zero)))) h = refl
digit_code (suc (suc (suc (suc (suc zero))))) h = refl
digit_code (suc (suc (suc (suc (suc (suc zero)))))) h = refl
digit_code (suc (suc (suc (suc (suc (suc (suc zero))))))) h = refl
digit_code (suc (suc (suc (suc (suc (suc (suc (suc zero)))))))) h = refl
digit_code (suc (suc (suc (suc (suc (suc (suc (suc (suc zero))))))))) h = refl
digit_code (suc (suc (suc (suc (suc (suc (suc (suc (suc (suc d)))))))))) h =
    absurd (omega (arith, h))

step :
    (d n : ℕ) (s : List ℕ) → d < 10 → digits_value ((b'0' + d) ∷ s) n ≡ digits_value s (n * 10 + d)
step d n s h =
    let is : is_digit (b'0' + d) ≡ true = ground (arith, h) in
    let same : n * 10 + (b'0' + d - b'0') ≡ n * 10 + d = omega arith in
    rw is (ap (digits_value s) same)

print_none : (fuel : ℕ) (out : String) → print_decimal fuel 0 out ≡ out
unfolding print_decimal
print_none zero out = refl
print_none (suc fuel) out = refl

-- The text is a digit that is not zero, and the rest, which is read to the number.
record Prints (n : ℕ) (out text : String) : Type 0 where
  first : ℕ
  rest : String
  shape : codes text ≡ first ∷ codes rest
  not_zero : (first == b'0') ≡ false
  value : digits_value (codes text) 0 ≡ digits_value (codes out) n

print_decimal-Prints :
    (fuel n : ℕ) (out : String) → 0 < n → n ≤ fuel → Prints n out (print_decimal fuel n out)
unfolding print_decimal
print_decimal-Prints zero n out some_left enough = absurd (omega (arith, some_left, enough))
print_decimal-Prints (suc fuel) n out some_left enough =
    let more : (n == 0) ≡ false = ground (arith, some_left) in
    let d = n % 10 in
    let below : d < 10 = omega arith in
    let c = character_at "0123456789" d in
    let whole : n / 10 * 10 + d ≡ n = omega arith in
    let smaller : n / 10 ≤ fuel = omega (arith, some_left, enough) in
    elim (Bool-cases (n / 10 == 0)) [
      | inl e ↦
          let last : n / 10 ≡ 0 = ground arith in
          let is_digit_code = digit_code d below in
          let is_n : 0 * 10 + d ≡ n = omega (arith, last, whole) in
          rw (print_decimal, more, last, print_none fuel (String.◌∷◌ c out))
            (record {
              first = code c;
              rest = out;
              shape = refl;
              not_zero = rw is_digit_code (ground (arith, last, whole, some_left));
              value =
                  ap (λ k. digits_value (k ∷ codes out) 0) is_digit_code
                  ∙ step d 0 (codes out) below
                  ∙ ap (digits_value (codes out)) is_n;
            })
      | inr e ↦
          let r =
            print_decimal-Prints fuel (n / 10) (String.◌∷◌ c out) (ground (arith, e)) smaller in
          rw (print_decimal, more)
            (record {
              first = r.first;
              rest = r.rest;
              shape = r.shape;
              not_zero = r.not_zero;
              value =
                  r.value
                  ∙ ap (λ k. digits_value (k ∷ codes out) (n / 10)) (digit_code d below)
                  ∙ step d (n / 10) (codes out) below
                  ∙ ap (digits_value (codes out)) whole;
            })
    ]

decimal-shape :
    (s : List ℕ) (first : ℕ) (rest : List ℕ)
    → s ≡ first ∷ rest
    → (first == b'0') ≡ false
    → decimal s ≡ digits_value s 0
unfolding decimal
decimal-shape [] first rest e n = cc
decimal-shape (c ∷ []) first rest e n = refl
decimal-shape (c ∷ d ∷ s) first rest e n =
    let same : c ≡ first = cc in
    let other : (c == b'0') ≡ false = subst (λ k. (k == b'0') ≡ false) (sym same) n in rw other refl

zero_read : decimal (codes "0") ≡ some 0
unfolding decimal
zero_read = refl

decimal-decimal_text : (n : ℕ) → decimal (codes (decimal_text n)) ≡ some n
unfolding decimal_text
decimal-decimal_text n = elim (Bool-cases (n == 0)) [
  | inl e ↦ let none_left : n ≡ 0 = ground arith in rw (e, none_left) zero_read
  | inr e ↦
      let r = print_decimal-Prints n n "" (ground (arith, e)) (omega arith) in
      rw e (
        decimal-shape (codes (print_decimal n n "")) r.first (codes r.rest) r.shape r.not_zero
        ∙ r.value)
]

-- The decimal text that a quote shows of an amount is read back as that number by the codec's reader
-- of u64 arguments, when the amount fits 64 bits, and refused by it when it is larger.
pub decimal_u64-decimal_text :
    (n : ℕ)
    → ((n ≤ max_u64) × (decimal_u64 (text (decimal_text n)) ≡ ok (pos n)))
      ⊎ ((max_u64 < n) × (decimal_u64 (text (decimal_text n)) ≡ err invalid_arguments))
unfolding decimal_u64
decimal_u64-decimal_text n = elim (Bool-cases (ltb max_u64 n)) [
  | inl e ↦ inr (ltb→lt max_u64 n e, rw (decimal-decimal_text n, e) refl)
  | inr e ↦ inl (ground arith, rw (decimal-decimal_text n, e) refl)
]
