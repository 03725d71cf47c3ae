-- ===== src/Adapter/Liquidation/Quote/Layout.antt =====
-- The readers of a quote give back the numbers that stand in its layout.
use dusk_keepers.Prelude.{
  ℕ, ◌+◌, ◌^◌, ◌<◌, ◌≡◌, refl, ap, sym, ◌∙◌, subst, Bool, true, false, [], ◌++◌, length,
  length-append, ltb, ok, arith,
}
use mathlib.Core.List.{append_assoc, append-nil}
use dusk_keepers.Adapter.Bytes.{Bytes, to_le, slice, length-to_le, from_le-to_le, slice-append}
use dusk_keepers.Adapter.Liquidation.Quote.{
  Reader, continue, as_bool, ◌>>=◌, returns, integer, decimal_text, u64, u128, u16, bool,
}

-- A number of so many bytes.
abbrev pub Word : ℕ → Type 0
Word width = (n : ℕ) × (n < 256 ^ width)

-- Wherever the chunk stands, the reader gives the value and goes to the end of the chunk.
pub record Parses {A : Type 0} (r : Reader A) (chunk : Bytes) (value : A) : Type 0 where
  pub runs :
      (before rest : Bytes)
      → r (before ++ (chunk ++ rest)) (length before) ≡ ok (value, length before + length chunk)

module _ {A : Type 0} where
  pub returns-Parses : (value : A) → Parses (returns value) [] value
  unfolding returns
  returns-Parses value = record { runs = λ before rest. ap (λ n. ok (value, n)) (omega arith) }

  pub then_Parses :
      {B : Type 0} {first : Reader A} (next : A → Reader B) {c d : Bytes} {value : A} {w : B}
      → Parses first c value
      → Parses (next value) d w
      → Parses (first >>= next) (c ++ d) w
  unfolding ◌>>=◌
  then_Parses {first} next {c} {d} {value} {w} reads_first reads_next = record {
    runs = λ before rest.
        let whole : before ++ ((c ++ d) ++ rest) ≡ (before ++ c) ++ (d ++ rest) =
          ap (λ l. before ++ l) (append_assoc c d rest) ∙ sym (append_assoc before c (d ++ rest)) in
        let split : before ++ ((c ++ d) ++ rest) ≡ before ++ (c ++ (d ++ rest)) =
          ap (λ l. before ++ l) (append_assoc c d rest) in
        let at : length (before ++ c) ≡ length before + length c = length-append before c in
        let first_read : first (before ++ ((c ++ d) ++ rest)) (length before)
            ≡ ok (value, length before + length c) =
          subst (λ b. first b (length before) ≡ ok (value, length before + length c)) (sym split)
            (reads_first.runs before (d ++ rest)) in
        let next_read = reads_next.runs (before ++ c) rest in
        let next_there : next value (before ++ ((c ++ d) ++ rest)) (length before + length c)
            ≡ ok (w, length (before ++ c) + length d) =
          subst
            (λ n.
              next value (before ++ ((c ++ d) ++ rest)) n ≡ ok (w, length (before ++ c) + length d))
            at
            (subst
              (λ b. next value b (length (before ++ c)) ≡ ok (w, length (before ++ c) + length d))
              (sym whole) next_read) in
        ap (continue (before ++ ((c ++ d) ++ rest)) next) first_read
        ∙ next_there
        ∙ ap (λ n. ok (w, n)) (omega (arith, at, length-append c d));
  }

pub integer-Parses : (width : ℕ) (n : Word width) → Parses (integer width) (to_le width n.0) n.0
unfolding integer
integer-Parses width (n, small) = record {
  runs = λ before rest.
      let b = before ++ (to_le width n ++ rest) in
      let chunk = length-to_le width n in
      let total = length-append before (to_le width n ++ rest) in
      let inner = length-append (to_le width n) rest in
      let within : ltb (length b) (length before + width) ≡ false =
        ground (arith, chunk, total, inner) in
      let part : slice b (length before) width ≡ to_le width n =
        subst (λ w. slice b (length before) w ≡ to_le width n) chunk
          (slice-append before (to_le width n) rest) in
      rw (within, part, from_le-to_le width n small, chunk) refl;
}

-- A number, and what is made of it.
number-Parses :
    {A : Type 0} (width : ℕ) (n : Word width) (make : ℕ → Reader A) {value : A}
    → Parses (make n.0) [] value
    → Parses (integer width >>= make) (to_le width n.0) value
number-Parses width n make {value} makes =
    subst (λ chunk. Parses (integer width >>= make) chunk value) (append-nil (to_le width n.0))
      (then_Parses make (integer-Parses width n) makes)

pub u64-Parses : (n : Word 8) → Parses u64 (to_le 8 n.0) (decimal_text n.0)
unfolding u64
u64-Parses n = number-Parses 8 n (λ k. returns (decimal_text k)) (returns-Parses (decimal_text n.0))

pub u128-Parses : (n : Word 16) → Parses u128 (to_le 16 n.0) (decimal_text n.0)
unfolding u128
u128-Parses n =
    number-Parses 16 n (λ k. returns (decimal_text k)) (returns-Parses (decimal_text n.0))

pub u16-Parses : (n : Word 2) → Parses u16 (to_le 2 n.0) n.0
unfolding u16
u16-Parses n = integer-Parses 2 n

abbrev pub flag_word : Bool → Word 1
flag_word true = (1, omega arith)
flag_word false = (0, omega arith)

pub bool-Parses : (b : Bool) → Parses bool (to_le 1 (flag_word b).0) b
unfolding bool
bool-Parses true = number-Parses 1 (flag_word true) as_bool (returns-Parses true)
bool-Parses false = number-Parses 1 (flag_word false) as_bool (returns-Parses false)
