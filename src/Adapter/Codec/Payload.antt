-- ===== src/Adapter/Codec/Payload.antt =====
-- A reader for the payloads of codec.ts, by the Borsh layout of each instruction, and the proof that
-- it gives back the arguments that were encoded.
use dusk_keepers.Prelude.{
  ℕ, ◌^◌, ◌≤◌, ◌<◌, ◌≡◌, refl, subst, true, Option, none, some, List, [], ◌∷◌, ◌++◌, length,
  length-append, take, drop, leb, if◌then◌else◌, ok, arith,
}
use mathlib.Core.List.{append_assoc}
use dusk_keepers.Prelude.Int.{pos, pos_part}
use dusk_keepers.Adapter.Values.{Number, integer, no_integer}
use dusk_keepers.Adapter.Bytes.{
  Bytes, to_le, from_le, length-to_le, from_le-to_le, take-length-append, drop-length-append,
}
use dusk_keepers.Adapter.Codec.{Write, raw, u8, u16, u64, bytes, perform, unsigned}

-- How a field lies in the payload.
pub data Shape : Type 0 where
  word : (width : ℕ) → Shape
  key32 : Shape
  vector : Shape

pub data Value : Type 0 where
  number : ℕ → Value
  block : Bytes → Value

abbrev pub shape_of : Write → Shape
shape_of (raw v) = key32
shape_of (u8 v) = word 1
shape_of (u16 v) = word 2
shape_of (u64 v) = word 8
shape_of (bytes v) = vector

-- The natural number that a `number` holds if it is one.
abbrev pub natural : Number → ℕ
natural (integer n) = pos_part n
natural no_integer = 0

abbrev pub value_of : Write → Value
value_of (raw v) = block v
value_of (u8 v) = number (natural v)
value_of (u16 v) = number (natural v)
value_of (u64 v) = number (pos_part v)
value_of (bytes v) = block v

-- The first `size` bytes and what follows them.
pub split_at : ℕ → Bytes → Option (Bytes × Bytes)
split_at size input =
    if leb size (length input) then some (take size input, drop size input) else none

abbrev as_number : Option (Bytes × Bytes) → Option (Value × Bytes)
as_number none = none
as_number (some (front, rest)) = some (number (from_le front), rest)

abbrev as_block : Option (Bytes × Bytes) → Option (Value × Bytes)
as_block none = none
as_block (some (front, rest)) = some (block front, rest)

abbrev as_vector : Option (Bytes × Bytes) → Option (Value × Bytes)
as_vector none = none
as_vector (some (front, rest)) = as_block (split_at (from_le front) rest)

pub read_value : Shape → Bytes → Option (Value × Bytes)
read_value (word width) input = as_number (split_at width input)
read_value key32 input = as_block (split_at 32 input)
read_value vector input = as_vector (split_at 4 input)

abbrev cons_value : Value → Option (List Value × Bytes) → Option (List Value × Bytes)
cons_value v none = none
cons_value v (some (vs, rest)) = some (v ∷ vs, rest)

abbrev then_read :
    Option (Value × Bytes) → (Bytes → Option (List Value × Bytes)) → Option (List Value × Bytes)
then_read none next = none
then_read (some (v, rest)) next = cons_value v (next rest)

unfoldable pub read_values : List Shape → Bytes → Option (List Value × Bytes)
read_values [] input = some ([], input)
read_values (s ∷ ss) input = then_read (read_value s input) λ rest. read_values ss rest

pub read_values-cons :
    (s : Shape) (ss : List Shape) (input mid rest : Bytes) {v : Value} {vs : List Value}
    → read_value s input ≡ some (v, mid)
    → read_values ss mid ≡ some (vs, rest)
    → read_values (s ∷ ss) input ≡ some (v ∷ vs, rest)
unfolding read_values
read_values-cons s ss input mid rest first behind = rw (first, behind) refl

split_at-append :
    (size : ℕ) (front rest : Bytes)
    → length front ≡ size
    → split_at size (front ++ rest) ≡ some (front, rest)
unfolding split_at
split_at-append size front rest e =
    let whole : leb (length front) (length (front ++ rest)) ≡ true =
      ground (arith, length-append front rest) in
    subst (λ n. split_at n (front ++ rest) ≡ some (front, rest)) e
      (rw (whole, take-length-append front rest, drop-length-append front rest))

-- What the writer accepts: a field's value stands for the argument it came from.
abbrev pub Faithful : Write → Type 0
Faithful (raw v) = Unit {0}
Faithful (u8 v) = integer (pos (natural v)) ≡ v
Faithful (u16 v) = integer (pos (natural v)) ≡ v
Faithful (u64 v) = pos (pos_part v) ≡ v
Faithful (bytes v) = Unit {0}

pub perform-Faithful : (w : Write) (chunk : Bytes) → perform w ≡ ok chunk → Faithful w
unfolding perform
perform-Faithful (raw v) chunk h = tt
perform-Faithful (u8 v) chunk h = ground arith
perform-Faithful (u16 v) chunk h = ground arith
perform-Faithful (u64 v) chunk h = ground arith
perform-Faithful (bytes v) chunk h = tt

read_word :
    (width n : ℕ) (rest : Bytes)
    → n < 256 ^ width
    → read_value (word width) (to_le width n ++ rest) ≡ some (number n, rest)
unfolding read_value
read_word width n rest fits =
    rw (
      split_at-append width (to_le width n) rest (length-to_le width n),
      from_le-to_le width n fits,
    )

-- The bytes of a number that the writer accepts.
unsigned-eq-ok :
    (v : Number) (maximum width : ℕ) (chunk : Bytes)
    → unsigned v maximum width ≡ ok chunk
    → (to_le width (natural v) ≡ chunk) × (natural v ≤ maximum)
unfolding unsigned
unsigned-eq-ok v maximum width chunk h = ground arith

-- Each field is read back from the chunk that was written for it, whatever follows.
pub read_value-perform :
    (w : Write) (chunk rest : Bytes)
    → perform w ≡ ok chunk
    → read_value (shape_of w) (chunk ++ rest) ≡ some (value_of w, rest)
unfolding perform
read_value-perform (raw v) chunk rest h =
    let e : v ≡ chunk = ground arith in
    let full : length v ≡ 32 = ground arith in
    rw (← e) (unfold read_value in rw (split_at-append 32 v rest full))
read_value-perform (u8 v) chunk rest h =
    let (e, fits) = unsigned-eq-ok v 0xff 1 chunk h in
    rw (← e) (read_word 1 (natural v) rest (omega (arith, fits)))
read_value-perform (u16 v) chunk rest h =
    let (e, fits) = unsigned-eq-ok v 0xffff 2 chunk h in
    rw (← e) (read_word 2 (natural v) rest (omega (arith, fits)))
read_value-perform (u64 v) chunk rest h =
    let e : to_le 8 (pos_part v) ≡ chunk = ground arith in
    rw (← e) (read_word 8 (pos_part v) rest (ground arith))
read_value-perform (bytes v) chunk rest h =
    let e : to_le 4 (length v) ++ v ≡ chunk = ground arith in
    let fits : length v < 256 ^ 4 = ground arith in
    rw (← e, append_assoc (to_le 4 (length v)) v rest)
      (unfold read_value in
        rw (
          split_at-append 4 (to_le 4 (length v)) (v ++ rest) (length-to_le 4 (length v)),
          from_le-to_le 4 (length v) fits,
          split_at-append (length v) v rest refl,
        ))
