-- ===== src/Adapter/Codec/Parsing/Ranges.antt =====
-- What `parseKeeperInstructionArguments` returns is in the ranges of its fields, so that the encoder
-- can refuse it for the contract alone.
use dusk_keepers.Prelude.{
  present, ℕ, ◌^◌, ◌≡◌, ◌≤◌, ◌<◌, subst, List, [], ◌∷◌, length, ok, ◌>>=◌, ◌>>◌, refuse, arith, ltb,
  >>=-eq-ok,
}
use dusk_keepers.Prelude.Int.{ℤ, pos, negsuc}
use dusk_keepers.Adapter.Values.{Number, integer, no_integer, max_u64}
use dusk_keepers.Adapter.Bytes.{Bytes}
use dusk_keepers.Adapter.Hex.{codes}
use dusk_keepers.Adapter.Codec.{
  invalid_arguments, InstructionKey, KeeperInstructionArguments, writes, key_of, Write, raw, u8,
  u16, u64, bytes,
}
use dusk_keepers.Adapter.Codec.Encoding.Range.{AllInRange}
use dusk_keepers.Adapter.Codec.Parsing.Readers.{
  FieldValue, boolean, number, text, another, Read, Read, Read, decimal, decimal_u64,
  unsigned_number, pubkey_value,
}

unsigned_number-range :
    (v : FieldValue) (maximum : ℕ) {d : Number}
    → unsigned_number v maximum ≡ ok d
    → (n : ℕ) × (d ≡ integer (pos n)) × (n ≤ maximum)
unfolding unsigned_number
unsigned_number-range (number (integer (pos n))) maximum h = (n, ground arith, ground arith)
unsigned_number-range (number (integer (negsuc n))) maximum h = cc
unsigned_number-range (number no_integer) maximum h = cc
unsigned_number-range (boolean b) maximum h = cc
unsigned_number-range (text s) maximum h = cc
unsigned_number-range another maximum h = cc

decimal_u64-range :
    (v : FieldValue) {z : ℤ} → decimal_u64 v ≡ ok z → (n : ℕ) × (z ≡ pos n) × (n < 2 ^ 64)
unfolding decimal_u64
decimal_u64-range (text s) h =
    let (parsed, e, h1) =
      >>=-eq-ok (present (decimal (codes s)) invalid_arguments)
        (λ parsed. refuse (ltb max_u64 parsed) invalid_arguments >> ok (pos parsed)) h in
    (parsed, ground arith, ground arith)
decimal_u64-range (number m) h = cc
decimal_u64-range (boolean b) h = cc
decimal_u64-range another h = cc

pubkey_value-length : (v : FieldValue) {bs : Bytes} → pubkey_value v ≡ ok bs → length bs ≡ 32
unfolding pubkey_value
pubkey_value-length (text s) h = ground arith
pubkey_value-length (number m) h = cc
pubkey_value-length (boolean b) h = cc
pubkey_value-length another h = cc

-- The byte vectors of a request are no longer than Borsh can say.
unfoldable pub VectorsFit : List Write → Type 0
VectorsFit [] = Unit {0}
VectorsFit (bytes v ∷ ws) = (length v < 2 ^ 32) × VectorsFit ws
VectorsFit (raw v ∷ ws) = VectorsFit ws
VectorsFit (u8 v ∷ ws) = VectorsFit ws
VectorsFit (u16 v ∷ ws) = VectorsFit ws
VectorsFit (u64 v ∷ ws) = VectorsFit ws

unfoldable pub IsRead : InstructionKey → KeeperInstructionArguments → Type 0
IsRead k a = (key_of a ≡ k) × (VectorsFit (writes a) → AllInRange (writes a))

module _ (k : InstructionKey) where
  -- Whatever is read is for the key and in range.
  abbrev pub Reads : Read KeeperInstructionArguments → Type 0
  Reads r = (a : KeeperInstructionArguments) → r ≡ ok a → IsRead k a

  pub then_any :
      {A : Type 0} (r : Read A) (next : A → Read KeeperInstructionArguments)
      → ((x : A) → Reads (next x))
      → Reads (r >>= next)
  then_any r next keep a h = let (x, e, rest) = >>=-eq-ok r next h in keep x a rest

  pub then_number :
      (v : FieldValue) (maximum : ℕ) (next : Number → Read KeeperInstructionArguments)
      → ((n : ℕ) → n ≤ maximum → Reads (next (integer (pos n))))
      → Reads (unsigned_number v maximum >>= next)
  then_number v maximum next keep a h =
      let (x, e, rest) = >>=-eq-ok (unsigned_number v maximum) next h in
      let (n, same, fits) = unsigned_number-range v maximum e in
      keep n fits a (subst (λ y. next y ≡ ok a) same rest)

  pub then_u64 :
      (v : FieldValue) (next : ℤ → Read KeeperInstructionArguments)
      → ((n : ℕ) → n < 2 ^ 64 → Reads (next (pos n)))
      → Reads (decimal_u64 v >>= next)
  then_u64 v next keep a h =
      let (x, e, rest) = >>=-eq-ok (decimal_u64 v) next h in
      let (n, same, fits) = decimal_u64-range v e in
      keep n fits a (subst (λ y. next y ≡ ok a) same rest)

  pub then_pubkey :
      (v : FieldValue) (next : Bytes → Read KeeperInstructionArguments)
      → ((x : Bytes) → length x ≡ 32 → Reads (next x))
      → Reads (pubkey_value v >>= next)
  then_pubkey v next keep a h =
      let (x, e, rest) = >>=-eq-ok (pubkey_value v) next h in
      keep x (pubkey_value-length v e) a rest

  pub then_done : (a : KeeperInstructionArguments) → IsRead k a → Reads (ok a)
  then_done a good b h = let e : a ≡ b = cc in subst (IsRead k) e good
