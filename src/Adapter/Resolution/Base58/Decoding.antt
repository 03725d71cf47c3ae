-- ===== src/Adapter/Resolution/Base58/Decoding.antt =====
-- What `decodePubkey` accepts, and which bytes it gives (resolution.ts).
use dusk_keepers.Prelude.{
  ℕ, zero, suc, ◌+◌, ◌*◌, ◌≡◌, ◌↔◌, refl, ap, sym, ◌∙◌, subst, some, List, [], ◌∷◌, ◌++◌, String,
  length, replicate, ◌==◌, Bool-cases, Option-cases, inl, inr, if◌then◌else◌, arith,
}
use mathlib.Core.List.{reverse, reverse_aux, reverse-append, reverse-reverse}
use dusk_keepers.Adapter.Bytes.{Bytes, AreBytes, from_le, reverse_aux-AreBytes}
use dusk_keepers.Adapter.Hex.{codes}
use dusk_keepers.Adapter.Pubkeys.{
  base58_alphabet, index_of, add_digit, read_digits, strip_ones, decode_pubkey,
}
use dusk_keepers.Adapter.Pubkeys.Value.{
  base58_value, add_digit_lem, padded-eq-some, strip_ones_lem, from_le-append_zeros, reversed_zeros,
  decode_pubkey-value,
}
use dusk_keepers.Adapter.Resolution.Base58.Tight.{IsTight, tight_unique, add_digit-IsTight}
use dusk_keepers.Adapter.Resolution.Base58.Reading.{reverse_aux-IsTight}

-- How many times the list starts with the element.
unfoldable pub leading : ℕ → List ℕ → ℕ
leading x [] = 0
leading x (y ∷ ys) = let rest = leading x ys in if y == x then suc rest else 0

read_digits-IsTight :
    (s : List ℕ) (bs out : Bytes) → IsTight bs → read_digits s bs ≡ some out → IsTight out
unfolding read_digits
read_digits-IsTight [] bs out tight h = let e : bs ≡ out = cc in subst IsTight e tight
read_digits-IsTight (c ∷ s) bs out tight h = elim (Option-cases (index_of c base58_alphabet)) [
  | inl e ↦ absurd (ground (arith, e))
  | inr (d, e) ↦
      read_digits-IsTight s (add_digit bs d) out (add_digit-IsTight bs d tight) (ground (arith, e))
]

-- A text that stands for a number is read.
record ReadTight (s : List ℕ) (bs : Bytes) (n : ℕ) : Type 0 where
  out : Bytes
  read : read_digits s bs ≡ some out
  value : from_le out ≡ n
  each_fits : AreBytes out
  tight : IsTight out

base58_value-ReadTight :
    (s : List ℕ) (bs : Bytes) (n : ℕ)
    → AreBytes bs
    → IsTight bs
    → base58_value (from_le bs) s ≡ some n
    → ReadTight s bs n
unfolding read_digits base58_value
base58_value-ReadTight [] bs n all tight h = record {
  out = bs;
  read = refl;
  value = cc;
  each_fits = all;
  tight = tight;
}
base58_value-ReadTight (c ∷ s) bs n all tight h = elim (Option-cases (index_of c base58_alphabet)) [
  | inl e ↦ absurd (ground (arith, e))
  | inr (d, e) ↦
      let (value, next_bytes) = add_digit_lem bs d in
      let behind : base58_value (from_le bs * 58 + d) s ≡ some n = ground (arith, e) in
      let rest =
        base58_value-ReadTight s (add_digit bs d) n next_bytes (add_digit-IsTight bs d tight)
          (subst (λ k. base58_value k s ≡ some n) (sym value) behind) in
      record {
        out = rest.out;
        read = rw (read_digits, e) rest.read;
        value = rest.value;
        each_fits = rest.each_fits;
        tight = rest.tight;
      }
]

leading-strip_ones : (s : List ℕ) → (strip_ones s).0 ≡ leading b'1' s
unfolding strip_ones leading
leading-strip_ones [] = refl
leading-strip_ones (c ∷ s) = elim (Bool-cases (c == b'1')) [
  | inl e ↦ rw e (ap suc (leading-strip_ones s))
  | inr e ↦ rw e refl
]

leading-zeros : (n : ℕ) (bs : Bytes) → leading 0 bs ≡ 0 → leading 0 (replicate n 0 ++ bs) ≡ n
unfolding leading
leading-zeros zero bs h = h
leading-zeros (suc n) bs h = ap suc (leading-zeros n bs h)

leading-reverse_aux :
    (b : ℕ) (bs tail : Bytes) → IsTight (b ∷ bs) → leading 0 (reverse_aux (b ∷ bs) tail) ≡ 0
unfolding leading IsTight
leading-reverse_aux b [] tail t = ground (arith, t)
leading-reverse_aux b (c ∷ bs) tail t = leading-reverse_aux c bs (b ∷ tail) t

leading-reverse : (bs : Bytes) → IsTight bs → leading 0 (reverse bs) ≡ 0
unfolding leading
leading-reverse [] t = refl
leading-reverse (b ∷ bs) t = leading-reverse_aux b bs [] t

-- The zeros in front of bytes, and what is behind them.
record Split (bs : Bytes) : Type 0 where
  rest : Bytes
  whole : replicate (leading 0 bs) 0 ++ rest ≡ bs
  tight : IsTight (reverse rest)
  each_fits : AreBytes rest

zeros-Split : (bs : Bytes) → AreBytes bs → Split bs
unfolding leading IsTight
zeros-Split [] all = record { rest = []; whole = refl; tight = tt; each_fits = tt }
zeros-Split (b ∷ bs) all = elim (Bool-cases (b == 0)) [
  | inl e ↦
      let r = zeros-Split bs all.1 in
      let none_left : 0 ≡ b = ground arith in
      record {
        rest = r.rest;
        whole = rw (leading, e) (λ i. none_left i ∷ r.whole i);
        tight = r.tight;
        each_fits = r.each_fits;
      }
  | inr e ↦ record {
    rest = b ∷ bs;
    whole = rw (leading, e) refl;
    tight = reverse_aux-IsTight bs b [] (ground (arith, e));
    each_fits = all;
  }
]

-- The number of bytes does not change when zeros lead them.
from_le-zeros :
    (n : ℕ) (bs : Bytes) → from_le (reverse (replicate n 0 ++ bs)) ≡ from_le (reverse bs)
unfolding from_le
from_le-zeros n bs =
    ap from_le (reverse-append (replicate n 0) bs)
    ∙ from_le-append_zeros (reverse bs) (reverse (replicate n 0)) (reversed_zeros n [] refl)

-- The bytes that a text stands for: thirty-two numbers below 256, which hold, greatest byte first,
-- the number of the text in base 58, with as many zeros in front as the text has ones.
pub IsPubkey : String → Bytes → Type 0
IsPubkey value out =
    (length out ≡ 32)
    × AreBytes out
    × (base58_value 0 (codes value) ≡ some (from_le (reverse out)))
    × (leading 0 out ≡ leading b'1' (codes value))

decode_pubkey-IsPubkey :
    (value : String) (out : Bytes) → decode_pubkey value ≡ some out → IsPubkey value out
unfolding decode_pubkey IsPubkey IsTight
decode_pubkey-IsPubkey value out h =
    let (sized, each_fits, number) = decode_pubkey-value value out h in
    let parts = strip_ones (codes value) in
    let (bytes, read, same, full) = padded-eq-some parts.0 (read_digits parts.1 []) out h in
    let tight = read_digits-IsTight parts.1 [] bytes tt read in
    (
      sized,
      each_fits,
      number,
      ap (leading 0) (sym same)
          ∙ leading-zeros parts.0 (reverse bytes) (leading-reverse bytes tight)
          ∙ leading-strip_ones (codes value),
    )

IsPubkey-decode_pubkey :
    (value : String) (out : Bytes) → IsPubkey value out → decode_pubkey value ≡ some out
unfolding decode_pubkey IsPubkey from_le IsTight
IsPubkey-decode_pubkey value out (sized, each_fits, number, zeros) =
    let parts = strip_ones (codes value) in
    let stripped = sym (strip_ones_lem (codes value)) ∙ number in
    let r = base58_value-ReadTight parts.1 [] (from_le (reverse out)) tt tt stripped in
    let s = zeros-Split out each_fits in
    let behind : from_le r.out ≡ from_le (reverse s.rest) =
      r.value
      ∙ ap (λ l. from_le (reverse l)) (sym s.whole)
      ∙ from_le-zeros (leading 0 out) s.rest in
    let same =
      tight_unique r.out (reverse s.rest) r.tight s.tight r.each_fits
        (reverse_aux-AreBytes s.rest [] s.each_fits tt) behind in
    let ones : parts.0 ≡ leading 0 out = leading-strip_ones (codes value) ∙ sym zeros in
    let whole : replicate parts.0 0 ++ reverse r.out ≡ out =
      ap (λ n. replicate n 0 ++ reverse r.out) ones
      ∙ ap (λ l. replicate (leading 0 out) 0 ++ l) (ap reverse same ∙ reverse-reverse s.rest)
      ∙ s.whole in
    rw (r.read, whole, sized) refl

-- A text is decoded exactly to the bytes that it stands for: thirty-two numbers below 256, which
-- hold, greatest byte first, the number of the text in base 58, with as many zeros in front as the
-- text has ones. A text that stands for no such bytes is refused.
pub decode_pubkey_iff :
    (value : String) (out : Bytes) → (decode_pubkey value ≡ some out) ↔ IsPubkey value out
decode_pubkey_iff value out = (decode_pubkey-IsPubkey value out, IsPubkey-decode_pubkey value out)
