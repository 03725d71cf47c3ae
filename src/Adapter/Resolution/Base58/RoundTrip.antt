-- ===== src/Adapter/Resolution/Base58/RoundTrip.antt =====
-- `decodePubkey` reads back what `base58Encode` prints.
use dusk_keepers.Prelude.{
  ℕ, ◌+◌, ◌*◌, ◌≤◌, ◌<◌, ◌≡◌, refl, ap, sym, ◌∙◌, subst, false, some, List, [], ◌∷◌, ◌++◌, String,
  length, replicate, ◌==◌, Bool-cases, inl, inr, arith,
}
use mathlib.Core.List.{reverse, reverse-reverse}
use dusk_keepers.Adapter.Bytes.{Bytes, AreBytes, from_le, reverse_aux-AreBytes}
use dusk_keepers.Adapter.Hex.{codes}
use dusk_keepers.Adapter.Pubkeys.{read_digits, strip_ones, decode_pubkey}
use dusk_keepers.Adapter.Resolution.Base58.{
  character_at, push_digits, add_byte, add_bytes, ones_for, digits_text, base58_encode,
}
use dusk_keepers.Adapter.Resolution.Base58.Tight.{IsTight, tight_unique}
use dusk_keepers.Adapter.Resolution.Base58.Digits.{value_of_digits, bytes_value, Hold, encoded-Hold}
use dusk_keepers.Adapter.Resolution.Base58.Reading.{
  from_top, from_top-reverse_aux, reverse_aux-AreDigits, from_le-reverse_aux, reverse_aux-IsTight,
  strip_ones-digits, read_digits-text,
}

-- The text stands for the bytes, whatever their number.
Decodes : Bytes → String → Type 0
Decodes bs text =
    (out : Bytes) × (read_digits (strip_ones (codes text)).1 [] ≡ some out)
    × (replicate (strip_ones (codes text)).0 0 ++ reverse out ≡ bs)

bytes_value-ge : (value : ℕ) (bs : Bytes) → value ≤ bytes_value value bs
unfolding bytes_value
bytes_value-ge value [] = omega arith
bytes_value-ge value (b ∷ bs) = omega (arith, bytes_value-ge (value * 256 + b) bs)

-- The digits of bytes whose first is not zero.
Decodes-digits_text :
    (ds : List ℕ) (b : ℕ) (bs : Bytes)
    → 0 < b
    → AreBytes (b ∷ bs)
    → Hold (bytes_value b bs) ds
    → Decodes (b ∷ bs) (digits_text (reverse ds))
unfolding Decodes from_le IsTight value_of_digits from_top
Decodes-digits_text [] b bs some_left all h =
    absurd (omega (arith, some_left, bytes_value-ge b bs, h.value))
Decodes-digits_text (d ∷ ds) b bs some_left all h =
    let text = codes (digits_text (reverse (d ∷ ds))) in
    let digits = reverse_aux-AreDigits (d ∷ ds) [] h.digits tt in
    let r = read_digits-text (reverse (d ∷ ds)) [] digits tt tt in
    let one_byte : 0 + b ≡ b = omega arith in
    let back = from_le-reverse_aux bs (b ∷ []) ∙ ap (λ n. bytes_value n bs) one_byte in
    let same =
      tight_unique r.out (reverse (b ∷ bs)) r.tight (reverse_aux-IsTight bs b [] some_left) r.bytes
        (reverse_aux-AreBytes (b ∷ bs) [] all tt)
        (r.value_is ∙ from_top-reverse_aux (d ∷ ds) [] ∙ h.value ∙ sym back) in
    let (reads, whole) =
      subst (λ p. (read_digits p.1 [] ≡ some r.out) × (replicate p.0 0 ++ reverse r.out ≡ b ∷ bs))
        (sym (strip_ones-digits d ds [] h.tight h.digits))
        (r.reads, ap reverse same ∙ reverse-reverse (b ∷ bs)) in
    (r.out, reads, whole)

pub plain_text :
    (b : ℕ) (bs : Bytes) (text : String) → (b == 0) ≡ false → ones_for (b ∷ bs) text ≡ text
unfolding ones_for
plain_text b [] text e = refl
plain_text b (c ∷ bs) text e = rw e refl

encoded_plain :
    (b : ℕ) (bs : Bytes)
    → (b == 0) ≡ false
    → AreBytes (b ∷ bs)
    → Decodes (b ∷ bs) (base58_encode (b ∷ bs))
unfolding base58_encode
encoded_plain b bs e all =
    let digits = add_bytes (0 ∷ []) (b ∷ bs) in
    let some_left : 0 < b = ground arith in
    subst (Decodes (b ∷ bs)) (sym (plain_text b bs (digits_text (reverse digits)) e))
      (Decodes-digits_text digits b bs some_left all (encoded-Hold b bs some_left))

one_decoded : Decodes (0 ∷ []) (base58_encode (0 ∷ []))
unfolding Decodes base58_encode ones_for add_bytes add_byte push_digits digits_text character_at
    strip_ones read_digits
one_decoded = ([], refl, refl)

-- A zero in front is a one more in front.
zero_decoded :
    (c : ℕ) (bs : Bytes)
    → Decodes (c ∷ bs) (base58_encode (c ∷ bs))
    → Decodes (0 ∷ c ∷ bs) (base58_encode (0 ∷ c ∷ bs))
unfolding Decodes base58_encode ones_for add_bytes add_byte push_digits strip_ones
zero_decoded c bs (out, reads, whole) = (out, reads, ap (λ l. 0 ∷ l) whole)

-- The print stands for the bytes.
Decodes-base58_encode :
    (b : ℕ) (bs : Bytes) → AreBytes (b ∷ bs) → Decodes (b ∷ bs) (base58_encode (b ∷ bs))
Decodes-base58_encode b [] all = elim (Bool-cases (b == 0)) [
  | inl e ↦
      let is_zero : b ≡ 0 = ground arith in
      subst (λ n. Decodes (n ∷ []) (base58_encode (n ∷ []))) (sym is_zero) one_decoded
  | inr e ↦ encoded_plain b [] e all
]
Decodes-base58_encode b (c ∷ bs) all =
    let rest = Decodes-base58_encode c bs all.1 in
    elim (Bool-cases (b == 0)) [
      | inl e ↦
          let is_zero : b ≡ 0 = ground arith in
          subst (λ n. Decodes (n ∷ c ∷ bs) (base58_encode (n ∷ c ∷ bs))) (sym is_zero)
            (zero_decoded c bs rest)
      | inr e ↦ encoded_plain b (c ∷ bs) e all
    ]

-- A public key of thirty-two bytes is read back from its print.
pub decode_pubkey-base58_encode :
    (bytes : Bytes)
    → length bytes ≡ 32
    → AreBytes bytes
    → decode_pubkey (base58_encode bytes) ≡ some bytes
unfolding decode_pubkey Decodes
decode_pubkey-base58_encode [] full all = absurd (ground (arith, full))
decode_pubkey-base58_encode (b ∷ bs) full all =
    let (out, reads, whole) = Decodes-base58_encode b bs all in rw (reads, whole, full) refl
