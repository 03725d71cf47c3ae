-- ===== src/Adapter/Hex.antt =====
-- Texts that hold bytes as pairs of lowercase hexadecimal digits, and decimal texts (exactHex and
-- decimalU64 of codec.ts). A text is walked by its code points.
use Prim.Native.Char.{code}
use dusk_keepers.Prelude.{
  ℕ, ◌+◌, ◌-◌, ◌*◌, ◌/◌, ◌%◌, ◌<◌, ◌≡◌, refl, ap, sym, ◌∙◌, subst, Bool, ◌&&◌, Option, none, some,
  List, [], ◌∷◌, String, arith, length, leb, if◌then◌else◌,
}
use dusk_keepers.Adapter.Bytes.{Bytes, AreBytes}

-- The code points of a text.
abbrev pub codes : String → List ℕ
codes String.[] = []
codes (String.◌∷◌ c s) = code c ∷ codes s

-- `[0-9]`
abbrev pub is_digit : ℕ → Bool
is_digit c = leb b'0' c && leb c b'9'

-- `[0-9a-f]`, with the value that Buffer.from(…, "hex") gives the digit
unfoldable pub hex_value : ℕ → Option ℕ
hex_value c =
    if is_digit c
    then some (c - b'0')
    else if leb b'a' c && leb c b'f'
    then some (c - b'a' + 10)
    else none

abbrev pub hex_pair : Option ℕ → Option ℕ → Option Bytes → Option Bytes
hex_pair (some high) (some low) (some rest) = some ((high * 16 + low) ∷ rest)
hex_pair (some high) (some low) none = none
hex_pair (some high) none rest = none
hex_pair none low rest = none

-- The bytes of a text that matches `^(?:[0-9a-f]{2})*$`, `none` for any other.
unfoldable pub hex_bytes : List ℕ → Option Bytes
hex_bytes [] = some []
hex_bytes (c ∷ []) = none
hex_bytes (c ∷ d ∷ s) = hex_pair (hex_value c) (hex_value d) (hex_bytes s)

abbrev hex_digit : ℕ → ℕ
hex_digit n = if leb n 9 then b'0' + n else b'a' + n - 10

-- The lowercase print of bytes, `buffer.toString("hex")`.
pub hex_text : Bytes → List ℕ
hex_text [] = []
hex_text (b ∷ bs) = hex_digit (b / 16) ∷ hex_digit (b % 16) ∷ hex_text bs

hex_value-digit : (n : ℕ) → n < 16 → hex_value (hex_digit n) ≡ some n
unfolding hex_value
hex_value-digit n h = ground arith

-- Every buffer of bytes is read back from its print.
pub hex_bytes-hex_text : (bs : Bytes) → AreBytes bs → hex_bytes (hex_text bs) ≡ some bs
unfolding hex_bytes hex_text
hex_bytes-hex_text [] all = refl
hex_bytes-hex_text (b ∷ bs) all =
    let whole : b / 16 * 16 + b % 16 ≡ b = omega arith in
    rw (
      hex_value-digit (b / 16) (omega (arith, all.0)),
      hex_value-digit (b % 16) (omega arith),
      hex_bytes-hex_text bs all.1,
      whole,
    )

hex_value-lt : (c : ℕ) {n : ℕ} → hex_value c ≡ some n → n < 16
unfolding hex_value
hex_value-lt c h = ground arith

hex_digit-value : (c : ℕ) {n : ℕ} → hex_value c ≡ some n → hex_digit n ≡ c
unfolding hex_value
hex_digit-value c h = ground arith

pub hex_pair-eq-some :
    (high low : Option ℕ) (rest : Option Bytes) {bs : Bytes}
    → hex_pair high low rest ≡ some bs
    → (h l : ℕ) × (r : Bytes) × (high ≡ some h)
      × (low ≡ some l)
      × (rest ≡ some r)
      × (bs ≡ (h * 16 + l) ∷ r)
hex_pair-eq-some (some h) (some l) (some r) e = (h, l, r, refl, refl, refl, cc)
hex_pair-eq-some (some h) (some l) none e = cc
hex_pair-eq-some (some h) none rest e = cc
hex_pair-eq-some none low rest e = cc

-- A text that is accepted is the print of what it gives, and that is bytes.
pub hex_text-hex_bytes :
    (s : List ℕ) (bs : Bytes) → hex_bytes s ≡ some bs → (hex_text bs ≡ s) × AreBytes bs
unfolding hex_bytes hex_text
hex_text-hex_bytes [] bs h =
    let e : [] ≡ bs = cc in subst (λ l. (hex_text l ≡ []) × AreBytes l) e (refl, tt)
hex_text-hex_bytes (c ∷ []) bs h = cc
hex_text-hex_bytes (c ∷ d ∷ s) bs h =
    let (hi, lo, r, at_c, at_d, behind, whole) =
      hex_pair-eq-some (hex_value c) (hex_value d) (hex_bytes s) h in
    let (text, bytes) = hex_text-hex_bytes s r behind in
    let hi_fits = hex_value-lt c at_c in
    let lo_fits = hex_value-lt d at_d in
    let high : (hi * 16 + lo) / 16 ≡ hi = omega (arith, hi_fits, lo_fits) in
    let low : (hi * 16 + lo) % 16 ≡ lo = omega (arith, hi_fits, lo_fits) in
    rw (whole, high, low, hex_digit-value c at_c, hex_digit-value d at_d, text)
      (refl, (omega (arith, hi_fits, lo_fits), bytes))

length-hex_text : (bs : Bytes) → length (hex_text bs) ≡ length bs * 2
unfolding hex_text
length-hex_text [] = refl
length-hex_text (b ∷ bs) = omega (arith, length-hex_text bs)

pub length-hex_bytes : (s : List ℕ) (bs : Bytes) → hex_bytes s ≡ some bs → length s ≡ length bs * 2
length-hex_bytes s bs h =
    let (text, all) = hex_text-hex_bytes s bs h in ap length (sym text) ∙ length-hex_text bs
