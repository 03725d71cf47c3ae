-- ===== src/Adapter/TransferFees/RoundTrip.antt =====
-- The extension loop of decodeMintFees reads back the fee config of every well-formed account.
use dusk_keepers.Prelude.{
  get_elem?, subst, ℕ, zero, suc, ◌+◌, ◌<◌, ◌≡◌, ◌≢◌, refl, ap, sym, inl, inr, ◌∙◌, true, false,
  Option, none, List, [], ◌∷◌, ◌++◌, length, length-append, drop, replicate, ◌==◌, ok, arith,
  Bool-cases,
}
use mathlib.Core.List.{append_assoc}
use dusk_keepers.Adapter.Bytes.{Bytes, to_le, all_zero, drop-length-append}
use dusk_keepers.Adapter.TransferFees.{FeeSchedule, token_2022_program}
use dusk_keepers.Adapter.TransferFees.Decoding.{
  read_extension, read_extensions, differs_at, decode_mint_fees, invalid_mint,
  invalid_extended_mint,
}
use dusk_keepers.Adapter.TransferFees.Layout.{
  Extension, other, config, extension_bytes, extensions_bytes,
}
use dusk_keepers.Adapter.TransferFees.Extensions.{
  found_with, schedule_of, WellFormed, length-extension_bytes, read_extension-bytes,
}

all_zero-append :
    (xs ys : Bytes) → all_zero (xs ++ ys) ≡ true → (all_zero xs ≡ true) × (all_zero ys ≡ true)
unfolding all_zero
all_zero-append [] ys h = (refl, h)
all_zero-append (x ∷ xs) ys h = ground (arith, all_zero-append xs ys)

all_zero-replicate : (n : ℕ) → all_zero (replicate n 0) ≡ true
unfolding all_zero
all_zero-replicate zero = refl
all_zero-replicate (suc n) = all_zero-replicate n

-- The loop stops early only on bytes that carry no config.
all_zero-schedule_of :
    (es : List Extension) (found : Option FeeSchedule)
    → all_zero (extensions_bytes es) ≡ true
    → schedule_of found es ≡ found
unfolding extensions_bytes all_zero to_le
all_zero-schedule_of [] found h = refl
all_zero-schedule_of (other kind body ∷ es) found h =
    all_zero-schedule_of es found
      (all_zero-append (extension_bytes (other kind body)) (extensions_bytes es) h).1
all_zero-schedule_of (config head older newer ∷ es) found h = cc

read_extensions_stop :
    (fuel : ℕ) (rest : Bytes) (found : Option FeeSchedule)
    → all_zero rest ≡ true
    → read_extensions (suc fuel) rest found ≡ ok found
unfolding read_extensions
read_extensions_stop fuel rest found h = rw (h, read_extensions)

read_extensions_next :
    (fuel : ℕ) (rest : Bytes) (found next : Option FeeSchedule) (size : ℕ)
    → all_zero rest ≡ false
    → read_extension rest found ≡ ok (next, size)
    → read_extensions (suc fuel) rest found ≡ read_extensions fuel (drop size rest) next
unfolding read_extensions
read_extensions_next fuel rest found next size h e = rw (h, e, read_extensions)

read_extensions-bytes :
    (es : List Extension) (padding fuel : ℕ) (found : Option FeeSchedule)
    → WellFormed found es
    → length (extensions_bytes es ++ replicate padding 0) < fuel
    → read_extensions fuel (extensions_bytes es ++ replicate padding 0) found
      ≡ ok (schedule_of found es)
read_extensions-bytes es padding zero found fits enough = elim enough [ ]
read_extensions-bytes [] padding (suc fuel) found fits enough =
    read_extensions_stop fuel (extensions_bytes [] ++ replicate padding 0) found
      (unfold extensions_bytes in all_zero-replicate padding)
read_extensions-bytes (e ∷ es) padding (suc fuel) found fits enough =
    elim (Bool-cases (all_zero whole)) [
      | inl blank ↦
          read_extensions_stop fuel whole found blank
          ∙ ap ok (sym (all_zero-schedule_of (e ∷ es) found (all_zero-append _ _ blank).0))
      | inr more ↦
          read_extensions_next fuel whole found (found_with found e) (length (extension_bytes e))
            more
            (ap (λ w. read_extension w found) split
              ∙ read_extension-bytes e rest found fits.0 fits.1)
          ∙ ap (λ w. read_extensions fuel w (found_with found e))
              (ap (drop (length (extension_bytes e))) split
                ∙ drop-length-append (extension_bytes e) rest)
          ∙ read_extensions-bytes es padding fuel (found_with found e) fits.2 shorter
    ]
  where
    whole : Bytes
    whole = extensions_bytes (e ∷ es) ++ replicate padding 0

    rest : Bytes
    rest = extensions_bytes es ++ replicate padding 0

    split : whole ≡ extension_bytes e ++ rest
    split =
        unfold extensions_bytes in
        append_assoc (extension_bytes e) (extensions_bytes es) (replicate padding 0)

    shorter : length rest < fuel
    shorter =
        omega
          (arith, ap length split, length-append (extension_bytes e) rest, length-extension_bytes e)

get_elem?-append : (xs ys : Bytes) (i : ℕ) → i < length xs → get_elem? (xs ++ ys) i ≡ get_elem? xs i
get_elem?-append [] ys i h = elim h [ ]
get_elem?-append (x ∷ xs) ys zero h = refl
get_elem?-append (x ∷ xs) ys (suc i) h = get_elem?-append xs ys i (omega arith)

differs_at-append :
    (xs ys : Bytes) (i value : ℕ)
    → i < length xs
    → differs_at (xs ++ ys) i value ≡ differs_at xs i value
differs_at-append xs ys i value h = rw (get_elem?-append xs ys i h, differs_at)

-- A mint account with extensions is well formed if its owner is Token-2022, its mark is that of an
-- initialised mint, and its account type is that of a mint; `base` is all before the extensions.
pub record MintBase (base : Bytes) (total : ℕ) : Type 0 where
  pub size : length base ≡ 166
  pub initialised : differs_at base 45 1 ≡ false
  pub mint : differs_at base 165 1 ≡ false
  pub no_multisig : total ≢ 355

-- The reader returns exactly the fee schedule that a well-formed account carries, none if it has no
-- fee config, whatever other extensions stand around it and however many zero bytes end the account.
pub decode_mint_fees-bytes :
    (base : Bytes) (es : List Extension) (padding : ℕ)
    → MintBase base (166 + length (extensions_bytes es ++ replicate padding 0))
    → WellFormed none es
    → decode_mint_fees token_2022_program (base ++ (extensions_bytes es ++ replicate padding 0))
      ≡ ok (schedule_of none es)
unfolding decode_mint_fees
decode_mint_fees-bytes base es padding m fits =
    rw (valid, longer, extended, decode_mint_fees)
      (ap (λ w. read_extensions (suc (length (base ++ tail))) w none) behind
        ∙ read_extensions-bytes es padding (suc (length (base ++ tail))) none fits
            (omega (arith, total)))
  where
    tail : Bytes
    tail = extensions_bytes es ++ replicate padding 0

    total : length (base ++ tail) ≡ 166 + length tail
    total = omega (arith, length-append base tail, m.size)

    initialised : differs_at (base ++ tail) 45 1 ≡ false
    initialised = differs_at-append base tail 45 1 (omega (arith, m.size)) ∙ m.initialised

    mint : differs_at (base ++ tail) 165 1 ≡ false
    mint = differs_at-append base tail 165 1 (omega (arith, m.size)) ∙ m.mint

    valid : invalid_mint token_2022_program (base ++ tail) ≡ false
    valid = unfold invalid_mint in rw initialised (ground (arith, total))

    longer : (length (base ++ tail) == 82) ≡ false
    longer = ground (arith, total)

    extended : invalid_extended_mint token_2022_program (base ++ tail) ≡ false
    extended = unfold invalid_extended_mint in rw mint (ground (arith, total, m.no_multisig))

    behind : drop 166 (base ++ tail) ≡ tail
    behind = subst (λ n. drop n (base ++ tail) ≡ tail) m.size (drop-length-append base tail)
