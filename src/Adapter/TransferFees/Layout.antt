-- ===== src/Adapter/TransferFees/Layout.antt =====
-- How a Token-2022 mint lays its extensions out, and the reads of decodeMintFees at one of them.
use dusk_keepers.Prelude.{
  ℕ, ◌+◌, ◌^◌, ◌≤◌, ◌<◌, ◌≡◌, ◌≢◌, refl, ◌∙◌, false, Option, List, [], ◌∷◌, ◌++◌, length,
  length-append, ltb, ◌==◌, if◌then◌else◌, ok, ◌>>=◌, arith,
}
use mathlib.Core.List.{append_assoc}
use dusk_keepers.Prelude.Int.{pos}
use dusk_keepers.Adapter.Values.{integer}
use dusk_keepers.Adapter.Bytes.{Bytes, to_le, read_le, length-to_le, read_le-to_le}
use dusk_keepers.Adapter.TransferFees.{Fee, FeeSchedule}
use dusk_keepers.Adapter.TransferFees.Decoding.{out_of_range, read_fee, read_config, read_extension}

-- A fee as the account stores it, with the numbers that fit their fields.
pub record StoredFee : Type 0 where
  pub epoch : ℕ
  pub maximum : ℕ
  pub bps : ℕ

pub record FeeFits (f : StoredFee) : Type 0 where
  pub epoch_fits : f.epoch < 256 ^ 8
  pub maximum_fits : f.maximum < 256 ^ 8
  pub bps_fits : f.bps ≤ 10000

abbrev pub as_fee : StoredFee → Fee
as_fee f = record { epoch = pos f.epoch; bps = integer (pos f.bps); maximum = pos f.maximum }

abbrev pub fee_bytes : StoredFee → Bytes
fee_bytes f = to_le 8 f.epoch ++ to_le 8 f.maximum ++ to_le 2 f.bps

-- An extension of a mint: one of another kind, or the fee config, whose first 72 bytes hold keys and
-- withheld amounts.
pub data Extension : Type 0 where
  other : (kind : ℕ) → (body : Bytes) → Extension
  config : (head : Bytes) → (older newer : StoredFee) → Extension

abbrev pub body_bytes : Extension → Bytes
body_bytes (other kind body) = body
body_bytes (config head older newer) = head ++ fee_bytes older ++ fee_bytes newer

abbrev pub kind_of : Extension → ℕ
kind_of (other kind body) = kind
kind_of (config head older newer) = 1

abbrev pub extension_bytes : Extension → Bytes
extension_bytes e = to_le 2 (kind_of e) ++ to_le 2 (length (body_bytes e)) ++ body_bytes e

unfoldable pub extensions_bytes : List Extension → Bytes
extensions_bytes [] = []
extensions_bytes (e ∷ es) = extension_bytes e ++ extensions_bytes es

abbrev pub Fits : Extension → Type 0
Fits (other kind body) = (kind < 65536) × (kind ≢ 1) × (length body < 65536)
Fits (config head older newer) = (length head ≡ 72) × FeeFits older × FeeFits newer

pub read_fee-at :
    (f : StoredFee) (at : ℕ) (bytes before rest : Bytes)
    → bytes ≡ before ++ (fee_bytes f ++ rest)
    → at ≡ length before
    → FeeFits f
    → read_fee bytes at ≡ ok (as_fee f)
unfolding read_fee
read_fee-at f at bytes before rest e here fits =
    rw (epoch, maximum, bps) (ground (arith, fits.bps_fits))
  where
    epoch : read_le out_of_range 8 bytes at ≡ ok f.epoch
    epoch =
        read_le-to_le out_of_range 8 f.epoch at bytes before
          (to_le 8 f.maximum ++ (to_le 2 f.bps ++ rest)) (e ∙ simp append_assoc) here
          fits.epoch_fits

    maximum : read_le out_of_range 8 bytes (at + 8) ≡ ok f.maximum
    maximum =
        read_le-to_le out_of_range 8 f.maximum (at + 8) bytes (before ++ to_le 8 f.epoch)
          (to_le 2 f.bps ++ rest) (e ∙ simp append_assoc)
          (omega (arith, length-append {0}, length-to_le)) fits.maximum_fits

    bps : read_le out_of_range 2 bytes (at + 16) ≡ ok f.bps
    bps =
        read_le-to_le out_of_range 2 f.bps (at + 16) bytes
          (before ++ (to_le 8 f.epoch ++ to_le 8 f.maximum)) rest (e ∙ simp append_assoc)
          (omega (arith, length-append {0}, length-to_le)) (omega (arith, fits.bps_fits))

pub length-fee_bytes : (f : StoredFee) → length (fee_bytes f) ≡ 18
length-fee_bytes f = omega (arith, length-append {0}, length-to_le)

pub header-read :
    (kind size : ℕ) (body rest : Bytes) (found : Option FeeSchedule)
    → kind < 65536
    → size < 65536
    → length body ≡ size
    → read_extension (to_le 2 kind ++ to_le 2 size ++ body ++ rest) found ≡ (
        (if kind == 1
          then read_config (to_le 2 kind ++ to_le 2 size ++ body ++ rest) size found
          else ok found)
        >>= λ next. ok (next, 4 + size))
unfolding read_extension
header-read kind size body rest found kind_fits size_fits full =
    rw (long_enough, kind_read, size_read, body_there)
  where
    whole : Bytes
    whole = to_le 2 kind ++ to_le 2 size ++ body ++ rest

    total : length whole ≡ 4 + size + length rest
    total = omega (arith, length-append {0}, length-to_le)

    long_enough : ltb (length whole) 4 ≡ false
    long_enough = ground (arith, total)

    kind_read : read_le out_of_range 2 whole 0 ≡ ok kind
    kind_read =
        read_le-to_le out_of_range 2 kind 0 whole [] (to_le 2 size ++ (body ++ rest))
          (simp append_assoc) refl (omega arith)

    size_read : read_le out_of_range 2 whole 2 ≡ ok size
    size_read =
        read_le-to_le out_of_range 2 size 2 whole (to_le 2 kind) (body ++ rest) (simp append_assoc)
          (omega (arith, length-to_le)) (omega arith)

    body_there : ltb (length whole) (4 + size) ≡ false
    body_there = ground (arith, total)
