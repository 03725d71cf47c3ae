-- ===== src/Adapter/TransferFees/Extensions.antt =====
-- One step of decodeMintFees's extension loop on the bytes of a well-formed extension.
use dusk_keepers.Prelude.{
  ℕ, ◌+◌, ◌≡◌, refl, ◌∙◌, true, false, Option, none, some, List, [], ◌∷◌, ◌++◌, length,
  length-append, ◌==◌, ok, arith,
}
use mathlib.Core.List.{append_assoc}
use dusk_keepers.Adapter.Bytes.{Bytes, to_le, length-to_le}
use dusk_keepers.Adapter.TransferFees.{FeeSchedule}
use dusk_keepers.Adapter.TransferFees.Decoding.{read_config, read_extension}
use dusk_keepers.Adapter.TransferFees.Layout.{
  StoredFee, as_fee, fee_bytes, Extension, other, config, body_bytes, extension_bytes, Fits,
  read_fee-at, length-fee_bytes, header-read,
}

abbrev pub schedule_with : StoredFee → StoredFee → FeeSchedule
schedule_with older newer = record { older = as_fee older; newer = as_fee newer }

-- What the loop has found behind an extension.
abbrev pub found_with : Option FeeSchedule → Extension → Option FeeSchedule
found_with found (other kind body) = found
found_with found (config head older newer) = some (schedule_with older newer)

-- The fee schedule that the extensions carry.
abbrev pub schedule_of : Option FeeSchedule → List Extension → Option FeeSchedule
schedule_of found [] = found
schedule_of found (e ∷ es) = schedule_of (found_with found e) es

-- A config comes where none was found before.
abbrev pub Fresh : Option FeeSchedule → Extension → Type 0
Fresh found (other kind body) = Unit {0}
Fresh found (config head older newer) = found ≡ none

-- Each extension fits its fields, and there is at most one fee config.
abbrev pub WellFormed : Option FeeSchedule → List Extension → Type 0
WellFormed found [] = Unit {0}
WellFormed found (e ∷ es) = Fits e × Fresh found e × WellFormed (found_with found e) es

length-body_bytes :
    (head : Bytes) (older newer : StoredFee)
    → length head ≡ 72
    → length (body_bytes (config head older newer)) ≡ 108
length-body_bytes head older newer full =
    omega (arith, length-append {0}, length-fee_bytes older, length-fee_bytes newer, full)

pub length-extension_bytes :
    (e : Extension) → length (extension_bytes e) ≡ 4 + length (body_bytes e)
length-extension_bytes e = omega (arith, length-append {0}, length-to_le)

read_config-bytes :
    (head : Bytes) (older newer : StoredFee) (rest : Bytes)
    → Fits (config head older newer)
    → read_config
        (extension_bytes (config head older newer) ++ rest)
        (length (body_bytes (config head older newer)))
        none
      ≡ ok (some (schedule_with older newer))
unfolding read_config
read_config-bytes head older newer rest fits = rw (
  expected,
  read_fee-at older (4 + 72) whole (to_le 2 1 ++ to_le 2 size ++ head) (fee_bytes newer ++ rest)
      (simp append_assoc) (omega (arith, length-append {0}, length-to_le, fits.0)) fits.1,
  read_fee-at newer (4 + 90) whole (to_le 2 1 ++ to_le 2 size ++ head ++ fee_bytes older) rest
      (simp append_assoc)
      (omega (arith, length-append {0}, length-to_le, length-fee_bytes older, fits.0)) fits.2,
)
  where
    size : ℕ
    size = length (head ++ fee_bytes older ++ fee_bytes newer)

    whole : Bytes
    whole = extension_bytes (config head older newer) ++ rest

    expected : (size == 108) ≡ true
    expected = ground (arith, length-body_bytes head older newer fits.0)

pub read_extension-bytes :
    (e : Extension) (rest : Bytes) (found : Option FeeSchedule)
    → Fits e
    → Fresh found e
    → read_extension (extension_bytes e ++ rest) found
      ≡ ok (found_with found e, length (extension_bytes e))
read_extension-bytes (other kind body) rest found fits fresh =
    header-read kind (length body) body rest found fits.0 fits.2 refl
    ∙ rw (another, length-extension_bytes (other kind body))
  where
    another : (kind == 1) ≡ false
    another = ground (arith, fits.1)
read_extension-bytes (config head older newer) rest found fits fresh =
    header-read 1 (length body) body rest found (omega arith)
      (omega (arith, length-body_bytes head older newer fits.0)) refl
    ∙ rw (
      fresh,
      read_config-bytes head older newer rest fits,
      length-extension_bytes (config head older newer),
    )
  where
    body : Bytes
    body = body_bytes (config head older newer)
