-- ===== src/Adapter/TransferFees/Tests.antt =====
-- Runs of feePhase, feeCredit and decodeMintFees, and the theorems about them at concrete inputs.
use dusk_keepers.Prelude.{
  ℕ, ◌+◌, ◌≤◌, ◌<◌, ◌≡◌, ◌≢◌, ◌↔◌, refl, none, some, List, [], ◌∷◌, ◌++◌, replicate, ok, err, arith,
  length,
}
use dusk_keepers.Prelude.Int.{pos}
use dusk_keepers.Adapter.Values.{max_u64}
use dusk_keepers.Adapter.Bytes.{Bytes, to_le}
use dusk_keepers.Adapter.TransferFees.{
  FeeSchedule, no_notice, notice, final_notice, effective, admission, liquidation, fee_phase,
  fee_credit, fee_quote, credit, choose, net, token_2022_program,
}
use dusk_keepers.Adapter.TransferFees.Notice.{fee_phase_iff}
use dusk_keepers.Adapter.TransferFees.Credit.{
  IsTaken, fee_credit-IsTaken, fee_credit_modes, admission-le_future,
}
use dusk_keepers.Adapter.TransferFees.Decoding.{
  out_of_fuel, decode_mint_fees, decode_mint_fees-ends,
}
use dusk_keepers.Adapter.TransferFees.Layout.{
  StoredFee, FeeFits, as_fee, Extension, other, config, extensions_bytes,
}
use dusk_keepers.Adapter.TransferFees.Extensions.{WellFormed}
use dusk_keepers.Adapter.TransferFees.RoundTrip.{MintBase, decode_mint_fees-bytes}

-- One percent up to 5,000, and two percent without a bound that matters from epoch 10 on.
abbrev older_fee : StoredFee
older_fee = record { epoch = 3; maximum = 5000; bps = 100 }

abbrev newer_fee : StoredFee
newer_fee = record { epoch = 10; maximum = 1_000_000; bps = 200 }

abbrev schedule : FeeSchedule
schedule = record { older = as_fee older_fee; newer = as_fee newer_fee }

fees_run : Unit {0}
unfolding fee_phase fee_credit fee_quote credit choose net
fees_run = tt

liquidation_before : fee_credit (some schedule) (pos 8) (pos 100_001) liquidation ≡ ok 99_000
unfolding fees_run
liquidation_before = refl

liquidation_final : fee_credit (some schedule) (pos 9) (pos 100_001) liquidation ≡ ok 98_000
unfolding fees_run
liquidation_final = refl

fee_credit-IsTaken_example :
    (amount : ℕ) × (pos 100_001 ≡ pos amount)
    × (amount ≤ max_u64)
    × IsTaken (some schedule) amount 99_000
fee_credit-IsTaken_example =
    fee_credit-IsTaken (some schedule) (pos 8) (pos 100_001) liquidation liquidation_before

fee_credit_modes_example :
    (a l e : ℕ) × (fee_credit (some schedule) (pos 9) (pos 100_001) admission ≡ ok a)
    × (fee_credit (some schedule) (pos 9) (pos 100_001) liquidation ≡ ok l)
    × (fee_credit (some schedule) (pos 9) (pos 100_001) effective ≡ ok e)
    × (a ≤ l)
    × (l ≤ e)
fee_credit_modes_example =
    fee_credit_modes (some schedule) (pos 9) (pos 100_001) liquidation liquidation_final

admission-le_future_example : (f : ℕ) × (credit 100_001 (as_fee newer_fee) ≡ ok f) × (98_000 ≤ f)
unfolding fees_run
admission-le_future_example = admission-le_future schedule (pos 8) (pos 100_001) refl (λ h. cc)

fee_phase_iff_example :
    ((fee_phase (some schedule) (pos 9) ≡ ok final_notice) ↔ (10 ≡ 9 + 1))
    × ((fee_phase (some schedule) (pos 9) ≡ ok notice) ↔ (9 + 1 < 10))
    × ((fee_phase (some schedule) (pos 9) ≡ ok no_notice) ↔ (10 ≤ 9))
fee_phase_iff_example = fee_phase_iff schedule 9 10 (omega arith) refl

abbrev mint_base : Bytes
mint_base = replicate 45 0 ++ 1 ∷ replicate 119 0 ++ 1 ∷ []

abbrev mint_extensions : List Extension
mint_extensions = other 7 (1 ∷ 2 ∷ []) ∷ config (replicate 72 5) older_fee newer_fee ∷ []

older_fee-FeeFits : FeeFits older_fee
older_fee-FeeFits = record {
  epoch_fits = omega arith;
  maximum_fits = omega arith;
  bps_fits = omega arith;
}

newer_fee-FeeFits : FeeFits newer_fee
newer_fee-FeeFits = record {
  epoch_fits = omega arith;
  maximum_fits = omega arith;
  bps_fits = omega arith;
}

layout_run : Unit {0}
unfolding extensions_bytes to_le
layout_run = tt

mint_base-MintBase :
    MintBase mint_base (166 + length (extensions_bytes mint_extensions ++ replicate 6 0))
unfolding layout_run
mint_base-MintBase = record {
  size = refl;
  initialised = refl;
  mint = refl;
  no_multisig = ground arith;
}

mint_extensions-WellFormed : WellFormed none mint_extensions
mint_extensions-WellFormed = (
  (omega arith, (λ h. ground arith), omega arith),
  tt,
  ((refl, older_fee-FeeFits, newer_fee-FeeFits), refl, tt),
)

decode_mint_fees-bytes_example :
    decode_mint_fees token_2022_program
      (mint_base ++ (extensions_bytes mint_extensions ++ replicate 6 0))
    ≡ ok (some schedule)
decode_mint_fees-bytes_example =
    decode_mint_fees-bytes mint_base mint_extensions 6 mint_base-MintBase mint_extensions-WellFormed

decode_mint_fees-ends_example : decode_mint_fees token_2022_program mint_base ≢ err out_of_fuel
decode_mint_fees-ends_example = decode_mint_fees-ends token_2022_program mint_base
