-- ===== src/Adapter/TransferFees/Notice.antt =====
-- When a fee change counts as announced (feePhase of transfer-fees.ts).
use dusk_keepers.Prelude.{ℕ, ◌+◌, ◌≤◌, ◌<◌, ◌≡◌, ◌↔◌, some, arith, ok}
use dusk_keepers.Prelude.Int.{pos}
use dusk_keepers.Adapter.Values.{max_u64}
use dusk_keepers.Adapter.TransferFees.{FeeSchedule, no_notice, notice, final_notice, fee_phase}

-- At an epoch that fits 64 bits the phase is `final_notice` exactly one epoch before the newer fee
-- starts, `notice` exactly two or more epochs before, and `no_notice` exactly from its start on.
pub fee_phase_iff :
    (s : FeeSchedule) (epoch start : ℕ)
    → epoch ≤ max_u64
    → s.newer.epoch ≡ pos start
    → ((fee_phase (some s) (pos epoch) ≡ ok final_notice) ↔ (start ≡ epoch + 1))
      × ((fee_phase (some s) (pos epoch) ≡ ok notice) ↔ (epoch + 1 < start))
      × ((fee_phase (some s) (pos epoch) ≡ ok no_notice) ↔ (start ≤ epoch))
unfolding fee_phase
fee_phase_iff s epoch start fits starts = (
  ((λ h. ground arith), (λ h. ground arith)),
  ((λ h. ground arith), (λ h. ground arith)),
  ((λ h. ground arith), (λ h. ground arith)),
)
