-- ===== src/Adapter/TransferFees.antt =====
-- transfer-fees.ts of dusk-adapter: the fee notice of a Token-2022 mint, what a transfer credits, and
-- the reader of the mint's and the clock's account data. An error is its message.
pub mod Credit
pub mod Notice
pub mod Decoding
pub mod Layout
pub mod Extensions
pub mod RoundTrip
mod Tests
use dusk_keepers.Prelude.{
  ℕ, zero, suc, ◌+◌, ◌-◌, ◌*◌, ◌/◌, Bool, true, false, not, ◌&&◌, ◌||◌, Option, none, some, List,
  [], ◌∷◌, String, str_eq, length, drop, get_elem?, ltb, leb, ◌==◌, if◌then◌else◌, Result, ok, err,
  ◌>>=◌, ◌>>◌, guard, refuse,
}
use dusk_keepers.Prelude.Int.{ℤ, pos, negsuc, pos_part, neg_part, ltb_ℤ, ◌-ℤ◌}
use dusk_keepers.Adapter.Values.{
  Number, integer, no_integer, max_u64, max_safe_integer, is_negative, eq_ℤ,
}
use dusk_keepers.Adapter.Bytes.{Bytes, slice, from_le, read_le, all_zero}

abbrev pub token_program : String
token_program = "TokenkegQfeZyiNwAJbNbGKPFXCWuBvf9Ss623VQ5DA"

abbrev pub token_2022_program : String
token_2022_program = "TokenzQdBNbLqP5VEhdkAS6EPFLC1PHnBqCXEpPxuEb"

abbrev pub sysvar_program : String
sysvar_program = "Sysvar1111111111111111111111111111111111111"

pub record Fee : Type 0 where
  pub epoch : ℤ
  pub bps : Number
  pub maximum : ℤ

pub record FeeSchedule : Type 0 where
  pub older : Fee
  pub newer : Fee

pub data FeePhase : Type 0 where
  no_notice notice final_notice : FeePhase

pub data CreditMode : Type 0 where
  effective admission liquidation : CreditMode

-- `value < 0n || value > (1n << 64n) - 1n`
abbrev pub outside_u64 : ℤ → Bool
outside_u64 n = is_negative n || ltb_ℤ (pos max_u64) n

abbrev pub phase_at : Option FeeSchedule → ℤ → FeePhase
phase_at none epoch = no_notice
phase_at (some s) epoch =
    if not (ltb_ℤ epoch s.newer.epoch)
    then no_notice
    else if eq_ℤ (s.newer.epoch -ℤ epoch) (pos 1)
    then final_notice
    else notice

unfoldable pub fee_phase : Option FeeSchedule → ℤ → Result String FeePhase
unfolding ◌-ℤ◌
fee_phase schedule epoch = do
  refuse (outside_u64 epoch) "invalid epoch"
  ok (phase_at schedule epoch)

-- `!Number.isInteger(bps) || bps < 0 || bps > 10000`
abbrev pub invalid_bps : Number → Bool
invalid_bps no_integer = true
invalid_bps (integer n) = is_negative n || ltb_ℤ (pos 10000) n

abbrev pub bps_value : Number → ℕ
bps_value no_integer = 0
bps_value (integer n) = pos_part n

-- What of `gross` arrives under a fee whose parts passed the checks: the rate rounds up, to at most
-- the maximum.
unfoldable pub net : ℕ → ℕ → ℕ → ℕ
net gross bps maximum =
    let fee = (gross * bps + 9999) / 10000 in gross - (if ltb fee maximum then fee else maximum)

-- The closure `credit`; the checks make every part a natural number, and the fee at most `gross`.
unfoldable pub credit : ℕ → Fee → Result String ℕ
credit gross f = do
  refuse (invalid_bps f.bps || outside_u64 f.maximum) "invalid transfer fee"
  ok (net gross (bps_value f.bps) (pos_part f.maximum))

abbrev pub is_notice : FeePhase → Bool
is_notice no_notice = false
is_notice notice = true
is_notice final_notice = true

-- `mode === "admission" || (mode === "liquidation" && phase === "finalNotice")`
abbrev pub looks_ahead : CreditMode → FeePhase → Bool
looks_ahead effective phase = false
looks_ahead admission phase = true
looks_ahead liquidation final_notice = true
looks_ahead liquidation _ = false

-- What the last line of `feeCredit` chooses from: the phase, the credit now and the credit to come.
pub record Quote : Type 0 where
  pub phase : FeePhase
  pub current : ℕ
  pub future : ℕ

-- The body of `feeCredit` for a mint with a schedule, up to its last line.
unfoldable pub fee_quote : FeeSchedule → ℤ → ℤ → Result String Quote
fee_quote s epoch gross = do
  refuse (outside_u64 gross) "invalid amount"
  phase ← fee_phase (some s) epoch
  current ← credit (pos_part gross) (if is_notice phase then s.older else s.newer)
  future ← credit (pos_part gross) s.newer
  ok (record { phase = phase; current = current; future = future })

unfoldable pub choose : CreditMode → Quote → ℕ
choose mode q =
    if is_notice q.phase && looks_ahead mode q.phase && ltb q.future q.current
    then q.future
    else q.current

unfoldable pub fee_credit : Option FeeSchedule → ℤ → ℤ → CreditMode → Result String ℕ
unfolding fee_phase
fee_credit none epoch gross mode = do
  refuse (outside_u64 gross) "invalid amount"
  phase ← fee_phase none epoch
  ok (pos_part gross)
fee_credit (some s) epoch gross mode = do quote ← fee_quote s epoch gross; ok (choose mode quote)
