-- ===== src/Keeper/Candidate.antt =====
-- The candidates, outcomes and reasons that index.ts of keeper-core declares. Slots, attempt numbers
-- and generations are natural numbers; a `string | null` is an Option.
use dusk_keepers.Prelude.{ℕ, Option, String}

pub data JobKind : Type 0 where
  leverage_liquidation lending_liquidation_bid lending_liquidation_settle : JobKind
  hlp_recovery stop_loss take_profit limit_entry hlp_order auction_bid : JobKind
  lifecycle sentinel : JobKind

pub record CandidateIntent : Type 0 where
  pub candidate_id : String
  pub job_kind : JobKind
  pub conflict_key : String
  pub market : String
  pub target : String
  pub observed_slot : ℕ
  pub protocol_revision : String
  pub expected_state_hash : String

-- the `priorities` table
unfoldable pub priorities : JobKind → ℕ
priorities leverage_liquidation = 500
priorities lending_liquidation_bid = 200
priorities lending_liquidation_settle = 500
priorities hlp_recovery = 500
priorities stop_loss = 400
priorities take_profit = 300
priorities limit_entry = 250
priorities hlp_order = 400
priorities auction_bid = 200
priorities lifecycle = 100
priorities sentinel = 0

pub data OutcomeStatus : Type 0 where
  executed skipped retryable_failure terminal_failure : OutcomeStatus

pub data ReasonCode : Type 0 where
  confirmed shadow_mode stale_observation state_changed already_resolved : ReasonCode
  bounds_not_met policy_denied lease_not_acquired simulation_rejected : ReasonCode
  signing_denied rpc_unavailable blockhash_expired confirmation_unknown : ReasonCode
  postcondition_failed insufficient_signer_balance protocol_revision_mismatch : ReasonCode
  unsupported_protocol unknown : ReasonCode

pub data ExpectedRace : Type 0 where
  account_changed account_closed position_already_closed order_already_closed : ExpectedRace
  trigger_no_longer_met obligation_no_longer_liquidatable auction_already_settled : ExpectedRace
  lease_contended duplicate_signature_confirmed : ExpectedRace

pub record ExecutionOutcome : Type 0 where
  pub attempt_id : String
  pub attempt_number : ℕ
  pub work_key : String
  pub candidate_id : String
  pub job_kind : JobKind
  pub conflict_key : String
  pub status : OutcomeStatus
  pub reason_code : ReasonCode
  pub race_code : Option ExpectedRace
  pub observed_slot : ℕ
  pub finalized_slot : Option ℕ
  pub protocol_revision : String
  pub signature : Option String
  pub signing_generation : ℕ
