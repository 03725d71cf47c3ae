-- ===== src/Keeper/Lifecycle.antt =====
-- lifecycle.ts of keeper-core: the events that move an execution attempt, with the names of Attempt. A
-- method that writes to `MutableAttemptState` returns the new record. An error keeps its code and
-- drops its message.
pub mod Invariant
pub mod Traces
pub mod Steps
pub mod Recovery
pub mod Success
mod Tests
use dusk_keepers.Prelude.{
  ℕ, suc, ◌+◌, Bool, true, false, not, ◌&&◌, ◌||◌, Option, none, some, List, [], ◌∷◌, String,
  str_eq, ◌==◌, if◌then◌else◌, get_elem?, Result, ok, err, ◌>>=◌, ◌>>◌, guard, refuse,
}
use dusk_keepers.Keeper.Candidate.{
  CandidateIntent, OutcomeStatus, executed, skipped, retryable_failure, terminal_failure,
  ReasonCode, confirmed, state_changed, already_resolved, bounds_not_met, lease_not_acquired,
  ExpectedRace, account_changed, trigger_no_longer_met, lease_contended, ExecutionOutcome,
}
unfoldable pub use dusk_keepers.Keeper.Attempt.{create_attempt_state}
pub use dusk_keepers.Keeper.Attempt.{
  ExecutionStep, discover, revalidate, evaluate, policy, simulate, lease, sign, submit, confirm,
  postcondition, journal, AttemptPhase, active, awaiting_reconciliation, outcome_pending_journal,
  complete, FailureClass, retryable, terminal, BlockhashExpiryTiming, before_submit,
  after_submit_unknown, StepMetadata, LifecycleEvent, step_succeeded, expected_race, failure,
  blockhash_expired, submitted_not_landed_finalized, submitted_landed, AttemptState,
  TransitionErrorCode, invalid_phase, unexpected_step, missing_signing_metadata,
  missing_confirmation_slot, missing_signature, outcome_missing, Transition, Check, step_tag,
  step_eq, phase_tag, phase_eq, next_is, is_missing, is_none,
}

abbrev pub execution_steps : List ExecutionStep
execution_steps =
    discover ∷ revalidate ∷ evaluate ∷ policy ∷ simulate ∷ lease ∷ sign ∷ submit ∷ confirm
    ∷ postcondition ∷ journal ∷ []

-- `list.indexOf(step)`, `none` for -1
abbrev index_of : ExecutionStep → List ExecutionStep → Option ℕ
index_of step [] = none
index_of step (x ∷ xs) =
    if step_eq x step
    then some 0
    else elim (index_of step xs) [ none ↦ none | some i ↦ some (suc i) ]

unfoldable pub next_execution_step : ExecutionStep → Option ExecutionStep
next_execution_step step = elim (index_of step execution_steps) [
  | none ↦ get_elem? execution_steps 0
  | some i ↦ get_elem? execution_steps (suc i)
]

unfoldable pub require_active : AttemptState → Check
require_active s = guard (phase_eq s.phase active) invalid_phase

unfoldable pub require_step : AttemptState → ExecutionStep → Check
require_step s actual = elim s.next_step [
  | none ↦ err invalid_phase
  | some next ↦ guard (step_eq actual next) unexpected_step
]

unfoldable pub race_reason : ExpectedRace → ReasonCode
race_reason account_changed = state_changed
race_reason trigger_no_longer_met = bounds_not_met
race_reason lease_contended = lease_not_acquired
race_reason _ = already_resolved

unfoldable pub outcome_of :
    AttemptState → OutcomeStatus → ReasonCode → Option ExpectedRace → ExecutionOutcome
outcome_of s status reason race = record {
  attempt_id = s.attempt_id;
  attempt_number = s.attempt_number;
  work_key = s.work_key;
  candidate_id = s.candidate.candidate_id;
  job_kind = s.candidate.job_kind;
  conflict_key = s.candidate.conflict_key;
  status = status;
  reason_code = reason;
  race_code = race;
  observed_slot = s.candidate.observed_slot;
  finalized_slot = s.confirmed_slot;
  protocol_revision = s.candidate.protocol_revision;
  signature = s.signature;
  signing_generation = s.signing_generation;
}

-- The three lines with which a race, a failure and a success end the attempt.
abbrev pub finish_with : AttemptState → ExecutionOutcome → AttemptState
finish_with s o = record s {
  outcome = some o;
  phase = outcome_pending_journal;
  next_step = some journal;
}

unfoldable pub start_new_signing_generation : AttemptState → AttemptState
start_new_signing_generation s = record s {
  signing_generation = s.signing_generation + 1;
  blockhash = none;
  last_valid_block_height = none;
  signature = none;
  confirmed_slot = none;
  outcome = none;
  phase = active;
  next_step = some revalidate;
}

unfoldable pub blockhash_expires : AttemptState → BlockhashExpiryTiming → Transition
unfolding start_new_signing_generation
blockhash_expires s before_submit = do
  guard (phase_eq s.phase active && next_is submit s.next_step) unexpected_step
  ok (start_new_signing_generation s)
blockhash_expires s after_submit_unknown = do
  guard (phase_eq s.phase active && next_is confirm s.next_step) unexpected_step
  ok (record s { phase = awaiting_reconciliation; next_step = some confirm })

-- The `switch` of `stepSucceeded`, on a step that passed the checks above it.
unfoldable pub step_effect : ExecutionStep → StepMetadata → AttemptState → Transition
unfolding require_active next_execution_step outcome_of
step_effect sign m s = do
  refuse (is_missing m.blockhash || is_none m.last_valid_block_height || is_missing m.signature)
      missing_signing_metadata
  ok (record s {
    blockhash = m.blockhash;
    last_valid_block_height = m.last_valid_block_height;
    signature = m.signature;
    next_step = some submit;
  })
step_effect confirm m s = do
  refuse (is_none m.slot) missing_confirmation_slot
  ok (record s { confirmed_slot = m.slot; phase = active; next_step = some postcondition })
step_effect postcondition m s = do
  refuse (is_missing s.signature) missing_signature
  refuse (is_none s.confirmed_slot) missing_confirmation_slot
  ok (finish_with s (outcome_of s executed confirmed none))
step_effect journal m s = do
  refuse (not (phase_eq s.phase outcome_pending_journal) || is_none s.outcome) outcome_missing
  ok (record s { phase = complete; next_step = none })
step_effect step m s = do require_active s; ok (record s { next_step = next_execution_step step })

-- The checks of `stepSucceeded` that come before its `switch`, in their order.
unfoldable pub step_checks : AttemptState → ExecutionStep → Check
step_checks s step = elim s.next_step [
  | none ↦ err invalid_phase
  | some next ↦ do
    guard (step_eq step next) unexpected_step
    refuse (phase_eq s.phase complete) invalid_phase
    refuse (phase_eq s.phase outcome_pending_journal && not (step_eq step journal)) unexpected_step
    refuse (phase_eq s.phase awaiting_reconciliation && not (step_eq step confirm)) unexpected_step
]

unfoldable pub step_succeeds : AttemptState → ExecutionStep → StepMetadata → Transition
unfolding step_checks step_effect
step_succeeds s step m = do step_checks s step; step_effect step m s

-- `event.failureClass === "retryable" ? … : …`
abbrev pub failure_status : FailureClass → OutcomeStatus
failure_status retryable = retryable_failure
failure_status terminal = terminal_failure

unfoldable pub reduce : AttemptState → LifecycleEvent → Transition
unfolding step_succeeds require_active require_step race_reason outcome_of blockhash_expires
    start_new_signing_generation
reduce s (step_succeeded step m) = step_succeeds s step m
reduce s (expected_race step race) = do
  require_active s
  require_step s step
  ok (finish_with s (outcome_of s skipped (race_reason race) (some race)))
reduce s (failure step class reason) = do
  guard (phase_eq s.phase active || phase_eq s.phase awaiting_reconciliation) invalid_phase
  require_step s step
  ok (finish_with s (outcome_of s (failure_status class) reason none))
reduce s (blockhash_expired timing) = blockhash_expires s timing
reduce s submitted_not_landed_finalized = do
  guard (phase_eq s.phase awaiting_reconciliation) invalid_phase
  ok (start_new_signing_generation s)
reduce s (submitted_landed slot) = do
  guard (phase_eq s.phase awaiting_reconciliation) invalid_phase
  refuse (is_missing s.signature) missing_signature
  ok (record s { confirmed_slot = some slot; phase = active; next_step = some postcondition })

unfoldable pub apply_lifecycle_event : AttemptState → LifecycleEvent → Transition
unfolding reduce
apply_lifecycle_event s e = do
  next ← reduce s e
  ok (record next { event_sequence = next.event_sequence + 1 })
