-- ===== src/Keeper/Attempt.antt =====
-- lifecycle.ts of keeper-core: the steps, the events and the state of an execution attempt, and the
-- tests on them.
use dusk_keepers.Prelude.{ℕ, Bool, true, false, Option, none, some, String, str_eq, ◌==◌, Result}
use dusk_keepers.Keeper.Candidate.{CandidateIntent, ReasonCode, ExpectedRace, ExecutionOutcome}

pub data ExecutionStep : Type 0 where
  discover revalidate evaluate policy simulate lease sign submit confirm : ExecutionStep
  postcondition journal : ExecutionStep

pub data AttemptPhase : Type 0 where
  active awaiting_reconciliation outcome_pending_journal complete : AttemptPhase

pub data FailureClass : Type 0 where
  retryable terminal : FailureClass

pub data BlockhashExpiryTiming : Type 0 where
  before_submit after_submit_unknown : BlockhashExpiryTiming

-- the optional fields of a `step_succeeded` event
pub record StepMetadata : Type 0 where
  pub blockhash : Option String
  pub last_valid_block_height : Option ℕ
  pub signature : Option String
  pub slot : Option ℕ

pub data LifecycleEvent : Type 0 where
  step_succeeded : ExecutionStep → StepMetadata → LifecycleEvent
  expected_race : ExecutionStep → ExpectedRace → LifecycleEvent
  failure : ExecutionStep → FailureClass → ReasonCode → LifecycleEvent
  blockhash_expired : BlockhashExpiryTiming → LifecycleEvent
  submitted_not_landed_finalized : LifecycleEvent
  submitted_landed : ℕ → LifecycleEvent

pub record AttemptState : Type 0 where
  pub schema_version : ℕ
  pub attempt_id : String
  pub attempt_number : ℕ
  pub work_key : String
  pub candidate : CandidateIntent
  pub phase : AttemptPhase
  pub next_step : Option ExecutionStep
  pub event_sequence : ℕ
  pub signing_generation : ℕ
  pub blockhash : Option String
  pub last_valid_block_height : Option ℕ
  pub signature : Option String
  pub confirmed_slot : Option ℕ
  pub outcome : Option ExecutionOutcome
  pub created_at : Option String
  pub updated_at : Option String

pub data TransitionErrorCode : Type 0 where
  invalid_phase unexpected_step missing_signing_metadata missing_confirmation_slot :
      TransitionErrorCode
  missing_signature outcome_missing : TransitionErrorCode

abbrev pub Transition : Type 0
Transition = Result TransitionErrorCode AttemptState

abbrev pub Check : Type 0
Check = Result TransitionErrorCode (Unit {0})

unfoldable pub create_attempt_state : String → String → CandidateIntent → AttemptState
create_attempt_state id key c = record {
  schema_version = 1;
  attempt_id = id;
  attempt_number = 1;
  work_key = key;
  candidate = c;
  phase = active;
  next_step = some discover;
  event_sequence = 0;
  signing_generation = 0;
  blockhash = none;
  last_valid_block_height = none;
  signature = none;
  confirmed_slot = none;
  outcome = none;
  created_at = none;
  updated_at = none;
}

-- The tags of the steps and phases, numbered, so that `===` on them is a test.
abbrev pub step_tag : ExecutionStep → ℕ
step_tag discover = 0
step_tag revalidate = 1
step_tag evaluate = 2
step_tag policy = 3
step_tag simulate = 4
step_tag lease = 5
step_tag sign = 6
step_tag submit = 7
step_tag confirm = 8
step_tag postcondition = 9
step_tag journal = 10

abbrev pub step_eq : ExecutionStep → ExecutionStep → Bool
step_eq a b = step_tag a == step_tag b

abbrev pub phase_tag : AttemptPhase → ℕ
phase_tag active = 0
phase_tag awaiting_reconciliation = 1
phase_tag outcome_pending_journal = 2
phase_tag complete = 3

abbrev pub phase_eq : AttemptPhase → AttemptPhase → Bool
phase_eq a b = phase_tag a == phase_tag b

-- `x === step` for a `next_step` that may be null
abbrev pub next_is : ExecutionStep → Option ExecutionStep → Bool
next_is step none = false
next_is step (some next) = step_eq step next

-- `!text` for a `string | null | undefined`: the empty string is missing too
abbrev pub is_missing : Option String → Bool
is_missing none = true
is_missing (some s) = str_eq s ""

abbrev pub is_none {ℓ} : {A : Type ℓ} → Option A → Bool
is_none none = true
is_none (some a) = false
