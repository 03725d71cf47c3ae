-- ===== src/Keeper/Lifecycle/Steps.antt =====
-- Which events an attempt accepts, and what each leads to (lifecycle.ts).
use dusk_keepers.Prelude.{◌≡◌, ap, ◌≢◌, ◌↔◌, inl, inr, false, some, arith, ok, err, Result-cases}
use dusk_keepers.Keeper.Candidate.{ExecutionOutcome}
use dusk_keepers.Keeper.Lifecycle.{
  ExecutionStep, sign, confirm, journal, AttemptState, outcome_pending_journal, complete,
  LifecycleEvent, step_succeeded, expected_race, failure, blockhash_expired,
  submitted_not_landed_finalized, submitted_landed, StepMetadata, is_missing, is_none,
  apply_lifecycle_event, next_execution_step, before_submit, after_submit_unknown,
  TransitionErrorCode, missing_signature, outcome_missing,
}
use dusk_keepers.Keeper.Lifecycle.Invariant.{PhaseFits, MetadataFits}
use dusk_keepers.Keeper.Lifecycle.Traces.{IsCoherent}

-- An accepted success is of the step that was to come, and leads to the one after it in the list of
-- steps: to none after `journal`.
pub apply-next_step :
    (step : ExecutionStep) (m : StepMetadata) (s s' : AttemptState)
    → apply_lifecycle_event s (step_succeeded step m) ≡ ok s'
    → (s.next_step ≡ some step) × (s'.next_step ≡ next_execution_step step)
unfolding apply_lifecycle_event
apply-next_step sign m s s' h = ground arith
apply-next_step _ m s s' h = ground arith

-- What a success must carry.
abbrev pub IsSupplied : ExecutionStep → StepMetadata → Type 0
IsSupplied sign m =
    (is_missing m.blockhash ≡ false)
    × (is_none m.last_valid_block_height ≡ false)
    × (is_missing m.signature ≡ false)
IsSupplied confirm m = is_none m.slot ≡ false
IsSupplied _ m = Unit {0}

abbrev pub Accepts : AttemptState → LifecycleEvent → Type 0
Accepts s e = (s' : AttemptState) × (apply_lifecycle_event s e ≡ ok s')

pub Accepts-of_no_error :
    (s : AttemptState) (e : LifecycleEvent)
    → ((c : TransitionErrorCode) → apply_lifecycle_event s e ≡ err c → ⊥)
    → Accepts s e
Accepts-of_no_error s e none_fits = elim (Result-cases (apply_lifecycle_event s e)) [
  | inl found ↦ found
  | inr (c, h) ↦ absurd (none_fits c h)
]

accepted-IsSupplied :
    (step : ExecutionStep) (m : StepMetadata) (s s' : AttemptState)
    → apply_lifecycle_event s (step_succeeded step m) ≡ ok s'
    → IsSupplied step m
unfolding apply_lifecycle_event
accepted-IsSupplied sign m s s' h = ground arith
accepted-IsSupplied _ m s s' h = ground arith

supplied_no_error :
    (step : ExecutionStep) (m : StepMetadata) (s : AttemptState)
    → PhaseFits s
    → MetadataFits s
    → s.next_step ≡ some step
    → IsSupplied step m
    → (c : TransitionErrorCode) → apply_lifecycle_event s (step_succeeded step m) ≡ err c
    → ⊥
unfolding apply_lifecycle_event
supplied_no_error sign m s p v next given c h = ground arith
supplied_no_error _ m s p v next given c h = ground arith

-- In a coherent state a success is accepted exactly when it is of the step to come and carries what
-- that step records: the signing metadata for `sign`, the slot for `confirm`.
pub Accepts-step_iff :
    (step : ExecutionStep) (m : StepMetadata) (s : AttemptState)
    → IsCoherent s
    → Accepts s (step_succeeded step m) ↔ ((s.next_step ≡ some step) × IsSupplied step m)
Accepts-step_iff step m s v = (
  (λ a. ((apply-next_step step m s a.0 a.1).0, accepted-IsSupplied step m s a.0 a.1)),
  (λ given.
      Accepts-of_no_error s (step_succeeded step m)
        (supplied_no_error step m s v.phase_fits v.metadata_fits given.0 given.1)),
)

outcome_final_step :
    (step : ExecutionStep) (m : StepMetadata) (s s' : AttemptState) (o : ExecutionOutcome)
    → PhaseFits s
    → s.outcome ≡ some o
    → apply_lifecycle_event s (step_succeeded step m) ≡ ok s'
    → (step ≡ journal)
      × (s.phase ≡ outcome_pending_journal)
      × (s'.phase ≡ complete)
      × (s'.outcome ≡ some o)
unfolding apply_lifecycle_event
outcome_final_step sign m s s' o v had h = ground arith
outcome_final_step _ m s s' o v had h = ground arith

-- Once a coherent attempt has an outcome, the only event that it accepts is the success of
-- `journal` in the phase that waits for it. That completes the attempt and keeps the outcome.
pub outcome_final :
    (e : LifecycleEvent) (s s' : AttemptState) (o : ExecutionOutcome)
    → IsCoherent s
    → s.outcome ≡ some o
    → apply_lifecycle_event s e ≡ ok s'
    → ((m : StepMetadata) × (e ≡ step_succeeded journal m))
      × (s.phase ≡ outcome_pending_journal)
      × (s'.phase ≡ complete)
      × (s'.outcome ≡ some o)
unfolding apply_lifecycle_event
outcome_final (step_succeeded step m) s s' o v had h =
    let (is_journal, pending, done, kept) = outcome_final_step step m s s' o v.phase_fits had h in
    ((m, ap (λ x. step_succeeded x m) is_journal), pending, done, kept)
outcome_final (expected_race step race) s s' o v had h = absurd (ground arith)
outcome_final (failure step class reason) s s' o v had h = absurd (ground arith)
outcome_final (blockhash_expired before_submit) s s' o v had h = absurd (ground arith)
outcome_final (blockhash_expired after_submit_unknown) s s' o v had h = absurd (ground arith)
outcome_final submitted_not_landed_finalized s s' o v had h = absurd (ground arith)
outcome_final (submitted_landed slot) s s' o v had h = absurd (ground arith)

no_missing_record_step :
    (step : ExecutionStep) (m : StepMetadata) (s : AttemptState) (c : TransitionErrorCode)
    → PhaseFits s
    → MetadataFits s
    → apply_lifecycle_event s (step_succeeded step m) ≡ err c
    → (c ≢ missing_signature) × (c ≢ outcome_missing)
unfolding apply_lifecycle_event
no_missing_record_step sign m s c p v h = ground arith
no_missing_record_step _ m s c p v h = ground arith

-- In a coherent state no event is refused for a signature or an outcome that the attempt lacks:
-- those two errors are unreachable.
pub no_missing_record :
    (e : LifecycleEvent) (s : AttemptState) (c : TransitionErrorCode)
    → IsCoherent s
    → apply_lifecycle_event s e ≡ err c
    → (c ≢ missing_signature) × (c ≢ outcome_missing)
unfolding apply_lifecycle_event
no_missing_record (step_succeeded step m) s c v h =
    no_missing_record_step step m s c v.phase_fits v.metadata_fits h
no_missing_record (expected_race step race) s c v h = ground arith
no_missing_record (failure step class reason) s c v h = ground arith
no_missing_record (blockhash_expired before_submit) s c v h = ground arith
no_missing_record (blockhash_expired after_submit_unknown) s c v h = ground arith
no_missing_record submitted_not_landed_finalized s c v h = ground arith
no_missing_record (submitted_landed slot) s c v h = ground (arith, v.phase_fits, v.metadata_fits)
