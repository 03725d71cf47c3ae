-- ===== src/Keeper/Lifecycle/Invariant.antt =====
-- What holds of an execution attempt between two events (lifecycle.ts).
use dusk_keepers.Prelude.{
  ◌≡◌, refl, ◌+◌, ◌⊎◌, Bool, true, false, Option, none, some, arith, ok, ltb,
}
use dusk_keepers.Keeper.Candidate.{
  executed, skipped, retryable_failure, terminal_failure, confirmed, ExecutionOutcome, ExpectedRace,
  ReasonCode,
}
use dusk_keepers.Keeper.Lifecycle.{
  ExecutionStep, sign, submit, confirm, postcondition, journal, AttemptState, active,
  awaiting_reconciliation, outcome_pending_journal, complete, LifecycleEvent, step_succeeded,
  expected_race, failure, blockhash_expired, submitted_not_landed_finalized, submitted_landed,
  StepMetadata, step_tag, is_missing, is_none, next_is, apply_lifecycle_event, outcome_of,
  race_reason, before_submit, retryable, terminal, after_submit_unknown,
}

-- The step to come stands before `sign`: nothing is signed in this generation.
abbrev pub is_unsigned : Option ExecutionStep → Bool
is_unsigned none = false
is_unsigned (some step) = ltb (step_tag step) 7

-- The step to come needs the signature of this generation.
abbrev pub is_signed : Option ExecutionStep → Bool
is_signed none = false
is_signed (some submit) = true
is_signed (some confirm) = true
is_signed (some postcondition) = true
is_signed (some _) = false

-- The phase fixes what the step to come and the outcome may be.
pub record PhaseFits (s : AttemptState) : Type 0 where
  pub while_active :
      s.phase ≡ active
      → (is_none s.outcome ≡ true)
        × (is_none s.next_step ≡ false)
        × (next_is journal s.next_step ≡ false)
  pub while_awaiting :
      s.phase ≡ awaiting_reconciliation → (is_none s.outcome ≡ true) × (s.next_step ≡ some confirm)
  pub while_pending :
      s.phase ≡ outcome_pending_journal → (is_none s.outcome ≡ false) × (s.next_step ≡ some journal)
  pub when_complete : s.phase ≡ complete → (is_none s.outcome ≡ false) × (s.next_step ≡ none)

-- The signing metadata is there exactly from `sign` on, and the slot from `confirm` on.
pub record MetadataFits (s : AttemptState) : Type 0 where
  pub unsigned : is_unsigned s.next_step ≡ true → (s.signature ≡ none) × (s.confirmed_slot ≡ none)
  pub signed :
      is_signed s.next_step ≡ true
      → (is_missing s.signature ≡ false)
        × (is_missing s.blockhash ≡ false)
        × (is_none s.last_valid_block_height ≡ false)
  pub slotted : next_is postcondition s.next_step ≡ true → is_none s.confirmed_slot ≡ false

abbrev pub PhaseKept : LifecycleEvent → Type 0
PhaseKept e = (s s' : AttemptState) → PhaseFits s → apply_lifecycle_event s e ≡ ok s' → PhaseFits s'

apply-PhaseFits_step : (step : ExecutionStep) (m : StepMetadata) → PhaseKept (step_succeeded step m)
unfolding apply_lifecycle_event
apply-PhaseFits_step sign m s s' v h = ground arith
apply-PhaseFits_step _ m s s' v h = ground arith

pub apply-PhaseFits : (e : LifecycleEvent) → PhaseKept e
unfolding apply_lifecycle_event
apply-PhaseFits (step_succeeded step m) s s' v h = apply-PhaseFits_step step m s s' v h
apply-PhaseFits (expected_race step race) s s' v h = ground arith
apply-PhaseFits (failure step class reason) s s' v h = ground arith
apply-PhaseFits (blockhash_expired before_submit) s s' v h = ground arith
apply-PhaseFits (blockhash_expired after_submit_unknown) s s' v h = ground arith
apply-PhaseFits submitted_not_landed_finalized s s' v h = ground arith
apply-PhaseFits (submitted_landed slot) s s' v h = ground arith

abbrev pub MetadataKept : LifecycleEvent → Type 0
MetadataKept e =
    (s s' : AttemptState)
    → PhaseFits s
    → MetadataFits s
    → apply_lifecycle_event s e ≡ ok s'
    → MetadataFits s'

apply-MetadataFits_step :
    (step : ExecutionStep) (m : StepMetadata) → MetadataKept (step_succeeded step m)
unfolding apply_lifecycle_event
apply-MetadataFits_step sign m s s' p v h = ground arith
apply-MetadataFits_step _ m s s' p v h = ground arith

pub apply-MetadataFits : (e : LifecycleEvent) → MetadataKept e
unfolding apply_lifecycle_event
apply-MetadataFits (step_succeeded step m) s s' p v h = apply-MetadataFits_step step m s s' p v h
apply-MetadataFits (expected_race step race) s s' p v h = ground arith
apply-MetadataFits (failure step class reason) s s' p v h = ground arith
apply-MetadataFits (blockhash_expired before_submit) s s' p v h = ground arith
apply-MetadataFits (blockhash_expired after_submit_unknown) s s' p v h = ground arith
apply-MetadataFits submitted_not_landed_finalized s s' p v h = ground arith
apply-MetadataFits (submitted_landed slot) s s' p v h = ground arith

abbrev pub SkippedFor : Option ExpectedRace → ReasonCode → Type 0
SkippedFor none reason = ⊥
SkippedFor (some race) reason = reason ≡ race_reason race

-- The outcome, once there, records this attempt and the end that its status names.
pub record OutcomeFits (s : AttemptState) (o : ExecutionOutcome) : Type 0 where
  pub recorded : o ≡ outcome_of s o.status o.reason_code o.race_code
  pub as_executed :
      o.status ≡ executed
      → (o.reason_code ≡ confirmed)
        × (o.race_code ≡ none)
        × (is_missing o.signature ≡ false)
        × (is_none o.finalized_slot ≡ false)
  pub as_skipped : o.status ≡ skipped → SkippedFor o.race_code o.reason_code
  pub as_failed :
      (o.status ≡ retryable_failure) ⊎ (o.status ≡ terminal_failure) → o.race_code ≡ none

abbrev pub OutcomeKept : LifecycleEvent → Type 0
OutcomeKept e =
    (s s' : AttemptState)
    → PhaseFits s
    → ((o : ExecutionOutcome) → s.outcome ≡ some o → OutcomeFits s o)
    → apply_lifecycle_event s e ≡ ok s'
    → (o : ExecutionOutcome) → s'.outcome ≡ some o
    → OutcomeFits s' o

apply-OutcomeFits_step :
    (step : ExecutionStep) (m : StepMetadata) → OutcomeKept (step_succeeded step m)
unfolding apply_lifecycle_event
apply-OutcomeFits_step sign m s s' p v h o e = ground (arith, v o)
apply-OutcomeFits_step _ m s s' p v h o e = ground (arith, v o)

-- An accepted race ends the attempt as skipped, and changes nothing else.
apply-race :
    (step : ExecutionStep) (race : ExpectedRace) (s s' : AttemptState)
    → apply_lifecycle_event s (expected_race step race) ≡ ok s'
    → s' ≡ record s {
      outcome = some (outcome_of s skipped (race_reason race) (some race));
      phase = outcome_pending_journal;
      next_step = some journal;
      event_sequence = s.event_sequence + 1;
    }
unfolding apply_lifecycle_event
apply-race step race s s' h = ground arith

race-OutcomeFits :
    (race : ExpectedRace) (s s' : AttemptState)
    → s' ≡ record s {
      outcome = some (outcome_of s skipped (race_reason race) (some race));
      phase = outcome_pending_journal;
      next_step = some journal;
      event_sequence = s.event_sequence + 1;
    }
    → OutcomeFits s' (outcome_of s skipped (race_reason race) (some race))
unfolding outcome_of
race-OutcomeFits race s s' e = rw e (record {
  recorded = refl;
  as_executed = λ h. cc;
  as_skipped = λ h. refl;
  as_failed = λ h. ground arith;
})

pub apply-OutcomeFits : (e : LifecycleEvent) → OutcomeKept e
unfolding apply_lifecycle_event
apply-OutcomeFits (step_succeeded step m) s s' p v h o e =
    apply-OutcomeFits_step step m s s' p v h o e
apply-OutcomeFits (expected_race step race) s s' p v h o e =
    let ended = apply-race step race s s' h in
    let same : outcome_of s skipped (race_reason race) (some race) ≡ o = cc in
    rw same at (race-OutcomeFits race s s' ended)
apply-OutcomeFits (failure step retryable reason) s s' p v h o e = ground (arith, v o)
apply-OutcomeFits (failure step terminal reason) s s' p v h o e = ground (arith, v o)
apply-OutcomeFits (blockhash_expired before_submit) s s' p v h o e = ground (arith, v o)
apply-OutcomeFits (blockhash_expired after_submit_unknown) s s' p v h o e = ground (arith, v o)
apply-OutcomeFits submitted_not_landed_finalized s s' p v h o e = ground (arith, v o)
apply-OutcomeFits (submitted_landed slot) s s' p v h o e = ground (arith, v o)
