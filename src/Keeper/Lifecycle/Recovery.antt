-- ===== src/Keeper/Lifecycle/Recovery.antt =====
-- Signing again, reconciliation, and the end of an attempt (lifecycle.ts).
use dusk_keepers.Prelude.{
  ◌+◌, ◌≡◌, refl, sym, ◌∙◌, ◌⊎◌, inl, inr, false, Option, none, some, String, arith, ok, err, List,
  [], ◌∷◌, length, >>=-eq-ok,
}
use dusk_keepers.Keeper.Candidate.{CandidateIntent, ExecutionOutcome, ReasonCode}
use dusk_keepers.Keeper.Lifecycle.{
  ExecutionStep, revalidate, sign, submit, confirm, journal, AttemptState, AttemptPhase, active,
  awaiting_reconciliation, outcome_pending_journal, complete, LifecycleEvent, step_succeeded,
  expected_race, failure, blockhash_expired, submitted_not_landed_finalized, submitted_landed,
  StepMetadata, is_none, apply_lifecycle_event, before_submit, after_submit_unknown,
  TransitionErrorCode, FailureClass, failure_status, outcome_of, create_attempt_state,
}
use dusk_keepers.Keeper.Lifecycle.Traces.{IsCoherent, apply-IsCoherent, run}
use dusk_keepers.Keeper.Lifecycle.Steps.{Accepts-of_no_error, Accepts-step_iff, outcome_final}

-- How a signing generation is given up.
abbrev pub Renewal : AttemptState → LifecycleEvent → Type 0
Renewal s (step_succeeded step m) = ⊥
Renewal s (expected_race step race) = ⊥
Renewal s (failure step class reason) = ⊥
Renewal s (blockhash_expired before_submit) = (s.phase ≡ active) × (s.next_step ≡ some submit)
Renewal s (blockhash_expired after_submit_unknown) = ⊥
Renewal s submitted_not_landed_finalized = s.phase ≡ awaiting_reconciliation
Renewal s (submitted_landed slot) = ⊥

renewal_step :
    (step : ExecutionStep) (m : StepMetadata) (s s' : AttemptState)
    → apply_lifecycle_event s (step_succeeded step m) ≡ ok s'
    → s'.signing_generation ≡ s.signing_generation
unfolding apply_lifecycle_event
renewal_step sign m s s' h = ground arith
renewal_step _ m s s' h = ground arith

-- A signing generation is replaced in two ways only: its blockhash expired before the transaction
-- was submitted, or a submitted transaction of unknown fate is final and did not land. Then the
-- generation goes up by one, the attempt is active again and goes back to `revalidate` with no
-- signature, no blockhash and no confirmed slot. Every other accepted event, and only those, keeps
-- the generation.
pub apply-generation :
    (e : LifecycleEvent) (s s' : AttemptState)
    → apply_lifecycle_event s e ≡ ok s'
    → ((Renewal s e → ⊥) × (s'.signing_generation ≡ s.signing_generation))
      ⊎ (Renewal s e
          × (s'.signing_generation ≡ s.signing_generation + 1)
          × (s'.phase ≡ active)
          × (s'.next_step ≡ some revalidate)
          × (s'.signature ≡ none)
          × (s'.blockhash ≡ none)
          × (s'.confirmed_slot ≡ none))
unfolding apply_lifecycle_event
apply-generation (step_succeeded step m) s s' h = inl (λ r. r, renewal_step step m s s' h)
apply-generation (expected_race step race) s s' h = inl (λ r. r, ground arith)
apply-generation (failure step class reason) s s' h = inl (λ r. r, ground arith)
apply-generation (blockhash_expired before_submit) s s' h = inr (ground arith)
apply-generation (blockhash_expired after_submit_unknown) s s' h = inl (λ r. r, ground arith)
apply-generation submitted_not_landed_finalized s s' h = inr (ground arith)
apply-generation (submitted_landed slot) s s' h = inl (λ r. r, ground arith)

signature_kept_step :
    (step : ExecutionStep) (m : StepMetadata) (s s' : AttemptState)
    → s.next_step ≡ some confirm
    → apply_lifecycle_event s (step_succeeded step m) ≡ ok s'
    → s'.signature ≡ s.signature
unfolding apply_lifecycle_event
signature_kept_step sign m s s' out h = ground arith
signature_kept_step _ m s s' out h = ground arith

-- While a submitted transaction waits for its confirmation, every accepted event keeps the recorded
-- signature, but for the report that it is final and did not land, after its fate was unknown.
pub signature_kept :
    (e : LifecycleEvent) (s s' : AttemptState)
    → s.next_step ≡ some confirm
    → apply_lifecycle_event s e ≡ ok s'
    → (s'.signature ≡ s.signature)
      ⊎ ((e ≡ submitted_not_landed_finalized) × (s.phase ≡ awaiting_reconciliation))
unfolding apply_lifecycle_event
signature_kept (step_succeeded step m) s s' out h = inl (signature_kept_step step m s s' out h)
signature_kept (expected_race step race) s s' out h = inl (ground arith)
signature_kept (failure step class reason) s s' out h = inl (ground arith)
signature_kept (blockhash_expired before_submit) s s' out h = absurd (ground arith)
signature_kept (blockhash_expired after_submit_unknown) s s' out h = inl (ground arith)
signature_kept submitted_not_landed_finalized s s' out h = inr (ground arith)
signature_kept (submitted_landed slot) s s' out h = inl (ground arith)

record SameIdentity (s s' : AttemptState) : Type 0 where
  attempt : s'.attempt_id ≡ s.attempt_id
  work : s'.work_key ≡ s.work_key
  candidate : s'.candidate ≡ s.candidate

identity_step :
    (step : ExecutionStep) (m : StepMetadata) (s s' : AttemptState)
    → apply_lifecycle_event s (step_succeeded step m) ≡ ok s'
    → SameIdentity s s' × (s'.event_sequence ≡ s.event_sequence + 1)
unfolding apply_lifecycle_event
identity_step sign m s s' h = ground arith
identity_step _ m s s' h = ground arith

apply-identity :
    (e : LifecycleEvent) (s s' : AttemptState)
    → apply_lifecycle_event s e ≡ ok s'
    → SameIdentity s s' × (s'.event_sequence ≡ s.event_sequence + 1)
unfolding apply_lifecycle_event
apply-identity (step_succeeded step m) s s' h = identity_step step m s s' h
apply-identity (expected_race step race) s s' h = ground arith
apply-identity (failure step class reason) s s' h = ground arith
apply-identity (blockhash_expired before_submit) s s' h = ground arith
apply-identity (blockhash_expired after_submit_unknown) s s' h = ground arith
apply-identity submitted_not_landed_finalized s s' h = ground arith
apply-identity (submitted_landed slot) s s' h = ground arith

run-identity :
    (es : List LifecycleEvent) (s s' : AttemptState)
    → run s es ≡ ok s'
    → SameIdentity s s' × (s'.event_sequence ≡ s.event_sequence + length es)
unfolding run
run-identity [] s s' h = ground arith
run-identity (e ∷ es) s s' h =
    let (next, step, rest) = >>=-eq-ok (apply_lifecycle_event s e) (λ t. run t es) h in
    ground (arith, apply-identity e s next step, run-identity es next s' rest)

-- An attempt keeps its id, its work key and its candidate over every run, and its event sequence
-- counts the events that it accepted.
pub run-create :
    (id key : String) (c : CandidateIntent) (es : List LifecycleEvent) (s : AttemptState)
    → run (create_attempt_state id key c) es ≡ ok s
    → (s.attempt_id ≡ id) × (s.work_key ≡ key) × (s.candidate ≡ c) × (s.event_sequence ≡ length es)
unfolding create_attempt_state
run-create id key c es s h =
    let (same, count) = run-identity es (create_attempt_state id key c) s h in
    (same.attempt, same.work, same.candidate, omega (arith, count))

abbrev pub Completes : AttemptState → List LifecycleEvent → Option ExecutionOutcome → Type 0
Completes s es o =
    (s' : AttemptState) × (run s es ≡ ok s') × (s'.phase ≡ complete) × (s'.outcome ≡ o)

run-cons :
    (e : LifecycleEvent) (es : List LifecycleEvent) (s t : AttemptState) {u : AttemptState}
    → apply_lifecycle_event s e ≡ ok t
    → run t es ≡ ok u
    → run s (e ∷ es) ≡ ok u
unfolding run
run-cons e es s t h k = rw h k

pending-Completes :
    (s : AttemptState)
    → IsCoherent s
    → s.phase ≡ outcome_pending_journal
    → (m : StepMetadata) → Completes s (step_succeeded journal m ∷ []) s.outcome
unfolding run
pending-Completes s v pending m =
    let next : s.next_step ≡ some journal = (v.phase_fits.while_pending pending).1 in
    let (s', h) = (Accepts-step_iff journal m s v).1 (next, tt) in
    let (o, had) = outcome_given s.outcome (v.phase_fits.while_pending pending).0 in
    let (event, phase, done, kept) = outcome_final (step_succeeded journal m) s s' o v had h in
    (s', run-cons (step_succeeded journal m) [] s s' h refl, done, kept ∙ sym had)
  where
    outcome_given :
        (o : Option ExecutionOutcome) → is_none o ≡ false → (x : ExecutionOutcome) × (o ≡ some x)
    outcome_given none h = absurd (cc)
    outcome_given (some x) h = (x, refl)

failure_no_error :
    (step : ExecutionStep) (class : FailureClass) (reason : ReasonCode) (s : AttemptState)
    → s.next_step ≡ some step
    → (s.phase ≡ active) ⊎ (s.phase ≡ awaiting_reconciliation)
    → (c : TransitionErrorCode) → apply_lifecycle_event s (failure step class reason) ≡ err c
    → ⊥
unfolding apply_lifecycle_event
failure_no_error step class reason s next open_phase c h = ground arith

failure-pending :
    (step : ExecutionStep) (class : FailureClass) (reason : ReasonCode) (s s' : AttemptState)
    → apply_lifecycle_event s (failure step class reason) ≡ ok s'
    → (s'.phase ≡ outcome_pending_journal)
      × (s'.outcome ≡ some (outcome_of s (failure_status class) reason none))
unfolding apply_lifecycle_event outcome_of
failure-pending step class reason s s' h = ground arith

-- The failure of the step to come and the journal entry complete the attempt.
abbrev pub FailsToEnd : AttemptState → Type 0
FailsToEnd s =
    (step : ExecutionStep) × (s.next_step ≡ some step)
    × ((class : FailureClass) (reason : ReasonCode) (m : StepMetadata)
        → Completes s (failure step class reason ∷ step_succeeded journal m ∷ [])
            (some (outcome_of s (failure_status class) reason none)))

open-FailsToEnd :
    (step : ExecutionStep) (s : AttemptState)
    → IsCoherent s
    → s.next_step ≡ some step
    → (s.phase ≡ active) ⊎ (s.phase ≡ awaiting_reconciliation)
    → FailsToEnd s
open-FailsToEnd step s v next open_phase = (
  step,
  next,
  λ class reason m.
      let e = failure step class reason in
      let (t, h) = Accepts-of_no_error s e (failure_no_error step class reason s next open_phase) in
      let (pending, had) = failure-pending step class reason s t h in
      let (u, rest, done, kept) = pending-Completes t (apply-IsCoherent e s t v h) pending m in
      (u, run-cons e (step_succeeded journal m ∷ []) s t h rest, done, kept ∙ had),
)

-- No attempt is stuck. A coherent state is complete; or it waits for its journal entry, and the
-- success of `journal` completes it and keeps its outcome; or it is active or awaits reconciliation,
-- and has a step to come, such that a failure of that step, of either class and for any reason, and
-- then the success of `journal` complete it, with the outcome of that failure.
pub can_complete :
    (s : AttemptState)
    → IsCoherent s
    → (s.phase ≡ complete)
      ⊎ (((s.phase ≡ outcome_pending_journal)
            × ((m : StepMetadata) → Completes s (step_succeeded journal m ∷ []) s.outcome))
          ⊎ (((s.phase ≡ active) ⊎ (s.phase ≡ awaiting_reconciliation)) × FailsToEnd s))
can_complete s v = close s.phase s.next_step refl refl
  where
    close :
        (p : AttemptPhase) (n : Option ExecutionStep)
        → s.phase ≡ p
        → s.next_step ≡ n
        → (s.phase ≡ complete)
          ⊎ (((s.phase ≡ outcome_pending_journal)
                × ((m : StepMetadata) → Completes s (step_succeeded journal m ∷ []) s.outcome))
              ⊎ (((s.phase ≡ active) ⊎ (s.phase ≡ awaiting_reconciliation)) × FailsToEnd s))
    close complete n e k = inl e
    close outcome_pending_journal n e k = inr (inl (e, pending-Completes s v e))
    close active none e k = absurd (ground (arith, v.phase_fits.while_active e))
    close active (some step) e k = inr (inr (inl e, open-FailsToEnd step s v k (inl e)))
    close awaiting_reconciliation none e k = absurd (ground (arith, v.phase_fits.while_awaiting e))
    close awaiting_reconciliation (some step) e k =
        inr (inr (inr e, open-FailsToEnd step s v k (inr e)))
