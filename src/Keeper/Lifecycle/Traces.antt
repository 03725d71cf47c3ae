-- ===== src/Keeper/Lifecycle/Traces.antt =====
-- What holds of an attempt over every sequence of accepted events (lifecycle.ts).
use dusk_keepers.Prelude.{
  ℕ, ◌+◌, ◌≤◌, ◌<◌, ◌≡◌, ◌⊎◌, inl, inr, ◌==◌, if◌then◌else◌, err, Result-cases, Bool, true, false,
  Option, none, some, List, [], ◌∷◌, String, arith, subst, ok, ◌>>=◌, >>=-eq-ok,
}
use dusk_keepers.Keeper.Candidate.{CandidateIntent, ExecutionOutcome}
use dusk_keepers.Keeper.Lifecycle.{
  ExecutionStep, submit, AttemptState, LifecycleEvent, step_succeeded, expected_race, failure,
  blockhash_expired, submitted_not_landed_finalized, submitted_landed, StepMetadata,
  create_attempt_state, apply_lifecycle_event, before_submit, after_submit_unknown, Transition,
}
use dusk_keepers.Keeper.Lifecycle.Invariant.{
  is_unsigned, PhaseFits, MetadataFits, OutcomeFits, apply-PhaseFits, apply-MetadataFits,
  apply-OutcomeFits,
}

-- A caller feeds the events of an attempt one after another, and stops at the first error.
unfoldable pub run : AttemptState → List LifecycleEvent → Transition
run s [] = ok s
run s (e ∷ es) = do next ← apply_lifecycle_event s e; run next es

pub record IsCoherent (s : AttemptState) : Type 0 where
  pub phase_fits : PhaseFits s
  pub metadata_fits : MetadataFits s
  pub outcome_fits : (o : ExecutionOutcome) → s.outcome ≡ some o → OutcomeFits s o

pub apply-IsCoherent :
    (e : LifecycleEvent) (s s' : AttemptState)
    → IsCoherent s
    → apply_lifecycle_event s e ≡ ok s'
    → IsCoherent s'
apply-IsCoherent e s s' v h = record {
  phase_fits = apply-PhaseFits e s s' v.phase_fits h;
  metadata_fits = apply-MetadataFits e s s' v.phase_fits v.metadata_fits h;
  outcome_fits = apply-OutcomeFits e s s' v.phase_fits v.outcome_fits h;
}

create-IsCoherent :
    (id key : String) (c : CandidateIntent) → IsCoherent (create_attempt_state id key c)
unfolding create_attempt_state
create-IsCoherent id key c = record {
  phase_fits = ground arith;
  metadata_fits = ground arith;
  outcome_fits = λ o h. cc;
}

-- A property that every event keeps holds after every run.
run_induction {ℓ} :
    (P : AttemptState → Type ℓ)
    → ((e : LifecycleEvent) (s s' : AttemptState) → P s → apply_lifecycle_event s e ≡ ok s' → P s')
    → (es : List LifecycleEvent) (s s' : AttemptState) → P s
    → run s es ≡ ok s'
    → P s'
unfolding run
run_induction P keep [] s s' p h = subst P (cc) p
run_induction P keep (e ∷ es) s s' p h =
    let (next, step, rest) = >>=-eq-ok (apply_lifecycle_event s e) (λ t. run t es) h in
    run_induction P keep es next s' (keep e s next p step) rest

-- However an attempt got to its state: the phase fixes the next step and whether there is an outcome;
-- before `sign` nothing is signed, from `submit` to `postcondition` the signature, the blockhash and
-- its last valid height are recorded, at `postcondition` the confirmed slot is too; and the outcome
-- is the record of this attempt, with the reason that belongs to its status.
pub run-IsCoherent :
    (id key : String) (c : CandidateIntent) (es : List LifecycleEvent) (s : AttemptState)
    → run (create_attempt_state id key c) es ≡ ok s
    → IsCoherent s
run-IsCoherent id key c es s h =
    run_induction IsCoherent apply-IsCoherent es (create_attempt_state id key c) s
      (create-IsCoherent id key c) h

-- What an event adds to the count of transactions that were sent.
abbrev pub sends : LifecycleEvent → ℕ
sends (step_succeeded submit m) = 1
sends (step_succeeded _ m) = 0
sends (expected_race step race) = 0
sends (failure step class reason) = 0
sends (blockhash_expired timing) = 0
sends submitted_not_landed_finalized = 0
sends (submitted_landed slot) = 0

abbrev pub submissions : List LifecycleEvent → ℕ
submissions [] = 0
submissions (e ∷ es) = sends e + submissions es

-- Before the submission of this generation, earlier generations alone have sent.
abbrev is_unsent : Option ExecutionStep → Bool
is_unsent none = false
is_unsent (some submit) = true
is_unsent (some step) = is_unsigned (some step)

record SentBound (s : AttemptState) (n : ℕ) : Type 0 where
  bound : n ≤ s.signing_generation + 1
  unsent : is_unsent s.next_step ≡ true → n ≤ s.signing_generation

apply-SentBound_step :
    (step : ExecutionStep) (m : StepMetadata) (s s' : AttemptState) (n : ℕ)
    → SentBound s n
    → apply_lifecycle_event s (step_succeeded step m) ≡ ok s'
    → SentBound s' (n + sends (step_succeeded step m))
unfolding apply_lifecycle_event
apply-SentBound_step submit m s s' n b h = ground arith
apply-SentBound_step _ m s s' n b h = ground arith

apply-SentBound :
    (e : LifecycleEvent) (s s' : AttemptState) (n : ℕ)
    → SentBound s n
    → apply_lifecycle_event s e ≡ ok s'
    → SentBound s' (n + sends e)
unfolding apply_lifecycle_event
apply-SentBound (step_succeeded step m) s s' n b h = apply-SentBound_step step m s s' n b h
apply-SentBound (expected_race step race) s s' n b h = ground arith
apply-SentBound (failure step class reason) s s' n b h = ground arith
apply-SentBound (blockhash_expired before_submit) s s' n b h = ground arith
apply-SentBound (blockhash_expired after_submit_unknown) s s' n b h = ground arith
apply-SentBound submitted_not_landed_finalized s s' n b h = ground arith
apply-SentBound (submitted_landed slot) s s' n b h = ground arith

run-SentBound :
    (es : List LifecycleEvent) (s s' : AttemptState) (n : ℕ)
    → SentBound s n
    → run s es ≡ ok s'
    → n + submissions es ≤ s'.signing_generation + 1
unfolding run
run-SentBound [] s s' n b h = ground arith
run-SentBound (e ∷ es) s s' n b h =
    let (next, step, rest) = >>=-eq-ok (apply_lifecycle_event s e) (λ t. run t es) h in
    omega (arith, run-SentBound es next s' (n + sends e) (apply-SentBound e s next n b step) rest)

-- The transactions that the generation sends over a run: a submission counts where it is accepted
-- and the attempt is in that generation.
unfoldable pub sent_in : ℕ → AttemptState → List LifecycleEvent → ℕ
sent_in generation s [] = 0
sent_in generation s (e ∷ es) = elim (apply_lifecycle_event s e) [
  | err thrown ↦ 0
  | ok next ↦
      (if s.signing_generation == generation then sends e else 0) + sent_in generation next es
]

-- What the generation at hand may still send.
abbrev left_to_send : Option ExecutionStep → ℕ
left_to_send step = if is_unsent step then 1 else 0

-- An event spends what the generation at hand may send, or sends nothing and starts the next one.
record Spends (s s' : AttemptState) (n : ℕ) : Type 0 where
  same_or_next :
      ((s'.signing_generation ≡ s.signing_generation)
        × (n + left_to_send s'.next_step ≤ left_to_send s.next_step))
      ⊎ ((s'.signing_generation ≡ s.signing_generation + 1) × (n ≡ 0))

apply-Spends_step :
    (step : ExecutionStep) (m : StepMetadata) (s s' : AttemptState)
    → apply_lifecycle_event s (step_succeeded step m) ≡ ok s'
    → Spends s s' (sends (step_succeeded step m))
unfolding apply_lifecycle_event
apply-Spends_step submit m s s' h = record { same_or_next = inl (ground arith) }
apply-Spends_step _ m s s' h = record { same_or_next = inl (ground arith) }

apply-Spends :
    (e : LifecycleEvent) (s s' : AttemptState)
    → apply_lifecycle_event s e ≡ ok s'
    → Spends s s' (sends e)
unfolding apply_lifecycle_event
apply-Spends (step_succeeded step m) s s' h = apply-Spends_step step m s s' h
apply-Spends (expected_race step race) s s' h = record { same_or_next = inl (ground arith) }
apply-Spends (failure step class reason) s s' h = record { same_or_next = inl (ground arith) }
apply-Spends (blockhash_expired before_submit) s s' h = record { same_or_next = inr (ground arith) }
apply-Spends (blockhash_expired after_submit_unknown) s s' h = record {
  same_or_next = inl (ground arith);
}
apply-Spends submitted_not_landed_finalized s s' h = record { same_or_next = inr (ground arith) }
apply-Spends (submitted_landed slot) s s' h = record { same_or_next = inl (ground arith) }

-- A generation that is over sends nothing more, the one at hand at most what it has left, and a
-- later one at most one.
record SendsAtMostOne (generation : ℕ) (s : AttemptState) (n : ℕ) : Type 0 where
  over : generation < s.signing_generation → n ≡ 0
  at_hand : generation ≡ s.signing_generation → n ≤ left_to_send s.next_step
  later : n ≤ 1

sent_in-SendsAtMostOne :
    (generation : ℕ) (es : List LifecycleEvent) (s : AttemptState)
    → SendsAtMostOne generation s (sent_in generation s es)
unfolding sent_in
sent_in-SendsAtMostOne generation [] s = ground arith
sent_in-SendsAtMostOne generation (e ∷ es) s = elim (Result-cases (apply_lifecycle_event s e)) [
  | inr (c, h) ↦ rw (sent_in, h) (ground arith)
  | inl (next, h) ↦
      rw (sent_in, h)
        (ground (
          arith,
          (apply-Spends e s next h).same_or_next,
          sent_in-SendsAtMostOne generation es next,
        ))
]

-- Each signing generation sends at most one transaction: in an accepted run from a new attempt, the
-- submissions that are made while the attempt is in a given generation are at most one, and all
-- submissions together are at most one more than the generations that were given up.
pub submissions-le-generation :
    (id key : String) (c : CandidateIntent) (es : List LifecycleEvent) (s : AttemptState)
    (generation : ℕ)
    → run (create_attempt_state id key c) es ≡ ok s
    → (sent_in generation (create_attempt_state id key c) es ≤ 1)
      × (submissions es ≤ s.signing_generation + 1)
unfolding create_attempt_state
submissions-le-generation id key c es s generation h = (
  (sent_in-SendsAtMostOne generation es (create_attempt_state id key c)).later,
  omega (
    arith,
    run-SentBound es (create_attempt_state id key c) s 0
        (record { bound = omega arith; unsent = λ e. omega arith }) h,
  ),
)
