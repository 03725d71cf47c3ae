-- ===== src/Keeper/Lifecycle/Tests.antt =====
-- Attempts that are executed, skipped, or signed twice, and the theorems at these runs.
use dusk_keepers.Prelude.{
  ◌+◌, ◌≤◌, ◌≡◌, ◌≢◌, ◌↔◌, ◌⊎◌, refl, none, some, List, [], ◌∷◌, String, arith, ok, err, length,
  ◌++◌, eq_iff,
}
use dusk_keepers.Keeper.Candidate.{stop_loss, CandidateIntent, lease_contended}
use dusk_keepers.Keeper.Lifecycle.{
  discover, revalidate, evaluate, policy, simulate, lease, sign, submit, confirm, postcondition,
  journal, AttemptState, active, awaiting_reconciliation, outcome_pending_journal, complete,
  StepMetadata, LifecycleEvent, step_succeeded, expected_race, blockhash_expired,
  after_submit_unknown, submitted_not_landed_finalized, unexpected_step, missing_signature,
  outcome_missing, missing_confirmation_slot, create_attempt_state, apply_lifecycle_event,
  next_execution_step,
}
use dusk_keepers.Keeper.Lifecycle.Traces.{
  run, IsCoherent, run-IsCoherent, submissions, sent_in, submissions-le-generation,
}
use dusk_keepers.Keeper.Lifecycle.Steps.{
  IsSupplied, Accepts, Accepts-step_iff, outcome_final, no_missing_record,
}
use dusk_keepers.Keeper.Lifecycle.Recovery.{
  Renewal, apply-generation, signature_kept, run-create, can_complete, Completes, FailsToEnd,
}
use dusk_keepers.Keeper.Lifecycle.Success.{
  no_metadata, signed_with, confirmed_at, successes, executed_state, run-successes,
}

abbrev work : CandidateIntent
work = record {
  candidate_id = "c1";
  job_kind = stop_loss;
  conflict_key = "position:1";
  market = "market";
  target = "target";
  observed_slot = 100;
  protocol_revision = "r1";
  expected_state_hash = "00";
}

abbrev start : AttemptState
start = create_attempt_state "a1" "w1" work

lifecycle_run : Unit {0}
unfolding run create_attempt_state apply_lifecycle_event next_execution_step
lifecycle_run = tt

-- Up to the lease, signed, and sent.
abbrev sent : List LifecycleEvent
sent =
    step_succeeded discover no_metadata
    ∷ step_succeeded revalidate no_metadata
    ∷ step_succeeded evaluate no_metadata
    ∷ step_succeeded policy no_metadata
    ∷ step_succeeded simulate no_metadata
    ∷ step_succeeded lease no_metadata
    ∷ step_succeeded sign (signed_with "hash" 7 "sig")
    ∷ step_succeeded submit no_metadata
    ∷ []

abbrev after_sending : AttemptState
after_sending = record start {
  event_sequence = 8;
  next_step = some confirm;
  blockhash = some "hash";
  last_valid_block_height = some 7;
  signature = some "sig";
}

sent-run : run start sent ≡ ok after_sending
unfolding lifecycle_run
sent-run = refl

after_sending-IsCoherent : IsCoherent after_sending
after_sending-IsCoherent = run-IsCoherent "a1" "w1" work sent after_sending sent-run

race_run :
    run start (expected_race discover lease_contended ∷ step_succeeded revalidate no_metadata ∷ [])
    ≡ err unexpected_step
unfolding lifecycle_run
race_run = refl

text_given : (◌≢◌ {A = String} "hash" "") × (◌≢◌ {A = String} "sig" "")
text_given = (ground (arith, eq_iff "hash" ""), ground (arith, eq_iff "sig" ""))

run-successes_example :
    run start (successes "hash" 7 "sig" 120) ≡ ok (executed_state "a1" "w1" work "hash" 7 "sig" 120)
run-successes_example = run-successes "a1" "w1" work "hash" 7 "sig" 120 text_given.0 text_given.1

abbrev executed_end : AttemptState
executed_end = executed_state "a1" "w1" work "hash" 7 "sig" 120

run-IsCoherent_example : IsCoherent executed_end
run-IsCoherent_example =
    run-IsCoherent "a1" "w1" work (successes "hash" 7 "sig" 120) executed_end run-successes_example

-- The first transaction does not land, and the next generation sends another.
abbrev resent : List LifecycleEvent
resent =
    sent
    ++ blockhash_expired after_submit_unknown
      ∷ submitted_not_landed_finalized
      ∷ step_succeeded revalidate no_metadata
      ∷ step_succeeded evaluate no_metadata
      ∷ step_succeeded policy no_metadata
      ∷ step_succeeded simulate no_metadata
      ∷ step_succeeded lease no_metadata
      ∷ step_succeeded sign (signed_with "hash2" 9 "sig2")
      ∷ step_succeeded submit no_metadata
      ∷ []

abbrev after_resending : AttemptState
after_resending = record after_sending {
  event_sequence = 17;
  blockhash = some "hash2";
  last_valid_block_height = some 9;
  signature = some "sig2";
  signing_generation = 1;
}

resent-run : run start resent ≡ ok after_resending
unfolding lifecycle_run
resent-run = refl

submissions-le-generation_example :
    (sent_in 1 start resent ≤ 1) × (submissions resent ≤ after_resending.signing_generation + 1)
submissions-le-generation_example =
    submissions-le-generation "a1" "w1" work resent after_resending 1 resent-run

one_sent_each : (sent_in 0 start resent ≡ 1) × (sent_in 1 start resent ≡ 1)
unfolding lifecycle_run sent_in
one_sent_each = (refl, refl)

run-create_example :
    (after_sending.attempt_id ≡ "a1")
    × (after_sending.work_key ≡ "w1")
    × (after_sending.candidate ≡ work)
    × (after_sending.event_sequence ≡ length sent)
run-create_example = run-create "a1" "w1" work sent after_sending sent-run

abbrev confirmed_state : AttemptState
confirmed_state = record after_sending {
  event_sequence = 9;
  next_step = some postcondition;
  confirmed_slot = some 120;
}

Accepts-step_iff_example :
    Accepts after_sending (step_succeeded confirm (confirmed_at 120))
    ↔ ((after_sending.next_step ≡ some confirm) × IsSupplied confirm (confirmed_at 120))
Accepts-step_iff_example =
    Accepts-step_iff confirm (confirmed_at 120) after_sending after_sending-IsCoherent

abbrev journaling : AttemptState
journaling = record executed_end {
  phase = outcome_pending_journal;
  next_step = some journal;
  event_sequence = 10;
}

abbrev journaling_events : List LifecycleEvent
journaling_events =
    sent
    ++ step_succeeded confirm (confirmed_at 120) ∷ step_succeeded postcondition no_metadata ∷ []

journaling-IsCoherent : IsCoherent journaling
unfolding lifecycle_run
journaling-IsCoherent = run-IsCoherent "a1" "w1" work journaling_events journaling refl

outcome_final_example :
    ((m : StepMetadata) × (step_succeeded journal no_metadata ≡ step_succeeded journal m))
    × (journaling.phase ≡ outcome_pending_journal)
    × (executed_end.phase ≡ complete)
    × (executed_end.outcome ≡ executed_end.outcome)
unfolding lifecycle_run
outcome_final_example =
    outcome_final (step_succeeded journal no_metadata) journaling executed_end _
      journaling-IsCoherent refl refl

no_missing_record_example :
    (missing_confirmation_slot ≢ missing_signature) × (missing_confirmation_slot ≢ outcome_missing)
unfolding lifecycle_run
no_missing_record_example =
    no_missing_record (step_succeeded confirm no_metadata) after_sending missing_confirmation_slot
      after_sending-IsCoherent refl

abbrev waiting : AttemptState
waiting = record after_sending { event_sequence = 9; phase = awaiting_reconciliation }

abbrev renewed : AttemptState
renewed = record start { event_sequence = 10; signing_generation = 1; next_step = some revalidate }

apply-generation_example :
    ((Renewal waiting submitted_not_landed_finalized → ⊥)
      × (renewed.signing_generation ≡ waiting.signing_generation))
    ⊎ (Renewal waiting submitted_not_landed_finalized
        × (renewed.signing_generation ≡ waiting.signing_generation + 1)
        × (renewed.phase ≡ active)
        × (renewed.next_step ≡ some revalidate)
        × (renewed.signature ≡ none)
        × (renewed.blockhash ≡ none)
        × (renewed.confirmed_slot ≡ none))
unfolding lifecycle_run
apply-generation_example = apply-generation submitted_not_landed_finalized waiting renewed refl

signature_kept_example :
    (waiting.signature ≡ after_sending.signature)
    ⊎ ((blockhash_expired after_submit_unknown ≡ submitted_not_landed_finalized)
        × (after_sending.phase ≡ awaiting_reconciliation))
unfolding lifecycle_run
signature_kept_example =
    signature_kept (blockhash_expired after_submit_unknown) after_sending waiting refl refl

can_complete_example :
    (after_sending.phase ≡ complete)
    ⊎ (((after_sending.phase ≡ outcome_pending_journal)
          × ((m : StepMetadata)
              → Completes after_sending (step_succeeded journal m ∷ []) after_sending.outcome))
        ⊎ (((after_sending.phase ≡ active) ⊎ (after_sending.phase ≡ awaiting_reconciliation))
            × FailsToEnd after_sending))
can_complete_example = can_complete after_sending after_sending-IsCoherent
