-- ===== src/Keeper/Lifecycle/Success.antt =====
-- The run of an attempt in which every step succeeds (lifecycle.ts).
use dusk_keepers.Prelude.{
  ℕ, ◌≡◌, ◌≢◌, false, none, some, List, [], ◌∷◌, String, arith, ok, str_eq, eq_iff,
}
use dusk_keepers.Keeper.Candidate.{CandidateIntent, executed, confirmed}
use dusk_keepers.Keeper.Lifecycle.{
  discover, revalidate, evaluate, policy, simulate, lease, sign, submit, confirm, postcondition,
  journal, AttemptState, complete, LifecycleEvent, step_succeeded, StepMetadata,
  create_attempt_state, apply_lifecycle_event,
}
use dusk_keepers.Keeper.Lifecycle.Traces.{run}

abbrev pub no_metadata : StepMetadata
no_metadata = record {
  blockhash = none;
  last_valid_block_height = none;
  signature = none;
  slot = none;
}

abbrev pub signed_with : String → ℕ → String → StepMetadata
signed_with hash height signature = record {
  blockhash = some hash;
  last_valid_block_height = some height;
  signature = some signature;
  slot = none;
}

abbrev pub confirmed_at : ℕ → StepMetadata
confirmed_at slot = record no_metadata { slot = some slot }

abbrev pub successes : String → ℕ → String → ℕ → List LifecycleEvent
successes hash height signature slot =
    step_succeeded discover no_metadata
    ∷ step_succeeded revalidate no_metadata
    ∷ step_succeeded evaluate no_metadata
    ∷ step_succeeded policy no_metadata
    ∷ step_succeeded simulate no_metadata
    ∷ step_succeeded lease no_metadata
    ∷ step_succeeded sign (signed_with hash height signature)
    ∷ step_succeeded submit no_metadata
    ∷ step_succeeded confirm (confirmed_at slot)
    ∷ step_succeeded postcondition no_metadata
    ∷ step_succeeded journal no_metadata
    ∷ []

-- The state that such a run ends in.
abbrev pub executed_state :
    String → String → CandidateIntent → String → ℕ → String → ℕ → AttemptState
executed_state id key c hash height signature slot = record {
  schema_version = 1;
  attempt_id = id;
  attempt_number = 1;
  work_key = key;
  candidate = c;
  phase = complete;
  next_step = none;
  event_sequence = 11;
  signing_generation = 0;
  blockhash = some hash;
  last_valid_block_height = some height;
  signature = some signature;
  confirmed_slot = some slot;
  outcome = some (record {
    attempt_id = id;
    attempt_number = 1;
    work_key = key;
    candidate_id = c.candidate_id;
    job_kind = c.job_kind;
    conflict_key = c.conflict_key;
    status = executed;
    reason_code = confirmed;
    race_code = none;
    observed_slot = c.observed_slot;
    finalized_slot = some slot;
    protocol_revision = c.protocol_revision;
    signature = some signature;
    signing_generation = 0;
  });
  created_at = none;
  updated_at = none;
}

-- With a blockhash and a signature that are not empty, the successes of the eleven steps in order
-- are all accepted, and complete the attempt as executed, with the slot that confirmed it.
pub run-successes :
    (id key : String) (c : CandidateIntent) (hash : String) (height : ℕ) (signature : String)
    (slot : ℕ)
    → hash ≢ ""
    → signature ≢ ""
    → run (create_attempt_state id key c) (successes hash height signature slot)
      ≡ ok (executed_state id key c hash height signature slot)
unfolding run create_attempt_state apply_lifecycle_event
run-successes id key c hash height signature slot has_hash has_signature =
    rw (given hash has_hash, given signature has_signature) (rw (given signature has_signature))
  where
    given : (s : String) → s ≢ "" → str_eq s "" ≡ false
    given s h = ground (arith, eq_iff s "")
