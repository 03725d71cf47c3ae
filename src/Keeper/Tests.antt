-- ===== src/Keeper/Tests.antt =====
-- Runs of the scheduler and of the attempt's state machine, as in conformance.test.ts, and the
-- theorems about them at concrete inputs.
use Prim.Native.String.{count}
use mathlib.Core.List.{Perm}
use dusk_keepers.Prelude.{
  ℕ, ◌≡◌, ◌≢◌, ◌⊎◌, refl, true, none, some, List, [], ◌∷◌, String, arith, ◌++◌, eq_iff,
}
use dusk_keepers.Prelude.Maps
use dusk_keepers.Prelude.Int.{sub_ℕ}
use dusk_keepers.Keeper.Candidate.{
  JobKind, stop_loss, take_profit, hlp_recovery, CandidateIntent, priorities,
}
use dusk_keepers.Keeper.Scheduler.{
  Collation, Scheduler, new, enqueue, pop_next, select, finish, mark_in_flight, compare_candidates,
}
use dusk_keepers.Keeper.Scheduler.Invariant.{
  IsValid, Call, enqueues, pops, finishes, step, after, handed_out, after-new-IsValid,
}
use dusk_keepers.Keeper.Scheduler.Selection.{IsBest, pop_next_lem, Keeps, enqueue-Keeps}
use dusk_keepers.Keeper.Scheduler.Exclusion.{Avoids, exclusive}
use dusk_keepers.Keeper.Scheduler.Draining.{candidates, drain, Descends, drain_lem}

-- A host whose collation ranks the texts by their lengths.
by_length : Collation
by_length = record {
  locale_compare = λ a b. sub_ℕ (count a) (count b);
  flip = λ a b. ground arith;
  chain = λ a b c. ground arith;
}

abbrev candidate : String → JobKind → String → ℕ → CandidateIntent
candidate id kind key slot = record {
  candidate_id = id;
  job_kind = kind;
  conflict_key = key;
  market = "market";
  target = "target";
  observed_slot = slot;
  protocol_revision = "r1";
  expected_state_hash = "00";
}

abbrev profit : CandidateIntent
profit = candidate "profit" take_profit "position:1" 100

abbrev loss : CandidateIntent
loss = candidate "loss" stop_loss "position:1" 90

abbrev rescue : CandidateIntent
rescue = candidate "rescue" hlp_recovery "vault:7" 80

abbrev three : List Call
three = enqueues profit ∷ enqueues rescue ∷ enqueues loss ∷ []

abbrev scheduler : Scheduler
scheduler = after by_length (new "r1") three

scheduler_run : Unit {0}
unfolding after step enqueue pop_next select finish mark_in_flight new compare_candidates priorities
    by_length drain handed_out Maps.get Maps.put Maps.delete Maps.has Maps.contains Maps.add
    Maps.discard
scheduler_run = tt

-- The stop loss supersedes the profit on the same position, and keeps its place.
scheduler_keeps_better : candidates scheduler.pending ≡ loss ∷ rescue ∷ []
unfolding scheduler_run
scheduler_keeps_better = refl

drain_order : drain by_length 3 scheduler ≡ rescue ∷ loss ∷ []
unfolding scheduler_run
drain_order = refl

after-new-IsValid_example : IsValid (after by_length (new "r1") (three ++ pops ∷ []))
after-new-IsValid_example = after-new-IsValid by_length "r1" (three ++ pops ∷ [])

scheduler-IsValid : IsValid scheduler
scheduler-IsValid = after-new-IsValid by_length "r1" three

pop_next_lem_example :
    ((scheduler.pending ≡ []) × (pop_next by_length scheduler ≡ (scheduler, none)))
    ⊎ ((best : CandidateIntent) × IsBest by_length scheduler best
        × (pop_next by_length scheduler ≡ (mark_in_flight scheduler best.conflict_key, some best)))
pop_next_lem_example = pop_next_lem by_length scheduler scheduler-IsValid

enqueue-Keeps_example :
    (d : CandidateIntent) × Keeps by_length scheduler profit (enqueue by_length scheduler profit) d
unfolding scheduler_run
enqueue-Keeps_example = enqueue-Keeps by_length scheduler profit refl refl

abbrev busy : Scheduler
busy = after by_length (new "r1") (three ++ pops ∷ [])

abbrev later : List Call
later = enqueues rescue ∷ pops ∷ finishes "position:1" ∷ pops ∷ []

exclusive_example :
    Avoids "vault:7" (handed_out by_length busy later)
    × (Maps.contains "vault:7" (after by_length busy later).in_flight ≡ true)
unfolding scheduler_run
exclusive_example =
    exclusive by_length "vault:7" busy later (after-new-IsValid by_length "r1" (three ++ pops ∷ []))
      refl (position_other, tt)
  where
    position_other : ◌≢◌ {A = String} "position:1" "vault:7"
    position_other = ground (arith, eq_iff "position:1" "vault:7")

drain_lem_example :
    Perm (candidates scheduler.pending) (drain by_length 3 scheduler)
    × Descends by_length (drain by_length 3 scheduler)
unfolding scheduler_run
drain_lem_example = drain_lem by_length 3 scheduler scheduler-IsValid (omega arith)
