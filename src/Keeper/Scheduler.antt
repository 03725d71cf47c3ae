-- ===== src/Keeper/Scheduler.antt =====
-- The Scheduler of index.ts in keeper-core: the best pending candidate of each conflict key, and the
-- conflict keys whose work is in flight. `localeCompare` belongs to the host: it is a parameter.
pub mod Ranking
pub mod Invariant
pub mod Selection
pub mod Exclusion
pub mod Draining
use dusk_keepers.Prelude.{
  ℕ, ◌≡◌, ◌↔◌, Bool, true, false, not, Option, none, some, List, [], ◌∷◌, String, str_eq, length,
  if◌then◌else◌,
}
use dusk_keepers.Prelude.Maps
use dusk_keepers.Prelude.Int.{ℤ, pos, negsuc, sub_ℕ, ◌≤ℤ◌, ltb_ℤ}
use dusk_keepers.Keeper.Candidate.{CandidateIntent, priorities}

-- What the host's `localeCompare` promises: its sign is a total preorder.
pub record Collation : Type 0 where
  pub locale_compare : String → String → ℤ
  pub flip : (a b : String) → (locale_compare a b ≤ℤ pos 0) ↔ (pos 0 ≤ℤ locale_compare b a)
  pub chain :
      (a b c : String)
      → locale_compare a b ≤ℤ pos 0
      → locale_compare b c ≤ℤ pos 0
      → locale_compare a c ≤ℤ pos 0

pub data EnqueueResult : Type 0 where
  accepted superseded conflict_locked revision_mismatch : EnqueueResult

pub record Scheduler : Type 0 where
  pub protocol_revision : String
  pub pending : List (String × CandidateIntent)
  pub in_flight : List String

unfoldable pub new : String → Scheduler
new revision = record { protocol_revision = revision; pending = []; in_flight = [] }

-- `a || b` on numbers
abbrev pub or_else : ℤ → ℤ → ℤ
or_else (pos ℕ.zero) b = b
or_else a b = a

unfoldable pub mark_in_flight : Scheduler → String → Scheduler
mark_in_flight s key = record s {
  pending = Maps.delete key s.pending;
  in_flight = Maps.add key s.in_flight;
}

module _ (host : Collation) where
  unfoldable pub compare_candidates : CandidateIntent → CandidateIntent → ℤ
  compare_candidates left right =
      or_else (sub_ℕ (priorities left.job_kind) (priorities right.job_kind)) (
        or_else (sub_ℕ left.observed_slot right.observed_slot)
          (host.locale_compare left.candidate_id right.candidate_id))

  -- `compareCandidates(left, right) > 0`
  abbrev pub beats : CandidateIntent → CandidateIntent → Bool
  beats left right = ltb_ℤ (pos 0) (compare_candidates left right)

  abbrev replaces : CandidateIntent → Option CandidateIntent → Bool
  replaces candidate none = true
  replaces candidate (some current) = beats candidate current

  unfoldable pub enqueue : Scheduler → CandidateIntent → Scheduler × EnqueueResult
  enqueue s candidate =
      if not (str_eq candidate.protocol_revision s.protocol_revision)
      then (s, revision_mismatch)
      else if Maps.contains candidate.conflict_key s.in_flight
      then (s, conflict_locked)
      else if replaces candidate (Maps.get candidate.conflict_key s.pending)
      then (record s { pending = Maps.put candidate.conflict_key candidate s.pending }, accepted)
      else (s, superseded)

  -- the loop of `popNext`
  unfoldable pub select :
      Option CandidateIntent → List (String × CandidateIntent) → Option CandidateIntent
  select selected [] = selected
  select none ((k, candidate) ∷ rest) = select (some candidate) rest
  select (some selected) ((k, candidate) ∷ rest) =
      select (some (if beats candidate selected then candidate else selected)) rest

  unfoldable pub pop_next : Scheduler → Scheduler × Option CandidateIntent
  pop_next s = elim (select none s.pending) [
    | none ↦ (s, none)
    | some selected ↦ (
      record s {
        pending = Maps.delete selected.conflict_key s.pending;
        in_flight = Maps.add selected.conflict_key s.in_flight;
      },
      some selected,
    )
  ]

-- Set.delete says whether the key was there.
unfoldable pub finish : Scheduler → String → Scheduler × Bool
finish s key =
    (record s { in_flight = Maps.discard key s.in_flight }, Maps.contains key s.in_flight)

abbrev pub pending_count : Scheduler → ℕ
pending_count s = length s.pending
