-- ===== src/Keeper/Scheduler/Invariant.antt =====
-- What every sequence of calls keeps true of a Scheduler (index.ts of keeper-core).
use dusk_keepers.Prelude.{
  ◌≡◌, refl, inl, inr, Option-cases, false, Option, none, some, List, [], ◌∷◌, String, eq_iff,
  arith,
}
use dusk_keepers.Prelude.Maps
use dusk_keepers.Prelude.Maps.{has-put, not-has-delete, contains-add, not-contains-discard}
use dusk_keepers.Keeper.Candidate.{CandidateIntent}
use dusk_keepers.Keeper.Scheduler.{
  Collation, Scheduler, new, enqueue, select, pop_next, mark_in_flight, finish,
}

abbrev pub Pending : Type 0
Pending = List (String × CandidateIntent)

-- Every pending candidate stands under its own conflict key, once, is of the scheduler's revision,
-- and nothing of its key is in flight.
abbrev pub Fits : String → List String → Pending → Type 0
Fits revision flight [] = Unit {0}
Fits revision flight ((k, c) ∷ m) =
    (c.conflict_key ≡ k)
    × (c.protocol_revision ≡ revision)
    × (Maps.contains k flight ≡ false)
    × (Maps.has k m ≡ false)
    × Fits revision flight m

abbrev pub IsValid : Scheduler → Type 0
IsValid s = Fits s.protocol_revision s.in_flight s.pending

module _ (revision : String) where
  Fits-put :
      (flight : List String) (c : CandidateIntent) (m : Pending)
      → Fits revision flight m
      → c.protocol_revision ≡ revision
      → Maps.contains c.conflict_key flight ≡ false
      → Fits revision flight (Maps.put c.conflict_key c m)
  unfolding Maps.put Maps.has
  Fits-put flight c [] f same free = (refl, same, free, refl, tt)
  Fits-put flight c ((j, w) ∷ m) f same free = ground (
    arith,
    eq_iff j c.conflict_key,
    has-put c.conflict_key j c m,
    eq_iff c.conflict_key j,
    Fits-put flight c m,
  )

  Fits-delete :
      (flight : List String) (k : String) (m : Pending)
      → Fits revision flight m
      → Fits revision flight (Maps.delete k m)
  unfolding Maps.delete
  Fits-delete flight k [] f = tt
  Fits-delete flight k ((j, w) ∷ m) f = ground (arith, not-has-delete k j m, Fits-delete flight k m)

  pub has-delete_self :
      (flight : List String) (k : String) (m : Pending)
      → Fits revision flight m
      → Maps.has k (Maps.delete k m) ≡ false
  unfolding Maps.delete Maps.has
  has-delete_self flight k [] f = refl
  has-delete_self flight k ((j, w) ∷ m) f = ground (arith, eq_iff j k, has-delete_self flight k m)

  Fits-add :
      (flight : List String) (k : String) (m : Pending)
      → Fits revision flight m
      → Maps.has k m ≡ false
      → Fits revision (Maps.add k flight) m
  unfolding Maps.has
  Fits-add flight k [] f h = tt
  Fits-add flight k ((j, w) ∷ m) f h =
      ground (arith, eq_iff j k, eq_iff k j, contains-add k j flight, Fits-add flight k m)

  Fits-discard :
      (flight : List String) (k : String) (m : Pending)
      → Fits revision flight m
      → Fits revision (Maps.discard k flight) m
  Fits-discard flight k [] f = tt
  Fits-discard flight k ((j, w) ∷ m) f =
      ground (arith, not-contains-discard k j flight, Fits-discard flight k m)

-- The calls that change a scheduler.
pub data Call : Type 0 where
  enqueues : CandidateIntent → Call
  pops : Call
  marks : String → Call
  finishes : String → Call

-- Locking a key: its pending candidate goes, and it counts as in flight.
pub lock-IsValid :
    (s : Scheduler) (k : String)
    → IsValid s
    → Fits s.protocol_revision (Maps.add k s.in_flight) (Maps.delete k s.pending)
lock-IsValid s k v =
    Fits-add s.protocol_revision s.in_flight k (Maps.delete k s.pending)
      (Fits-delete s.protocol_revision s.in_flight k s.pending v)
      (has-delete_self s.protocol_revision s.in_flight k s.pending v)

module _ (host : Collation) where
  -- A call, with the candidate that it hands out.
  unfoldable pub step : Scheduler → Call → Scheduler × Option CandidateIntent
  step s (enqueues c) = ((enqueue host s c).0, none)
  step s pops = pop_next host s
  step s (marks k) = (mark_in_flight s k, none)
  step s (finishes k) = ((finish s k).0, none)

  unfoldable pub after : Scheduler → List Call → Scheduler
  after s [] = s
  after s (c ∷ cs) = after (step s c).0 cs

  -- The candidates that a sequence of calls hands out, in order.
  unfoldable pub handed_out : Scheduler → List Call → List CandidateIntent
  handed_out s [] = []
  handed_out s (c ∷ cs) =
      let rest = handed_out (step s c).0 cs in
      elim (step s c).1 [ none ↦ rest | some candidate ↦ candidate ∷ rest ]

  pub enqueue-IsValid :
      (s : Scheduler) (c : CandidateIntent) → IsValid s → IsValid (enqueue host s c).0
  unfolding enqueue
  enqueue-IsValid s c v = ground (
    arith,
    eq_iff c.protocol_revision s.protocol_revision,
    Fits-put s.protocol_revision s.in_flight c s.pending v,
  )

  pub pop_next-IsValid : (s : Scheduler) → IsValid s → IsValid (pop_next host s).0
  unfolding pop_next
  pop_next-IsValid s v = elim (Option-cases (select host none s.pending)) [
    | inl e ↦ rw (e, pop_next) v
    | inr (c, e) ↦ rw (e, pop_next) (lock-IsValid s c.conflict_key v)
  ]

  pub step-IsValid : (s : Scheduler) (c : Call) → IsValid s → IsValid (step s c).0
  unfolding step mark_in_flight finish
  step-IsValid s (enqueues c) v = enqueue-IsValid s c v
  step-IsValid s pops v = pop_next-IsValid s v
  step-IsValid s (marks k) v = lock-IsValid s k v
  step-IsValid s (finishes k) v = Fits-discard s.protocol_revision s.in_flight k s.pending v

  pub after-IsValid : (s : Scheduler) (cs : List Call) → IsValid s → IsValid (after s cs)
  unfolding after
  after-IsValid s [] v = v
  after-IsValid s (c ∷ cs) v = after-IsValid (step s c).0 cs (step-IsValid s c v)

  -- After any calls on a new scheduler each pending candidate stands under its own conflict key and
  -- under no other, no key is pending twice, all are of the scheduler's revision, and no key is
  -- pending and in flight at once.
  pub after-new-IsValid : (revision : String) (cs : List Call) → IsValid (after (new revision) cs)
  unfolding new
  after-new-IsValid revision cs = after-IsValid (new revision) cs tt
