-- ===== src/Keeper/Scheduler/Exclusion.antt =====
-- A conflict key in flight is handed out to nobody else (index.ts of keeper-core).
use dusk_keepers.Prelude.{
  ◌≡◌, ◌≢◌, ap, inl, inr, true, false, Option, none, some, List, [], ◌∷◌, String, eq_iff, arith,
}
use mathlib.Core.List.{Memᴰ}
use dusk_keepers.Prelude.Maps
use dusk_keepers.Prelude.Maps.{contains-add, contains-discard_other}
use dusk_keepers.Keeper.Candidate.{CandidateIntent}
use dusk_keepers.Keeper.Scheduler.{Collation, Scheduler, enqueue, pop_next, mark_in_flight, finish}
use dusk_keepers.Keeper.Scheduler.Invariant.{
  Pending, Fits, IsValid, Call, enqueues, pops, marks, finishes, step, after, handed_out,
  step-IsValid,
}
use dusk_keepers.Keeper.Scheduler.Selection.{pop_next_lem}

-- None of the calls finishes the work on the key.
abbrev pub Unfinished : String → List Call → Type 0
Unfinished k [] = Unit {0}
Unfinished k (enqueues c ∷ cs) = Unfinished k cs
Unfinished k (pops ∷ cs) = Unfinished k cs
Unfinished k (marks j ∷ cs) = Unfinished k cs
Unfinished k (finishes j ∷ cs) = (j ≢ k) × Unfinished k cs

abbrev pub Avoids : String → List CandidateIntent → Type 0
Avoids k [] = Unit {0}
Avoids k (c ∷ cs) = (c.conflict_key ≢ k) × Avoids k cs

-- A key that is in flight is not pending.
Memᴰ-free :
    (revision : String) (flight : List String) (m : Pending) {k : String} {c : CandidateIntent}
    → Fits revision flight m
    → Memᴰ (k, c) m
    → Maps.contains k flight ≡ false
Memᴰ-free revision flight [] f inside = elim inside [ ]
Memᴰ-free revision flight ((j, w) ∷ m) {k} f (Memᴰ.head e) =
    let key : k ≡ j = ap (λ p. p.0) e in rw key f.2
Memᴰ-free revision flight (x ∷ m) f (Memᴰ.tail inside) = Memᴰ-free revision flight m f.4 inside

module _ (host : Collation) (k : String) where
  abbrev HandsOther : Option CandidateIntent → Type 0
  HandsOther none = Unit {0}
  HandsOther (some c) = c.conflict_key ≢ k

  abbrev Holds : Scheduler × Option CandidateIntent → Type 0
  Holds r = (Maps.contains k r.0.in_flight ≡ true) × HandsOther r.1

  pop-Holds :
      (s : Scheduler) → IsValid s → Maps.contains k s.in_flight ≡ true → Holds (pop_next host s)
  unfolding mark_in_flight
  pop-Holds s v busy = elim (pop_next_lem host s v) [
    | inl (empty, e) ↦ rw e (busy, tt)
    | inr (best, b, e) ↦ rw e (
      rw (contains-add best.conflict_key k s.in_flight) (ground arith),
      λ same. ground (arith, Memᴰ-free s.protocol_revision s.in_flight s.pending v b.stored),
    )
  ]

  pub Holds-step :
      (s : Scheduler) (c : Call)
      → IsValid s
      → Maps.contains k s.in_flight ≡ true
      → Unfinished k (c ∷ [])
      → Holds (step host s c)
  unfolding step enqueue mark_in_flight finish
  Holds-step s (enqueues c) v busy u = ground arith
  Holds-step s pops v busy u = pop-Holds s v busy
  Holds-step s (marks j) v busy u = ground (arith, contains-add j k s.in_flight)
  Holds-step s (finishes j) v busy u =
      ground (arith, contains-discard_other j k s.in_flight, eq_iff j k)

  still-Unfinished :
      (c : Call) (cs : List Call) → Unfinished k (c ∷ cs) → Unfinished k (c ∷ []) × Unfinished k cs
  still-Unfinished (enqueues c) cs u = (tt, u)
  still-Unfinished pops cs u = (tt, u)
  still-Unfinished (marks j) cs u = (tt, u)
  still-Unfinished (finishes j) cs u = ((u.0, tt), u.1)

  -- On a valid scheduler, while a conflict key is in flight, no sequence of calls that does not finish
  -- it hands out a candidate of that key, and the key stays in flight.
  pub exclusive :
      (s : Scheduler) (cs : List Call)
      → IsValid s
      → Maps.contains k s.in_flight ≡ true
      → Unfinished k cs
      → Avoids k (handed_out host s cs) × (Maps.contains k (after host s cs).in_flight ≡ true)
  unfolding handed_out after
  exclusive s [] v busy u = (tt, busy)
  exclusive s (c ∷ cs) v busy u =
      let (u1, us) = still-Unfinished c cs u in
      let (busy', other) = Holds-step s c v busy u1 in
      let rest = exclusive (step host s c).0 cs (step-IsValid host s c v) busy' us in
      (cons_avoids (step host s c).1 (handed_out host (step host s c).0 cs) other rest.0, rest.1)
    where
      cons_avoids :
          (o : Option CandidateIntent) (l : List CandidateIntent)
          → HandsOther o
          → Avoids k l
          → Avoids k (elim o [ none ↦ l | some candidate ↦ candidate ∷ l ])
      cons_avoids none l other rest = rest
      cons_avoids (some c) l other rest = (other, rest)
