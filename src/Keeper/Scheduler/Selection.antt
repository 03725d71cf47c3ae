-- ===== src/Keeper/Scheduler/Selection.antt =====
-- `popNext` hands out a best pending candidate, and `enqueue` keeps the better of two (index.ts of
-- keeper-core).
use dusk_keepers.Prelude.{
  ◌≡◌, ◌≢◌, refl, ap, ◌∙◌, inl, inr, ◌⊎◌, Option-cases, Bool-cases, true, false, none, some, List,
  [], ◌∷◌, String, str_eq, eq_iff, arith,
}
use mathlib.Core.List.{Memᴰ}
use dusk_keepers.Prelude.Maps
use dusk_keepers.Prelude.Maps.{get-put}
use dusk_keepers.Keeper.Candidate.{CandidateIntent}
use dusk_keepers.Keeper.Scheduler.{
  Collation, Scheduler, beats, enqueue, select, pop_next, mark_in_flight, EnqueueResult, accepted,
  superseded, conflict_locked, revision_mismatch,
}
use dusk_keepers.Keeper.Scheduler.Ranking.{
  AtMost, AtMost-trans, AtMost-refl, beats-AtMost, not-beats-AtMost,
}
use dusk_keepers.Keeper.Scheduler.Invariant.{Pending, Fits, IsValid}

module _ (host : Collation) where
  -- No pending candidate is better than `best`.
  abbrev pub Tops : CandidateIntent → Pending → Type 0
  Tops best [] = Unit {0}
  Tops best ((k, c) ∷ m) = AtMost host c best × Tops best m

  -- The entry that the loop ends with: it started there, or it is pending.
  pub record Chosen (start : CandidateIntent) (m : Pending) (best : CandidateIntent) : Type 0 where
    pub no_worse : AtMost host start best
    pub tops : Tops best m
    pub source : (best ≡ start) ⊎ ((k : String) × Memᴰ (k, best) m)

  select-Chosen :
      (start : CandidateIntent) (m : Pending)
      → (best : CandidateIntent) × (select host (some start) m ≡ some best) × Chosen start m best
  unfolding select
  select-Chosen start [] =
      (start, refl, record { no_worse = AtMost-refl host start; tops = tt; source = inl refl })
  select-Chosen start ((k, c) ∷ m) = elim (Bool-cases (beats host c start)) [
    | inl wins ↦
        let (best, e, v) = select-Chosen c m in
        (
          best,
          rw (wins, select) e,
          record {
            no_worse = AtMost-trans host start c best (beats-AtMost host c start wins) v.no_worse;
            tops = (v.no_worse, v.tops);
            source = inr (elim v.source [
              | inl same ↦ (k, Memᴰ.head (rw same))
              | inr (j, inside) ↦ (j, Memᴰ.tail inside)
            ]);
          },
        )
    | inr loses ↦
        let (best, e, v) = select-Chosen start m in
        (
          best,
          rw (loses, select) e,
          record {
            no_worse = v.no_worse;
            tops = (
              AtMost-trans host c start best (not-beats-AtMost host c start loses) v.no_worse,
              v.tops,
            );
            source = elim v.source [
              | inl same ↦ inl same
              | inr (j, inside) ↦ inr (j, Memᴰ.tail inside)
            ];
          },
        )
  ]

  Memᴰ-Fits :
      (revision : String) (flight : List String) (m : Pending) {k : String} {c : CandidateIntent}
      → Fits revision flight m
      → Memᴰ (k, c) m
      → c.conflict_key ≡ k
  Memᴰ-Fits revision flight [] f inside = elim inside [ ]
  Memᴰ-Fits revision flight ((j, w) ∷ m) f (Memᴰ.head e) = cc
  Memᴰ-Fits revision flight (x ∷ m) f (Memᴰ.tail inside) = Memᴰ-Fits revision flight m f.4 inside

  -- A pending entry that no other pending entry beats.
  pub record IsBest (s : Scheduler) (best : CandidateIntent) : Type 0 where
    pub stored : Memᴰ (best.conflict_key, best) s.pending
    pub tops : Tops best s.pending

  IsBest-of :
      (s : Scheduler)
      → IsValid s
      → (k : String) (c : CandidateIntent) (m : Pending) → s.pending ≡ (k, c) ∷ m
      → (best : CandidateIntent) × IsBest s best × (select host none s.pending ≡ some best)
  unfolding select
  IsBest-of s v k c m e =
      let (best, chosen, w) = select-Chosen c m in
      let inside : (j : String) × Memᴰ (j, best) s.pending = rw e (elim w.source [
        | inl same ↦ (k, Memᴰ.head (rw same))
        | inr (j, later) ↦ (j, Memᴰ.tail later)
      ]) in
      let key = Memᴰ-Fits s.protocol_revision s.in_flight s.pending v inside.1 in
      (
        best,
        record { stored = rw key inside.1; tops = rw e (w.no_worse, w.tops) },
        rw (e, select) chosen,
      )

  -- `popNext` on a valid scheduler: with nothing pending it returns nothing and changes nothing.
  -- Otherwise it returns a pending candidate that no pending candidate beats, and moves its conflict
  -- key from the pending ones to those in flight.
  pub pop_next_lem :
      (s : Scheduler)
      → IsValid s
      → ((s.pending ≡ []) × (pop_next host s ≡ (s, none)))
        ⊎ ((best : CandidateIntent) × IsBest s best
            × (pop_next host s ≡ (mark_in_flight s best.conflict_key, some best)))
  unfolding pop_next mark_in_flight select
  pop_next_lem s v = split s.pending refl
    where
      nothing : select host none [] ≡ none
      nothing = refl

      split :
          (m : Pending)
          → s.pending ≡ m
          → ((s.pending ≡ []) × (pop_next host s ≡ (s, none)))
            ⊎ ((best : CandidateIntent) × IsBest s best
                × (pop_next host s ≡ (mark_in_flight s best.conflict_key, some best)))
      split [] e = inl (e, rw (ap (select host none) e ∙ nothing, pop_next))
      split ((k, c) ∷ m) e =
          let (best, v', chosen) = IsBest-of s v k c m e in inr (best, v', rw (chosen, pop_next))

  -- What the map holds for the candidate's key after an enqueue that was not turned away.
  pub record Keeps (s : Scheduler) (c : CandidateIntent) (after : Scheduler × EnqueueResult)
      (d : CandidateIntent) : Type 0 where
    pub holds : Maps.get c.conflict_key after.0.pending ≡ some d
    pub source :
        ((after.1 ≡ accepted) × (d ≡ c))
        ⊎ ((after.1 ≡ superseded) × (Maps.get c.conflict_key s.pending ≡ some d))
    pub not_below_new : AtMost host c d
    pub not_below_old :
        (old : CandidateIntent) → Maps.get c.conflict_key s.pending ≡ some old → AtMost host old d
    pub others :
        (k : String) → k ≢ c.conflict_key → Maps.get k after.0.pending ≡ Maps.get k s.pending

  module _ (s : Scheduler) (c : CandidateIntent) (same : c.protocol_revision ≡ s.protocol_revision)
      (free : Maps.contains c.conflict_key s.in_flight ≡ false) where
    stores :
        ((old : CandidateIntent) → Maps.get c.conflict_key s.pending ≡ some old → AtMost host old c)
        → Keeps s c (record s { pending = Maps.put c.conflict_key c s.pending }, accepted) c
    stores no_better = record {
      holds = ground (
        arith,
        get-put c.conflict_key c.conflict_key c s.pending,
        eq_iff c.conflict_key c.conflict_key,
      );
      source = inl (refl, refl);
      not_below_new = AtMost-refl host c;
      not_below_old = no_better;
      others =
          λ k other. ground (arith, get-put c.conflict_key k c s.pending, eq_iff c.conflict_key k);
    }

    -- A candidate of the right revision whose key is not in flight: afterwards the key holds the
    -- candidate (`accepted`) or what it held before (`superseded`), and that is no worse than either
    -- of the two. All other keys keep what they hold.
    pub enqueue-Keeps : (d : CandidateIntent) × Keeps s c (enqueue host s c) d
    unfolding enqueue
    enqueue-Keeps = elim (Option-cases (Maps.get c.conflict_key s.pending)) [
      | inl nothing ↦ (c, rw (right, free, nothing, enqueue) (stores (λ old e. cc)))
      | inr (old, e) ↦ elim (Bool-cases (beats host c old)) [
        | inl wins ↦ (
          c,
          rw (right, free, e, wins, enqueue)
              (stores (λ other e'.
                let one : old ≡ other = cc in rw (← one) (beats-AtMost host c old wins))),
        )
        | inr loses ↦ (
          old,
          rw (right, free, e, loses, enqueue)
              (record {
                holds = e;
                source = inr (refl, e);
                not_below_new = not-beats-AtMost host c old loses;
                not_below_old =
                    λ other e'. let one : old ≡ other = cc in rw (← one) (AtMost-refl host old);
                others = λ k other. refl;
              }),
        )
      ]
    ]
      where
        right : str_eq c.protocol_revision s.protocol_revision ≡ true
        right = (eq_iff _ _).1 same

  -- A candidate that is turned away, of another revision or with its key in flight, changes nothing.
  pub enqueue_refused :
      (s : Scheduler) (c : CandidateIntent)
      → ((c.protocol_revision ≢ s.protocol_revision) → enqueue host s c ≡ (s, revision_mismatch))
        × (c.protocol_revision ≡ s.protocol_revision
            → Maps.contains c.conflict_key s.in_flight ≡ true
            → enqueue host s c ≡ (s, conflict_locked))
  unfolding enqueue
  enqueue_refused s c = (
    λ other. ground (arith, eq_iff c.protocol_revision s.protocol_revision),
    λ same busy. ground (arith, eq_iff c.protocol_revision s.protocol_revision),
  )
