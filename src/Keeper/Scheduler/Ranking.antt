-- ===== src/Keeper/Scheduler/Ranking.antt =====
-- `compareCandidates` ranks candidates by a total preorder (index.ts of keeper-core).
use dusk_keepers.Prelude.{ℕ, ◌<◌, ◌≡◌, ◌⊎◌, ◌↔◌, inl, inr, true, false, String, arith}
use dusk_keepers.Prelude.Int.{ℤ, pos, sub_ℕ, ◌≤ℤ◌, ≤ℤ_total}
use dusk_keepers.Keeper.Candidate.{CandidateIntent, priorities}
use dusk_keepers.Keeper.Scheduler.{Collation, or_else, compare_candidates, beats}

module _ (host : Collation) where
  -- `left` is no better than `right`.
  abbrev pub AtMost : CandidateIntent → CandidateIntent → Type 0
  AtMost left right = compare_candidates host left right ≤ℤ pos 0

  -- The order that the comparison stands for: by priority, then by slot, then by the host's order of
  -- the ids.
  abbrev pub Precedes : CandidateIntent → CandidateIntent → Type 0
  Precedes l r =
      (priorities l.job_kind < priorities r.job_kind)
      ⊎ ((priorities l.job_kind ≡ priorities r.job_kind)
          × ((l.observed_slot < r.observed_slot)
              ⊎ ((l.observed_slot ≡ r.observed_slot)
                  × (host.locale_compare l.candidate_id r.candidate_id ≤ℤ pos 0))))

  or_else_sub :
      (a b : ℕ) (rest : ℤ)
      → (or_else (sub_ℕ a b) rest ≤ℤ pos 0) ↔ ((a < b) ⊎ ((a ≡ b) × (rest ≤ℤ pos 0)))
  or_else_sub a b rest = ground arith

  -- A candidate does not beat another exactly when its priority is less, or is the same and its slot
  -- is earlier, or both are the same and its id collates no later.
  pub AtMost-Precedes : (l r : CandidateIntent) → AtMost l r ↔ Precedes l r
  unfolding compare_candidates
  AtMost-Precedes l r =
      let by_id = host.locale_compare l.candidate_id r.candidate_id in
      let inner = or_else_sub l.observed_slot r.observed_slot by_id in
      let outer =
        or_else_sub (priorities l.job_kind) (priorities r.job_kind)
          (or_else (sub_ℕ l.observed_slot r.observed_slot) by_id) in
      (
        (λ h. elim (outer.0 h) [ inl p ↦ inl p | inr (e, k) ↦ inr (e, inner.0 k) ]),
        (λ h. elim h [ inl p ↦ outer.1 (inl p) | inr (e, k) ↦ outer.1 (inr (e, inner.1 k)) ]),
      )

  locale_total :
      (a b : String) → (host.locale_compare a b ≤ℤ pos 0) ⊎ (host.locale_compare b a ≤ℤ pos 0)
  locale_total a b = elim (≤ℤ_total (host.locale_compare a b) (pos 0)) [
    | inl h ↦ inl h
    | inr h ↦ inr ((host.flip b a).1 h)
  ]

  Precedes-total : (l r : CandidateIntent) → Precedes l r ⊎ Precedes r l
  Precedes-total l r = grind (arith, locale_total l.candidate_id r.candidate_id)

  -- The comparison is total: of two candidates one is no better than the other.
  pub AtMost-total : (l r : CandidateIntent) → AtMost l r ⊎ AtMost r l
  AtMost-total l r = elim (Precedes-total l r) [
    | inl h ↦ inl ((AtMost-Precedes l r).1 h)
    | inr h ↦ inr ((AtMost-Precedes r l).1 h)
  ]

  Precedes-trans : (a b c : CandidateIntent) → Precedes a b → Precedes b c → Precedes a c
  Precedes-trans a b c h k = grind (arith, host.chain a.candidate_id b.candidate_id c.candidate_id)

  pub AtMost-trans : (a b c : CandidateIntent) → AtMost a b → AtMost b c → AtMost a c
  AtMost-trans a b c h k =
      (AtMost-Precedes a c).1
        (Precedes-trans a b c ((AtMost-Precedes a b).0 h) ((AtMost-Precedes b c).0 k))

  pub AtMost-refl : (c : CandidateIntent) → AtMost c c
  AtMost-refl c = elim (AtMost-total c c) [ inl h ↦ h | inr h ↦ h ]

  pub not-beats-AtMost : (l r : CandidateIntent) → beats host l r ≡ false → AtMost l r
  not-beats-AtMost l r h = ground arith

  pub beats-AtMost : (l r : CandidateIntent) → beats host l r ≡ true → AtMost r l
  beats-AtMost l r h = elim (AtMost-total l r) [ inl k ↦ absurd (ground arith) | inr k ↦ k ]
