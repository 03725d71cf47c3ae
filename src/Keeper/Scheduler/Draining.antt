-- ===== src/Keeper/Scheduler/Draining.antt =====
-- Popping until nothing is pending (index.ts of keeper-core).
use dusk_keepers.Prelude.{
  ℕ, zero, suc, ◌≤◌, ◌≡◌, refl, inl, inr, true, Option, none, some, List, [], ◌∷◌, String, eq_iff,
  arith, length, map, sym, ap, subst, str_eq, Bool-cases, ap, str_eq, Bool-cases,
}
use mathlib.Core.List.{Memᴰ, Perm}
use mathlib.Core.List.Perm
use dusk_keepers.Prelude.Maps
use dusk_keepers.Keeper.Candidate.{CandidateIntent}
use dusk_keepers.Keeper.Scheduler.{Collation, Scheduler, pending_count, pop_next, mark_in_flight}
use dusk_keepers.Keeper.Scheduler.Ranking.{AtMost}
use dusk_keepers.Keeper.Scheduler.Invariant.{Pending, Fits, IsValid, pop_next-IsValid}
use dusk_keepers.Keeper.Scheduler.Selection.{Tops, pop_next_lem}

abbrev pub candidates : Pending → List CandidateIntent
candidates = map (λ e. e.1)

Memᴰ-has : (m : Pending) (k : String) (c : CandidateIntent) → Memᴰ (k, c) m → Maps.has k m ≡ true
unfolding Maps.has
Memᴰ-has [] k c inside = elim inside [ ]
Memᴰ-has ((j, w) ∷ m) k c (Memᴰ.head e) =
    let key : k ≡ j = ap (λ p. p.0) e in ground (arith, eq_iff j k)
Memᴰ-has ((j, w) ∷ m) k c (Memᴰ.tail inside) = ground (arith, Memᴰ-has m k c inside)

delete-perm :
    (revision : String) (flight : List String) (m : Pending) (k : String) (c : CandidateIntent)
    → Fits revision flight m
    → Memᴰ (k, c) m
    → Perm (candidates m) (c ∷ candidates (Maps.delete k m))
      × (length m ≡ suc (length (Maps.delete k m)))
unfolding Maps.delete
delete-perm revision flight [] k c f inside = elim inside [ ]
delete-perm revision flight ((j, w) ∷ m) k c f (Memᴰ.head e) =
    let here : str_eq j k ≡ true = (eq_iff j k).1 (ap (λ p. p.0) (sym e)) in
    rw here (Perm.cons' (ap (λ p. p.1) (sym e)) Perm.rfl, refl)
delete-perm revision flight ((j, w) ∷ m) k c f (Memᴰ.tail inside) = elim (Bool-cases (str_eq j k)) [
  | inl same ↦
      let key : j ≡ k = (eq_iff j k).0 same in
      let twice : Maps.has j m ≡ true = rw key (Memᴰ-has m k c inside) in absurd (ground arith)
  | inr other ↦
      let (rest, size) = delete-perm revision flight m k c f.4 inside in
      rw other
        (Perm.trans (Perm.cons w rest) (Perm.swap c w (candidates (Maps.delete k m))), ap suc size)
]

nothing_left : (m : Pending) → length m ≤ 0 → candidates m ≡ []
nothing_left [] h = refl
nothing_left (x ∷ m) h = absurd (omega arith)

abbrev emit : Option CandidateIntent → List CandidateIntent → List CandidateIntent
emit none rest = []
emit (some c) rest = c ∷ rest

module _ (host : Collation) where
  abbrev Below : CandidateIntent → List CandidateIntent → Type 0
  Below best [] = Unit {0}
  Below best (c ∷ cs) = AtMost host c best × Below best cs

  -- Best first: no candidate is better than one before it.
  abbrev pub Descends : List CandidateIntent → Type 0
  Descends [] = Unit {0}
  Descends (c ∷ cs) = Below c cs × Descends cs

  -- `for (let c = popNext(); c; c = popNext())`, on fuel.
  unfoldable pub drain : ℕ → Scheduler → List CandidateIntent
  drain zero s = []
  drain (suc fuel) s = let rest = drain fuel (pop_next host s).0 in emit (pop_next host s).1 rest

  drain-none :
      (fuel : ℕ) (s s' : Scheduler) → pop_next host s ≡ (s', none) → drain (suc fuel) s ≡ []
  unfolding drain
  drain-none fuel s s' e = λ i. emit (e i).1 (drain fuel (e i).0)

  drain-some :
      (fuel : ℕ) (s s' : Scheduler) (c : CandidateIntent)
      → pop_next host s ≡ (s', some c)
      → drain (suc fuel) s ≡ c ∷ drain fuel s'
  unfolding drain
  drain-some fuel s s' c e = λ i. emit (e i).1 (drain fuel (e i).0)

  Tops-delete :
      (best : CandidateIntent) (k : String) (m : Pending)
      → Tops host best m
      → Tops host best (Maps.delete k m)
  unfolding Maps.delete
  Tops-delete best k [] t = tt
  Tops-delete best k ((j, w) ∷ m) t = ground (arith, Tops-delete best k m t.1)

  Memᴰ-Tops :
      (best : CandidateIntent) (m : Pending) {k : String} {c : CandidateIntent}
      → Tops host best m
      → Memᴰ (k, c) m
      → AtMost host c best
  Memᴰ-Tops best [] t inside = elim inside [ ]
  Memᴰ-Tops best ((j, w) ∷ m) {c} t (Memᴰ.head e) =
      let same : c ≡ w = ap (λ p. p.1) e in rw same t.0
  Memᴰ-Tops best (x ∷ m) t (Memᴰ.tail inside) = Memᴰ-Tops best m t.1 inside

  pop-IsValid :
      (s s' : Scheduler) (c : CandidateIntent)
      → IsValid s
      → pop_next host s ≡ (s', some c)
      → IsValid s'
  pop-IsValid s s' c v e = subst (λ r. IsValid r.0) e (pop_next-IsValid host s v)

  drain-Below :
      (fuel : ℕ) (s : Scheduler) (best : CandidateIntent)
      → IsValid s
      → Tops host best s.pending
      → Below best (drain fuel s)
  unfolding mark_in_flight
  drain-Below zero s best v t = unfold drain in tt
  drain-Below (suc fuel) s best v t = elim (pop_next_lem host s v) [
    | inl (empty, e) ↦ rw (drain-none fuel s s e) tt
    | inr (c, b, e) ↦
        let s' = mark_in_flight s c.conflict_key in
        rw (drain-some fuel s s' c e) (
          Memᴰ-Tops best s.pending t b.stored,
          drain-Below fuel s' best (pop-IsValid s s' c v e)
              (Tops-delete best c.conflict_key s.pending t),
        )
  ]

  -- Popping until nothing is pending hands out every pending candidate of a valid scheduler once and
  -- no other, best first; a pop for each pending candidate is enough.
  pub drain_lem :
      (fuel : ℕ) (s : Scheduler)
      → IsValid s
      → pending_count s ≤ fuel
      → Perm (candidates s.pending) (drain fuel s) × Descends (drain fuel s)
  unfolding mark_in_flight
  drain_lem zero s v enough = rw (nothing_left s.pending enough) (unfold drain in (Perm.nil, tt))
  drain_lem (suc fuel) s v enough = elim (pop_next_lem host s v) [
    | inl (empty, e) ↦ rw (drain-none fuel s s e) (rw empty Perm.nil, tt)
    | inr (c, b, e) ↦
        let s' = mark_in_flight s c.conflict_key in
        let (same, size) =
          delete-perm s.protocol_revision s.in_flight s.pending c.conflict_key c v b.stored in
        let valid = pop-IsValid s s' c v e in
        let (rest, order) = drain_lem fuel s' valid (omega (arith, size)) in
        rw (drain-some fuel s s' c e) (
          Perm.trans same (Perm.cons c rest),
          (drain-Below fuel s' c valid (Tops-delete c c.conflict_key s.pending b.tops), order),
        )
  ]
