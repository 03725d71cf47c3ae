-- ===== src/Adapter/Resolution/Total.antt =====
-- On a resolver that was constructed, inputs that fit their recipe always lead to the search for an
-- address: the limits on the seeds and on the program id never fail.
use dusk_keepers.Prelude.{
  ℕ, zero, suc, ◌<◌, ◌≤◌, ◌≡◌, ◌⊎◌, inl, inr, refl, sym, subst, ◌∙◌, true, false, some, List,
  String, length, leb, ok, err, traverse, Bool-cases, arith,
}
use dusk_keepers.Adapter.Bytes.{Bytes}
use dusk_keepers.Adapter.Pubkeys.{decode_pubkey}
use dusk_keepers.Adapter.Lock.{ProtocolLock}
use dusk_keepers.Adapter.Contract.{InstructionContract}
use dusk_keepers.Adapter.Resolution.Curve.{is_ed25519_point}
use dusk_keepers.Adapter.Resolution.Derivation.{
  unable_to_find_pda, ResolvedPda, digest_at, pda_at, find_bump, find_program_address,
}
use dusk_keepers.Adapter.Resolution.Derivation.Search.{
  AreShort, IsDerived, Nat-split, has_long_seed_iff, find_program_address_iff,
}
use dusk_keepers.Adapter.Resolution.Recipes.{
  PdaRecipe, PdaSeedValue, find_recipe, input_names, seed_bytes, derive_pda,
}
use dusk_keepers.Adapter.Resolution.{DeterministicAccountResolver, AccountResolutionManifest, new}
use dusk_keepers.Adapter.Resolution.Supply.{
  Supplies, AreExpected, seeds_short, require_inputs-ok, require_expected-ok,
}
use dusk_keepers.Adapter.Resolution.Sound.{new-IsSound}

-- Each bump, from 0 to the limit, gives a digest that is a point of the curve.
abbrev pub AllOn : (Bytes → Bytes) → List Bytes → Bytes → ℕ → Type 0
AllOn sha256 seeds program limit =
    (bump : ℕ) → bump ≤ limit → is_ed25519_point (digest_at sha256 seeds program bump) ≡ true

module _ (sha256 : Bytes → Bytes) where
  Search : List Bytes → Bytes → ℕ → Type 0
  Search seeds program limit =
      ((r : ResolvedPda) × (find_bump sha256 seeds program limit ≡ ok r))
      ⊎ ((find_bump sha256 seeds program limit ≡ err unable_to_find_pda)
          × AllOn sha256 seeds program limit)

  AllOn-suc :
      (seeds : List Bytes) (program : Bytes) (limit : ℕ)
      → is_ed25519_point (digest_at sha256 seeds program (suc limit)) ≡ true
      → AllOn sha256 seeds program limit
      → AllOn sha256 seeds program (suc limit)
  AllOn-suc seeds program limit on all bump below = elim (Nat-split bump limit below) [
    | inl small ↦ all bump small
    | inr e ↦ subst (λ n. is_ed25519_point (digest_at sha256 seeds program n) ≡ true) (sym e) on
  ]

  find_bump-Search : (seeds : List Bytes) (program : Bytes) (limit : ℕ) → Search seeds program limit
  unfolding find_bump Search
  find_bump-Search seeds program zero =
      elim (Bool-cases (is_ed25519_point (digest_at sha256 seeds program zero))) [
        | inl on ↦ inr (
          rw (find_bump, on) refl,
          λ bump below.
              let none_left : 0 ≡ bump = omega (arith, below) in
              subst (λ n. is_ed25519_point (digest_at sha256 seeds program n) ≡ true) none_left on,
        )
        | inr off ↦ inl (pda_at sha256 seeds program zero, rw (find_bump, off) refl)
      ]
  find_bump-Search seeds program (suc limit) =
      elim (Bool-cases (is_ed25519_point (digest_at sha256 seeds program (suc limit)))) [
        | inl on ↦ elim (find_bump-Search seeds program limit) [
          | inl (r, e) ↦ inl (r, rw (find_bump, on) e)
          | inr (e, all) ↦ inr (rw (find_bump, on) e, AllOn-suc seeds program limit on all)
        ]
        | inr off ↦ inl (pda_at sha256 seeds program (suc limit), rw (find_bump, off) refl)
      ]

find_program_address-cases :
    (sha256 : Bytes → Bytes) (seeds : List Bytes) (program_id : String) (program : Bytes)
    → length seeds < 16
    → AreShort seeds
    → decode_pubkey program_id ≡ some program
    → ((r : ResolvedPda) × (find_program_address sha256 seeds program_id ≡ ok r))
      ⊎ ((find_program_address sha256 seeds program_id ≡ err unable_to_find_pda)
          × AllOn sha256 seeds program 255)
unfolding find_program_address Search
find_program_address-cases sha256 seeds program_id program few short decoded =
    let none_long = (has_long_seed_iff seeds).1 short in
    let within : leb 16 (length seeds) ≡ false = ground (arith, few) in
    rw (within, none_long, decoded) (find_bump-Search sha256 seeds program 255)

-- On a resolver that was constructed, inputs that fit a recipe, each of its encoding and none beside
-- them, give seeds within the limits, and either their address is derived, or the program id decodes,
-- each of the 256 bumps gives a digest on the curve, and the error says that no address was found.
pub derive_pda_total :
    (sha256 : Bytes → Bytes) (lock : ProtocolLock) (contract : InstructionContract)
    (manifest : AccountResolutionManifest) (v : DeterministicAccountResolver) (key : String)
    (recipe : PdaRecipe) (inputs : List (String × PdaSeedValue))
    → new lock contract manifest ≡ ok v
    → find_recipe v.manifest.pda_recipes key ≡ some recipe
    → Supplies inputs recipe.seeds
    → AreExpected inputs (input_names recipe.seeds)
    → (seeds : List Bytes) × (traverse (seed_bytes inputs) recipe.seeds ≡ ok seeds)
      × (((r : ResolvedPda) × (derive_pda sha256 v.manifest.pda_recipes key inputs ≡ ok r)
            × IsDerived sha256 seeds recipe.program_id r)
          ⊎ ((derive_pda sha256 v.manifest.pda_recipes key inputs ≡ err unable_to_find_pda)
              × (program : Bytes) × (decode_pubkey recipe.program_id ≡ some program)
              × AllOn sha256 seeds program 255))
unfolding derive_pda
derive_pda_total sha256 lock contract manifest v key recipe inputs made found supplied expected =
    let sound = new-IsSound lock contract manifest v key recipe made found in
    let (seeds, read, short, count) = seeds_short inputs recipe.seeds sound.constants supplied in
    let few : length seeds < 16 = omega (arith, count, sound.few) in
    let runs : derive_pda sha256 v.manifest.pda_recipes key inputs
        ≡ find_program_address sha256 seeds recipe.program_id =
      rw
        (
          found,
          require_inputs-ok inputs recipe.seeds supplied,
          require_expected-ok inputs (input_names recipe.seeds) expected,
          read,
        )
        refl in
    let searched =
      find_program_address-cases sha256 seeds recipe.program_id sound.program few short
        sound.is_program in
    (
      seeds,
      read,
      elim searched [
        | inl (r, e) ↦
            inl (r, runs ∙ e, (find_program_address_iff sha256 seeds recipe.program_id r).0 e)
        | inr (e, all) ↦ inr (runs ∙ e, sound.program, sound.is_program, all)
      ],
    )
