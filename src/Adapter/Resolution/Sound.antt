-- ===== src/Adapter/Resolution/Sound.antt =====
-- What the constructor of the resolver has checked of each recipe.
use dusk_keepers.Prelude.{
  ◌≤◌, ◌<◌, ◌≡◌, inl, inr, subst, true, ◌&&◌, ◌||◌, some, List, [], ◌∷◌, String, str_eq, length,
  leb, ◌==◌, ok, ◌>>◌, guard, Bool-cases, Option-cases, arith, check_then_iff, guard_then_iff,
  refuse_then_iff,
}
use dusk_keepers.Adapter.Bytes.{Bytes}
use dusk_keepers.Adapter.Hex.{codes, hex_bytes, length-hex_bytes}
use dusk_keepers.Adapter.Pubkeys.{decode_pubkey}
use dusk_keepers.Adapter.Lock.{ProtocolLock}
use dusk_keepers.Adapter.Contract.{InstructionContract}
use dusk_keepers.Adapter.Envelope.{has_text}
use dusk_keepers.Adapter.Resolution.Derivation.{manifest_mismatch, Resolved}
use dusk_keepers.Adapter.Resolution.Recipes.{PdaSeedRecipe, const, input, PdaRecipe, find_recipe}
use dusk_keepers.Adapter.Resolution.{
  DeterministicAccountResolver, AccountResolutionManifest, ResolutionProgram, is_constant_seed,
  check_seeds, check_usages, check_recipe, check_recipes, check_programs, check_static_accounts,
  has_program_id, find_program, is_pubkey, new,
}
use dusk_keepers.Adapter.Resolution.Supply.{AreConstants}

-- What the constructor has checked of a recipe.
pub record IsSound (recipe : PdaRecipe) : Type 0 where
  pub few : length recipe.seeds < 16
  pub constants : AreConstants recipe.seeds
  pub program : Bytes
  pub is_program : decode_pubkey recipe.program_id ≡ some program

constant-short :
    (value_hex : String)
    → is_constant_seed value_hex ≡ true
    → (bytes : Bytes) × (hex_bytes (codes value_hex) ≡ some bytes) × (length bytes ≤ 32)
unfolding is_constant_seed
constant-short value_hex h = elim (Option-cases (hex_bytes (codes value_hex))) [
  | inl e ↦ absurd (ground (arith, e, h))
  | inr (bytes, e) ↦
      let double = length-hex_bytes (codes value_hex) bytes e in
      let small : length (codes value_hex) ≤ 64 = ground (arith, h) in
      (bytes, e, omega (arith, double, small))
]

check_seeds-AreConstants :
    (names : List String) (seeds : List PdaSeedRecipe)
    → check_seeds names seeds ≡ ok tt
    → AreConstants seeds
unfolding check_seeds AreConstants
check_seeds-AreConstants names [] h = tt
check_seeds-AreConstants names (const value_hex ∷ rest) h =
    let (short, others) =
      (guard_then_iff (is_constant_seed value_hex) _ (check_seeds names rest)).0 h in
    (constant-short value_hex short, check_seeds-AreConstants names rest others)
check_seeds-AreConstants names (input name encoding ∷ rest) h =
    let (fresh, others) = (refuse_then_iff _ _ (check_seeds (name ∷ names) rest)).0 h in
    check_seeds-AreConstants (name ∷ names) rest others

check_recipe-IsSound :
    (contract : InstructionContract) (programs : List ResolutionProgram) (keys : List String)
    (recipe : PdaRecipe)
    → check_recipe contract programs keys recipe ≡ ok tt
    → IsSound recipe
unfolding check_recipe is_pubkey
check_recipe-IsSound contract programs keys recipe h =
    let checks = check_seeds [] recipe.seeds >> check_usages contract recipe.usages in
    let on_pubkey = guard (is_pubkey recipe.program_id) manifest_mismatch >> checks in
    let pinned = has_program_id (find_program programs recipe.program) recipe.program_id in
    let on_program = guard pinned manifest_mismatch >> on_pubkey in
    let limits = has_text keys recipe.key || leb 16 (length recipe.seeds) in
    let (within, h1) = (refuse_then_iff limits manifest_mismatch on_program).0 h in
    let (pinned_ok, h2) = (guard_then_iff pinned manifest_mismatch on_pubkey).0 h1 in
    let (program_ok, h3) =
      (guard_then_iff (is_pubkey recipe.program_id) manifest_mismatch checks).0 h2 in
    let (seeds_ok, usages_ok) =
      (check_then_iff (check_seeds [] recipe.seeds) (check_usages contract recipe.usages)).0 h3 in
    elim (Option-cases (decode_pubkey recipe.program_id)) [
      | inl e ↦ absurd (ground (arith, e, program_ok))
      | inr (bytes, e) ↦ record {
        few = ground (arith, within);
        constants = check_seeds-AreConstants [] recipe.seeds seeds_ok;
        program = bytes;
        is_program = e;
      }
    ]

find_recipe-IsSound :
    (contract : InstructionContract) (programs : List ResolutionProgram) (keys : List String)
    (recipes : List PdaRecipe) (key : String) (recipe : PdaRecipe)
    → check_recipes contract programs keys recipes ≡ ok tt
    → find_recipe recipes key ≡ some recipe
    → IsSound recipe
unfolding check_recipes find_recipe
find_recipe-IsSound contract programs keys [] key recipe h found = cc
find_recipe-IsSound contract programs keys (x ∷ rest) key recipe h found =
    let others = check_recipes contract programs (x.key ∷ keys) rest in
    let (here, later) = (check_then_iff (check_recipe contract programs keys x) others).0 h in
    elim (Bool-cases (str_eq x.key key)) [
      | inl e ↦
          let is_x : x ≡ recipe = ground (arith, e, found) in
          subst IsSound is_x (check_recipe-IsSound contract programs keys x here)
      | inr e ↦
          find_recipe-IsSound contract programs (x.key ∷ keys) rest key recipe later
            (ground (arith, e, found))
    ]

pub new-IsSound :
    (lock : ProtocolLock) (contract : InstructionContract) (manifest : AccountResolutionManifest)
    (v : DeterministicAccountResolver) (key : String) (recipe : PdaRecipe)
    → new lock contract manifest ≡ ok v
    → find_recipe v.manifest.pda_recipes key ≡ some recipe
    → IsSound recipe
unfolding new
new-IsSound lock contract manifest v key recipe h found =
    let made : Resolved DeterministicAccountResolver = ok (record { manifest = manifest }) in
    let recipes = check_recipes contract manifest.programs [] manifest.pda_recipes in
    let statics = check_static_accounts contract [] manifest.static_accounts in
    let programs = check_programs lock [] manifest.programs in
    let versions =
      manifest.schema_version == 1 && str_eq manifest.protocol_revision lock.revision in
    let (v_ok, h1) =
      (guard_then_iff versions manifest_mismatch (programs >> (statics >> (recipes >> made)))).0
        h in
    let (p_ok, h2) = (check_then_iff programs (statics >> (recipes >> made))).0 h1 in
    let (s_ok, h3) = (check_then_iff statics (recipes >> made)).0 h2 in
    let (r_ok, h4) = (check_then_iff recipes made).0 h3 in
    let same : v.manifest ≡ manifest = cc in
    let found_there = subst (λ m. find_recipe m.pda_recipes key ≡ some recipe) same found in
    find_recipe-IsSound contract manifest.programs [] manifest.pda_recipes key recipe r_ok
      found_there
