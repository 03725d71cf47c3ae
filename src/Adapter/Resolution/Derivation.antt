-- ===== src/Adapter/Resolution/Derivation.antt =====
-- The seeds and addresses of resolution.ts: `findProgramAddress`, with SHA-256 as a parameter.
pub mod Search
use dusk_keepers.Prelude.{
  ℕ, zero, suc, ◌+◌, Bool, true, false, ◌||◌, Option, none, some, List, [], ◌∷◌, ◌++◌, String,
  length, ltb, leb, Result, ok, err, ◌>>=◌, ◌>>◌, refuse, present,
}
use dusk_keepers.Adapter.Bytes.{Bytes}
use dusk_keepers.Adapter.Hex.{codes}
use dusk_keepers.Adapter.Pubkeys.{decode_pubkey}
use dusk_keepers.Adapter.Resolution.Curve.{is_ed25519_point}
use dusk_keepers.Adapter.Resolution.Base58.{base58_encode}

pub data AccountResolutionErrorCode : Type 0 where
  manifest_mismatch unknown_recipe missing_input unexpected_input : AccountResolutionErrorCode
  invalid_seed_value invalid_program_id unable_to_find_pda : AccountResolutionErrorCode

abbrev pub Resolved {ℓ} : Type ℓ → Type ℓ
Resolved A = Result AccountResolutionErrorCode A

pub record ResolvedPda : Type 0 where
  pub address : String
  pub bump : ℕ

abbrev pda_marker : Bytes
pda_marker = codes "ProgramDerivedAddress"

unfoldable pub concat : List Bytes → Bytes
concat [] = []
concat (seed ∷ seeds) = seed ++ concat seeds

unfoldable pub has_long_seed : List Bytes → Bool
has_long_seed [] = false
has_long_seed (seed ∷ seeds) = ltb 32 (length seed) || has_long_seed seeds

module _ (sha256 : Bytes → Bytes) where
  unfoldable pub digest_at : List Bytes → Bytes → ℕ → Bytes
  digest_at seeds program bump = sha256 (concat seeds ++ (bump ∷ []) ++ program ++ pda_marker)

  abbrev pub pda_at : List Bytes → Bytes → ℕ → ResolvedPda
  pda_at seeds program bump = record {
    address = base58_encode (digest_at seeds program bump);
    bump = bump;
  }

  -- The loop, from a bump down to zero.
  unfoldable pub find_bump : List Bytes → Bytes → ℕ → Resolved ResolvedPda
  find_bump seeds program zero = elim (is_ed25519_point (digest_at seeds program zero)) [
    | true ↦ err unable_to_find_pda
    | false ↦ ok (pda_at seeds program zero)
  ]
  find_bump seeds program (suc bump) =
      elim (is_ed25519_point (digest_at seeds program (suc bump))) [
        | true ↦ find_bump seeds program bump
        | false ↦ ok (pda_at seeds program (suc bump))
      ]

  unfoldable pub find_program_address : List Bytes → String → Resolved ResolvedPda
  find_program_address seeds program_id = do
    refuse (leb 16 (length seeds) || has_long_seed seeds) invalid_seed_value
    program ← present (decode_pubkey program_id) invalid_program_id
    find_bump seeds program 255
