-- ===== src/Adapter/Envelope/Accounts.antt =====
-- `#validateAccounts` of envelope.ts. `actual` is what the loop has not used of `envelope.accounts`.
pub mod Selection
use dusk_keepers.Prelude.{
  ℕ, ◌≡◌, ◌≢◌, ◌⊎◌, ◌↔◌, inl, inr, refl, sym, ap, subst, ◌∙◌, Bool, true, false, not, ◌&&◌, ◌||◌,
  Option, none, some, List, [], ◌∷◌, String, str_eq, eq_iff, if◌then◌else◌, Result, ok, err, ◌>>=◌,
  ◌>>◌, guard, refuse, Bool-cases, arith, check_then_iff, guard_then_iff,
}
use dusk_keepers.Adapter.Contract.{AccountSpecification, InstructionSpecification}
use dusk_keepers.Adapter.Envelope.Types.{
  missing_required_account, account_order_mismatch, account_flags_mismatch, fixed_address_mismatch,
  Check, ResolvedAccountMeta, require_pubkey,
}

abbrev pub eq_Bool : Bool → Bool → Bool
eq_Bool true b = b
eq_Bool false b = not b

unfoldable pub names_account : List ResolvedAccountMeta → String → Bool
names_account [] name = false
names_account (a ∷ rest) name = str_eq a.name name || names_account rest name

-- `expected.fixedAddress ?? (expected.name === "program" ? specification.programId : null)`
abbrev fixed_or : Option String → Bool → String → Option String
fixed_or (some address) is_program program_id = some address
fixed_or none true program_id = some program_id
fixed_or none false program_id = none

abbrev pub fixed_address_of : AccountSpecification → String → Option String
fixed_address_of expected program_id =
    fixed_or expected.fixed_address (str_eq expected.name "program") program_id

-- `!(fixedAddress && fixedAddress !== actual.address)`
abbrev pub at_fixed_address : Option String → String → Bool
at_fixed_address none address = true
at_fixed_address (some fixed) address = str_eq fixed "" || str_eq fixed address

unfoldable pub check_account : String → AccountSpecification → ResolvedAccountMeta → Check
check_account program_id expected actual = do
  require_pubkey actual.address
  guard (eq_Bool actual.writable expected.writable && eq_Bool actual.signer expected.signer)
      account_flags_mismatch
  guard (at_fixed_address (fixed_address_of expected program_id) actual.address)
      fixed_address_mismatch

-- The error where a required account is not the next one.
abbrev misplaced : Bool → Check
misplaced true = err account_order_mismatch
misplaced false = err missing_required_account

unfoldable pub validate_accounts :
    String → List AccountSpecification → List ResolvedAccountMeta → Check
validate_accounts program_id [] [] = ok tt
validate_accounts program_id [] (a ∷ more) = err account_order_mismatch
validate_accounts program_id (expected ∷ rest) [] =
    if expected.optional then validate_accounts program_id rest [] else err missing_required_account
validate_accounts program_id (expected ∷ rest) (actual ∷ more) =
    elim (str_eq actual.name expected.name) [
      | true ↦ do check_account program_id expected actual; validate_accounts program_id rest more
      | false ↦ elim expected.optional [
        | true ↦ validate_accounts program_id rest (actual ∷ more)
        | false ↦ misplaced (names_account more expected.name)
      ]
    ]
