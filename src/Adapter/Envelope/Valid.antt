-- ===== src/Adapter/Envelope/Valid.antt =====
-- What the envelopes have that `EnvelopeValidator` accepts.
pub mod Instruction
pub mod Composition
pub mod Construction
use dusk_keepers.Prelude.{
  ◌≡◌, ◌↔◌, ◌⊎◌, inl, inr, refl, sym, ap, ◌∙◌, Bool, true, false, ◌&&◌, ◌||◌, Option, none, some,
  List, [], ◌∷◌, String, str_eq, eq_iff, ◌==◌, ==_iff, Result, ok, err, ◌>>=◌, ◌>>◌, guard, present,
  check_then_iff, guard_then_iff, present_then_iff, bind_then_iff, guard-eq-ok, arith,
}
use dusk_keepers.Adapter.Bytes.{Bytes}
use dusk_keepers.Adapter.Lock.{assert_live_ready}
use dusk_keepers.Adapter.Lock.Ready.{IsLiveReady, assert_live_ready_iff}
use dusk_keepers.Adapter.Contract.{ActionContract, InstructionContract}
use dusk_keepers.Adapter.Envelope.Types.{
  revision_mismatch, job_kind_mismatch, instruction_mismatch, cpi_hook_mismatch,
  required_optional_account_missing, parity_mismatch, Checked, Check, ResolvedAccountMeta,
  InstructionEnvelope, JobEnvelope,
}
use dusk_keepers.Adapter.Envelope.Accounts.{names_account}
use dusk_keepers.Adapter.Envelope.Parity.{envelope_parity_sha256}
use dusk_keepers.Adapter.Envelope.{
  EnvelopeValidator, ValidatedJobEnvelope, SignableJobEnvelope, find_action, have_keys,
  validate_hooks, validate_expected_instruction, require_names, validate_delegated_composition,
  delegated_if, validate_action, validate, or_not_ready, validate_for_signing,
}
use dusk_keepers.Adapter.Envelope.Valid.Instruction.{
  HasDistinctAccounts, FitsKey, FitHooks, validate_expected_instruction_iff, validate_hooks_iff,
}
use dusk_keepers.Adapter.Envelope.Valid.Composition.{IsComposed, validate_delegated_composition_iff}

pub IsNamedIn : List ResolvedAccountMeta → String → Type 0
IsNamedIn [] name = ⊥
IsNamedIn (a ∷ rest) name = (a.name ≡ name) ⊎ IsNamedIn rest name

pub AreNamedIn : List ResolvedAccountMeta → List String → Type 0
AreNamedIn accounts [] = Unit {0}
AreNamedIn accounts (name ∷ names) = IsNamedIn accounts name × AreNamedIn accounts names

-- An action with hooks is a delegated close of two.
pub IsComposedIf : List String → InstructionEnvelope → List InstructionEnvelope → Type 0
IsComposedIf [] primary hooks = Unit {0}
IsComposedIf (key ∷ keys) primary hooks = IsComposed primary hooks

names_account_iff :
    (accounts : List ResolvedAccountMeta) (name : String)
    → (names_account accounts name ≡ true) ↔ IsNamedIn accounts name
unfolding names_account IsNamedIn
names_account_iff [] name = (λ h. cc, λ h. absurd h)
names_account_iff (a ∷ rest) name = ground (arith, eq_iff a.name name, names_account_iff rest name)

require_names_iff :
    (accounts : List ResolvedAccountMeta) (names : List String)
    → (require_names accounts names ≡ ok tt) ↔ AreNamedIn accounts names
unfolding require_names AreNamedIn
require_names_iff accounts [] = (λ h. tt, λ h. refl)
require_names_iff accounts (name ∷ names) = ground (
  arith,
  guard_then_iff (names_account accounts name) required_optional_account_missing
      (require_names accounts names) {b = tt},
  names_account_iff accounts name,
  require_names_iff accounts names,
)

delegated_if_iff :
    (keys : List String) (primary : InstructionEnvelope) (hooks : List InstructionEnvelope)
    → (delegated_if keys (validate_delegated_composition primary hooks) ≡ ok tt)
      ↔ IsComposedIf keys primary hooks
unfolding IsComposedIf
delegated_if_iff [] primary hooks = (λ h. tt, λ h. refl)
delegated_if_iff (key ∷ keys) primary hooks = validate_delegated_composition_iff primary hooks

module _ (digest_hex : Bytes → String) where
  -- The digest of the canonical bytes is the one that the envelope states.
  unfoldable pub HasParity : JobEnvelope → Type 0
  HasParity e = envelope_parity_sha256 digest_hex e ≡ ok e.parity_sha256

  pub record IsValidFor (contract : InstructionContract) (action : ActionContract) (e : JobEnvelope)
      : Type 0 where
    pub kind : e.intent.job_kind ≡ action.job_kind
    pub primary : FitsKey contract action.primary_instruction_key e.primary
    pub hooks : FitHooks contract action.cpi_instruction_keys e.cpi_hooks
    pub named : AreNamedIn e.primary.accounts action.required_optional_accounts
    pub composed : IsComposedIf action.cpi_instruction_keys e.primary e.cpi_hooks
    pub parity : HasParity e

  compare_parity_iff :
      (e : JobEnvelope)
      → ((do
        parity ← envelope_parity_sha256 digest_hex e
        guard (str_eq parity e.parity_sha256) parity_mismatch)
          ≡ ok tt)
        ↔ HasParity e
  unfolding HasParity
  compare_parity_iff e =
      let compare : String → Check =
        λ parity. guard (str_eq parity e.parity_sha256) parity_mismatch in
      let by_parity = bind_then_iff (envelope_parity_sha256 digest_hex e) compare {b = tt} in
      (
        λ h.
            let (parity, computed, same) = by_parity.0 h in
            computed
            ∙ ap ok ((eq_iff parity e.parity_sha256).0 (guard-eq-ok _ parity_mismatch same)),
        λ h.
            by_parity.1
              (e.parity_sha256, h, rw ((eq_iff e.parity_sha256 e.parity_sha256).1 refl) refl),
      )

  pub validate_action_iff :
      (contract : InstructionContract) (action : ActionContract) (e : JobEnvelope)
      → HasDistinctAccounts contract
      → (validate_action digest_hex contract action e ≡ ok tt) ↔ IsValidFor contract action e
  unfolding validate_action
  validate_action_iff contract action e distinct =
      let kind = str_eq e.intent.job_kind action.job_kind in
      let keys = action.cpi_instruction_keys in
      let expected =
        validate_expected_instruction contract e.primary action.primary_instruction_key in
      let hooks = validate_hooks contract e.cpi_hooks keys in
      let names = require_names e.primary.accounts action.required_optional_accounts in
      let composed = delegated_if keys (validate_delegated_composition e.primary e.cpi_hooks) in
      let on_composed : Check = envelope_parity_sha256 digest_hex e >>= λ parity.
      guard (str_eq parity e.parity_sha256) parity_mismatch in
      let on_names = composed >> on_composed in
      let on_hooks = names >> on_names in
      let on_keys = hooks >> on_hooks in
      let on_primary = guard (have_keys e.cpi_hooks keys) cpi_hook_mismatch >> on_keys in
      let by_kind = guard_then_iff kind job_kind_mismatch (expected >> on_primary) {b = tt} in
      let by_primary = check_then_iff expected on_primary {b = tt} in
      let by_keys =
        guard_then_iff (have_keys e.cpi_hooks keys) cpi_hook_mismatch on_keys {b = tt} in
      let by_hooks = check_then_iff hooks on_hooks {b = tt} in
      let by_names = check_then_iff names on_names {b = tt} in
      let by_composed = check_then_iff composed on_composed {b = tt} in
      let primary_fits =
        validate_expected_instruction_iff contract e.primary action.primary_instruction_key
          distinct in
      let hooks_fit = validate_hooks_iff contract e.cpi_hooks keys distinct in
      let are_named = require_names_iff e.primary.accounts action.required_optional_accounts in
      let is_composed = delegated_if_iff keys e.primary e.cpi_hooks in
      (
        λ h.
            let (kind_ok, h1) = by_kind.0 h in
            let (primary_ok, h2) = by_primary.0 h1 in
            let (keys_ok, h3) = by_keys.0 h2 in
            let (hooks_ok, h4) = by_hooks.0 h3 in
            let (names_ok, h5) = by_names.0 h4 in
            let (composed_ok, h6) = by_composed.0 h5 in
            record {
              kind = (eq_iff e.intent.job_kind action.job_kind).0 kind_ok;
              primary = primary_fits.0 primary_ok;
              hooks = hooks_fit.0 (keys_ok, hooks_ok);
              named = are_named.0 names_ok;
              composed = is_composed.0 composed_ok;
              parity = (compare_parity_iff e).0 h6;
            },
        λ v.
            let (keys_ok, hooks_ok) = hooks_fit.1 v.hooks in
            let last =
              by_composed.1 (is_composed.1 v.composed, (compare_parity_iff e).1 v.parity) in
            by_kind.1 (
              (eq_iff e.intent.job_kind action.job_kind).1 v.kind,
              by_primary.1 (
                primary_fits.1 v.primary,
                by_keys.1 (keys_ok, by_hooks.1 (hooks_ok, by_names.1 (are_named.1 v.named, last))),
              ),
            ),
      )
