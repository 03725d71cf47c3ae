-- ===== src/Adapter/Envelope/Valid/Instruction.antt =====
-- The instruction envelopes that `#validateExpectedInstruction` accepts, and the hooks.
use dusk_keepers.Prelude.{
  Bool-cases, inl, inr, bind_then_iff, ◌≡◌, ◌↔◌, refl, sym, ap, subst, ◌∙◌, Bool, true, false, ◌&&◌,
  some, List, [], ◌∷◌, ◌++◌, String, str_eq, eq_iff, length, take, ltb, ok, ◌>>=◌, ◌>>◌, guard,
  refuse, present, check_then_iff, guard_then_iff, refuse_then_iff, present_then_iff, arith,
  take-append-drop, drop,
}
use dusk_keepers.Adapter.Bytes.{Bytes, eq_bytes, eq_bytes_iff, take-length-append}
use dusk_keepers.Adapter.Contract.{InstructionSpecification, InstructionContract}
use dusk_keepers.Adapter.Codec.Encoding.{find_specification}
use dusk_keepers.Adapter.Envelope.Types.{
  instruction_mismatch, program_id_mismatch, discriminator_mismatch, cpi_hook_mismatch, Check,
  ResolvedAccountMeta, InstructionEnvelope, require_pubkey, decode_hex,
}
use dusk_keepers.Adapter.Envelope.Accounts.{validate_accounts}
use dusk_keepers.Adapter.Envelope.Accounts.Selection.{
  Selects, HasDistinctNames, validate_accounts_iff,
}
use dusk_keepers.Adapter.Envelope.{
  require_pubkeys, validate_specified, validate_expected_instruction, have_keys, validate_hooks,
}

pub ArePubkeys : List ResolvedAccountMeta → Type 0
ArePubkeys [] = Unit {0}
ArePubkeys (a ∷ rest) = (require_pubkey a.address ≡ ok tt) × ArePubkeys rest

unfoldable pub AreDistinct : List InstructionSpecification → Type 0
AreDistinct [] = Unit {0}
AreDistinct (s ∷ rest) = HasDistinctNames s.accounts × AreDistinct rest

-- No instruction of the contract declares one account name twice.
unfoldable pub HasDistinctAccounts : InstructionContract → Type 0
HasDistinctAccounts contract = AreDistinct contract.instructions

-- The data starts with the discriminator of the specification.
pub StartsWith : String → String → Type 0
StartsWith data_hex discriminator_hex =
    (discriminator : Bytes) × (tail : Bytes) × (decode_hex data_hex ≡ ok (discriminator ++ tail))
    × (decode_hex discriminator_hex ≡ ok discriminator)

-- An instruction envelope is the specification's, from its key to its accounts.
pub record FitsSpecification (s : InstructionSpecification) (e : InstructionEnvelope) : Type 0 where
  pub program : e.program ≡ s.program
  pub name : e.instruction_name ≡ s.instruction_name
  pub program_id : e.program_id ≡ s.program_id
  pub pubkey : require_pubkey e.program_id ≡ ok tt
  pub payload : StartsWith e.data_hex s.discriminator_hex
  pub accounts : Selects s.program_id s.accounts e.accounts
  pub remaining : ArePubkeys e.remaining_accounts

pub FitsKey : InstructionContract → String → InstructionEnvelope → Type 0
FitsKey contract key e =
    (e.specification_key ≡ key)
    × (s : InstructionSpecification) × (find_specification contract.instructions key ≡ some s)
    × FitsSpecification s e

-- The hooks are the instructions of the keys, one each and in order, with no further accounts.
pub FitHooks : InstructionContract → List String → List InstructionEnvelope → Type 0
FitHooks contract [] hooks = hooks ≡ []
FitHooks contract (key ∷ keys) [] = ⊥
FitHooks contract (key ∷ keys) (hook ∷ hooks) =
    (FitsKey contract key hook × (hook.remaining_accounts ≡ [])) × FitHooks contract keys hooks

require_pubkeys_iff :
    (accounts : List ResolvedAccountMeta) → (require_pubkeys accounts ≡ ok tt) ↔ ArePubkeys accounts
unfolding require_pubkeys ArePubkeys
require_pubkeys_iff [] = (λ h. tt, λ h. refl)
require_pubkeys_iff (a ∷ rest) = ground (
  arith,
  check_then_iff (require_pubkey a.address) (require_pubkeys rest) {b = tt},
  require_pubkeys_iff rest,
)

starts_iff :
    (bytes discriminator : Bytes)
    → (eq_bytes (take (length discriminator) bytes) discriminator ≡ true)
      ↔ ((tail : Bytes) × (bytes ≡ discriminator ++ tail))
starts_iff bytes discriminator = (
  λ h.
      let start = (eq_bytes_iff (take (length discriminator) bytes) discriminator).0 h in
      (
        drop (length discriminator) bytes,
        sym (take-append-drop (length discriminator) bytes)
            ∙ ap (λ d. d ++ drop (length discriminator) bytes) start,
      ),
  λ (tail, e).
      (eq_bytes_iff (take (length discriminator) bytes) discriminator).1
        (ap (take (length discriminator)) e ∙ take-length-append discriminator tail),
)

-- The two texts are decoded, and the first starts with the second, before the rest is checked.
abbrev after_start : String → String → Check → Check
after_start data_hex discriminator_hex rest = do
  bytes ← decode_hex data_hex
  discriminator ← decode_hex discriminator_hex
  guard (eq_bytes (take (length discriminator) bytes) discriminator) discriminator_mismatch
  rest

after_start_iff :
    (data_hex discriminator_hex : String) (rest : Check)
    → (after_start data_hex discriminator_hex rest ≡ ok tt)
      ↔ (StartsWith data_hex discriminator_hex × (rest ≡ ok tt))
unfolding StartsWith
after_start_iff data_hex discriminator_hex rest =
    let starts : Bytes → Bytes → Bool =
      λ bytes discriminator. eq_bytes (take (length discriminator) bytes) discriminator in
    let on_discriminator : Bytes → Bytes → Check =
      λ bytes discriminator. guard (starts bytes discriminator) discriminator_mismatch >> rest in
    let on_bytes : Bytes → Check =
      λ bytes. decode_hex discriminator_hex >>= on_discriminator bytes in
    let by_bytes = bind_then_iff (decode_hex data_hex) on_bytes {b = tt} in
    let by_discriminator = λ (bytes : Bytes).
      bind_then_iff (decode_hex discriminator_hex) (on_discriminator bytes) {b = tt} in
    let by_start = λ (bytes discriminator : Bytes).
      guard_then_iff (starts bytes discriminator) discriminator_mismatch rest {b = tt} in
    (
      λ h.
          let (bytes, decoded, h1) = by_bytes.0 h in
          let (discriminator, pinned, h2) = (by_discriminator bytes).0 h1 in
          let (does_start, h3) = (by_start bytes discriminator).0 h2 in
          let (tail, split) = (starts_iff bytes discriminator).0 does_start in
          ((discriminator, tail, decoded ∙ ap ok split, pinned), h3),
      λ ((discriminator, tail, decoded, pinned), h).
          let bytes = discriminator ++ tail in
          let does_start = (starts_iff bytes discriminator).1 (tail, refl) in
          by_bytes.1 (
            bytes,
            decoded,
            (by_discriminator bytes).1
                (discriminator, pinned, (by_start bytes discriminator).1 (does_start, h)),
          ),
    )

-- What the specification asks of an envelope is what its checks test.
validate_specified_iff :
    (s : InstructionSpecification) (e : InstructionEnvelope)
    → HasDistinctNames s.accounts
    → (validate_specified s e ≡ ok tt) ↔ FitsSpecification s e
unfolding validate_specified
validate_specified_iff s e distinct =
    let names = str_eq e.program s.program && str_eq e.instruction_name s.instruction_name in
    let id = str_eq e.program_id s.program_id in
    let accounts = validate_accounts s.program_id s.accounts e.accounts in
    let last = require_pubkeys e.remaining_accounts in
    let on_key = after_start e.data_hex s.discriminator_hex (accounts >> last) in
    let on_id = require_pubkey e.program_id >> on_key in
    let on_names = guard id program_id_mismatch >> on_id in
    let by_names = guard_then_iff names instruction_mismatch on_names {b = tt} in
    let by_id = guard_then_iff id program_id_mismatch on_id {b = tt} in
    let by_key = check_then_iff (require_pubkey e.program_id) on_key {b = tt} in
    let by_start = after_start_iff e.data_hex s.discriminator_hex (accounts >> last) in
    let by_accounts = check_then_iff accounts last {b = tt} in
    let selects = validate_accounts_iff s.program_id s.accounts e.accounts distinct in
    let keys = require_pubkeys_iff e.remaining_accounts in
    let same_program = eq_iff e.program s.program in
    let same_name = eq_iff e.instruction_name s.instruction_name in
    (
      λ h.
          let (names_fit, h1) = by_names.0 h in
          let (id_fits, h2) = by_id.0 h1 in
          let (key, h3) = by_key.0 h2 in
          let (starts, h4) = by_start.0 h3 in
          let (accounts_fit, remaining_fit) = by_accounts.0 h4 in
          record {
            program = ground (arith, names_fit, same_program);
            name = ground (arith, names_fit, same_name);
            program_id = (eq_iff e.program_id s.program_id).0 id_fits;
            pubkey = key;
            payload = starts;
            accounts = selects.0 accounts_fit;
            remaining = keys.0 remaining_fit;
          },
      λ f.
          let checked = by_accounts.1 (selects.1 f.accounts, keys.1 f.remaining) in
          by_names.1 (
            rw (same_program.1 f.program, same_name.1 f.name) refl,
            by_id.1 (
              (eq_iff e.program_id s.program_id).1 f.program_id,
              by_key.1 (f.pubkey, by_start.1 (f.payload, checked)),
            ),
          ),
    )

find_specification-distinct :
    (specifications : List InstructionSpecification) (key : String) (s : InstructionSpecification)
    → AreDistinct specifications
    → find_specification specifications key ≡ some s
    → HasDistinctNames s.accounts
unfolding find_specification AreDistinct
find_specification-distinct [] key s distinct found = cc
find_specification-distinct (x ∷ rest) key s (here, others) found =
    elim (Bool-cases (str_eq x.key key)) [
      | inl same ↦
          let is_x : x ≡ s = ground (arith, same, found) in
          subst (λ y. HasDistinctNames y.accounts) is_x here
      | inr other ↦ find_specification-distinct rest key s others (ground (arith, other, found))
    ]

pub validate_expected_instruction_iff :
    (contract : InstructionContract) (e : InstructionEnvelope) (key : String)
    → HasDistinctAccounts contract
    → (validate_expected_instruction contract e key ≡ ok tt) ↔ FitsKey contract key e
unfolding validate_expected_instruction HasDistinctAccounts FitsKey
validate_expected_instruction_iff contract e key distinct =
    let found = find_specification contract.instructions key in
    let by_name = λ (s : InstructionSpecification).
      find_specification-distinct contract.instructions key s distinct in
    let on_found : InstructionSpecification → Check = λ s. validate_specified s e in
    let by_key =
      guard_then_iff (str_eq e.specification_key key) instruction_mismatch
        (present found instruction_mismatch >>= on_found) {b = tt} in
    let by_found = present_then_iff found instruction_mismatch on_found {b = tt} in
    (
      λ h.
          let (keyed, h1) = by_key.0 h in
          let (s, is_found, h2) = by_found.0 h1 in
          (
            (eq_iff e.specification_key key).0 keyed,
            s,
            is_found,
            (validate_specified_iff s e (by_name s is_found)).0 h2,
          ),
      λ (keyed, s, is_found, fits). by_key.1 (
        (eq_iff e.specification_key key).1 keyed,
        by_found.1 (s, is_found, (validate_specified_iff s e (by_name s is_found)).1 fits),
      ),
    )

no_remaining_iff :
    (accounts : List ResolvedAccountMeta) → (ltb 0 (length accounts) ≡ false) ↔ (accounts ≡ [])
no_remaining_iff [] = (λ h. refl, λ h. refl)
no_remaining_iff (a ∷ rest) = (λ h. absurd (ground arith), λ h. cc)

-- The test of the keys and the loop over the hooks, together.
pub validate_hooks_iff :
    (contract : InstructionContract) (hooks : List InstructionEnvelope) (keys : List String)
    → HasDistinctAccounts contract
    → ((have_keys hooks keys ≡ true) × (validate_hooks contract hooks keys ≡ ok tt))
      ↔ FitHooks contract keys hooks
unfolding validate_hooks have_keys FitHooks FitsKey
validate_hooks_iff contract [] [] distinct = (λ h. refl, λ h. (refl, refl))
validate_hooks_iff contract [] (key ∷ keys) distinct = (λ (h, checks). cc, λ h. absurd h)
validate_hooks_iff contract (hook ∷ hooks) [] distinct = (λ (h, checks). cc, λ h. cc)
validate_hooks_iff contract (hook ∷ hooks) (key ∷ keys) distinct =
    let rest = validate_hooks contract hooks keys in
    let alone = ltb 0 (length hook.remaining_accounts) in
    let on_hook = refuse alone cpi_hook_mismatch >> rest in
    let expected = validate_expected_instruction contract hook key in
    let by_hook = check_then_iff expected on_hook {b = tt} in
    let by_alone = refuse_then_iff alone cpi_hook_mismatch rest {b = tt} in
    let fits = validate_expected_instruction_iff contract hook key distinct in
    let none_left = no_remaining_iff hook.remaining_accounts in
    let hooks_fit = validate_hooks_iff contract hooks keys distinct in
    let same_key = str_eq hook.specification_key key in
    (
      λ (h, checks).
          let (hook_ok, h1) = by_hook.0 checks in
          let (alone_ok, h2) = by_alone.0 h1 in
          ((fits.0 hook_ok, none_left.0 alone_ok), hooks_fit.0 (ground (arith, h), h2)),
      λ ((hook_fits, no_more), rest_fit).
          let (keyed, rest_ok) = hooks_fit.1 rest_fit in
          (
            rw ((eq_iff hook.specification_key key).1 hook_fits.0, keyed) refl,
            by_hook.1 (fits.1 hook_fits, by_alone.1 (none_left.1 no_more, rest_ok)),
          ),
    )
