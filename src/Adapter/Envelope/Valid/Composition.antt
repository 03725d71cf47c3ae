-- ===== src/Adapter/Envelope/Valid/Composition.antt =====
-- The delegated closes that `#validateDelegatedComposition` accepts.
use dusk_keepers.Prelude.{
  ℕ, subst, ◌≡◌, ◌↔◌, refl, sym, ap, ◌∙◌, true, ◌&&◌, Option, none, some, List, [], ◌∷◌, ◌++◌,
  String, eq_iff, length, ◌==◌, ==_iff, ok, ◌>>=◌, ◌>>◌, guard, guard_then_iff, bind_then_iff,
  arith, guard-eq-ok,
}
use dusk_keepers.Adapter.Bytes.{Bytes, eq_bytes, eq_bytes_iff}
use dusk_keepers.Adapter.Envelope.Types.{
  delegated_hook_data_mismatch, remaining_accounts_mismatch, fixed_address_mismatch, Check,
  ResolvedAccountMeta, InstructionEnvelope, decode_hex,
}
use dusk_keepers.Adapter.Envelope.Accounts.Selection.{eq_Bool_iff}
use dusk_keepers.Adapter.Envelope.Delegated.{DelegatedCpiPayload, decode_delegated_cpi_payload}
use dusk_keepers.Adapter.Envelope.{
  same_account, same_accounts, find_account, has_address, validate_two_hooks, compare_composition,
  validate_delegated_composition,
}

same_account_iff : (a b : ResolvedAccountMeta) → (same_account a b ≡ true) ↔ (a ≡ b)
unfolding same_account
same_account_iff a b = (
  λ h.
      let name : a.name ≡ b.name = ground (arith, h, eq_iff a.name b.name) in
      let address : a.address ≡ b.address = ground (arith, h, eq_iff a.address b.address) in
      let writable : a.writable ≡ b.writable =
        ground (arith, h, eq_Bool_iff a.writable b.writable) in
      let signer : a.signer ≡ b.signer = ground (arith, h, eq_Bool_iff a.signer b.signer) in
      λ i. record { name = name i; address = address i; writable = writable i; signer = signer i },
  λ e.
      rw
        (
          (eq_iff a.name b.name).1 (ap (λ x. x.name) e),
          (eq_iff a.address b.address).1 (ap (λ x. x.address) e),
          (eq_Bool_iff a.writable b.writable).1 (ap (λ x. x.writable) e),
          (eq_Bool_iff a.signer b.signer).1 (ap (λ x. x.signer) e),
        )
        refl,
)

same_accounts_iff : (xs ys : List ResolvedAccountMeta) → (same_accounts xs ys ≡ true) ↔ (xs ≡ ys)
unfolding same_accounts
same_accounts_iff [] [] = (λ h. refl, λ h. refl)
same_accounts_iff [] (y ∷ ys) = (λ h. cc, λ h. cc)
same_accounts_iff (x ∷ xs) [] = (λ h. cc, λ h. cc)
same_accounts_iff (x ∷ xs) (y ∷ ys) = ground (arith, same_account_iff x y, same_accounts_iff xs ys)

-- The first account of the name has the address.
pub HasAccountAt : List ResolvedAccountMeta → String → String → Type 0
HasAccountAt accounts name address =
    (a : ResolvedAccountMeta) × (find_account accounts name ≡ some a) × (a.address ≡ address)

has_address_iff :
    (o : Option ResolvedAccountMeta) (address : String)
    → (has_address o address ≡ true)
      ↔ ((a : ResolvedAccountMeta) × (o ≡ some a) × (a.address ≡ address))
has_address_iff none address = (λ h. cc, λ (a, e, h). cc)
has_address_iff (some a) address =
    (λ h. (a, refl, (eq_iff a.address address).0 h), λ (b, e, h). (eq_iff a.address address).1 (cc))

-- The payload that holds the data of two hooks and the number of accounts of the first.
abbrev payload_of : Bytes → Bytes → ℕ → DelegatedCpiPayload
payload_of before after count = record {
  before = before;
  after = after;
  before_accounts_length = count;
}

abbrev payload : Bytes → Bytes → InstructionEnvelope → DelegatedCpiPayload
payload before after first = payload_of before after (length first.accounts)

-- The primary instruction carries the accounts of both hooks, in order, and names the program of the
-- first.
pub Carries : InstructionEnvelope → InstructionEnvelope → InstructionEnvelope → Type 0
Carries primary first second =
    (primary.remaining_accounts ≡ first.accounts ++ second.accounts)
    × HasAccountAt primary.accounts "delegated_program" first.program_id

compare_composition_iff :
    (primary first second : InstructionEnvelope) (before after : Bytes)
    (embedded : DelegatedCpiPayload)
    → (compare_composition primary first second before after embedded ≡ ok tt)
      ↔ ((embedded ≡ payload before after first) × Carries primary first second)
unfolding compare_composition Carries HasAccountAt
compare_composition_iff primary first second before after embedded =
    let accounts = first.accounts ++ second.accounts in
    let found = find_account primary.accounts "delegated_program" in
    let program = has_address found first.program_id in
    let last : Check = guard program fixed_address_mismatch in
    let remaining = same_accounts accounts primary.remaining_accounts in
    let on_count : Check = guard remaining remaining_accounts_mismatch >> last in
    let count = embedded.before_accounts_length == length first.accounts in
    let on_data : Check = guard count remaining_accounts_mismatch >> on_count in
    let data_fits = eq_bytes embedded.before before && eq_bytes embedded.after after in
    let by_data = guard_then_iff data_fits delegated_hook_data_mismatch on_data {b = tt} in
    let by_count = guard_then_iff count remaining_accounts_mismatch on_count {b = tt} in
    let by_remaining = guard_then_iff remaining remaining_accounts_mismatch last {b = tt} in
    let same_before = eq_bytes_iff embedded.before before in
    let same_after = eq_bytes_iff embedded.after after in
    let same_count = ==_iff embedded.before_accounts_length (length first.accounts) in
    (
      λ h.
          let (fits, h1) = by_data.0 h in
          let (counted, h2) = by_count.0 h1 in
          let (same, h3) = by_remaining.0 h2 in
          let is_before = same_before.0 (ground (arith, fits)) in
          let is_after = same_after.0 (ground (arith, fits)) in
          (
            λ i. payload_of (is_before i) (is_after i) (same_count.0 counted i),
            (
              sym ((same_accounts_iff accounts primary.remaining_accounts).0 same),
              (has_address_iff found first.program_id).0
                  (guard-eq-ok program fixed_address_mismatch h3),
            ),
          ),
      λ (e, (same, placed)). by_data.1 (
        rw (same_before.1 (ap (λ p. p.before) e), same_after.1 (ap (λ p. p.after) e)) refl,
        by_count.1 (
          same_count.1 (ap (λ p. p.before_accounts_length) e),
          by_remaining.1 (
            (same_accounts_iff accounts primary.remaining_accounts).1 (sym same),
            rw ((has_address_iff found first.program_id).1 placed) refl,
          ),
        ),
      ),
    )

-- The data of the primary instruction embeds the data of the two hooks.
pub Delegates : InstructionEnvelope → InstructionEnvelope → InstructionEnvelope → Type 0
Delegates primary first second =
    (bytes : Bytes) × (decode_hex primary.data_hex ≡ ok bytes)
    × (before : Bytes) × (decode_hex first.data_hex ≡ ok before)
    × (after : Bytes) × (decode_hex second.data_hex ≡ ok after)
    × (decode_delegated_cpi_payload bytes ≡ ok (payload before after first))
    × Carries primary first second

validate_two_hooks_iff :
    (primary first second : InstructionEnvelope)
    → (validate_two_hooks primary first second ≡ ok tt) ↔ Delegates primary first second
unfolding validate_two_hooks Delegates
validate_two_hooks_iff primary first second =
    let compared = compare_composition primary first second in
    let on_after : Bytes → Bytes → Bytes → Check =
      λ bytes before after. decode_delegated_cpi_payload bytes >>= compared before after in
    let on_before : Bytes → Bytes → Check =
      λ bytes before. decode_hex second.data_hex >>= on_after bytes before in
    let on_bytes : Bytes → Check = λ bytes. decode_hex first.data_hex >>= on_before bytes in
    let by_primary = bind_then_iff (decode_hex primary.data_hex) on_bytes {b = tt} in
    let by_first =
      λ (bytes : Bytes). bind_then_iff (decode_hex first.data_hex) (on_before bytes) {b = tt} in
    let by_second = λ (bytes before : Bytes).
      bind_then_iff (decode_hex second.data_hex) (on_after bytes before) {b = tt} in
    let by_payload = λ (bytes before after : Bytes).
      bind_then_iff (decode_delegated_cpi_payload bytes) (compared before after) {b = tt} in
    let by_compared = compare_composition_iff primary first second in
    (
      λ h.
          let (bytes, e0, h1) = by_primary.0 h in
          let (before, e1, h2) = (by_first bytes).0 h1 in
          let (after, e2, h3) = (by_second bytes before).0 h2 in
          let (embedded, e3, h4) = (by_payload bytes before after).0 h3 in
          let (is_payload, carries) = (by_compared before after embedded).0 h4 in
          (bytes, e0, before, e1, after, e2, e3 ∙ ap ok is_payload, carries),
      λ (bytes, e0, before, e1, after, e2, e3, carries).
          let embedded = payload before after first in
          let compares = (by_compared before after embedded).1 (refl, carries) in
          by_primary.1 (
            bytes,
            e0,
            (by_first bytes).1 (
              before,
              e1,
              (by_second bytes before).1
                  (after, e2, (by_payload bytes before after).1 (embedded, e3, compares)),
            ),
          ),
    )

-- There are two hooks, and the primary instruction delegates to them.
pub IsComposed : InstructionEnvelope → List InstructionEnvelope → Type 0
IsComposed primary hooks =
    (first : InstructionEnvelope) × (second : InstructionEnvelope) × (hooks ≡ first ∷ second ∷ [])
    × Delegates primary first second

pub validate_delegated_composition_iff :
    (primary : InstructionEnvelope) (hooks : List InstructionEnvelope)
    → (validate_delegated_composition primary hooks ≡ ok tt) ↔ IsComposed primary hooks
unfolding validate_delegated_composition IsComposed
validate_delegated_composition_iff primary [] = (λ h. cc, λ (a, b, e, h). cc)
validate_delegated_composition_iff primary (x ∷ []) = (λ h. cc, λ (a, b, e, h). cc)
validate_delegated_composition_iff primary (x ∷ y ∷ []) = (
  λ h. (x, y, refl, (validate_two_hooks_iff primary x y).0 h),
  λ (a, b, e, h).
      subst (λ hooks. validate_delegated_composition primary hooks ≡ ok tt) (sym e)
        ((validate_two_hooks_iff primary a b).1 h),
)
validate_delegated_composition_iff primary (x ∷ y ∷ z ∷ more) = (λ h. cc, λ (a, b, e, h). cc)
