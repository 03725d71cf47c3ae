-- ===== src/Adapter/Envelope/Accounts/Selection.antt =====
-- The accounts that `#validateAccounts` accepts are a selection of the specification's, in its order.
use dusk_keepers.Prelude.{
  ◌≡◌, ◌≢◌, ◌⊎◌, ◌↔◌, inl, inr, refl, sym, subst, Bool, true, false, Option, none, some, List, [],
  ◌∷◌, String, str_eq, eq_iff, ok, ◌>>◌, guard, Bool-cases, arith, check_then_iff, guard_then_iff,
  ◌&&◌, guard-eq-ok,
}
use dusk_keepers.Adapter.Contract.{AccountSpecification}
use dusk_keepers.Adapter.Envelope.Types.{
  ResolvedAccountMeta, require_pubkey, account_flags_mismatch, fixed_address_mismatch,
}
use dusk_keepers.Adapter.Envelope.Accounts.{
  eq_Bool, fixed_address_of, at_fixed_address, check_account, validate_accounts,
}

-- Where an address is fixed, and not empty, the account is there.
abbrev pub IsAt : Option String → String → Type 0
IsAt none address = Unit {0}
IsAt (some fixed) address = (fixed ≡ "") ⊎ (fixed ≡ address)

-- No other specification has the name.
unfoldable pub IsFresh : String → List AccountSpecification → Type 0
IsFresh name [] = Unit {0}
IsFresh name (e ∷ es) = (e.name ≢ name) × IsFresh name es

unfoldable pub HasDistinctNames : List AccountSpecification → Type 0
HasDistinctNames [] = Unit {0}
HasDistinctNames (e ∷ es) = IsFresh e.name es × HasDistinctNames es

pub eq_Bool_iff : (a b : Bool) → (eq_Bool a b ≡ true) ↔ (a ≡ b)
eq_Bool_iff true b = ground arith
eq_Bool_iff false b = ground arith

module _ (program_id : String) where
  -- An account has the name, the flags and the fixed address of its specification, and a public key.
  pub record Fits (e : AccountSpecification) (a : ResolvedAccountMeta) : Type 0 where
    pub name_fits : a.name ≡ e.name
    pub pubkey : require_pubkey a.address ≡ ok tt
    pub writable_fits : a.writable ≡ e.writable
    pub signer_fits : a.signer ≡ e.signer
    pub fixed : IsAt (fixed_address_of e program_id) a.address

  -- Each account fits a specification of its own, in the same order; what is left out is optional.
  abbrev pub Selects : List AccountSpecification → List ResolvedAccountMeta → Type 0
  Selects [] accounts = accounts ≡ []
  Selects (e ∷ es) [] = (e.optional ≡ true) × Selects es []
  Selects (e ∷ es) (a ∷ rest) =
      (Fits e a × Selects es rest) ⊎ ((e.optional ≡ true) × Selects es (a ∷ rest))

  at_fixed_address_iff :
      (o : Option String) (address : String) → (at_fixed_address o address ≡ true) ↔ IsAt o address
  at_fixed_address_iff none address = (λ h. tt, λ h. refl)
  at_fixed_address_iff (some fixed) address = ground (arith, eq_iff fixed "", eq_iff fixed address)

  check_account_iff :
      (e : AccountSpecification) (a : ResolvedAccountMeta)
      → a.name ≡ e.name
      → (check_account program_id e a ≡ ok tt) ↔ Fits e a
  unfolding check_account
  check_account_iff e a named =
      let flags = eq_Bool a.writable e.writable && eq_Bool a.signer e.signer in
      let place = at_fixed_address (fixed_address_of e program_id) a.address in
      let last = guard place fixed_address_mismatch in
      let flagged = guard_then_iff flags account_flags_mismatch last {b = tt} in
      let keyed =
        check_then_iff (require_pubkey a.address) (guard flags account_flags_mismatch >> last)
          {b = tt} in
      let at = at_fixed_address_iff (fixed_address_of e program_id) a.address in
      (
        λ h.
            let (key, h1) = keyed.0 h in
            let (flags_fit, h2) = flagged.0 h1 in
            record {
              name_fits = named;
              pubkey = key;
              writable_fits = (eq_Bool_iff a.writable e.writable).0 (ground (arith, flags_fit));
              signer_fits = (eq_Bool_iff a.signer e.signer).0 (ground (arith, flags_fit));
              fixed = at.0 (guard-eq-ok place fixed_address_mismatch h2);
            },
        λ f. keyed.1 (
          f.pubkey,
          flagged.1 (
            rw
                (
                  (eq_Bool_iff a.writable e.writable).1 f.writable_fits,
                  (eq_Bool_iff a.signer e.signer).1 f.signer_fits,
                )
                refl,
            rw (at.1 f.fixed) refl,
          ),
        ),
      )

  validate_accounts-Selects :
      (es : List AccountSpecification) (given : List ResolvedAccountMeta)
      → validate_accounts program_id es given ≡ ok tt
      → Selects es given
  unfolding validate_accounts
  validate_accounts-Selects [] [] h = refl
  validate_accounts-Selects [] (a ∷ more) h = cc
  validate_accounts-Selects (e ∷ es) [] h = elim (Bool-cases e.optional) [
    | inl o ↦ (o, validate_accounts-Selects es [] (ground (arith, o, h)))
    | inr o ↦ absurd (ground (arith, o, h))
  ]
  validate_accounts-Selects (e ∷ es) (a ∷ more) h = elim (Bool-cases (str_eq a.name e.name)) [
    | inl same ↦
        let steps =
          check_then_iff (check_account program_id e a) (validate_accounts program_id es more)
            {b = tt} in
        let (fits, rest) = steps.0 (ground (arith, same, h)) in
        inl (
          (check_account_iff e a ((eq_iff a.name e.name).0 same)).0 fits,
          validate_accounts-Selects es more rest,
        )
    | inr other ↦ elim (Bool-cases e.optional) [
      | inl o ↦ inr (o, validate_accounts-Selects es (a ∷ more) (ground (arith, other, o, h)))
      | inr o ↦ absurd (ground (arith, other, o, h))
    ]
  ]

  selected_named :
      (es : List AccountSpecification) (a : ResolvedAccountMeta) (more : List ResolvedAccountMeta)
      → IsFresh a.name es
      → Selects es (a ∷ more)
      → ⊥
  unfolding IsFresh
  selected_named [] a more f h = cc
  selected_named (e ∷ es) a more (named, f) (inl (fits, rest)) = named (sym fits.name_fits)
  selected_named (e ∷ es) a more (named, f) (inr (o, rest)) = selected_named es a more f rest

  Selects-validate_accounts :
      (es : List AccountSpecification) (given : List ResolvedAccountMeta)
      → HasDistinctNames es
      → Selects es given
      → validate_accounts program_id es given ≡ ok tt
  unfolding validate_accounts HasDistinctNames
  Selects-validate_accounts [] [] d h = refl
  Selects-validate_accounts [] (a ∷ more) d h = cc
  Selects-validate_accounts (e ∷ es) [] (f, d) (o, rest) =
      rw o (Selects-validate_accounts es [] d rest)
  Selects-validate_accounts (e ∷ es) (a ∷ more) (f, d) (inl (fits, rest)) =
      let same = (eq_iff a.name e.name).1 fits.name_fits in
      let passed = (check_account_iff e a fits.name_fits).1 fits in
      ground (arith, same, passed, Selects-validate_accounts es more d rest)
  Selects-validate_accounts (e ∷ es) (a ∷ more) (f, d) (inr (o, rest)) =
      elim (Bool-cases (str_eq a.name e.name)) [
        | inl same ↦
            let named = (eq_iff a.name e.name).0 same in
            absurd (selected_named es a more (subst (λ n. IsFresh n es) (sym named) f) rest)
        | inr other ↦ ground (arith, other, o, Selects-validate_accounts es (a ∷ more) d rest)
      ]

  -- Where no two specifications share a name, the greedy loop accepts exactly the selections: the
  -- accounts in the order of their specifications, with none left out but optional ones, each a public
  -- key with the flags and the fixed address that the specification states.
  pub validate_accounts_iff :
      (es : List AccountSpecification) (accounts : List ResolvedAccountMeta)
      → HasDistinctNames es
      → (validate_accounts program_id es accounts ≡ ok tt) ↔ Selects es accounts
  validate_accounts_iff es accounts d =
      (validate_accounts-Selects es accounts, Selects-validate_accounts es accounts d)
