-- ===== src/Adapter/Envelope/Signing.antt =====
-- Which envelopes `validate` and `validateForSigning` return, and what their parity digest fixes.
use dusk_keepers.Prelude.{
  ◌≡◌, ◌↔◌, refl, sym, ap, ◌∙◌, ◌&&◌, some, String, str_eq, eq_iff, ◌==◌, ==_iff, Result, ok, err,
  ◌>>=◌, ◌>>◌, guard, present, check_then_iff, guard_then_iff, present_then_iff, bind_then_iff,
  arith,
}
use dusk_keepers.Adapter.Bytes.{Bytes}
use dusk_keepers.Adapter.Lock.{assert_live_ready}
use dusk_keepers.Adapter.Lock.Ready.{IsLiveReady, assert_live_ready_iff}
use dusk_keepers.Adapter.Contract.{ActionContract}
use dusk_keepers.Adapter.Envelope.Types.{
  revision_mismatch, instruction_mismatch, Checked, Check, JobEnvelope,
}
use dusk_keepers.Adapter.Envelope.Parity.{canonical_bytes, envelope_parity_sha256}
use dusk_keepers.Adapter.Envelope.Parity.Injective.{canonical_bytes_injective}
use dusk_keepers.Adapter.Envelope.{
  EnvelopeValidator, ValidatedJobEnvelope, SignableJobEnvelope, find_action, validate_action,
  validate, or_not_ready, validate_for_signing,
}
use dusk_keepers.Adapter.Envelope.Valid.{HasParity, IsValidFor, validate_action_iff}
use dusk_keepers.Adapter.Envelope.Valid.Instruction.{HasDistinctAccounts}

-- A step that returns nothing but a fixed value.
returns_iff :
    {A : Type 0} (check : Check) (a w : A) → ((check >> ok a) ≡ ok w) ↔ ((w ≡ a) × (check ≡ ok tt))
returns_iff (err thrown) a w = (λ h. cc, λ (e, h). cc)
returns_iff (ok u) a w = (λ h. (cc, refl), λ (e, h). cc)

or_not_ready_iff : {E : Type 0} (r : Result E (Unit {0})) → (or_not_ready r ≡ ok tt) ↔ (r ≡ ok tt)
or_not_ready_iff (err thrown) = (λ h. cc, λ h. cc)
or_not_ready_iff (ok u) = (λ h. refl, λ h. refl)

module _ (digest_hex : Bytes → String) where
  -- The digest tells the canonical bytes of the two envelopes apart.
  unfoldable pub HasNoCollision : JobEnvelope → JobEnvelope → Type 0
  HasNoCollision x y =
      (a b : Bytes)
      → canonical_bytes x ≡ ok a
      → canonical_bytes y ≡ ok b
      → digest_hex a ≡ digest_hex b
      → a ≡ b

  HasParity-canonical_bytes :
      (e : JobEnvelope)
      → HasParity digest_hex e
      → (out : Bytes) × (canonical_bytes e ≡ ok out) × (digest_hex out ≡ e.parity_sha256)
  unfolding HasParity envelope_parity_sha256
  HasParity-canonical_bytes e h =
      let hash : Bytes → Checked String = λ bytes. ok (digest_hex bytes) in
      let (out, written, same) = (bind_then_iff (canonical_bytes e) hash).0 h in (out, written, cc)

module _ (digest_hex : Bytes → String) (v : EnvelopeValidator) where
  -- Schema and revision are the supported ones, and the contract has the action, which the envelope
  -- is valid for.
  pub IsValid : JobEnvelope → Type 0
  IsValid e =
      (e.schema_version ≡ 1)
      × (e.intent.schema_version ≡ 1)
      × (e.intent.protocol_revision ≡ v.lock.revision)
      × (action : ActionContract) × (find_action v.contract.actions e.intent.action ≡ some action)
      × IsValidFor digest_hex v.contract action e

  -- Where no instruction of the contract declares an account name twice, `validate` returns exactly
  -- where the envelope is valid for the contract and the revision of the lock, and then the envelope
  -- itself.
  pub validate_iff :
      (e : JobEnvelope) (w : ValidatedJobEnvelope)
      → HasDistinctAccounts v.contract
      → (validate digest_hex v e ≡ ok w) ↔ ((w ≡ record { envelope = e }) × IsValid e)
  unfolding validate IsValid
  validate_iff e w distinct =
      let schema = e.schema_version == 1 && e.intent.schema_version == 1 in
      let revision = str_eq e.intent.protocol_revision v.lock.revision in
      let found = find_action v.contract.actions e.intent.action in
      let on_action : ActionContract → Checked ValidatedJobEnvelope =
        λ action. validate_action digest_hex v.contract action e >> ok (record { envelope = e }) in
      let on_revision = present found instruction_mismatch >>= on_action in
      let on_schema = guard revision revision_mismatch >> on_revision in
      let by_schema = guard_then_iff schema instruction_mismatch on_schema {b = w} in
      let by_revision = guard_then_iff revision revision_mismatch on_revision {b = w} in
      let by_action = present_then_iff found instruction_mismatch on_action {b = w} in
      let same_revision = eq_iff e.intent.protocol_revision v.lock.revision in
      (
        λ h.
            let (schema_ok, h1) = by_schema.0 h in
            let (revision_ok, h2) = by_revision.0 h1 in
            let (action, is_found, h3) = by_action.0 h2 in
            let checked = validate_action digest_hex v.contract action e in
            let (same, valid) = (returns_iff checked (record { envelope = e }) w).0 h3 in
            (
              same,
              (
                ground (arith, schema_ok, ==_iff e.schema_version 1),
                ground (arith, schema_ok, ==_iff e.intent.schema_version 1),
                same_revision.0 revision_ok,
                action,
                is_found,
                (validate_action_iff digest_hex v.contract action e distinct).0 valid,
              ),
            ),
        λ (same, (s1, s2, r, action, is_found, valid)).
            let checked = validate_action digest_hex v.contract action e in
            let passed = (validate_action_iff digest_hex v.contract action e distinct).1 valid in
            by_schema.1 (
              rw ((==_iff e.schema_version 1).1 s1, (==_iff e.intent.schema_version 1).1 s2) refl,
              by_revision.1 (
                same_revision.1 r,
                by_action.1 (
                  action,
                  is_found,
                  (returns_iff checked (record { envelope = e }) w).1 (same, passed),
                ),
              ),
            ),
      )

  -- Where no instruction of the contract declares an account name twice, `validateForSigning` returns
  -- exactly where the lock is ready for live use and the envelope is valid, and then the envelope
  -- itself.
  pub validate_for_signing_iff :
      (e : JobEnvelope) (w : SignableJobEnvelope)
      → HasDistinctAccounts v.contract
      → (validate_for_signing digest_hex v e ≡ ok w)
        ↔ ((w ≡ record { envelope = e }) × IsLiveReady v.lock × IsValid e)
  unfolding validate_for_signing
  validate_for_signing_iff e w distinct =
      let sign : ValidatedJobEnvelope → Checked SignableJobEnvelope =
        λ validated. ok (record { envelope = e }) in
      let ready = or_not_ready (assert_live_ready v.lock) in
      let by_ready = check_then_iff ready (validate digest_hex v e >>= sign) {b = w} in
      let by_valid = bind_then_iff (validate digest_hex v e) sign {b = w} in
      (
        λ h.
            let (ready_ok, h1) = by_ready.0 h in
            let (validated, valid, returned) = by_valid.0 h1 in
            (
              cc,
              (assert_live_ready_iff v.lock).0
                  ((or_not_ready_iff (assert_live_ready v.lock)).0 ready_ok),
              ((validate_iff e validated distinct).0 valid).1,
            ),
        λ (same, is_ready, valid).
            let validated : ValidatedJobEnvelope = record { envelope = e } in
            by_ready.1 (
              (or_not_ready_iff (assert_live_ready v.lock)).1
                  ((assert_live_ready_iff v.lock).1 is_ready),
              by_valid.1 (validated, (validate_iff e validated distinct).1 (refl, valid), cc),
            ),
      )

  -- Two valid envelopes that state the same parity digest are the same job: the same intent, the same
  -- primary instruction and the same hooks, account by account, where the digest has no collision on
  -- their canonical bytes.
  pub parity_sha256-fixes :
      (x y : JobEnvelope)
      → HasNoCollision digest_hex x y
      → IsValid x
      → IsValid y
      → x.parity_sha256 ≡ y.parity_sha256
      → (x.intent ≡ y.intent) × (x.primary ≡ y.primary) × (x.cpi_hooks ≡ y.cpi_hooks)
  unfolding IsValid HasNoCollision
  parity_sha256-fixes x y apart (sx, ix, rx, ax, fx, vx) (sy, iy, ry, ay, fy, vy) same =
      let (a, wx, dx) = HasParity-canonical_bytes digest_hex x vx.parity in
      let (b, wy, dy) = HasParity-canonical_bytes digest_hex y vy.parity in
      let bytes = apart a b wx wy (dx ∙ same ∙ sym dy) in
      canonical_bytes_injective x y b (sx ∙ sym sy) (ix ∙ sym iy) (wx ∙ ap ok bytes) wy
