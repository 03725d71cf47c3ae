-- ===== src/Adapter/Codec/Encoding/Pinned.antt =====
-- The discriminators that a contract pins: when the checks of `encodeKeeperInstruction` pass.
use dusk_keepers.Prelude.{
  ℕ, ◌*◌, ◌≡◌, refl, ap, sym, ◌∙◌, ◌↔◌, true, some, String, length, ◌==◌, ==_iff, ok, ◌>>=◌, ◌>>◌,
  present, >>=-eq-ok, guard, arith, guard-eq-ok, present-eq-ok,
}
use dusk_keepers.Adapter.Bytes.{Bytes, eq_bytes, eq_bytes_iff}
use dusk_keepers.Adapter.Hex.{codes, hex_bytes, length-hex_bytes}
use dusk_keepers.Adapter.Contract.{InstructionContract, InstructionSpecification}
use dusk_keepers.Adapter.Codec.{InstructionEncodingErrorCode, contract_mismatch}
use dusk_keepers.Adapter.Codec.Encoding.{
  split_at_colons, find_specification, has_identity, exact_hex, anchor_discriminator,
  checked_discriminator, pinned_discriminator,
}

exact_hex_iff :
    (value : String) (count : ℕ) (thrown : InstructionEncodingErrorCode) (bs : Bytes)
    → (exact_hex value count thrown ≡ ok bs)
      ↔ ((hex_bytes (codes value) ≡ some bs) × (length bs ≡ count))
unfolding exact_hex
exact_hex_iff value count thrown bs = (
  λ h.
      let (found, e, h1) =
        >>=-eq-ok (present (hex_bytes (codes value)) thrown)
          (λ bytes. guard (length (codes value) == count * 2) thrown >> ok bytes) h in
      let (u, g, h2) =
        >>=-eq-ok (guard (length (codes value) == count * 2) thrown) (λ u. ok found) h1 in
      let at_hand = present-eq-ok (hex_bytes (codes value)) thrown e in
      let sized =
        (==_iff (length (codes value)) (count * 2)).0
          (guard-eq-ok (length (codes value) == count * 2) thrown g) in
      let same : found ≡ bs = cc in
      (
        at_hand ∙ ap some same,
        omega (arith, sized, length-hex_bytes (codes value) found at_hand, ap length same),
      ),
  λ (e, sized).
      let fits = length-hex_bytes (codes value) bs e in
      let test : (length (codes value) == count * 2) ≡ true = ground (arith, fits, sized) in
      rw (e, test) refl,
)

module _ (sha256 : String → Bytes) where
  -- An entry states the key's program and name, and pins eight bytes that are those of Anchor's hash.
  pub PinsEntry : String → InstructionSpecification → Bytes → Type 0
  PinsEntry key entry discriminator =
      (has_identity (split_at_colons key) entry ≡ true)
      × (hex_bytes (codes entry.discriminator_hex) ≡ some discriminator)
      × (length discriminator ≡ 8)
      × (discriminator ≡ anchor_discriminator sha256 entry)

  -- The first entry of the contract with the key does.
  pub Pins : InstructionContract → String → Bytes → Type 0
  Pins contract key discriminator =
      (entry : InstructionSpecification) × (find_specification contract.instructions key
        ≡ some entry)
      × PinsEntry key entry discriminator

  checked-PinsEntry :
      (key : String) (entry : InstructionSpecification) (bs : Bytes)
      → checked_discriminator sha256 key entry ≡ ok bs
      → PinsEntry key entry bs
  unfolding checked_discriminator PinsEntry
  checked-PinsEntry key entry bs h =
      let identity = has_identity (split_at_colons key) entry in
      let anchor = anchor_discriminator sha256 entry in
      let hex = exact_hex entry.discriminator_hex 8 contract_mismatch in
      let (u, g, h1) =
        >>=-eq-ok (guard identity contract_mismatch)
          (λ u. hex >>= λ d. guard (eq_bytes d anchor) contract_mismatch >> ok d) h in
      let (d, e, h2) =
        >>=-eq-ok hex (λ d. guard (eq_bytes d anchor) contract_mismatch >> ok d) h1 in
      let (v, f, h3) = >>=-eq-ok (guard (eq_bytes d anchor) contract_mismatch) (λ v. ok d) h2 in
      let same : d ≡ bs = cc in
      let (text, sized) = (exact_hex_iff entry.discriminator_hex 8 contract_mismatch d).0 e in
      let anchored =
        (eq_bytes_iff d anchor).0 (guard-eq-ok (eq_bytes d anchor) contract_mismatch f) in
      (
        guard-eq-ok identity contract_mismatch g,
        text ∙ ap some same,
        ap length (sym same) ∙ sized,
        sym same ∙ anchored,
      )

  PinsEntry-checked :
      (key : String) (entry : InstructionSpecification) (bs : Bytes)
      → PinsEntry key entry bs
      → checked_discriminator sha256 key entry ≡ ok bs
  unfolding checked_discriminator PinsEntry
  PinsEntry-checked key entry bs (identity, text, sized, anchored) =
      let e = (exact_hex_iff entry.discriminator_hex 8 contract_mismatch bs).1 (text, sized) in
      let f = (eq_bytes_iff bs (anchor_discriminator sha256 entry)).1 anchored in
      rw (identity, e, f) refl

  pub pinned_discriminator-Pins :
      (contract : InstructionContract) (key : String) (bs : Bytes)
      → pinned_discriminator sha256 contract key ≡ ok bs
      → Pins contract key bs
  unfolding pinned_discriminator Pins
  pinned_discriminator-Pins contract key bs h =
      let found = present (find_specification contract.instructions key) contract_mismatch in
      let (entry, e, h1) = >>=-eq-ok found (checked_discriminator sha256 key) h in
      (
        entry,
        present-eq-ok (find_specification contract.instructions key) contract_mismatch e,
        checked-PinsEntry key entry bs h1,
      )

  pub Pins-pinned_discriminator :
      (contract : InstructionContract) (key : String) (bs : Bytes)
      → Pins contract key bs
      → pinned_discriminator sha256 contract key ≡ ok bs
  unfolding pinned_discriminator Pins
  Pins-pinned_discriminator contract key bs (entry, found, pinned) =
      rw found (PinsEntry-checked key entry bs pinned)

  pub Pins-length :
      (contract : InstructionContract) (key : String) (bs : Bytes)
      → Pins contract key bs
      → length bs ≡ 8
  unfolding Pins PinsEntry
  Pins-length contract key bs (entry, found, (identity, text, sized, anchored)) = sized
