-- ===== src/Adapter/Codec/Encoding/Success.antt =====
-- When `encodeKeeperInstruction` succeeds, and what its data then are.
use dusk_keepers.Prelude.{
  ◌≡◌, refl, ap, sym, subst, ◌∙◌, ◌↔◌, some, ◌++◌, String, length, take, drop, ok, ◌>>=◌, >>=-eq-ok,
}
use dusk_keepers.Adapter.Bytes.{Bytes, take-length-append, drop-length-append}
use dusk_keepers.Adapter.Contract.{InstructionContract}
use dusk_keepers.Adapter.Codec.{KeeperInstructionArguments, key_of, key_text, writes, write_all}
use dusk_keepers.Adapter.Codec.RoundTrip.{decode_payload, decode_payload-write_all}
use dusk_keepers.Adapter.Codec.Encoding.{pinned_discriminator, encode_keeper_instruction}
use dusk_keepers.Adapter.Codec.Encoding.Range.{
  AllInRange, write_all-AllInRange, AllInRange-write_all,
}
use dusk_keepers.Adapter.Codec.Encoding.Pinned.{
  Pins, Pins-length, pinned_discriminator-Pins, Pins-pinned_discriminator,
}

module _ (sha256 : String → Bytes) where
  pub encode_keeper_instruction-parts :
      (contract : InstructionContract) (request : KeeperInstructionArguments) (out : Bytes)
      → encode_keeper_instruction sha256 contract request ≡ ok out
      → (d payload : Bytes) × Pins sha256 contract (key_text (key_of request)) d
        × (write_all (writes request) ≡ ok payload)
        × (d ++ payload ≡ out)
  unfolding encode_keeper_instruction
  encode_keeper_instruction-parts contract request out h =
      let key = key_text (key_of request) in
      let run = write_all (writes request) in
      let pinned = pinned_discriminator sha256 contract key in
      let (d, e, h1) = >>=-eq-ok pinned (λ c. run >>= λ p. ok (c ++ p)) h in
      let (payload, f, h2) = >>=-eq-ok run (λ p. ok (d ++ p)) h1 in
      (d, payload, pinned_discriminator-Pins sha256 contract key d e, f, cc)

  -- A request is encoded exactly when the contract pins a discriminator for its key and every
  -- argument is in the range of its field.
  pub encode_keeper_instruction_iff :
      (contract : InstructionContract) (request : KeeperInstructionArguments)
      → ((out : Bytes) × (encode_keeper_instruction sha256 contract request ≡ ok out)) ↔ (
          ((d : Bytes) × Pins sha256 contract (key_text (key_of request)) d)
          × AllInRange (writes request))
  unfolding encode_keeper_instruction
  encode_keeper_instruction_iff contract request = (
    λ (out, h).
        let (d, payload, pinned, written, e) =
          encode_keeper_instruction-parts contract request out h in
        ((d, pinned), write_all-AllInRange (writes request) payload written),
    λ ((d, pinned), all).
        let (payload, written) = AllInRange-write_all (writes request) all in
        (
          d ++ payload,
          rw
              (
                Pins-pinned_discriminator sha256 contract (key_text (key_of request)) d pinned,
                written,
              )
              refl,
        ),
  )

  -- The data of an encoded request are the eight bytes that the contract pins for its key, then a
  -- payload from which the request is read back by its key alone.
  pub encode_keeper_instruction-decode_payload :
      (contract : InstructionContract) (request : KeeperInstructionArguments) (out : Bytes)
      → encode_keeper_instruction sha256 contract request ≡ ok out
      → Pins sha256 contract (key_text (key_of request)) (take 8 out)
        × (decode_payload (key_of request) (drop 8 out) ≡ some request)
  encode_keeper_instruction-decode_payload contract request out h =
      let (d, payload, pinned, written, e) =
        encode_keeper_instruction-parts contract request out h in
      let sized = Pins-length sha256 contract (key_text (key_of request)) d pinned in
      let front : take 8 out ≡ d =
        subst (λ n. take n out ≡ d) sized
          (ap (take (length d)) (sym e) ∙ take-length-append d payload) in
      let back : drop 8 out ≡ payload =
        subst (λ n. drop n out ≡ payload) sized
          (ap (drop (length d)) (sym e) ∙ drop-length-append d payload) in
      (
        subst (Pins sha256 contract (key_text (key_of request))) (sym front) pinned,
        ap (decode_payload (key_of request)) back
            ∙ decode_payload-write_all request payload written,
      )
